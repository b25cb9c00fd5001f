-- ===== src/ByteRing.antt =====
-- The ring buffers of characters of lib/h/dv-ringbuf.h.
pub mod Kernel
use davros.Base.{ℕ, ◌+◌, ◌%◌, Option, none, some, Bool, leb, ◌==◌, if◌then◌else◌, update}

pub record RbManagement : Type 0 where
  pub head : ℕ
  pub tail : ℕ
  pub length : ℕ

-- The management data together with the buffer.
pub record ByteRing : Type 0 where
  pub rbm : RbManagement
  pub buf : ℕ → ℕ

unfoldable pub rb_add1 : RbManagement → (i : ℕ) → ℕ
rb_add1 rb i = if leb rb.length (i + 1) then 0 else i + 1

unfoldable pub rb_empty : RbManagement → Bool
rb_empty rb = rb.head == rb.tail

unfoldable pub rb_full : RbManagement → Bool
rb_full rb = rb_add1 rb rb.tail == rb.head

-- The result is 1, or 0 if the character is discarded.
unfoldable pub rb_u8_put : (c : ℕ) → ByteRing → ℕ × ByteRing
rb_u8_put c r = if rb_full r.rbm then (0, r) else (
  1,
  record {
    rbm = record (r.rbm) { tail = rb_add1 r.rbm r.rbm.tail };
    buf = update r.buf r.rbm.tail (c % 256);
  },
)

-- -1 is `none`.
unfoldable pub rb_u8_get : ByteRing → Option ℕ × ByteRing
rb_u8_get r = if rb_empty r.rbm then (none, r) else (
  some (r.buf r.rbm.head),
  record r { rbm = record (r.rbm) { head = rb_add1 r.rbm r.rbm.head } },
)
