-- ===== src/ByteRing/Kernel.antt =====
-- The library's ring buffers of characters against the kernel's simple ring buffers.
use davros.Base.{ℕ, ◌<◌, ◌≡◌, refl, inl, inr, some, arith, ◌==◌, Bool-cases}
use davros.Run.{ok}
use davros.RingBuffer.{
  rb_simple, RbState, byte_address, rb_increment, store, load, append_element, rb_append_simple,
  remove_element, rb_remove_simple,
}
use davros.ByteRing.{RbManagement, ByteRing, rb_add1, rb_empty, rb_full, rb_u8_put, rb_u8_get}

-- The same indexes and bytes as a simple ring buffer with elements of one byte, whose buffer begins
-- at the beginning of the array of buffer words.
abbrev pub kernel_buffer : ByteRing → RbState
kernel_buffer r = record {
  rb = record {
    rb_type = rb_simple;
    writer_index = r.rbm.tail;
    reader_index = r.rbm.head;
    length = r.rbm.length;
    size = 1;
    n_alloc = 0;
    buf = some 0;
  };
  bytes = r.buf;
}

increment-add1 : (r : RbManagement) (i : ℕ) → i < r.length → rb_increment i 1 r.length ≡ rb_add1 r i
unfolding rb_increment rb_add1
increment-add1 r i h = ground arith

address_of : (i : ℕ) → byte_address 0 1 i ≡ i
address_of i = omega arith

put_same :
    (r : ByteRing) (c : ℕ)
    → r.rbm.tail < r.rbm.length
    → rb_append_simple c (kernel_buffer r)
      ≡ ok ((rb_u8_put c r).0) (kernel_buffer ((rb_u8_put c r).1))
unfolding rb_append_simple append_element rb_u8_put rb_full store
put_same r c h = elim (Bool-cases (rb_add1 r.rbm r.rbm.tail == r.rbm.head)) [
  | inl e ↦ rw (increment-add1 r.rbm r.rbm.tail h, e) refl
  | inr e ↦ rw (increment-add1 r.rbm r.rbm.tail h, e, address_of r.rbm.tail) refl
]

get_same :
    (r : ByteRing)
    → r.rbm.head < r.rbm.length
    → rb_remove_simple (kernel_buffer r) ≡ ok ((rb_u8_get r).0) (kernel_buffer ((rb_u8_get r).1))
unfolding rb_remove_simple remove_element rb_u8_get rb_empty load
get_same r h = elim (Bool-cases (r.rbm.head == r.rbm.tail)) [
  | inl e ↦ rw e refl
  | inr e ↦ rw (e, increment-add1 r.rbm r.rbm.head h, address_of r.rbm.head) refl
]

-- If both indexes of a ring buffer of characters are in its buffer, then putting a character and
-- getting one give the same results, indexes and bytes as appending to the kernel's simple ring
-- buffer with elements of one byte and removing from it.
pub kernel_buffer_lem :
    (r : ByteRing)
    → r.rbm.head < r.rbm.length
    → r.rbm.tail < r.rbm.length
    → ((c : ℕ)
        → rb_append_simple c (kernel_buffer r)
          ≡ ok ((rb_u8_put c r).0) (kernel_buffer ((rb_u8_put c r).1)))
      × (rb_remove_simple (kernel_buffer r)
          ≡ ok ((rb_u8_get r).0) (kernel_buffer ((rb_u8_get r).1)))
kernel_buffer_lem r h t = ((λ c. put_same r c t), get_same r h)
