-- ===== src/RingBuffer.antt =====
-- The simple ring buffers of davros-3/kernel/h/dv-ringbuffer.h, dv-rbappendsimple.c and
-- dv-rbremovesimple.c. The array of buffer words is modelled as the bytes that it holds, in the
-- little-endian order of the supported processors.
pub mod Bytes
pub mod Queue
use davros.Base.{
  ℕ, ◌+◌, ◌-◌, ◌*◌, ◌/◌, ◌%◌, Option, none, some, ◌||◌, ltb, ◌==◌, if◌then◌else◌, update,
}
use davros.Run.{
  unimplemented, initialisation_error, object_search_failed, ringbuffer_not_allocated,
  ringbuffer_wrong_type, ringbuffer_invalid_size, Run, Cmd,
}

pub data RbType : Type 0 where
  rb_unused rb_reserved rb_simple rb_complex rb_msgqueue : RbType

-- `buf` is the index of the buffer's first word, or the null pointer. The reader's state is the
-- local one: the remote one is not implemented.
pub record RingBuffer : Type 0 where
  pub rb_type : RbType
  pub writer_index : ℕ
  pub reader_index : ℕ
  pub length : ℕ
  pub size : ℕ
  pub n_alloc : ℕ
  pub buf : Option ℕ

abbrev pub Bytes : Type 0
Bytes = ℕ → ℕ

-- A ring buffer together with the array of buffer words, by bytes.
pub record RbState : Type 0 where
  pub rb : RingBuffer
  pub bytes : Bytes

unfoldable pub rb_configure : RbType → (s l : ℕ) → Cmd RingBuffer (Unit {0})
rb_configure t s l rb = elim rb.rb_type [
  | rb_reserved ↦ elim t [
    | rb_msgqueue ↦ Run.panic unimplemented
    | other ↦ Run.ok tt (record {
      rb_type = other;
      writer_index = 0;
      reader_index = 0;
      length = l + 1;
      size = s;
      n_alloc = 0;
      buf = none;
    })
  ]
  | _ ↦ Run.panic object_search_failed
]

unfoldable pub rb_lengthen : ℕ → Cmd RingBuffer (Unit {0})
rb_lengthen l rb = elim rb.buf [
  | some b ↦ Run.panic initialisation_error
  | none ↦ Run.ok tt (record rb { length = rb.length + l })
]

unfoldable pub rb_increment : (index incr length : ℕ) → ℕ
rb_increment index incr length = let i : ℕ = index + incr in if ltb i length then i else i - length

-- Element `i` of `n` bytes of the buffer that begins at word `base`.
abbrev pub byte_address : (base n i : ℕ) → ℕ
byte_address base n i = 4 * base + n * i

unfoldable pub store : (n a v : ℕ) → Bytes → Bytes
store n a v m =
    if n == 1
    then update m a (v % 256)
    else if n == 2
    then update (update m a (v % 256)) (a + 1) (v / 256 % 256)
    else update
        (update (update (update m a (v % 256)) (a + 1) (v / 256 % 256)) (a + 2) (v / 65536 % 256))
        (a + 3) (v / 16777216 % 256)

unfoldable pub load : (n a : ℕ) → Bytes → ℕ
load n a m =
    if n == 1
    then m a
    else if n == 2
    then m a + 256 * m (a + 1)
    else m a + 256 * m (a + 1) + 65536 * m (a + 2) + 16777216 * m (a + 3)

-- The store at the writer's index and its advance, once there is known to be room.
unfoldable pub append_element : (base new_index v : ℕ) → Cmd RbState ℕ
append_element base new_index v s =
    let n = s.rb.size in
    if (n == 1) || (n == 2) || (n == 4)
    then Run.ok 1 (record s {
      rb = record (s.rb) { writer_index = new_index };
      bytes = store n (byte_address base n s.rb.writer_index) v s.bytes;
    })
    else Run.panic ringbuffer_invalid_size

-- The result is the number of elements copied.
unfoldable pub rb_append_simple : (v : ℕ) → Cmd RbState ℕ
rb_append_simple v s = elim (s.rb.buf) [
  | none ↦ Run.panic ringbuffer_not_allocated
  | some base ↦ elim (s.rb.rb_type) [
    | rb_simple ↦
        let new_index = rb_increment s.rb.writer_index 1 s.rb.length in
        if new_index == s.rb.reader_index then Run.ok 0 s else append_element base new_index v s
    | _ ↦ Run.panic ringbuffer_wrong_type
  ]
]

unfoldable pub remove_element : (base : ℕ) → Cmd RbState (Option ℕ)
remove_element base s =
    let n = s.rb.size in
    if (n == 1) || (n == 2) || (n == 4)
    then Run.ok (some (load n (byte_address base n s.rb.reader_index) s.bytes)) (record s {
      rb = record (s.rb) { reader_index = rb_increment s.rb.reader_index 1 s.rb.length };
    })
    else Run.panic ringbuffer_invalid_size

-- `none` where the source returns 0 and leaves `*out` alone, else what it writes there.
unfoldable pub rb_remove_simple : Cmd RbState (Option ℕ)
rb_remove_simple s = elim (s.rb.buf) [
  | none ↦ Run.panic ringbuffer_not_allocated
  | some base ↦ elim (s.rb.rb_type) [
    | rb_simple ↦
        if s.rb.reader_index == s.rb.writer_index then Run.ok none s else remove_element base s
    | _ ↦ Run.panic ringbuffer_wrong_type
  ]
]
