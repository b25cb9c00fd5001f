-- ===== src/RingBuffer/Queue.antt =====
-- A simple ring buffer refines a bounded queue: what it holds, appending and removing.
use davros.Base.{
  ℕ, ◌+◌, ◌%◌, ◌<◌, ◌≡◌, ◌≢◌, ◌⊎◌, inl, inr, refl, false, some, none, List, [], ◌∷◌, ◌++◌, arith,
  ◌==◌, ◌∙◌, length, Bool-cases, if◌then◌else◌,
}
use mathlib.Core.List.{head?, tail}
use davros.Run.{ok}
use davros.RingBuffer.{
  rb_simple, Bytes, RbState, byte_address, rb_increment, store, load, append_element,
  rb_append_simple, remove_element, rb_remove_simple,
}
use davros.RingBuffer.Bytes.{
  IsWidth, width_limit, load-store_self, load-store_ne, IsWidth-supported,
}

-- The elements from index `i` up to the writer's index are `q`.
abbrev pub Holds : (n base len writer : ℕ) → Bytes → (i : ℕ) → List ℕ → Type 0
Holds n base len writer m i [] = i ≡ writer
Holds n base len writer m i (v ∷ q) =
    (i ≢ writer)
    × (load n (byte_address base n i) m ≡ v)
    × Holds n base len writer m (rb_increment i 1 len) q

-- A ring buffer that is set up, with buffer `base`, and holds the elements `q`, the oldest first.
pub record IsQueue (s : RbState) (base : ℕ) (q : List ℕ) : Type 0 where
  pub buffer : s.rb.buf ≡ some base
  pub simple : s.rb.rb_type ≡ rb_simple
  pub width : IsWidth s.rb.size
  pub reader_lt : s.rb.reader_index < s.rb.length
  pub writer_lt : s.rb.writer_index < s.rb.length
  pub holds : Holds s.rb.size base s.rb.length s.rb.writer_index s.bytes s.rb.reader_index q

pub rb_increment-lt : (i len : ℕ) → i < len → rb_increment i 1 len < len
unfolding rb_increment
rb_increment-lt i len h = ground arith

-- The distance from an index to the writer's.
pub Holds-distance :
    (n base len writer : ℕ) (m : Bytes) (i : ℕ) (q : List ℕ)
    → i < len
    → writer < len
    → Holds n base len writer m i q
    → (i + length q ≡ writer) ⊎ ((i + length q ≡ writer + len) × (writer < i))
unfolding rb_increment
Holds-distance n base len writer m i [] a b h = inl (omega arith)
Holds-distance n base len writer m i (v ∷ q) a b h = ground (
  arith,
  rb_increment-lt i len a,
  Holds-distance n base len writer m (rb_increment i 1 len) q (rb_increment-lt i len a) b h.2,
)

module _ (n base len writer v : ℕ) (m : Bytes) (w : IsWidth n) (b : writer < len) where
  Holds-append :
      (i : ℕ) (q : List ℕ)
      → i < len
      → length q + 1 < len
      → Holds n base len writer m i q
      → Holds n base len
          (rb_increment writer 1 len)
          (store n (byte_address base n writer) v m)
          i
          (q ++ (v % width_limit n) ∷ [])
  unfolding rb_increment
  Holds-append i [] a room h =
      (ground arith, rw h (load-store_self n w (byte_address base n writer) v m), ground arith)
  Holds-append i (x ∷ q) a room h = (
    ground (arith, Holds-distance n base len writer m i (x ∷ q) a b h),
    load-store_ne n w base i writer v m h.0 ∙ h.1,
    Holds-append (rb_increment i 1 len) q (rb_increment-lt i len a) (omega arith) h.2,
  )

module _ {s : RbState} {base : ℕ} {q : List ℕ} (is : IsQueue s base q) where
  distance :
      (s.rb.reader_index + length q ≡ s.rb.writer_index)
      ⊎ ((s.rb.reader_index + length q ≡ s.rb.writer_index + s.rb.length)
          × (s.rb.writer_index < s.rb.reader_index))
  distance =
      Holds-distance s.rb.size base s.rb.length s.rb.writer_index s.bytes s.rb.reader_index q
        is.reader_lt is.writer_lt is.holds

  -- One place of the buffer always stays empty.
  pub length-lt : length q < s.rb.length
  length-lt = ground (arith, distance)

  next_free :
      (rb_increment s.rb.writer_index 1 s.rb.length ≡ s.rb.reader_index)
      → length q + 1 ≡ s.rb.length
  unfolding rb_increment
  next_free e = ground (arith, distance, is.writer_lt, is.reader_lt)

  next_taken :
      length q + 1 ≡ s.rb.length → rb_increment s.rb.writer_index 1 s.rb.length ≡ s.rb.reader_index
  unfolding rb_increment
  next_taken e = ground (arith, distance, is.writer_lt, is.reader_lt)

  append_run :
      (v : ℕ)
      → rb_append_simple v s ≡ (
          if rb_increment s.rb.writer_index 1 s.rb.length == s.rb.reader_index
          then ok 0 s
          else append_element base (rb_increment s.rb.writer_index 1 s.rb.length) v s)
  unfolding rb_append_simple
  append_run v = ground (arith, is.buffer, is.simple)

  -- Appending to a simple ring buffer that holds a queue with room adds the element, cut to its
  -- size, as the youngest and answers 1; on one that is full it answers 0 and changes nothing. No
  -- third case exists, and one place of the buffer always stays empty.
  pub rb_append_simple_lem :
      (v : ℕ)
      → ((length q + 1 < s.rb.length)
          × ((t : RbState) × (rb_append_simple v s ≡ ok 1 t)
              × IsQueue t base (q ++ (v % width_limit s.rb.size) ∷ [])
              × (t.rb.length ≡ s.rb.length)))
        ⊎ ((length q + 1 ≡ s.rb.length) × (rb_append_simple v s ≡ ok 0 s))
  unfolding append_element
  rb_append_simple_lem v =
      elim (Bool-cases (rb_increment s.rb.writer_index 1 s.rb.length == s.rb.reader_index)) [
        | inl full ↦ inr (next_free (ground arith), rw (append_run v, full))
        | inr room ↦
            let roomy : length q + 1 < s.rb.length = ground (arith, length-lt, next_taken) in
            inl (
              roomy,
              (
                record {
                  rb = record (s.rb) {
                    writer_index = rb_increment s.rb.writer_index 1 s.rb.length;
                  };
                  bytes = store s.rb.size (byte_address base s.rb.size s.rb.writer_index) v s.bytes;
                },
                rw (append_run v, room, IsWidth-supported s.rb.size is.width),
                record {
                  buffer = is.buffer;
                  simple = is.simple;
                  width = is.width;
                  reader_lt = is.reader_lt;
                  writer_lt = rb_increment-lt s.rb.writer_index s.rb.length is.writer_lt;
                  holds =
                      Holds-append s.rb.size base s.rb.length s.rb.writer_index v s.bytes is.width
                        is.writer_lt s.rb.reader_index q is.reader_lt roomy is.holds;
                },
                refl,
              ),
            )
      ]

  remove_run :
      rb_remove_simple s
      ≡ (if s.rb.reader_index == s.rb.writer_index then ok none s else remove_element base s)
  unfolding rb_remove_simple
  remove_run = ground (arith, is.buffer, is.simple)

-- Removing from a simple ring buffer that holds a queue takes the oldest element out of the queue
-- and copies it; from an empty queue it copies nothing. The bytes of the buffer and its length stay
-- as they are.
pub rb_remove_simple_lem :
    {s : RbState} {base : ℕ} (q : List ℕ)
    → IsQueue s base q
    → (t : RbState) × (rb_remove_simple s ≡ ok (head? q) t)
      × IsQueue t base (tail q)
      × (t.bytes ≡ s.bytes)
      × (t.rb.length ≡ s.rb.length)
unfolding remove_element
rb_remove_simple_lem {s} [] is = (s, rw (remove_run is) (ground (arith, is.holds)), is, refl, refl)
rb_remove_simple_lem {s} {base} (v ∷ q) is = (
  record s { rb = record (s.rb) { reader_index = rb_increment s.rb.reader_index 1 s.rb.length } },
  rw (remove_run is) (
      let e : (s.rb.reader_index == s.rb.writer_index) ≡ false = ground (arith, is.holds) in
      rw (e, IsWidth-supported s.rb.size is.width, is.holds.1)),
  record {
    buffer = is.buffer;
    simple = is.simple;
    width = is.width;
    reader_lt = rb_increment-lt s.rb.reader_index s.rb.length is.reader_lt;
    writer_lt = is.writer_lt;
    holds = is.holds.2;
  },
  refl,
  refl,
)
