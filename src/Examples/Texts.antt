-- ===== src/Examples/Texts.antt =====
-- An array is copied onto itself, two strings are compared, and characters are put in a ring buffer.
use davros.ByteRing.{ByteRing, rb_add1, rb_empty, rb_full, rb_u8_put, rb_u8_get}
use davros.ByteRing.Kernel.{kernel_buffer, kernel_buffer_lem}
use davros.Strings.{Memory, memcpy32, string_end, strlen, strcmp}
use davros.Strings.Copying.{Outside, memcpy32_lem}
use davros.Strings.Comparing.{IsString, Compares, strcmp_lem}
use davros.Base.{ℕ, ◌+◌, ◌*◌, ◌<◌, ◌≡◌, refl, some, [], ◌∷◌, arith, update}
use davros.Run.{ok}
use davros.RingBuffer.{rb_append_simple, rb_remove_simple}

abbrev squares : Memory
squares i = i * i

abbrev nearly_full : ByteRing
nearly_full = record { rbm = record { head = 1; tail = 3; length = 4 }; buf = squares }

-- The indexes wrap around; then the buffer is full, and a character is discarded.
put_twice : (rb_u8_put 66 ((rb_u8_put 65 nearly_full).1)).0 ≡ 0
unfolding rb_u8_put rb_full rb_add1
put_twice = refl

got : (rb_u8_get nearly_full).0 ≡ some 1
unfolding rb_u8_get rb_empty
got = refl

-- `ab` at 1 and `ac` at 5.
abbrev words : Memory
words = update (update (update (update (λ i. 0) 1 97) 2 98) 5 97) 6 99

first_word : IsString words 1 (97 ∷ (98 ∷ []))
first_word = (refl, omega arith, omega arith, (refl, omega arith, omega arith, refl))

second_word : IsString words 5 (97 ∷ (99 ∷ []))
second_word = (refl, omega arith, omega arith, (refl, omega arith, omega arith, refl))

-- The word at 3 is copied before it is overwritten.
overlapping_copy : ((memcpy32 3 1 4 squares).1) 5 ≡ 9
unfolding memcpy32
overlapping_copy = refl

word_length : strlen 3 1 words ≡ some 2
unfolding strlen string_end
word_length = refl

-- `c` is one more than `b`.
words_compared : strcmp 3 5 1 words ≡ some 1
unfolding strcmp
words_compared = refl

memcpy32_lem_example :
    ((memcpy32 3 1 4 squares).0 ≡ 3)
    × ((i : ℕ) → i < 4 → ((memcpy32 3 1 4 squares).1) (3 + i) ≡ squares (1 + i))
    × ((j : ℕ) → Outside 3 4 j → ((memcpy32 3 1 4 squares).1) j ≡ squares j)
memcpy32_lem_example = memcpy32_lem 3 1 4 squares (omega arith)

strcmp_lem_example :
    (r : ℕ) × (strcmp 3 1 5 words ≡ some r) × Compares r (97 ∷ (98 ∷ [])) (97 ∷ (99 ∷ []))
strcmp_lem_example =
    strcmp_lem words 1 5 (97 ∷ (98 ∷ [])) (97 ∷ (99 ∷ [])) 3 first_word second_word (omega arith)

kernel_buffer_lem_example :
    ((c : ℕ)
      → rb_append_simple c (kernel_buffer nearly_full)
        ≡ ok ((rb_u8_put c nearly_full).0) (kernel_buffer ((rb_u8_put c nearly_full).1)))
    × (rb_remove_simple (kernel_buffer nearly_full)
        ≡ ok ((rb_u8_get nearly_full).0) (kernel_buffer ((rb_u8_get nearly_full).1)))
kernel_buffer_lem_example = kernel_buffer_lem nearly_full (omega arith) (omega arith)
