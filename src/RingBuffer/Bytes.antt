-- ===== src/RingBuffer/Bytes.antt =====
-- Elements of one, two or four bytes in the array of buffer words.
use davros.Base.{ℕ, ◌%◌, ◌≡◌, ◌≢◌, refl, true, ◌||◌, arith, ◌==◌, if◌then◌else◌}
use davros.RingBuffer.{Bytes, byte_address, store, load}

-- The sizes that the source supports.
pub data IsWidth : ℕ → Type 0 where
  one : IsWidth 1
  two : IsWidth 2
  four : IsWidth 4

abbrev pub width_limit : ℕ → ℕ
width_limit n = if n == 1 then 256 else if n == 2 then 65536 else 4294967296

pub load-store_self :
    (n : ℕ) → IsWidth n → (a v : ℕ) (m : Bytes) → load n a (store n a v m) ≡ v % width_limit n
unfolding load store
load-store_self _ one a v m = ground arith
load-store_self _ two a v m = ground arith
load-store_self _ four a v m = ground arith

pub load-store_ne :
    (n : ℕ)
    → IsWidth n
    → (base i j v : ℕ) (m : Bytes) → i ≢ j
    → load n (byte_address base n i) (store n (byte_address base n j) v m)
      ≡ load n (byte_address base n i) m
unfolding load store
load-store_ne _ one base i j v m d = ground arith
load-store_ne _ two base i j v m d = ground arith
load-store_ne _ four base i j v m d = ground arith

pub IsWidth-supported : (n : ℕ) → IsWidth n → ((n == 1) || (n == 2) || (n == 4)) ≡ true
IsWidth-supported _ one = refl
IsWidth-supported _ two = refl
IsWidth-supported _ four = refl
