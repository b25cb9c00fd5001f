-- ===== src/Davroska/Time/Links.antt =====
-- Lists of alarms, linked by the ids of the next ones.
use davros.Base.{
  ℕ, ◌≡◌, ◌≢◌, true, false, Option, none, some, List, [], ◌∷◌, ◌++◌, arith, has, update, ◌∙◌,
}
use davros.Dll.Ring.{Distinct, last_of, last_of-has, has-append}

-- From `o` the links lead through `xs` to the end.
abbrev pub Linked : (ℕ → Option ℕ) → Option ℕ → List ℕ → Type 0
Linked m o [] = o ≡ none
Linked m o (x ∷ xs) = (o ≡ some x) × Linked m (m x) xs

-- A list survives a change of links that are not on it.
pub Linked-frame :
    (m n : ℕ → Option ℕ) (o : Option ℕ) (xs : List ℕ)
    → ((j : ℕ) → has j xs ≡ true → n j ≡ m j)
    → Linked m o xs
    → Linked n o xs
Linked-frame m n o [] f l = l
Linked-frame m n o (x ∷ xs) f l =
    (l.0, rw (f x (ground arith)) (Linked-frame m n (m x) xs (λ j h. f j (ground arith)) l.1))

-- The links after `a` has been put behind `q`.
abbrev pub put_behind : (ℕ → Option ℕ) → (q a : ℕ) → ℕ → Option ℕ
put_behind m q a = update (update m a (m q)) q (some a)

pub Linked-put_behind :
    (m : ℕ → Option ℕ) (a x : ℕ) (ys after : List ℕ)
    → Linked m (m x) (ys ++ after)
    → Distinct (x ∷ (ys ++ after))
    → has a (x ∷ (ys ++ after)) ≡ false
    → Linked (put_behind m (last_of x ys) a) (put_behind m (last_of x ys) a x) (ys ++ a ∷ after)
Linked-put_behind m a x [] after l d o = (
  ground arith,
  (let at_a : put_behind m x a a ≡ m x = ground arith in
      rw at_a (Linked-frame m (put_behind m x a) (m x) after (λ j h. ground (arith, d)) l)),
)
Linked-put_behind m a x (y ∷ ys) after l d o =
    let q = last_of y ys in
    let apart : x ≢ q = ground (arith, d, last_of-has y ys, has-append x (y ∷ ys) after) in
    let at_x : put_behind m q a x ≡ m x = ground arith in
    (at_x ∙ l.0, Linked-put_behind m a y ys after l.1 d.1 (ground arith))
