-- ===== src/Dll/Links.antt =====
-- One write of a link: what the command does, and what it leaves alone.
use davros.Base.{◌≡◌, ◌≢◌, false, arith, ◌==◌, if◌then◌else◌, update}
use davros.Run.{ok}
use davros.Dll.{Ptr, null, Heap, load, edit, set_successor, set_predecessor}
use davros.Dll.Ring.{SameData}

pub with_successor : Heap → Ptr → Ptr → Heap
with_successor h p q = update h p (record (h p) { successor = q })

pub with_predecessor : Heap → Ptr → Ptr → Heap
with_predecessor h p q = update h p (record (h p) { predecessor = q })

module _ (h : Heap) (p q : Ptr) where
  pub load-ok : p ≢ null → load p h ≡ ok (h p) h
  unfolding load
  load-ok n = let e : (p == null) ≡ false = ground arith in rw e

  pub set_successor-ok : p ≢ null → set_successor p q h ≡ ok tt (with_successor h p q)
  unfolding edit with_successor
  set_successor-ok n = let e : (p == null) ≡ false = ground arith in rw e

  pub set_predecessor-ok : p ≢ null → set_predecessor p q h ≡ ok tt (with_predecessor h p q)
  unfolding edit with_predecessor
  set_predecessor-ok n = let e : (p == null) ≡ false = ground arith in rw e

  pub successor-with_successor :
      (a : Ptr) → (with_successor h p q a).successor ≡ (if p == a then q else (h a).successor)
  unfolding with_successor
  successor-with_successor a = ground arith

  pub predecessor-with_successor :
      (a : Ptr) → (with_successor h p q a).predecessor ≡ (h a).predecessor
  unfolding with_successor
  predecessor-with_successor a = ground arith

  pub successor-with_predecessor :
      (a : Ptr) → (with_predecessor h p q a).successor ≡ (h a).successor
  unfolding with_predecessor
  successor-with_predecessor a = ground arith

  pub predecessor-with_predecessor :
      (a : Ptr) → (with_predecessor h p q a).predecessor ≡ (if p == a then q else (h a).predecessor)
  unfolding with_predecessor
  predecessor-with_predecessor a = ground arith

  pub same-with_successor : SameData h (with_successor h p q)
  unfolding with_successor
  same-with_successor a = ground arith

  pub same-with_predecessor : SameData h (with_predecessor h p q)
  unfolding with_predecessor
  same-with_predecessor a = ground arith

pub SameData-trans : (h g f : Heap) → SameData h g → SameData g f → SameData h f
SameData-trans h g f s t a = ground (arith, s a, t a)

pub ruleset links = (
  successor-with_successor, predecessor-with_successor, successor-with_predecessor,
  predecessor-with_predecessor,
)
