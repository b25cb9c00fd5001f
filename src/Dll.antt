-- ===== src/Dll.antt =====
-- The doubly linked lists of davros-3/kernel/h/dv-doublylinkedlist.h and
-- davros-3/kernel/c/dv-dll*.c: elements on a heap, linked in a ring through a head element.
pub mod Ring
pub mod Keys
pub mod Demote
pub mod Queue
pub mod Remove
pub mod Walk
pub mod Links
pub mod Insert
use davros.Base.{ℕ, zero, suc, Bool, Option, none, ◌==◌, ltb, leb, if◌then◌else◌, update}
use davros.Run.{Run, fault, out_of_fuel, Cmd, pure, ◌>>=◌, ◌>>◌, skip}

-- An address; 0 is the null pointer.
abbrev pub Ptr : Type 0
Ptr = ℕ

abbrev pub null : Ptr
null = 0

pub data PayloadType : Type 0 where
  dll_free dll_thread dll_exe : PayloadType

-- A signed 32-bit number is written as its distance from the least one, so 0 is -2147483648. The two
-- members of the key's union are two fields: each list uses one of them only.
pub record Element : Type 0 where
  pub successor : Ptr
  pub predecessor : Ptr
  pub i32_key : ℕ
  pub u64_key : ℕ
  pub payload_type : PayloadType
  pub payload : Option ℕ

abbrev pub dll_min_i32_key : ℕ
dll_min_i32_key = 0

abbrev pub dll_max_u64_key : ℕ
dll_max_u64_key = 0xffff_ffff_ffff_ffff

abbrev pub Heap : Type 0
Heap = Ptr → Element

unfoldable pub load : Ptr → Cmd Heap Element
load p h = if p == null then fault else Run.ok (h p) h

unfoldable pub edit : Ptr → (Element → Element) → Cmd Heap (Unit {0})
edit p f h = if p == null then fault else Run.ok tt (update h p (f (h p)))

abbrev pub set_successor : Ptr → Ptr → Cmd Heap (Unit {0})
set_successor p q = edit p (λ e. record e { successor = q })

abbrev pub set_predecessor : Ptr → Ptr → Cmd Heap (Unit {0})
set_predecessor p q = edit p (λ e. record e { predecessor = q })

pub data ListType : Type 0 where
  dll_priority dll_time : ListType

-- `head` is the address of `list->headtail`.
unfoldable pub dllinit : (head : Ptr) → ListType → Cmd Heap (Unit {0})
dllinit head type = do
  set_predecessor head head
  set_successor head head
  edit head (λ e. record e { payload = none })
  elim type [
    | dll_priority ↦ edit head (λ e. record e { i32_key = dll_min_i32_key })
    | dll_time ↦ edit head (λ e. record e { u64_key = dll_max_u64_key })
  ]

unfoldable pub dllinsertbefore : (succ elem : Ptr) → Cmd Heap (Unit {0})
dllinsertbefore succ elem = do
  s ← load succ
  set_predecessor elem s.predecessor
  set_successor elem succ
  s' ← load succ
  set_successor s'.predecessor elem
  set_predecessor succ elem

unfoldable pub dllremove : (elem : Ptr) → Cmd Heap (Unit {0})
dllremove elem = do
  e ← load elem
  set_predecessor e.successor e.predecessor
  e' ← load elem
  set_successor e'.predecessor e'.successor
  set_predecessor elem null
  set_successor elem null

-- The three insertions walk from `start` while `stay` holds of the element's key and the key met.
unfoldable pub walk : (Element → Element → Bool) → ℕ → (e elem : Ptr) → Cmd Heap Ptr
walk stay zero e elem = λ _. out_of_fuel
walk stay (suc fuel) e elem = do
  x ← load elem
  y ← load e
  if stay x y then walk stay fuel y.successor elem else pure e

unfoldable pub dllinsertbeforesame_elem : ℕ → (start elem : Ptr) → Cmd Heap (Unit {0})
dllinsertbeforesame_elem fuel start elem = do
  e ← walk (λ x y. ltb x.i32_key y.i32_key) fuel start elem
  dllinsertbefore e elem

unfoldable pub dllinsertaftersame_elem : ℕ → (start elem : Ptr) → Cmd Heap (Unit {0})
dllinsertaftersame_elem fuel start elem = do
  e ← walk (λ x y. leb x.i32_key y.i32_key) fuel start elem
  dllinsertbefore e elem

unfoldable pub dllinsertaftersame : ℕ → (head elem : Ptr) → Cmd Heap (Unit {0})
dllinsertaftersame fuel head elem = do
  first ← load head
  dllinsertaftersame_elem fuel first.successor elem

unfoldable pub dllinsertbeforesame : ℕ → (head elem : Ptr) → Cmd Heap (Unit {0})
dllinsertbeforesame fuel head elem = do
  first ← load head
  dllinsertbeforesame_elem fuel first.successor elem

-- True if the element became the first of the list.
unfoldable pub dllinserttime : ℕ → (head elem : Ptr) → Cmd Heap Bool
dllinserttime fuel head elem = do
  first ← load head
  e ← walk (λ x y. leb y.u64_key x.u64_key) fuel first.successor elem
  dllinsertbefore e elem
  x ← load elem
  pure (x.predecessor == head)

unfoldable pub dlldemote : ℕ → (elem : Ptr) → Cmd Heap (Unit {0})
dlldemote fuel elem = do
  x ← load elem
  s ← load x.successor
  if ltb x.i32_key s.i32_key
      then (do dllremove elem; dllinsertbeforesame_elem fuel x.successor elem)
      else skip

unfoldable pub dllisempty : (head : Ptr) → Cmd Heap Bool
dllisempty head = do x ← load head; pure (x.successor == x.predecessor)
