-- ===== src/Allocator.antt =====
-- The kernel's object allocator: dv_kobjallocator_t of davros-3/kernel/h/dv-kernel.h,
-- dv-allocateobj.c, and the buffer allocator of dv-allocatebuf.c. -1 is `none`.
pub mod Search
pub mod Count
use davros.Base.{ℕ, zero, suc, ◌+◌, ◌-◌, Bool, Option, none, some, leb, ltb, if◌then◌else◌}

pub record ObjAllocator : Type 0 where
  pub n_free : ℕ
  pub next : ℕ

unfoldable pub init_allocator : ℕ → ObjAllocator
init_allocator n_obj = record { n_free = n_obj; next = 0 }

unfoldable pub deallocate_obj : ObjAllocator → ObjAllocator
deallocate_obj a = record a { n_free = a.n_free + 1 }

-- `for (i = 0; i < n_obj; i++)`, by the rounds left: the object found, and the one to search next.
unfoldable pub find_free : (n_obj : ℕ) (is_free : ℕ → Bool) (rounds obj : ℕ) → Option (ℕ × ℕ)
find_free n_obj is_free zero obj = none
find_free n_obj is_free (suc rounds) obj =
    let next = if leb n_obj (obj + 1) then 0 else obj + 1 in
    let rest = find_free n_obj is_free rounds next in if is_free obj then some (obj, next) else rest

unfoldable pub allocate_obj :
    ObjAllocator → (n_obj : ℕ) (is_free : ℕ → Bool) → ObjAllocator × Option ℕ
allocate_obj a n_obj is_free =
    if leb a.n_free 0 then (a, none) else elim (find_free n_obj is_free n_obj a.next) [
      | none ↦ (a, none)
      | some (obj, next) ↦ (record { n_free = a.n_free - 1; next = next }, some obj)
    ]

unfoldable pub allocate_buf : ObjAllocator → ℕ → ObjAllocator × Option ℕ
allocate_buf a n_req =
    if ltb a.n_free n_req
    then (a, none)
    else (record { n_free = a.n_free - n_req; next = a.next + n_req }, some a.next)
