-- ===== src/Kernel/State/Steps.antt =====
-- What the accessors of the kernel answer, where the pointers that they follow are not null.
use davros.Base.{ℕ, ◌≡◌, some, arith, update}
use davros.Run.{ok}
use davros.Dll.{load, edit}
use davros.Dll.Keys.{with_key}
use davros.Kernel.State.{
  Kernel, ErrorId, error_code, thread_link, current, executable_of, current_regs, get_p0, get_prio,
  set_prio, set_rv0, return_error,
}

module _ (k : Kernel) (t : ℕ) where
  pub current-ok : k.current_thread ≡ some t → current k ≡ ok t k
  unfolding current
  current-ok e = ground arith

  pub executable_of-ok : (e : ℕ) → (k.thr t).executable ≡ some e → executable_of t k ≡ ok e k
  unfolding executable_of
  executable_of-ok e h = ground arith

pub get_prio-ok : (t : ℕ) (k : Kernel) → get_prio t k ≡ ok (k.heap (thread_link t)).i32_key k
unfolding get_prio load
get_prio-ok t k = ground arith

pub set_prio-ok :
    (t p : ℕ) (k : Kernel)
    → set_prio t p k ≡ ok tt (record k { heap = with_key k.heap (thread_link t) p })
unfolding set_prio edit with_key
set_prio-ok t p k = ground arith

module _ (k : Kernel) (t r : ℕ) (running : k.current_thread ≡ some t)
    (stored : (k.thr t).regs ≡ some r) where
  pub current_regs-ok : current_regs k ≡ ok r k
  unfolding current_regs
  current_regs-ok = rw (current-ok k t running) (ground (arith, stored))

  pub get_p0-ok : get_p0 k ≡ ok (k.reg r).gpr0 k
  unfolding get_p0
  get_p0-ok = rw current_regs-ok

  -- The kernel with error `e` in the first register of the caller.
  pub return_error-ok :
      (e : ErrorId)
      → return_error e k
        ≡ ok tt (record k { reg = update k.reg r (record (k.reg r) { gpr0 = error_code e }) })
  unfolding return_error set_rv0
  return_error-ok e = rw current_regs-ok
