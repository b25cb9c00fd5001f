-- ===== src/Davroska/Extended/Request.antt =====
-- Requests to the scheduler, from the kernel stack or from the stack of an extended task.
use davros.Base.{
  ℕ, ◌≡◌, refl, ap, ◌∙◌, if◌then◌else◌, Bool, ◌⊎◌, inl, inr, true, false, some, arith, ◌==◌,
}
use davros.Run.{ok, Cmd}
use davros.Davroska.State.{Os, with_ext}
use davros.Davroska.Extended.{jump_to_kernel, runqueued_onkernelstack}

-- The same but for which stack is in use.
pub record SameTasks (s u : Os) : Type 0 where
  pub exe_is : u.exe ≡ s.exe
  pub queue_is : u.queue ≡ s.queue
  pub slots_is : u.slots ≡ s.slots
  pub current_is : u.currentexe ≡ s.currentexe
  pub extended_is : u.ext.extended ≡ s.ext.extended

-- A request to the scheduler reaches it: the caller is on the kernel stack, or in the last
-- `dv_runextended`.
abbrev pub CanRequest : Os → Type 0
CanRequest s =
    (s.ext.onkernelstack ≡ true)
    ⊎ ((s.ext.onkernelstack ≡ false) × (s.ext.kjmpbuf ≡ some s.ext.frames))

-- The state in which a request reaches the scheduler.
abbrev pub on_kernel : Os → Os
on_kernel = with_ext (λ r. record r { onkernelstack = true })

not_taken : (b : Bool) (m n : Cmd Os (Unit {0})) (s : Os) → b ≡ false → (if b then m else n) s ≡ n s
not_taken b m n s h = rw h refl

jump_lem :
    (rq : (high low : ℕ) → Cmd Os (Unit {0})) (high low : ℕ) (s t : Os)
    → rq high low (on_kernel s) ≡ ok tt t
    → jump_to_kernel rq (some s.ext.frames) high low s
      ≡ ok tt (with_ext (λ r. record r { onkernelstack = false }) t)
unfolding jump_to_kernel
jump_lem rq high low s t run =
    let same : (s.ext.frames == s.ext.frames) ≡ true = ground arith in rw (same, run) refl

-- A request runs the scheduler on the kernel stack.
pub request_lem :
    (rq : (high low : ℕ) → Cmd Os (Unit {0})) (high low : ℕ) (s t : Os)
    → CanRequest s
    → rq high low (on_kernel s) ≡ ok tt t
    → (u : Os) × (runqueued_onkernelstack rq high low s ≡ ok tt u) × SameTasks t u
unfolding runqueued_onkernelstack
request_lem rq high low s t (inl on) run = (
  t,
  rw on run,
  record { exe_is = refl; queue_is = refl; slots_is = refl; current_is = refl; extended_is = refl },
)
request_lem rq high low s t (inr (off, anchor)) run = (
  with_ext (λ r. record r { onkernelstack = false }) t,
  not_taken (s.ext.onkernelstack) (rq high low) (jump_to_kernel rq (s.ext.kjmpbuf) high low) s off
      ∙ ap (λ o. jump_to_kernel rq o high low s) anchor
      ∙ jump_lem rq high low s t run,
  record { exe_is = refl; queue_is = refl; slots_is = refl; current_is = refl; extended_is = refl },
)
