-- ===== src/Davroska/Schedule/Anchor.antt =====
-- The jump buffer to the kernel stack, `dv_kjmpbuf`, after an extended task has run inside another's
-- request.
use davros.Base.{ℕ, ◌+◌, true, false, some}
use davros.Run.{Cmd}
use davros.Davroska.State.{Os, Sizes, Program, with_ext}
use davros.Davroska.Schedule.{runextended}

module _ (code : ℕ → Program) (sz : Sizes) (expiry : (f a d : ℕ) → Cmd Os ℕ) (ticks : ℕ)
    (request : (high low : ℕ) → Cmd Os (Unit {0})) where
  -- The state in which the task starts.
  abbrev pub begun : Os → Os
  begun s =
      with_ext
        (λ r. record r {
          onkernelstack = false;
          frames = s.ext.frames + 1;
          kjmpbuf = some (s.ext.frames + 1);
        })
        s

  -- The state in which a request has come to the kernel stack.
  abbrev pub requested : Os → Os
  requested = with_ext (λ r. record r { onkernelstack = true })

  -- Back on the stack of the task that made the request.
  abbrev returned : (s u : Os) → Os
  returned s u =
      with_ext (λ r. record r { onkernelstack = false })
        (with_ext (λ r. record r { frames = s.ext.frames }) u)

  -- A scheduler that runs the extended task `e`, whose entry is `x`, and no other executable.
  abbrev pub runs_one : (e x : ℕ) → (high low : ℕ) → Cmd Os (Unit {0})
  runs_one e x high low = runextended code sz expiry ticks request e x
