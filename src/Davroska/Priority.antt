-- ===== src/Davroska/Priority.antt =====
-- The priority of the current executable: `dv_raiseprio` and `dv_lowerprio` of davroska/c/davroska.c.
use davros.Base.{ℕ, ◌==◌, ltb, same_ref, some, if◌then◌else◌}
use davros.Run.{Cmd, queue_corrupt, pure, get, modify, skip, ◌>>=◌, ◌>>◌}
use davros.Davroska.State.{Os, Sizes, with_exe, os_panic}
use davros.Davroska.Queue.{enqueue, dequeue}

module _ (sz : Sizes) where
  unfoldable pub raiseprio : Cmd Os ℕ
  raiseprio = do
    s ← get
    let old = (s.exe s.currentexe).currprio
    if ltb old sz.maxprio
        then (do
          modify (with_exe s.currentexe (λ x. record x { currprio = sz.maxprio }))
          enqueue sz.maxprio s.currentexe)
        else skip
    pure old

  unfoldable pub lowerprio : ℕ → Cmd Os (Unit {0})
  lowerprio p = do
    if p == sz.maxprio then skip else do
      e ← dequeue sz.maxprio
      s ← get
      if same_ref e (some s.currentexe)
          then modify (with_exe s.currentexe (λ x. record x { currprio = p }))
          else os_panic queue_corrupt
