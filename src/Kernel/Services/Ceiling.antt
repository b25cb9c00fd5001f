-- ===== src/Kernel/Services/Ceiling.antt =====
-- The ceiling of a mutex, as the uses-semaphore call raises it.
use davros.Base.{
  ℕ, ◌≤◌, ◌<◌, ◌≡◌, ◌≢◌, refl, inl, inr, false, arith, ltb, update, ◌∙◌, Bool-cases, ◌==◌,
  if◌then◌else◌,
}
use davros.Run.{Cmd, ok, skip, pure, ◌>>◌}
use davros.Kernel.State.{
  Config, Kernel, ErrorId, eid_none, Semaphore, ExeState, exe_free, exe_disabled, exe_idle,
  exe_active, exe_suspended, exe_sleep, exe_lock_wait, exe_event_wait, i32_zero, out_of_range,
  edit_sem,
}
use davros.Kernel.Services.{uses_semaphore}

-- The semaphore with a ceiling of at least `p`.
abbrev pub with_ceiling : Semaphore → ℕ → Semaphore
with_ceiling s p = record s { ceiling = if ltb s.ceiling p then p else s.ceiling }

module _ (cfg : Config) (k : Kernel) (i exe : ℕ) (fits : exe < cfg.n_executables)
    (small : exe < i32_zero) where
  abbrev raise_ceiling : Cmd Kernel ErrorId
  raise_ceiling = do
    if ltb (k.sem i).ceiling (k.exe exe).baseprio
        then edit_sem i (λ s. record s { ceiling = (k.exe exe).baseprio })
        else skip
    pure eid_none

  in_range : out_of_range exe cfg.n_executables ≡ false
  in_range = ground arith

  uses_run :
      (s : ExeState)
      → (k.exe exe).state ≡ s
      → s ≢ exe_free
      → uses_semaphore cfg i exe k ≡ raise_ceiling k
  unfolding uses_semaphore
  uses_run exe_free e d = absurd (d refl)
  uses_run exe_disabled e d = rw (in_range, e)
  uses_run exe_idle e d = rw (in_range, e)
  uses_run exe_active e d = rw (in_range, e)
  uses_run exe_suspended e d = rw (in_range, e)
  uses_run exe_sleep e d = rw (in_range, e)
  uses_run exe_lock_wait e d = rw (in_range, e)
  uses_run exe_event_wait e d = rw (in_range, e)

  -- If an executable in the table is configured, then naming it as a user of a semaphore answers no
  -- error and raises the semaphore's ceiling to its base priority if the ceiling is lower, so that
  -- the base priority is not above the ceiling afterwards; no other semaphore, no executable, list
  -- element or thread changes.
  pub uses_semaphore_lem :
      (k.exe exe).state ≢ exe_free
      → (k' : Kernel) × (uses_semaphore cfg i exe k ≡ ok eid_none k')
        × ((j : ℕ)
            → k'.sem j ≡ (if i == j then with_ceiling (k.sem i) (k.exe exe).baseprio else k.sem j))
        × ((k.exe exe).baseprio ≤ (k'.sem i).ceiling)
        × (k'.exe ≡ k.exe)
        × (k'.heap ≡ k.heap)
        × (k'.thr ≡ k.thr)
  uses_semaphore_lem known =
      let run = uses_run (k.exe exe).state refl known in
      elim (Bool-cases (ltb (k.sem i).ceiling (k.exe exe).baseprio)) [
        | inl low ↦ (
          record k { sem = update k.sem i (record (k.sem i) { ceiling = (k.exe exe).baseprio }) },
          run ∙ rw low refl,
          λ j. ground (arith, low),
          ground arith,
          refl,
          refl,
          refl,
        )
        | inr high ↦
            (k, run ∙ rw high refl, λ j. ground (arith, high), ground arith, refl, refl, refl)
      ]
