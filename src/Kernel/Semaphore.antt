-- ===== src/Kernel/Semaphore.antt =====
-- Mutexes with the immediate ceiling protocol: davros-3/kernel/c/dv-immediateceiling.c, the functions
-- of davros-3/kernel/h/dv-semaphore-inline.h, and `dv_set_runprio` of davros-3/kernel/h/dv-thread.h.
pub mod Taking
pub mod Round
pub mod Release
use davros.Base.{ℕ, ◌+◌, ◌-◌, ◌%◌, ◌^◌, Bool, not, none, some, ltb, leb, same_ref, if◌then◌else◌}
use davros.Run.{
  semaphore_occupied, semaphore_count_error, Cmd, pure, dv_assert, ◌>>=◌, ◌>>◌, get, skip,
}
use davros.Dll.{dlldemote}
use davros.Kernel.State.{
  Config, Kernel, ErrorId, eid_none, semaphore_ceiling_too_low, semaphore_not_occupied, i32_zero,
  thread_link, walk_fuel, edit_exe, edit_sem, on_heap, current, executable_of, get_prio, set_prio,
}

-- `x++` and `x--` on a signed number.
abbrev pub i32_inc : ℕ → ℕ
i32_inc x = (x + 1) % 2 ^ 32

abbrev pub i32_dec : ℕ → ℕ
i32_dec x = (x + (2 ^ 32 - 1)) % 2 ^ 32

-- x < 0
abbrev pub i32_neg : ℕ → Bool
i32_neg x = ltb x i32_zero

unfoldable pub acquire_mutex : (sem thr : ℕ) → Cmd Kernel (Unit {0})
acquire_mutex sem thr = do
  exe ← executable_of thr
  edit_sem sem (λ s. record s { owner = some exe })
  k ← get
  edit_sem sem (λ s. record s { link = (k.exe exe).semtaken })
  edit_exe exe (λ e. record e { semtaken = some sem })
  p ← get_prio thr
  edit_sem sem (λ s. record s { oldprio = p })

unfoldable pub relinquish_mutex : Config → (sem thr : ℕ) → Cmd Kernel (Unit {0})
relinquish_mutex cfg sem thr = do
  edit_sem sem (λ s. record s { owner = none })
  exe ← executable_of thr
  k ← get
  edit_exe exe (λ e. record e { semtaken = (k.sem sem).link })
  edit_sem sem (λ s. record s { link = none })
  set_prio thr (k.sem sem).oldprio
  on_heap (dlldemote (walk_fuel cfg) (thread_link thr))

unfoldable pub wait_semimmceil : (sem : ℕ) → Cmd Kernel ErrorId
wait_semimmceil sem = do
  thr ← current
  exe ← executable_of thr
  k ← get
  if ltb (k.sem sem).ceiling (k.exe exe).baseprio then pure semaphore_ceiling_too_low else do
    edit_sem sem (λ s. record s { count = i32_dec s.count })
    k' ← get
    if i32_neg (k'.sem sem).count
        then (do
          dv_assert (not (same_ref (k'.sem sem).owner (some exe))) semaphore_occupied
          pure eid_none)
        else do
          acquire_mutex sem thr
          k'' ← get
          if ltb (k''.sem sem).oldprio (k''.sem sem).ceiling
              then set_prio thr (k''.sem sem).ceiling
              else skip
          pure eid_none

unfoldable pub signal_semimmceil : Config → (sem : ℕ) → Cmd Kernel ErrorId
signal_semimmceil cfg sem = do
  thr ← current
  k ← get
  if not (same_ref (k.sem sem).owner (k.thr thr).executable)
      then pure semaphore_not_occupied
      else do
        edit_sem sem (λ s. record s { count = i32_inc s.count })
        k' ← get
        dv_assert (ltb (k'.sem sem).count (i32_zero + 2)) semaphore_count_error
        if leb (i32_zero + 1) (k'.sem sem).count then relinquish_mutex cfg sem thr else skip
        pure eid_none

-- `dv_set_runprio` on the element of the thread's link.
unfoldable pub set_runprio : (thr : ℕ) → Cmd Kernel (Unit {0})
set_runprio thr = do
  p ← get_prio thr
  exe ← executable_of thr
  k ← get
  if ltb p (k.exe exe).runprio then set_prio thr (k.exe exe).runprio else skip
