-- ===== src/Examples/Tasks.antt =====
-- Queues, mutexes and the scheduler of davroska, in the sample state.
use davros.Davroska.Extended.{runqueued_onkernelstack}
use davros.Davroska.State.{Os, e_ok}
use davros.Davroska.Queue.{enqueue, dequeue}
use davros.Davroska.Queue.Fifo.{IsFifo, Apart, enqueued, enqueue_lem, dequeue_lem}
use davros.Davroska.Mutex.Pairs.{IsPair, take-drop}
use davros.Davroska.Schedule.{runqueued, activatetask, resume}
use davros.Davroska.Schedule.Complete.{HasDrained, HaveRun, runqueued_lem}
use davros.Davroska.Schedule.Activate.{RunsToEnd, activatetask-higher, activatetask-lower}
use davros.Examples.Davroska.{
  sizes, running_ids, sample_os, code, no_expiry, sample_os-IsFifo, sample_os-CanTake,
  sample_os-CanRun, sample_os-CanRun_first, sample_os-CanActivate, sample_os-CanActivate_low,
}
use davros.Base.{
  ℕ, ◌+◌, ◌≤◌, ◌<◌, ◌≡◌, ◌⊎◌, refl, inl, false, List, [], ◌∷◌, ◌++◌, arith, ◌==◌, if◌then◌else◌,
  length,
}
use davros.Run.{ok, panic, davroska, queue_overflow, Cmd, skip}
use mathlib.Core.List.{head?, tail}

abbrev no_scheduler : (high low : ℕ) → Cmd Os (Unit {0})
no_scheduler high low = skip

enqueue_lem_example :
    ((length running_ids + 1 < (sample_os.queue 1).nslots)
      × (enqueue 1 3 sample_os ≡ ok tt (enqueued sample_os-IsFifo 3))
      × IsFifo (enqueued sample_os-IsFifo 3) 1 (running_ids ++ 3 ∷ []))
    ⊎ ((length running_ids + 1 ≡ (sample_os.queue 1).nslots)
        × (enqueue 1 3 sample_os ≡ panic (davroska queue_overflow)))
enqueue_lem_example = enqueue_lem sample_os-IsFifo 3

dequeue_lem_example :
    (t : Os) × (dequeue 1 sample_os ≡ ok (head? (1 ∷ [])) t) × IsFifo t 1 (tail (1 ∷ []))
dequeue_lem_example = dequeue_lem (1 ∷ []) sample_os-IsFifo

take-drop_example : (t : Os) × (u : Os) × IsPair no_scheduler sample_os t u 0
take-drop_example = take-drop no_scheduler sample_os 0 sample_os-CanTake

runqueued_lem_example :
    (m : Os) × (t : Os) × (runqueued code sizes no_expiry 9 9 1 0 sample_os ≡ ok tt t)
    × HaveRun code sizes no_expiry 9 sample_os.currentexe 1 (1 ∷ []) sample_os m
    × (resume sample_os.currentexe m ≡ ok tt t)
    × (t.currentexe ≡ sample_os.currentexe)
    × HasDrained sample_os t 1 0 (1 ∷ [])
runqueued_lem_example =
    runqueued_lem code sizes no_expiry 9 (1 ∷ []) 9 sample_os 1 0 (omega arith) sample_os-IsFifo
      (sample_os-CanRun_first, tt) (λ j. ground arith) (λ r a b. ground arith) (omega arith)

activatetask-higher_example :
    (u : Os) × (activatetask
        (runqueued_onkernelstack (runqueued code sizes no_expiry 9 9))
        2
        sample_os
      ≡ ok e_ok u)
    × RunsToEnd code sizes no_expiry 9 9 sample_os 2 u sample_os.currentexe
        (sample_os.exe 2).baseprio
    × (u.currentexe ≡ sample_os.currentexe)
    × ((j : ℕ) → (u.exe j).nact ≡ (sample_os.exe j).nact)
    × ((r : ℕ)
        → (sample_os.exe sample_os.currentexe).currprio < r
        → r ≤ (sample_os.exe 2).baseprio
        → (u.queue r).head ≡ (u.queue r).tail)
activatetask-higher_example =
    activatetask-higher code sizes no_expiry 9 9 sample_os 2 sample_os-CanActivate (inl refl)
      sample_os-CanRun (omega arith) (λ r a b. ground arith) (omega arith)

activatetask-lower_example :
    (u : Os) × (activatetask
        (runqueued_onkernelstack (runqueued code sizes no_expiry 9 9))
        3
        sample_os
      ≡ ok e_ok u)
    × IsFifo u (sample_os.exe 3).baseprio ((1 ∷ []) ++ 3 ∷ [])
    × (u.currentexe ≡ sample_os.currentexe)
    × ((j : ℕ) → (u.exe j).nact ≡ (sample_os.exe j).nact + (if 3 == j then 1 else 0))
    × ((r : ℕ) → ((sample_os.exe 3).baseprio == r) ≡ false → u.queue r ≡ sample_os.queue r)
    × ((r : ℕ) (js : List ℕ)
        → ((sample_os.exe 3).baseprio == r) ≡ false
        → Apart sample_os (sample_os.exe 3).baseprio r
        → IsFifo sample_os r js
        → IsFifo u r js)
activatetask-lower_example =
    activatetask-lower code sizes no_expiry 9 9 sample_os 3 (1 ∷ []) sample_os-CanActivate_low
      (inl refl) (omega arith) (omega arith)
