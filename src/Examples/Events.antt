-- ===== src/Examples/Events.antt =====
-- Extended tasks and their events, in states of davroska.
use davros.Davroska.Extended.{setevent, waitevent, addextendedtask, runqueued_onkernelstack}
use davros.Davroska.Extended.Release.{CanRelease, IsReleased, setevent-release}
use davros.Davroska.Extended.Alert.{
  IsAlert, Leaves, waiting_state, waitevent-IsAlert, setevent-IsAlert,
}
use davros.Davroska.Extended.Stacks.{IsStacked, Added, addextendedtask_lem}
use davros.Davroska.Schedule.Anchor.{begun, requested}
use davros.Davroska.State.{Os, Program, Status, finish, waiting, ph_addtasks, e_ok}
use davros.Davroska.Schedule.{runqueued}
use davros.Examples.Davroska.{no_extended, sizes, sample_os, code, no_expiry, sample_os-IsFifo}
use davros.Base.{bit_and, ℕ, ◌≡◌, ◌⊎◌, refl, inl, false, none, some, [], ◌∷◌, arith, update}
use davros.Run.{ok, Cmd, skip}

-- Task 3 is extended, and waits for events 1 and 4.
abbrev waiting_os : Os
waiting_os = record sample_os {
  exe = update sample_os.exe 3 (record (sample_os.exe 3) { state = waiting; extended = some 0 });
  ext = record no_extended {
    extended =
        update no_extended.extended 0
          (record (no_extended.extended 0) { events_awaited = 5; jb = some finish });
  };
}

waiting_os-CanRelease : CanRelease waiting_os 3 0 4 (1 ∷ [])
waiting_os-CanRelease = record {
  is_task = refl;
  is_extended = refl;
  waits = refl;
  hit = refl;
  fifo = record {
    head_lt = sample_os-IsFifo.head_lt;
    tail_lt = sample_os-IsFifo.tail_lt;
    holds = sample_os-IsFifo.holds;
  };
  room = omega arith;
}

waiting_os-IsAlert : IsAlert waiting_os
waiting_os-IsAlert = record { apart = λ t u x h k. ground arith; alert = λ t x h k. ground arith }

-- The running executable is extended.
abbrev extended_os : Os
extended_os = record sample_os {
  exe = update sample_os.exe 1 (record (sample_os.exe 1) { extended = some 0 });
}

extended_os-IsAlert : IsAlert extended_os
extended_os-IsAlert = record { apart = λ t u x h k. ground arith; alert = λ t x h k. ground arith }

abbrev no_request : (high low : ℕ) → Cmd Os (Unit {0})
no_request high low = skip

abbrev adding_os : Os
adding_os = record sample_os { configstate = some ph_addtasks }

no_extended-IsStacked : IsStacked no_extended
no_extended-IsStacked = record { in_order = λ i j h k. elim k [ ]; within = λ i h. elim h [ ] }

-- Every function ends at once.
abbrev ends : ℕ → Program
ends f = finish

abbrev requesting_os : Os
requesting_os = record waiting_os {
  ext = record no_extended { onkernelstack = false; frames = 1; kjmpbuf = some 1 };
}

abbrev begun_os : Os
begun_os =
    begun ends sizes no_expiry 9 no_request
      (requested ends sizes no_expiry 9 no_request requesting_os)

setevent-release_example :
    (u : Os) × (setevent
        (runqueued_onkernelstack (runqueued code sizes no_expiry 9 9))
        3
        4
        waiting_os
      ≡ ok e_ok u)
    × IsReleased waiting_os u 3 0 4 (1 ∷ [])
setevent-release_example =
    setevent-release waiting_os 3 0 4 (1 ∷ []) waiting_os-CanRelease code sizes no_expiry 9 9
      (inl refl) (omega arith) (omega arith)

waitevent-IsAlert_example :
    ((e : Status) × (u : Os) × (waitevent 6 finish extended_os ≡ ok (some e) u)
      × (u.exe ≡ extended_os.exe)
      × (u.ext ≡ extended_os.ext)
      × IsAlert u)
    ⊎ ((x : ℕ) × ((extended_os.exe extended_os.currentexe).extended ≡ some x)
        × ((extended_os.exe extended_os.currentexe).mutexlist ≡ none)
        × (bit_and 6 (extended_os.ext.extended x).events_pending ≡ 0)
        × (waitevent 6 finish extended_os ≡ ok none (waiting_state x 6 finish extended_os))
        × IsAlert (waiting_state x 6 finish extended_os))
waitevent-IsAlert_example = waitevent-IsAlert extended_os 6 finish extended_os-IsAlert refl

setevent-IsAlert_example : Leaves IsAlert (setevent no_request 3 4 waiting_os)
setevent-IsAlert_example =
    setevent-IsAlert no_request (λ high low s a. a) 3 4 waiting_os waiting_os-IsAlert

addextendedtask_lem_example : Added sizes adding_os 100 (addextendedtask sizes 7 2 2 100 adding_os)
addextendedtask_lem_example =
    addextendedtask_lem sizes (omega arith) (omega arith) (omega arith) adding_os 7 2 2 100
      no_extended-IsStacked (omega arith)
