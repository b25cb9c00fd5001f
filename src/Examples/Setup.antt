-- ===== src/Examples/Setup.antt =====
-- The configuration of davroska, in the sample state.
use davros.Davroska.State.{Os}
use davros.Davroska.Config.{createqueues}
use davros.Davroska.Config.Slots.{total_slots, HasSlots, createqueues_lem}
use davros.Examples.Davroska.{sizes, sample_os}
use davros.Base.{◌+◌, ◌≤◌, ◌<◌, ◌≡◌, ◌⊎◌, arith}
use davros.Run.{ok, panic, davroska, config_nslots_insufficient}

createqueues_lem_example :
    ((t : Os) × (createqueues sizes sample_os ≡ ok tt t)
      × (total_slots sample_os (sizes.maxprio + 2) 0 ≤ sizes.nslot + 1)
      × HasSlots sample_os t (sizes.maxprio + 2) 0 0 (sizes.nslot + 1))
    ⊎ ((sizes.nslot + 1 < total_slots sample_os (sizes.maxprio + 2) 0)
        × (createqueues sizes sample_os ≡ panic (davroska config_nslots_insufficient)))
createqueues_lem_example = createqueues_lem sizes sample_os (omega arith) (λ i. omega arith)
