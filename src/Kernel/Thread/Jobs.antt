-- ===== src/Kernel/Thread/Jobs.antt =====
-- Jobs wait for a busy thread: `dv_enqueue_job_in_jobqueue` and what spawns of an executable do.
use davros.Base.{
  ℕ, ◌+◌, ◌%◌, ◌<◌, ◌≡◌, ◌≢◌, ◌⊎◌, refl, inl, inr, some, [], List, ◌∷◌, ◌++◌, arith, update, length,
  ◌==◌, if◌then◌else◌,
}
use davros.Run.{ok}
use davros.RingBuffer.{RbState, rb_append_simple}
use davros.RingBuffer.Bytes.{width_limit}
use davros.RingBuffer.Queue.{rb_append_simple_lem}
use davros.Kernel.State.{Config, Kernel, eid_none, thread_job_queue_full}
use davros.Kernel.Thread.{get_thread_jobqueue, enqueue_job_in_jobqueue}
use davros.Kernel.Thread.Leaving.{JobQueue}

-- `k'` is `k` but for ring buffer `j` and the bytes of the buffers.
pub record SameButJobs (k k' : Kernel) (j : ℕ) : Type 0 where
  pub rbs_at : (i : ℕ) → i ≢ j → k'.rbs i ≡ k.rbs i
  pub heap_is : k'.heap ≡ k.heap
  pub exe_is : k'.exe ≡ k.exe
  pub thr_is : k'.thr ≡ k.thr
  pub current_is : k'.current_thread ≡ k.current_thread

module _ (cfg : Config) (k : Kernel) (exe t j base : ℕ) (ids : List ℕ)
    (has_thread : (k.exe exe).thread ≡ some t) (has_queue : (k.thr t).jobqueue ≡ some j)
    (jobs : JobQueue k j base ids) where
  get_thread_jobqueue-ok : get_thread_jobqueue cfg exe k ≡ ok j k
  unfolding get_thread_jobqueue
  get_thread_jobqueue-ok = ground (arith, has_thread, has_queue)

  enqueue_run :
      (n : ℕ) (s : RbState)
      → rb_append_simple (k.exe exe).id (record { rb = k.rbs j; bytes = k.bytes }) ≡ ok n s
      → enqueue_job_in_jobqueue cfg exe k
        ≡ ok
            (if n == 0 then thread_job_queue_full else eid_none)
            (record k { rbs = update k.rbs j s.rb; bytes = s.bytes })
  unfolding enqueue_job_in_jobqueue
  enqueue_run n s run = rw (get_thread_jobqueue-ok, run)

  after_enqueue :
      (s : RbState) → SameButJobs k (record k { rbs = update k.rbs j s.rb; bytes = s.bytes }) j
  after_enqueue s = record {
    rbs_at = λ i d. ground arith;
    heap_is = refl;
    exe_is = refl;
    thr_is = refl;
    current_is = refl;
  }

  -- If the executable's thread has a job queue that holds some jobs, then with room in it the
  -- executable's id, cut to the element size, becomes the youngest job and the answer is no error,
  -- and with no room the jobs stay as they are and the answer is that the queue is full. In both
  -- cases no other ring buffer, no list element, no executable and no thread changes.
  pub enqueue_job_in_jobqueue_lem :
      ((length ids + 1 < (k.rbs j).length)
        × ((k' : Kernel) × (enqueue_job_in_jobqueue cfg exe k ≡ ok eid_none k')
            × JobQueue k' j base (ids ++ ((k.exe exe).id % width_limit (k.rbs j).size) ∷ [])
            × SameButJobs k k' j))
      ⊎ ((length ids + 1 ≡ (k.rbs j).length)
          × ((k' : Kernel) × (enqueue_job_in_jobqueue cfg exe k ≡ ok thread_job_queue_full k')
              × JobQueue k' j base ids
              × SameButJobs k k' j))
  enqueue_job_in_jobqueue_lem = elim (rb_append_simple_lem jobs (k.exe exe).id) [
    | inl (room, (s, run, queue, _)) ↦ inl (
      room,
      (
        record k { rbs = update k.rbs j s.rb; bytes = s.bytes },
        enqueue_run 1 s run,
        (let self : update k.rbs j s.rb j ≡ s.rb = ground arith in rw self queue),
        after_enqueue s,
      ),
    )
    | inr (full, run) ↦
        let s : RbState = record { rb = k.rbs j; bytes = k.bytes } in
        inr (
          full,
          (
            record k { rbs = update k.rbs j s.rb; bytes = s.bytes },
            enqueue_run 0 s run,
            (let self : update k.rbs j s.rb j ≡ s.rb = ground arith in rw self jobs),
            after_enqueue s,
          ),
        )
  ]
