-- ===== src/Kernel/State.antt =====
-- The kernel's data: the structures of davros-3/kernel/h/dv-kernel.h, dv-coreconfig.h,
-- dv-executable.h, dv-thread.h, dv-semaphore.h, dv-event.h, dv-mempage.h, dv-error.h and the register
-- store of davros-3/cpufamily/arm/h/dv-arm-registers.h. The tables are functions of the index, a
-- pointer to an object of a table is its index, and priorities and counts are written as in `Dll`.
pub mod Steps
use davros.Base.{ℕ, ◌+◌, ◌*◌, Bool, Option, some, leb, ◌||◌, update}
use davros.Run.{Run, Cmd, ◌>>=◌, get, modify, deref, on_part}
use davros.Dll.{Ptr, Heap, load, edit}
use davros.RingBuffer.{RingBuffer, RbState, Bytes}
use davros.Allocator.{ObjAllocator}

-- The value 0 of a signed 32-bit number.
abbrev pub i32_zero : ℕ
i32_zero = 2147483648

abbrev pub dv_min_priority : ℕ
dv_min_priority = 1

pub data ErrorId : Type 0 where
  eid_none try_again index_out_of_range unconfigured_executable executable_quarantined : ErrorId
  invalid_pointer_parameter executable_creation_failed executable_is_non_blocking : ErrorId
  thread_job_queue_full time_in_the_past executable_not_suspended executable_not_idle : ErrorId
  executable_occupies_semaphore unknown_semaphore_protocol invalid_count_for_mutex : ErrorId
  unconfigured_semaphore semaphore_ceiling_too_low semaphore_occupied semaphore_not_occupied :
      ErrorId
  not_implemented unknown_error : ErrorId

-- The number of the error, as it goes into a register.
abbrev pub error_code : ErrorId → ℕ
error_code eid_none = 0
error_code try_again = 1
error_code index_out_of_range = 2
error_code unconfigured_executable = 3
error_code executable_quarantined = 4
error_code invalid_pointer_parameter = 5
error_code executable_creation_failed = 6
error_code executable_is_non_blocking = 7
error_code thread_job_queue_full = 8
error_code time_in_the_past = 9
error_code executable_not_suspended = 10
error_code executable_not_idle = 11
error_code executable_occupies_semaphore = 12
error_code unknown_semaphore_protocol = 13
error_code invalid_count_for_mutex = 14
error_code unconfigured_semaphore = 15
error_code semaphore_ceiling_too_low = 16
error_code semaphore_occupied = 17
error_code semaphore_not_occupied = 18
error_code not_implemented = 19
error_code unknown_error = 0x7fff_ffff

pub data ExeState : Type 0 where
  exe_free exe_disabled exe_idle exe_active exe_suspended exe_sleep : ExeState
  exe_lock_wait exe_event_wait : ExeState

pub data ThreadState : Type 0 where
  thread_idle thread_running thread_ready : ThreadState

pub data Protocol : Type 0 where
  semaphore_none semaphore_fifo semaphore_priority semaphore_inheritance : Protocol
  semaphore_deferredceiling semaphore_immediateceiling : Protocol

pub record ExeConfig : Type 0 where
  pub name : ℕ
  pub function : ℕ
  pub core : ℕ
  pub n_stack : ℕ
  pub priority : ℕ
  pub flags : ℕ

pub record Executable : Type 0 where
  pub name : ℕ
  pub function : ℕ
  pub thread : Option ℕ
  pub registers : Option ℕ
  pub dll_element : Option ℕ
  pub events : Option ℕ
  pub stackpage : Option ℕ
  pub initial_sp : ℕ
  pub semtaken : Option ℕ
  pub n_stack : ℕ
  pub id : ℕ
  pub baseprio : ℕ
  pub runprio : ℕ
  pub maxprio : ℕ
  pub flags : ℕ
  pub state : ExeState

abbrev pub flag_blocking : ℕ
flag_blocking = 8

abbrev pub flag_events : ℕ
flag_events = 16

abbrev pub flag_autodestroy : ℕ
flag_autodestroy = 32

-- The thread's `link` is the element at `thread_link` of its index.
pub record Thread : Type 0 where
  pub regs : Option ℕ
  pub executable : Option ℕ
  pub parent : Option ℕ
  pub jobqueue : Option ℕ
  pub state : ThreadState
  pub current_prio : ℕ
  pub n_exe : ℕ

pub record Registers : Type 0 where
  pub gpr0 : ℕ
  pub gpr1 : ℕ
  pub gpr2 : ℕ
  pub gpr3 : ℕ
  pub pc : ℕ
  pub cpsr : ℕ
  pub sp : ℕ
  pub lr : ℕ
  pub n_exe : ℕ

pub record EventStatus : Type 0 where
  pub pending_events : ℕ
  pub awaited_events : ℕ
  pub allocated : Bool

pub record MemPage : Type 0 where
  pub page : Option ℕ
  pub n_use : ℕ

-- The semaphore's `exe_queue` has its head at `semaphore_queue` of its index.
pub record Semaphore : Type 0 where
  pub name : ℕ
  pub owner : Option ℕ
  pub link : Option ℕ
  pub oldprio : ℕ
  pub ceiling : ℕ
  pub protocol : Protocol
  pub count : ℕ

-- The sizes of the tables, the numbers that the headers of a project fix, and what lies outside the
-- kernel: `clock k` is the k-th value read from the system timer, `execonfig_at p` is the
-- configuration that user memory holds at `p`, and `page_address i` is where page `i` lies.
pub record Config : Type 0 where
  pub n_executables : ℕ
  pub n_threads : ℕ
  pub n_registers : ℕ
  pub n_events : ℕ
  pub n_dll_elements : ℕ
  pub n_ringbuffers : ℕ
  pub n_ringbufferwords : ℕ
  pub n_semaphores : ℕ
  pub n_pages : ℕ
  pub page_size : ℕ
  pub page_gap : ℕ
  pub stack_extra : ℕ
  pub min_threadrb : ℕ
  pub round_threadrb : ℕ
  pub min_sleep : ℕ
  pub exit_address : ℕ
  pub page_address : ℕ → ℕ
  pub execonfig_at : ℕ → ExeConfig
  pub clock : ℕ → ℕ

-- `heap` holds every list element, `bytes` the array of ring buffer words. `reads` counts the reads
-- of the timer and `alarm` is the last value programmed into it.
pub record Kernel : Type 0 where
  pub current_thread : Option ℕ
  pub heap : Heap
  pub exe : ℕ → Executable
  pub thr : ℕ → Thread
  pub reg : ℕ → Registers
  pub evs : ℕ → EventStatus
  pub rbs : ℕ → RingBuffer
  pub sem : ℕ → Semaphore
  pub mem : ℕ → MemPage
  pub bytes : Bytes
  pub exe_allocator : ObjAllocator
  pub thr_allocator : ObjAllocator
  pub reg_allocator : ObjAllocator
  pub evs_allocator : ObjAllocator
  pub rb_allocator : ObjAllocator
  pub rbbuf_allocator : ObjAllocator
  pub dllelem_allocator : ObjAllocator
  pub page_allocator : ObjAllocator
  pub sem_allocator : ObjAllocator
  pub reads : ℕ
  pub alarm : Option ℕ

-- The addresses of the list elements: distinct objects have distinct addresses, and none is null.
abbrev pub thread_queue : Ptr
thread_queue = 1

abbrev pub sleep_queue : Ptr
sleep_queue = 2

abbrev pub thread_link : ℕ → Ptr
thread_link t = 4 * t + 4

abbrev pub dll_element_at : ℕ → Ptr
dll_element_at i = 4 * i + 5

abbrev pub semaphore_queue : ℕ → Ptr
semaphore_queue i = 4 * i + 6

-- More rounds than a ring of all the elements has.
abbrev pub walk_fuel : Config → ℕ
walk_fuel cfg = cfg.n_threads + cfg.n_dll_elements + 2

abbrev pub edit_exe : ℕ → (Executable → Executable) → Cmd Kernel (Unit {0})
edit_exe i f = modify λ k. record k { exe = update k.exe i (f (k.exe i)) }

abbrev pub edit_thr : ℕ → (Thread → Thread) → Cmd Kernel (Unit {0})
edit_thr i f = modify λ k. record k { thr = update k.thr i (f (k.thr i)) }

abbrev pub edit_reg : ℕ → (Registers → Registers) → Cmd Kernel (Unit {0})
edit_reg i f = modify λ k. record k { reg = update k.reg i (f (k.reg i)) }

abbrev pub edit_evs : ℕ → (EventStatus → EventStatus) → Cmd Kernel (Unit {0})
edit_evs i f = modify λ k. record k { evs = update k.evs i (f (k.evs i)) }

abbrev pub edit_sem : ℕ → (Semaphore → Semaphore) → Cmd Kernel (Unit {0})
edit_sem i f = modify λ k. record k { sem = update k.sem i (f (k.sem i)) }

abbrev pub edit_mem : ℕ → (MemPage → MemPage) → Cmd Kernel (Unit {0})
edit_mem i f = modify λ k. record k { mem = update k.mem i (f (k.mem i)) }

abbrev pub on_heap : {A : Type 0} → Cmd Heap A → Cmd Kernel A
on_heap = on_part (λ k. k.heap) (λ h k. record k { heap = h })

abbrev pub on_ringbuffer : {A : Type 0} → ℕ → Cmd RingBuffer A → Cmd Kernel A
on_ringbuffer i = on_part (λ k. k.rbs i) (λ rb k. record k { rbs = update k.rbs i rb })

abbrev pub on_queue : {A : Type 0} → ℕ → Cmd RbState A → Cmd Kernel A
on_queue i =
    on_part (λ k. record { rb = k.rbs i; bytes = k.bytes })
      (λ s k. record k { rbs = update k.rbs i s.rb; bytes = s.bytes })

-- `kvars->current_thread`, followed.
unfoldable pub current : Cmd Kernel ℕ
current = do k ← get; deref k.current_thread

unfoldable pub executable_of : ℕ → Cmd Kernel ℕ
executable_of t = do k ← get; deref (k.thr t).executable

-- The registers of the current thread, followed.
unfoldable pub current_regs : Cmd Kernel ℕ
current_regs = do t ← current; k ← get; deref (k.thr t).regs

unfoldable pub get_p0 : Cmd Kernel ℕ
get_p0 = do r ← current_regs; k ← get; λ s. Run.ok (k.reg r).gpr0 s

unfoldable pub get_p1 : Cmd Kernel ℕ
get_p1 = do r ← current_regs; k ← get; λ s. Run.ok (k.reg r).gpr1 s

unfoldable pub get_p2 : Cmd Kernel ℕ
get_p2 = do r ← current_regs; k ← get; λ s. Run.ok (k.reg r).gpr2 s

unfoldable pub set_rv0 : (r v : ℕ) → Cmd Kernel (Unit {0})
set_rv0 r v = edit_reg r (λ g. record g { gpr0 = v })

unfoldable pub set_rv1 : (r v : ℕ) → Cmd Kernel (Unit {0})
set_rv1 r v = edit_reg r (λ g. record g { gpr1 = v })

-- `dv_set_rv0(kvars->current_thread->regs, e)`
unfoldable pub return_error : ErrorId → Cmd Kernel (Unit {0})
return_error e = do r ← current_regs; set_rv0 r (error_code e)

unfoldable pub readtime : Config → Cmd Kernel ℕ
readtime cfg k = Run.ok (cfg.clock k.reads) (record k { reads = k.reads + 1 })

unfoldable pub set_system_timer_alarm : ℕ → Cmd Kernel (Unit {0})
set_system_timer_alarm t = modify λ k. record k { alarm = some t }

unfoldable pub get_prio : (t : ℕ) → Cmd Kernel ℕ
get_prio t = do x ← on_heap (load (thread_link t)); λ k. Run.ok x.i32_key k

unfoldable pub set_prio : (t p : ℕ) → Cmd Kernel (Unit {0})
set_prio t p = on_heap (edit (thread_link t) (λ x. record x { i32_key = p }))

-- `index < 0 || index >= n` of a 32-bit word read as a signed index.
abbrev pub out_of_range : (index n : ℕ) → Bool
out_of_range index n = leb i32_zero index || leb n index

-- The thread whose link the queue's head points at, or the null pointer if that is the head itself.
unfoldable pub threadqueuehead : Cmd Kernel (Option ℕ)
threadqueuehead = do
  head ← on_heap (load thread_queue)
  first ← on_heap (load head.successor)
  λ k. Run.ok first.payload k
