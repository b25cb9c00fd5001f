-- ===== src/Kernel/Alloc.antt =====
-- The allocation of kernel objects: davros-3/kernel/c/dv-allocatethread.c, dv-allocateregisters.c,
-- dv-allocateeventstatus.c, dv-allocatedllelement.c, dv-allocateringbuffer.c, dv-allocatepage.c,
-- dv-allocatestack.c and dv-allocatebuf.c. A null pointer is `none`.
use davros.Base.{
  ℕ, zero, suc, ◌+◌, ◌-◌, ◌*◌, ◌/◌, Bool, true, false, not, ◌&&◌, ◌||◌, Option, none, some, ◌==◌,
  ltb, leb, is_some, if◌then◌else◌, bit_and,
}
use davros.Run.{
  unimplemented, initialisation_error, Run, Cmd, pure, dv_panic, dv_assert, ◌>>=◌, ◌>>◌, get,
  modify, skip,
}
use davros.Dll.{dll_free, dll_thread, dll_exe, PayloadType, edit}
use davros.RingBuffer.{RbType, rb_unused, rb_reserved}
use davros.Allocator.{ObjAllocator, allocate_obj, allocate_buf, deallocate_obj}
use davros.Kernel.State.{
  Config, Kernel, Executable, flag_blocking, thread_link, dll_element_at, edit_thr, edit_reg,
  edit_evs, edit_mem, on_heap, on_ringbuffer,
}

-- `dv_allocate_obj` on one of the kernel's allocators.
abbrev pub allocate_from :
    (Kernel → ObjAllocator)
    → (ObjAllocator → Kernel → Kernel)
    → ℕ
    → (Kernel → ℕ → Bool)
    → Cmd Kernel (Option ℕ)
allocate_from part put n is_free k =
    let r = allocate_obj (part k) n (is_free k) in Run.ok r.1 (put r.0 k)

-- The loops that look for an executable to share with: the first index from `i` that fits.
unfoldable pub find_sharer : (ℕ → Bool) → (rounds i : ℕ) → Option ℕ
find_sharer fits zero i = none
find_sharer fits (suc rounds) i =
    let rest = find_sharer fits rounds (i + 1) in if fits i then some i else rest

-- C's `a && b` on integers, as an integer.
unfoldable pub logical_and : ℕ → ℕ → ℕ
logical_and a b = if (a == 0) || (b == 0) then 0 else 1

unfoldable pub shares_thread : Executable → Executable → Bool
shares_thread exe other =
    not (other.name == 0) && (other.baseprio == exe.baseprio) && is_some other.thread

unfoldable pub shares_registers : Executable → Executable → Bool
shares_registers exe other =
    not (other.name == 0)
    && (other.baseprio == exe.baseprio)
    && (logical_and other.flags flag_blocking == 0)
    && is_some other.registers

unfoldable pub shares_stack : Executable → Executable → Bool
shares_stack exe other =
    not (other.name == 0)
    && (other.baseprio == exe.baseprio)
    && (logical_and other.flags flag_blocking == 0)
    && is_some other.stackpage

module _ (cfg : Config) where
  unfoldable pub allocate_new_thread : Cmd Kernel (Option ℕ)
  allocate_new_thread = do
    thr_i ←
        allocate_from (λ k. k.thr_allocator) (λ a k. record k { thr_allocator = a }) cfg.n_threads
          (λ k i. (k.thr i).n_exe == 0)
    elim thr_i [
      | none ↦ pure none
      | some i ↦ do
        edit_thr i (λ t. record t { n_exe = 1; jobqueue = none })
        on_heap
            (edit (thread_link i) (λ x. record x { payload_type = dll_thread; payload = some i }))
        pure (some i)
    ]

  -- `exe` is the index of the executable that the thread is for.
  unfoldable pub allocate_thread : (exe : ℕ) → Cmd Kernel (Option ℕ)
  allocate_thread exe = do
    k ← get
    elim (find_sharer (λ i. shares_thread (k.exe exe) (k.exe i)) cfg.n_executables 0) [
      | none ↦ allocate_new_thread
      | some i ↦ elim ((k.exe i).thread) [
        | none ↦ allocate_new_thread
        | some t ↦ do edit_thr t (λ x. record x { n_exe = x.n_exe + 1 }); pure (some t)
      ]
    ]

  unfoldable pub allocate_new_registers : Cmd Kernel (Option ℕ)
  allocate_new_registers = do
    reg_i ←
        allocate_from (λ k. k.reg_allocator) (λ a k. record k { reg_allocator = a }) cfg.n_registers
          (λ k i. (k.reg i).n_exe == 0)
    elim reg_i [
      | none ↦ pure none
      | some i ↦ do edit_reg i (λ r. record r { n_exe = 1 }); pure (some i)
    ]

  unfoldable pub allocate_registers : (exe : ℕ) → Cmd Kernel (Option ℕ)
  allocate_registers exe = do
    k ← get
    if bit_and (k.exe exe).flags flag_blocking == 0
        then elim (find_sharer (λ i. shares_registers (k.exe exe) (k.exe i)) cfg.n_executables 0) [
          | none ↦ allocate_new_registers
          | some i ↦ elim ((k.exe i).registers) [
            | none ↦ allocate_new_registers
            | some r ↦ do edit_reg r (λ x. record x { n_exe = x.n_exe + 1 }); pure (some r)
          ]
        ]
        else allocate_new_registers

  unfoldable pub allocate_eventstatus : Cmd Kernel (Option ℕ)
  allocate_eventstatus = do
    evs_i ←
        allocate_from (λ k. k.evs_allocator) (λ a k. record k { evs_allocator = a }) cfg.n_events
          (λ k i. not (k.evs i).allocated)
    elim evs_i [
      | none ↦ pure none
      | some i ↦ do edit_evs i (λ e. record e { allocated = true }); pure (some i)
    ]

  abbrev is_free_payload : PayloadType → Bool
  is_free_payload dll_free = true
  is_free_payload dll_thread = false
  is_free_payload dll_exe = false

  unfoldable pub allocate_dllelement : Cmd Kernel (Option ℕ)
  allocate_dllelement = do
    elem_i ←
        allocate_from (λ k. k.dllelem_allocator) (λ a k. record k { dllelem_allocator = a })
          cfg.n_dll_elements (λ k i. is_free_payload (k.heap (dll_element_at i)).payload_type)
    elim elem_i [
      | none ↦ pure none
      | some i ↦ do
        on_heap (edit (dll_element_at i) (λ x. record x { payload_type = dll_exe }))
        pure (some i)
    ]

  abbrev is_unused : RbType → Bool
  is_unused rb_unused = true
  is_unused _ = false

  unfoldable pub allocate_ringbuffer : Cmd Kernel (Option ℕ)
  allocate_ringbuffer = do
    rb_i ←
        allocate_from (λ k. k.rb_allocator) (λ a k. record k { rb_allocator = a }) cfg.n_ringbuffers
          (λ k i. is_unused (k.rbs i).rb_type)
    elim rb_i [
      | none ↦ pure none
      | some i ↦ do
        on_ringbuffer i (λ rb. Run.ok tt (record rb { rb_type = rb_reserved }))
        pure (some i)
    ]

  -- The page is mapped and cleared on the way, which changes no kernel data.
  unfoldable pub allocate_page : Cmd Kernel (Option ℕ)
  allocate_page = do
    page_i ←
        allocate_from (λ k. k.page_allocator) (λ a k. record k { page_allocator = a }) cfg.n_pages
          (λ k i. (k.mem i).n_use == 0)
    elim page_i [
      | none ↦ pure none
      | some i ↦ do
        edit_mem i (λ m. record m { n_use = 1 })
        edit_mem i (λ m. record m { page = some i })
        pure (some i)
    ]

  unfoldable pub allocate_stack : (exe : ℕ) → Cmd Kernel (Option ℕ)
  allocate_stack exe = do
    k ← get
    if ltb (cfg.page_size - cfg.page_gap) ((k.exe exe).n_stack * 4)
        then dv_panic unimplemented
        else if bit_and (k.exe exe).flags flag_blocking == 0
        then elim (find_sharer (λ i. shares_stack (k.exe exe) (k.exe i)) cfg.n_executables 0) [
          | none ↦ allocate_page
          | some i ↦ elim ((k.exe i).stackpage) [
            | none ↦ allocate_page
            | some p ↦ do edit_mem p (λ x. record x { n_use = x.n_use + 1 }); pure (some p)
          ]
        ]
        else allocate_page

-- The buffer storage of ring buffer `i`.
unfoldable pub rb_allocate : ℕ → Cmd Kernel (Unit {0})
rb_allocate i = do
  on_ringbuffer i (λ rb. Run.ok tt (record rb { n_alloc = (rb.size * rb.length + 3) / 4 }))
  k ← get
  let r = allocate_buf k.rbbuf_allocator (k.rbs i).n_alloc
  modify (λ s. record s { rbbuf_allocator = r.0 })
  elim (r.1) [
    | none ↦ do
      on_ringbuffer i (λ rb. Run.ok tt (record rb { n_alloc = 0 }))
      dv_panic initialisation_error
    | some b ↦ on_ringbuffer i (λ rb. Run.ok tt (record rb { buf = some b }))
  ]

unfoldable pub deallocate_thread : ℕ → Cmd Kernel (Unit {0})
deallocate_thread t = do
  k ← get
  dv_assert (ltb 0 (k.thr t).n_exe) initialisation_error
  edit_thr t (λ x. record x { n_exe = x.n_exe - 1 })
  k' ← get
  if leb (k'.thr t).n_exe 0
      then modify (λ s. record s { thr_allocator = deallocate_obj s.thr_allocator })
      else skip

unfoldable pub deallocate_registers : ℕ → Cmd Kernel (Unit {0})
deallocate_registers r = do
  k ← get
  dv_assert (ltb 0 (k.reg r).n_exe) initialisation_error
  edit_reg r (λ x. record x { n_exe = x.n_exe - 1 })
  k' ← get
  if leb (k'.reg r).n_exe 0
      then modify (λ s. record s { reg_allocator = deallocate_obj s.reg_allocator })
      else skip

unfoldable pub deallocate_eventstatus : ℕ → Cmd Kernel (Unit {0})
deallocate_eventstatus i = do
  edit_evs i (λ e. record e { allocated = false })
  modify (λ s. record s { evs_allocator = deallocate_obj s.evs_allocator })

unfoldable pub deallocate_dllelement : ℕ → Cmd Kernel (Unit {0})
deallocate_dllelement i = do
  on_heap (edit (dll_element_at i) (λ x. record x { payload_type = dll_free }))
  modify (λ s. record s { dllelem_allocator = deallocate_obj s.dllelem_allocator })

unfoldable pub deallocate_page : ℕ → Cmd Kernel (Unit {0})
deallocate_page p = do
  k ← get
  dv_assert (ltb 0 (k.mem p).n_use) initialisation_error
  edit_mem p (λ m. record m { n_use = m.n_use - 1 })
  k' ← get
  if leb (k'.mem p).n_use 0
      then modify (λ s. record s { page_allocator = deallocate_obj s.page_allocator })
      else skip
