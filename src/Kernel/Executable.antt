-- ===== src/Kernel/Executable.antt =====
-- The creation and destruction of executables: davros-3/kernel/c/dv-createexecutable.c and
-- dv-destroyexecutable.c.
use davros.Base.{
  ℕ, ◌+◌, ◌-◌, ◌*◌, ◌%◌, ◌^◌, Bool, true, false, Option, none, some, ◌==◌, if◌then◌else◌, bit_and,
  bit_or,
}
use davros.Run.{object_search_failed, Cmd, pure, dv_panic, ◌>>=◌, ◌>>◌, get, modify, skip, deref}
use davros.Allocator.{deallocate_obj}
use davros.Kernel.State.{
  Config, Kernel, ExeConfig, ExeState, exe_free, exe_disabled, exe_idle, flag_blocking, flag_events,
  i32_zero, edit_exe,
}
use davros.Kernel.Alloc.{
  allocate_from, allocate_thread, allocate_registers, allocate_eventstatus, allocate_dllelement,
  allocate_stack, deallocate_thread, deallocate_registers, deallocate_eventstatus,
  deallocate_dllelement,
}

abbrev pub is_exe_free : ExeState → Bool
is_exe_free exe_free = true
is_exe_free _ = false

-- The objects that the new executable `i` needs, in the order of the source.
module _ (cfg : Config) (i : ℕ) where
  unfoldable pub attach_thread : Cmd Kernel (Unit {0})
  attach_thread = do
    t ← allocate_thread cfg i
    edit_exe i (λ e. record e { thread = t })
    elim t [ none ↦ dv_panic object_search_failed | some _ ↦ skip ]

  unfoldable pub attach_registers : Cmd Kernel (Unit {0})
  attach_registers = do
    r ← allocate_registers cfg i
    edit_exe i (λ e. record e { registers = r })
    elim r [ none ↦ dv_panic object_search_failed | some _ ↦ skip ]

  unfoldable pub attach_events : Cmd Kernel (Unit {0})
  attach_events = do
    k ← get
    if bit_and (k.exe i).flags flag_events == 0 then skip else do
      edit_exe i (λ e. record e { flags = bit_or e.flags flag_blocking })
      v ← allocate_eventstatus cfg
      edit_exe i (λ e. record e { events = v })
      elim v [ none ↦ dv_panic object_search_failed | some _ ↦ skip ]

  unfoldable pub attach_dllelement : Cmd Kernel (Unit {0})
  attach_dllelement = do
    k ← get
    if bit_and (k.exe i).flags flag_blocking == 0 then skip else do
      d ← allocate_dllelement cfg
      edit_exe i (λ e. record e { dll_element = d })
      elim d [ none ↦ dv_panic object_search_failed | some _ ↦ skip ]

  -- The stack pointer starts at word `n_stack - DV_STACKEXTRA` of the page.
  unfoldable pub attach_stack : Cmd Kernel (Unit {0})
  attach_stack = do
    p ← allocate_stack cfg i
    edit_exe i (λ e. record e { stackpage = p })
    elim p [
      | none ↦ dv_panic object_search_failed
      | some m ↦ do
        k ← get
        page ← deref (k.mem m).page
        edit_exe i (λ e. record e {
          initial_sp =
              (cfg.page_address page + 4 * e.n_stack + 2 ^ 32 - 4 * cfg.stack_extra) % 2 ^ 32;
        })
    ]

  unfoldable pub configure_executable : ExeConfig → Cmd Kernel (Unit {0})
  configure_executable execfg = edit_exe i (λ e. record e {
    name = execfg.name;
    function = execfg.function;
    id = i;
    baseprio = execfg.priority;
    runprio = execfg.priority;
    maxprio = execfg.priority;
    n_stack = execfg.n_stack;
    flags = execfg.flags;
    state = exe_disabled;
    thread = none;
    registers = none;
    events = none;
    dll_element = none;
    stackpage = none;
  })

unfoldable pub create_executable : Config → ExeConfig → Cmd Kernel ℕ
create_executable cfg execfg = do
  exe_i ←
      allocate_from (λ k. k.exe_allocator) (λ a k. record k { exe_allocator = a }) cfg.n_executables
        (λ k j. is_exe_free (k.exe j).state)
  elim exe_i [
    | none ↦ dv_panic object_search_failed
    | some i ↦ do
      configure_executable cfg i execfg
      attach_thread cfg i
      attach_registers cfg i
      attach_events cfg i
      attach_dllelement cfg i
      attach_stack cfg i
      edit_exe i (λ e. record e { state = exe_idle })
      pure i
  ]

-- A pointer of the executable: if it is not null the object is freed and the pointer cleared.
abbrev release :
    Option ℕ → (ℕ → Cmd Kernel (Unit {0})) → Cmd Kernel (Unit {0}) → Cmd Kernel (Unit {0})
release none free clear = skip
release (some i) free clear = do free i; clear

unfoldable pub destroy_executable : (exe : ℕ) → Cmd Kernel (Unit {0})
destroy_executable exe = do
  k ← get
  -- dv_deallocate_stack has an empty body
  release (k.exe exe).stackpage (λ _. skip) (edit_exe exe (λ e. record e { stackpage = none }))
  release (k.exe exe).dll_element deallocate_dllelement
      (edit_exe exe (λ e. record e { dll_element = none }))
  release (k.exe exe).events deallocate_eventstatus (edit_exe exe (λ e. record e { events = none }))
  release (k.exe exe).registers deallocate_registers
      (edit_exe exe (λ e. record e { registers = none }))
  release (k.exe exe).thread deallocate_thread (edit_exe exe (λ e. record e { thread = none }))
  edit_exe exe (λ e. record e {
    name = 0;
    function = 0;
    id = 2 ^ 32 - 1;
    baseprio = i32_zero;
    runprio = i32_zero;
    maxprio = i32_zero;
    n_stack = 0;
    flags = 0;
    state = exe_free;
  })
  modify (λ s. record s { exe_allocator = deallocate_obj s.exe_allocator })
