-- ===== src/Run.antt =====
-- The outcome of kernel code: it returns, panics, faults or runs out of fuel.
-- `Panic` and `dv_assert` are those of davros-3/kernel/h/dv-error.h, with assertions switched on
-- (the default of davros-3/kernel/h/dv-kconfig.h). `dv_panic` does not return. A fault is a read or a
-- write through a null pointer, which C leaves undefined.
use davros.Base.{ℕ, Bool, Option, none, some, if◌then◌else◌}

-- The panics of davroska, `dv_panic_t` of davroska/h/davroska.h.
pub data PanicCode : Type 0 where
  config_nslots_insufficient queue_overflow queue_corrupt current_exe_corrupt : PanicCode
  current_exe_dead alarm_corrupt return_from_longjmp mutex_occupied : PanicCode
  unconfigured_interrupt idle_creation counter_overflow no_kernel_anchor : PanicCode
  unknown_request exception unexpected_hardware_response undefined_panic : PanicCode

pub data Panic : Type 0 where
  unimplemented hardware_error initialisation_error internal_error unknown_queue_type : Panic
  thread_queue_empty current_thread_not_queue_head object_search_failed : Panic
  ringbuffer_not_allocated ringbuffer_wrong_type ringbuffer_invalid_size : Panic
  semaphore_count_error semaphore_occupied : Panic
  davroska : PanicCode → Panic

pub data Run (S : Type 0) (A : Type 0) : Type 0 where
  ok : A → S → Run S A
  panic : Panic → Run S A
  fault : Run S A
  out_of_fuel : Run S A

-- A command on a state `S`.
abbrev pub Cmd : Type 0 → Type 0 → Type 0
Cmd S A = S → Run S A

module _ {S : Type 0} where
  abbrev pub pure : {A : Type 0} → A → Cmd S A
  pure a s = ok a s

  abbrev pub and_then : {A B : Type 0} → Run S A → (A → Cmd S B) → Run S B
  and_then (ok a s) f = f a s
  and_then (panic p) f = panic p
  and_then fault f = fault
  and_then out_of_fuel f = out_of_fuel

  infixl 5 ◌>>=◌ ◌>>◌
  abbrev pub ◌>>=◌ : {A B : Type 0} → Cmd S A → (A → Cmd S B) → Cmd S B
  m >>= f = λ s. and_then (m s) f

  abbrev pub ◌>>◌ : {B : Type 0} → Cmd S (Unit {0}) → Cmd S B → Cmd S B
  m >> k = m >>= λ _. k

  abbrev pub dv_panic : {A : Type 0} → Panic → Cmd S A
  dv_panic p s = panic p

  abbrev pub get : Cmd S S
  get s = ok s s

  abbrev pub modify : (S → S) → Cmd S (Unit {0})
  modify f s = ok tt (f s)

  abbrev pub skip : Cmd S (Unit {0})
  skip s = ok tt s

  -- Following a pointer to an object of a table.
  abbrev pub deref : Option ℕ → Cmd S ℕ
  deref none s = fault
  deref (some i) s = ok i s

  abbrev pub dv_assert : Bool → Panic → Cmd S (Unit {0})
  dv_assert c p = if c then skip else dv_panic p

-- A command on a part of the state.
module _ {S T : Type 0} where
  abbrev pub put_back : {A : Type 0} → (T → S → S) → S → Run T A → Run S A
  put_back put s (ok a t) = ok a (put t s)
  put_back put s (panic p) = panic p
  put_back put s fault = fault
  put_back put s out_of_fuel = out_of_fuel

  abbrev pub on_part : {A : Type 0} → (S → T) → (T → S → S) → Cmd T A → Cmd S A
  on_part part put m = λ s. put_back put s (m (part s))
