-- ===== src/Lock.antt =====
-- The value behind a mutex: `task::lock`, `lock_guard` and `lock_guard_isr` of include/task/lock.hh.
--
-- A mutex of FreeRTOS is its handle, and whether it is free is kept by handle. The guards of all tasks and
-- interrupts are a list; one that was destroyed, or that never took a lock, has no mutex. A guard has the data of the
-- lock whose mutex it has, so the mutex stands for both. Any number of locks share the guards.
pub mod Exclusion
pub mod Lost
use ledfw_lib.Common.{
  ℕ, Bool, true, false, Option, none, some, List, [], ◌∷◌, ◌++◌, ◌==◌, if◌then◌else◌, ltb, length,
  get_or, set, Status, success, no_mem,
}

-- `lock::init`. `created` is what `xSemaphoreCreateMutex` gives.
unfoldable pub init : (created mutex : Option ℕ) → Status × Option ℕ
init created (some m) = (success, some m)
init (some m) none = (success, some m)
init none none = (no_mem, none)

-- `lock_guard` and `lock_guard_isr`
pub record Guard : Type 0 where
  pub mutex : Option ℕ

pub record World : Type 0 where
  pub is_free : ℕ → Bool
  pub guards : List Guard

-- The constructor of a guard
abbrev pub no_guard : Guard
no_guard = record { mutex = none }

abbrev pub with_free : (ℕ → Bool) → ℕ → Bool → ℕ → Bool
with_free is_free m b k = if m == k then b else is_free k

-- `take` and `take_from_isr` of the lock with mutex `m`, for guard `i`. What a take with a limit waits for is
-- what others do before it.
unfoldable pub take : (m i : ℕ) → World → Bool × World
take m i w =
    if w.is_free m
    then (
      true,
      record {
        is_free = with_free w.is_free m false;
        guards = set w.guards i (record { mutex = some m });
      },
    )
    else (false, w)

-- The destructor of guard `i`: `xSemaphoreGive` or `xSemaphoreGiveFromISR`
unfoldable pub destroy : (i : ℕ) → World → World
destroy i w = elim (get_or w.guards i no_guard).mutex [
  | none ↦ w
  | some m ↦ record { is_free = with_free w.is_free m true; guards = set w.guards i no_guard }
]

-- `as_ptr` and `as_ref`: whose data the guard gives access to; `none` is a failed assertion.
unfoldable pub as_ptr : (i : ℕ) → World → Option ℕ
as_ptr i w = (get_or w.guards i no_guard).mutex

-- What tasks and interrupts do, in any order. The number of a guard that is not there does nothing.
pub data Op : Type 0 where
  construct : Op
  takes : (m i : ℕ) → Op
  destroys : (i : ℕ) → Op

unfoldable pub step : Op → World → World
step construct w = record w { guards = w.guards ++ (no_guard ∷ []) }
step (takes m i) w = if ltb i (length w.guards) then (take m i w).1 else w
step (destroys i) w = destroy i w

unfoldable pub run : List Op → World → World
run [] w = w
run (op ∷ ops) w = run ops (step op w)

-- All mutexes are created free, and there is no guard yet.
unfoldable pub start : World
start = record { is_free = λ m. true; guards = [] }
