-- ===== src/RwLock.antt =====
-- `task::rw_lock` of include/task.hh: any number of tasks that call `read` and `write` on one lock.
--
-- A task's place in the code is a `Pc`; one `Move` is one semaphore call or one update of a counter
-- under its mutex. `xSemaphoreTake(…, portMAX_DELAY)` moves only when the semaphore is there to
-- take. The three overloads of `read`, and those of `write`, differ only in the arguments of `func`,
-- and share one model. Tasks are interleaved in any order.
pub mod Family
pub mod Weights
pub mod Invariant
pub mod Exclusion
pub mod Progress
pub mod Create
use ledfw_lib.Common.{ℕ, ◌-◌, ◌≤◌, ◌<◌, ◌≡◌, ◌≢◌, add_size, sub_size}
use ledfw_lib.RwLock.Family.{update}

-- A semaphore is 1 when it is there to take, and 0 when it is taken.
pub record RwLock : Type 0 where
  pub block_readers : ℕ
  pub write_lock : ℕ
  pub read_lock : ℕ
  pub resource_lock : ℕ
  pub n_readers : ℕ
  pub n_writers : ℕ

pub data Pc : Type 0 where
  idle : Pc
  -- in `read`
  r_blocked : Pc  -- has `block_readers`
  r_enter : Pc  -- has `read_lock` too, before `++n_readers`
  r_first : Pc  -- before the take of `resource_lock`
  r_entered : Pc  -- before the give of `read_lock`
  r_unblock : Pc  -- before the give of `block_readers`
  reading : Pc  -- in `func`
  r_leave : Pc  -- has `read_lock`, before `--n_readers`
  r_last : Pc  -- before the give of `resource_lock`
  r_left : Pc  -- before the last give of `read_lock`
  -- in `write`
  w_enter : Pc  -- has `write_lock`, before `++n_writers`
  w_first : Pc  -- before the take of `block_readers`
  w_entered : Pc  -- before the give of `write_lock`
  w_wait : Pc  -- before the take of `resource_lock`
  writing : Pc  -- in `func`
  w_done : Pc  -- after the give of `resource_lock`
  w_leave : Pc  -- has `write_lock`, before `--n_writers`
  w_last : Pc  -- before the give of `block_readers`
  w_left : Pc  -- before the last give of `write_lock`

pub data Move (l : RwLock) : Pc → RwLock → Pc → Type 0 where
  take_block :
      1 ≤ l.block_readers → Move l idle (record l { block_readers = l.block_readers - 1 }) r_blocked
  take_read : 1 ≤ l.read_lock → Move l r_blocked (record l { read_lock = l.read_lock - 1 }) r_enter
  count_first :
      add_size l.n_readers 1 ≡ 1
      → Move l r_enter (record l { n_readers = add_size l.n_readers 1 }) r_first
  count_more :
      add_size l.n_readers 1 ≢ 1
      → Move l r_enter (record l { n_readers = add_size l.n_readers 1 }) r_entered
  take_resource :
      1 ≤ l.resource_lock
      → Move l r_first (record l { resource_lock = l.resource_lock - 1 }) r_entered
  give_read : Move l r_entered (record l { read_lock = 1 }) r_unblock
  give_block : Move l r_unblock (record l { block_readers = 1 }) reading
  retake_read : 1 ≤ l.read_lock → Move l reading (record l { read_lock = l.read_lock - 1 }) r_leave
  uncount_last :
      sub_size l.n_readers 1 ≡ 0
      → Move l r_leave (record l { n_readers = sub_size l.n_readers 1 }) r_last
  uncount_more :
      sub_size l.n_readers 1 ≢ 0
      → Move l r_leave (record l { n_readers = sub_size l.n_readers 1 }) r_left
  give_resource : Move l r_last (record l { resource_lock = 1 }) r_left
  regive_read : Move l r_left (record l { read_lock = 1 }) idle
  take_write : 1 ≤ l.write_lock → Move l idle (record l { write_lock = l.write_lock - 1 }) w_enter
  writer_first :
      add_size l.n_writers 1 ≡ 1
      → Move l w_enter (record l { n_writers = add_size l.n_writers 1 }) w_first
  writer_more :
      add_size l.n_writers 1 ≢ 1
      → Move l w_enter (record l { n_writers = add_size l.n_writers 1 }) w_entered
  block :
      1 ≤ l.block_readers
      → Move l w_first (record l { block_readers = l.block_readers - 1 }) w_entered
  give_write : Move l w_entered (record l { write_lock = 1 }) w_wait
  start_write :
      1 ≤ l.resource_lock → Move l w_wait (record l { resource_lock = l.resource_lock - 1 }) writing
  end_write : Move l writing (record l { resource_lock = 1 }) w_done
  retake_write :
      1 ≤ l.write_lock → Move l w_done (record l { write_lock = l.write_lock - 1 }) w_leave
  unwriter_last :
      sub_size l.n_writers 1 ≡ 0
      → Move l w_leave (record l { n_writers = sub_size l.n_writers 1 }) w_last
  unwriter_more :
      sub_size l.n_writers 1 ≢ 0
      → Move l w_leave (record l { n_writers = sub_size l.n_writers 1 }) w_left
  unblock : Move l w_last (record l { block_readers = 1 }) w_left
  regive_write : Move l w_left (record l { write_lock = 1 }) idle

-- The lock after `init`.
abbrev pub initial : RwLock
initial = record {
  block_readers = 1;
  write_lock = 1;
  read_lock = 1;
  resource_lock = 1;
  n_readers = 0;
  n_writers = 0;
}

-- The lock and the place of each task. A task from `n` on never moves.
pub record System : Type 0 where
  pub lock : RwLock
  pub pc : ℕ → Pc

abbrev pub start_system : System
start_system = record { lock = initial; pc = λ _. idle }

pub data Step (n : ℕ) (s : System) : System → Type 0 where
  pick :
      (i : ℕ) {l : RwLock} {p : Pc}
      → i < n
      → Move s.lock (s.pc i) l p
      → Step n s (record { lock = l; pc = update s.pc i p })

-- The states that `n` tasks can reach from a fresh lock.
pub data Reach (n : ℕ) : System → Type 0 where
  start : Reach n start_system
  later : {s t : System} → Reach n s → Step n s t → Reach n t
