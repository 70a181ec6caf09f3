-- ===== src/RwLock/Exclusion.antt =====
-- What the lock promises its callers, in every reachable state.
use ledfw_lib.Common.{ℕ, ◌<◌, ◌^◌, ◌≡◌, ◌≢◌, refl, arith, ℕ_discrete, ◌⊎◌}
use mathlib.Core.Path.{fun_ext}
use ledfw_lib.RwLock.{
  RwLock, Pc, reading, writing, w_wait, idle, r_blocked, Move, initial, System, Reach,
}
use ledfw_lib.RwLock.Family.{sum_to, le-sum_to, add-le-sum_to, sum_to-eq-zero}
use ledfw_lib.RwLock.Weights.{
  first_reader, last_reader, has_read, has_block, counted_reader, first_writer, last_writer,
  has_write, counted_writer, in_write, counts,
}
use ledfw_lib.RwLock.Invariant.{IsSound, Reach-IsSound}

module _ {n : ℕ} {s : System} (few : n < 2 ^ 31) (r : Reach n s) where
  sound : IsSound n s.lock (counts n s.pc)
  sound = Reach-IsSound few r

  -- No task is in a `read` callback while one is in a `write` callback.
  pub read_write_exclusion : (i j : ℕ) → i < n → j < n → s.pc i ≡ reading → s.pc j ≢ writing
  read_write_exclusion i j hi hj ei ej =
      ground (arith, sound, le-sum_to counted_reader n s.pc i hi, le-sum_to in_write n s.pc j hj)

  -- Two tasks are never in `write` callbacks together.
  pub write_write_exclusion :
      (i j : ℕ) → i < n → j < n → s.pc i ≡ writing → s.pc j ≡ writing → i ≡ j
  write_write_exclusion i j hi hj ei ej = elim (ℕ_discrete i j) [
    | yes e ↦ e
    | no ne ↦ absurd (ground (arith, sound, add-le-sum_to in_write n s.pc i j hi hj ne))
  ]

  -- From the time that a writer waits for the readers to leave until it is done, no task can get past
  -- the first semaphore of `read`.
  pub writers_block_readers :
      (j : ℕ)
      → j < n
      → (s.pc j ≡ w_wait) ⊎ (s.pc j ≡ writing)
      → (l : RwLock) → ¬ Move s.lock idle l r_blocked
  writers_block_readers j hj e l (Move.take_block h) =
      ground (arith, sound, le-sum_to counted_writer n s.pc j hj)

  -- With every task out of `read` and `write` the lock is as `init` left it: no semaphore is lost and no
  -- count is off.
  pub idle-lock-eq-initial : ((i : ℕ) → s.pc i ≡ idle) → s.lock ≡ initial
  idle-lock-eq-initial quiet = ground (
    arith,
    sound,
    none_at first_reader refl,
    none_at last_reader refl,
    none_at has_read refl,
    none_at has_block refl,
    none_at counted_reader refl,
    none_at first_writer refl,
    none_at last_writer refl,
    none_at has_write refl,
    none_at counted_writer refl,
    none_at in_write refl,
  )
    where
      none_at : (w : Pc → ℕ) → w idle ≡ 0 → sum_to w n s.pc ≡ 0
      none_at w e = rw (fun_ext quiet) (sum_to-eq-zero w n idle e)
