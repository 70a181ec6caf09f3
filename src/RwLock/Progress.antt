-- ===== src/RwLock/Progress.antt =====
-- Which tasks of `task::rw_lock` can move.
use ledfw_lib.Common.{
  ℕ, ◌+◌, ◌≤◌, ◌<◌, ◌^◌, ◌≡◌, ◌≢◌, refl, arith, dec_lt, ℕ_discrete, add_size, sub_size,
}
use ledfw_lib.RwLock.{
  RwLock, Pc, idle, r_blocked, r_enter, r_first, r_entered, r_unblock, reading, r_leave, r_last,
  r_left, w_enter, w_first, w_entered, w_wait, writing, w_done, w_leave, w_last, w_left, Move,
  System, Reach,
}
use ledfw_lib.RwLock.Family.{sum_to, le-sum_to, find_task, sum_to_mono}
use ledfw_lib.RwLock.Weights.{
  first_reader, last_reader, has_read, has_block, counted_reader, first_writer, last_writer,
  has_write, in_write, counts,
}
use ledfw_lib.RwLock.Invariant.{IsSound, Reach-IsSound}

-- Places where a task waits for nobody.
abbrev free : Pc → ℕ
free idle = 0
free r_blocked = 0
free r_first = 0
free reading = 0
free w_first = 0
free w_wait = 0
free w_done = 0
free _ = 1

abbrev pub Next : RwLock → Pc → Type 0
Next l p = (l' : RwLock) × (p' : Pc) × Move l p l' p'

-- A task in `read` or `write` that can move.
abbrev pub Progress : ℕ → System → Type 0
Progress n s = (i : ℕ) × (i < n) × (s.pc i ≢ idle) × Next s.lock (s.pc i)

free-Next : (l : RwLock) (p : Pc) → 0 < free p → (p ≢ idle) × Next l p
free-Next l r_enter h = elim (ℕ_discrete (add_size l.n_readers 1) 1) [
  | yes e ↦ (λ q. cc, (_, _, Move.count_first e))
  | no e ↦ (λ q. cc, (_, _, Move.count_more e))
]
free-Next l r_entered h = (λ q. cc, (_, _, Move.give_read))
free-Next l r_unblock h = (λ q. cc, (_, _, Move.give_block))
free-Next l r_leave h = elim (ℕ_discrete (sub_size l.n_readers 1) 0) [
  | yes e ↦ (λ q. cc, (_, _, Move.uncount_last e))
  | no e ↦ (λ q. cc, (_, _, Move.uncount_more e))
]
free-Next l r_last h = (λ q. cc, (_, _, Move.give_resource))
free-Next l r_left h = (λ q. cc, (_, _, Move.regive_read))
free-Next l w_enter h = elim (ℕ_discrete (add_size l.n_writers 1) 1) [
  | yes e ↦ (λ q. cc, (_, _, Move.writer_first e))
  | no e ↦ (λ q. cc, (_, _, Move.writer_more e))
]
free-Next l w_entered h = (λ q. cc, (_, _, Move.give_write))
free-Next l writing h = (λ q. cc, (_, _, Move.end_write))
free-Next l w_leave h = elim (ℕ_discrete (sub_size l.n_writers 1) 0) [
  | yes e ↦ (λ q. cc, (_, _, Move.unwriter_last e))
  | no e ↦ (λ q. cc, (_, _, Move.unwriter_more e))
]
free-Next l w_last h = (λ q. cc, (_, _, Move.unblock))
free-Next l w_left h = (λ q. cc, (_, _, Move.regive_write))
free-Next l _ h = absurd (omega arith)

module _ {n : ℕ} {s : System} (few : n < 2 ^ 31) (r : Reach n s) where
  sound : IsSound n s.lock (counts n s.pc)
  sound = Reach-IsSound few r

  task-Progress : (i : ℕ) → i < n → (s.pc i ≢ idle) × Next s.lock (s.pc i) → Progress n s
  task-Progress i lt h = (i, lt, h.0, h.1)

  -- A reader that waits for the resource can take it, if no writer has it.
  first_reader-Next :
      (p : Pc) → 0 < first_reader p → 1 ≤ s.lock.resource_lock → (p ≢ idle) × Next s.lock p
  first_reader-Next r_first h a = (λ q. cc, (_, _, Move.take_resource a))
  first_reader-Next _ h a = absurd (omega arith)

  reader-Next :
      (p : Pc)
      → 0 < counted_reader p
      → free p ≡ 0
      → 1 ≤ s.lock.read_lock
      → (p ≢ idle) × Next s.lock p
  reader-Next reading h f a = (λ q. cc, (_, _, Move.retake_read a))
  reader-Next _ h f a = absurd (omega arith)

  block-Next :
      (p : Pc)
      → 0 < has_block p
      → free p ≡ 0
      → first_reader p ≡ 0
      → 1 ≤ s.lock.read_lock
      → (p ≢ idle) × Next s.lock p
  block-Next r_blocked h f g a = (λ q. cc, (_, _, Move.take_read a))
  block-Next _ h f g a = absurd (omega arith)

  first_writer-Next :
      (p : Pc) → 0 < first_writer p → 1 ≤ s.lock.block_readers → (p ≢ idle) × Next s.lock p
  first_writer-Next w_first h a = (λ q. cc, (_, _, Move.block a))
  first_writer-Next _ h a = absurd (omega arith)

  other-Next :
      (p : Pc)
      → p ≢ idle
      → free p ≡ 0
      → first_reader p + counted_reader p + has_block p + first_writer p ≡ 0
      → 1 ≤ s.lock.resource_lock
      → 1 ≤ s.lock.write_lock
      → Next s.lock p
  other-Next w_wait ne f g a b = (_, _, Move.start_write a)
  other-Next w_done ne f g a b = (_, _, Move.retake_write b)
  other-Next idle ne f g a b = absurd (ne refl)
  other-Next _ ne f g a b = absurd (omega arith)

  -- With no free task the mutexes are held by nobody but a first reader or writer.
  held : (w : Pc → ℕ) → ((p : Pc) → w p ≤ free p) → sum_to free n s.pc ≡ 0 → sum_to w n s.pc ≡ 0
  held w le z = omega (arith, sum_to_mono w free le n s.pc)

  not_free : sum_to free n s.pc ≡ 0 → (i : ℕ) → i < n → free (s.pc i) ≡ 0
  not_free z i lt = omega (arith, le-sum_to free n s.pc i lt)

  record Stuck : Type 0 where
    none_free : sum_to free n s.pc ≡ 0
    no_last_reader : sum_to last_reader n s.pc ≡ 0
    no_has_read : sum_to has_read n s.pc ≡ 0
    no_last_writer : sum_to last_writer n s.pc ≡ 0
    no_has_write : sum_to has_write n s.pc ≡ 0
    no_write : sum_to in_write n s.pc ≡ 0

  stuck : sum_to free n s.pc ≡ 0 → Stuck
  stuck z = record {
    none_free = z;
    no_last_reader = held last_reader (λ p. ground arith) z;
    no_has_read = held has_read (λ p. ground arith) z;
    no_last_writer = held last_writer (λ p. ground arith) z;
    no_has_write = held has_write (λ p. ground arith) z;
    no_write = held in_write (λ p. ground arith) z;
  }

  -- Nobody is on the way into `read`, and no writer waits for `block_readers`.
  quiet-Progress :
      (j : ℕ)
      → j < n
      → s.pc j ≢ idle
      → Stuck
      → sum_to first_reader n s.pc ≡ 0
      → sum_to counted_reader n s.pc ≡ 0
      → sum_to has_block n s.pc ≡ 0
      → sum_to first_writer n s.pc ≡ 0
      → Progress n s
  quiet-Progress j lt ne k a b c d = (
    j,
    lt,
    ne,
    other-Next (s.pc j) ne (not_free k.none_free j lt) none_here (ground (arith, sound))
        (omega (arith, sound)),
  )
    where
      none_here :
          first_reader (s.pc j)
            + counted_reader (s.pc j)
            + has_block (s.pc j)
            + first_writer (s.pc j)
          ≡ 0
      none_here = omega (
        arith,
        le-sum_to first_reader n s.pc j lt,
        le-sum_to counted_reader n s.pc j lt,
        le-sum_to has_block n s.pc j lt,
        le-sum_to first_writer n s.pc j lt,
      )

  stuck-Progress : (j : ℕ) → j < n → s.pc j ≢ idle → Stuck → Progress n s
  stuck-Progress j lt ne k = elim (dec_lt 0 (sum_to first_reader n s.pc)) [
    | yes a ↦
        let (i, hi, w) = find_task first_reader n s.pc a in
        task-Progress i hi (first_reader-Next (s.pc i) w (ground (arith, sound)))
    | no a ↦ elim (dec_lt 0 (sum_to counted_reader n s.pc)) [
      | yes b ↦
          let (i, hi, w) = find_task counted_reader n s.pc b in
          task-Progress i hi
            (reader-Next (s.pc i) w (not_free k.none_free i hi) (omega (arith, sound)))
      | no b ↦ elim (dec_lt 0 (sum_to has_block n s.pc)) [
        | yes c ↦
            let (i, hi, w) = find_task has_block n s.pc c in
            task-Progress i hi (
              block-Next (s.pc i) w (not_free k.none_free i hi)
                (omega (arith, le-sum_to first_reader n s.pc i hi)) (omega (arith, sound)))
        | no c ↦ elim (dec_lt 0 (sum_to first_writer n s.pc)) [
          | yes d ↦
              let (i, hi, w) = find_task first_writer n s.pc d in
              task-Progress i hi (first_writer-Next (s.pc i) w (ground (arith, sound)))
          | no d ↦ quiet-Progress j lt ne k (omega arith) (omega arith) (omega arith) (omega arith)
        ]
      ]
    ]
  ]

  -- In a reachable state with a task inside `read` or `write`, one such task can make a move.
  pub progress : (j : ℕ) → j < n → s.pc j ≢ idle → Progress n s
  progress j lt ne = elim (dec_lt 0 (sum_to free n s.pc)) [
    | yes h ↦
        let (i, hi, w) = find_task free n s.pc h in task-Progress i hi (free-Next s.lock (s.pc i) w)
    | no h ↦ stuck-Progress j lt ne (stuck (omega arith))
  ]
