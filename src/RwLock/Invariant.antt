-- ===== src/RwLock/Invariant.antt =====
-- The bookkeeping of the lock: true of a fresh lock, and kept by every move of every task.
use ledfw_lib.Common.{ℕ, ◌+◌, ◌<◌, ◌^◌, ◌≡◌, refl, arith}
use ledfw_lib.RwLock.{RwLock, Pc, Move, initial, System, Step, pick, Reach, start, later}
use ledfw_lib.RwLock.Family.{sum_to-eq-zero}
use ledfw_lib.RwLock.Weights.{
  first_reader, last_reader, has_read, has_block, counted_reader, first_writer, last_writer,
  has_write, counted_writer, in_write, Counts, counts, Moved, update-Moved,
}

-- Each mutex is free or held once; the counters count; the resource belongs to one writer, or to the
-- readers while they are counted, or to the reader that is about to give it back; `block_readers`
-- likewise, to one reader on its way in or to the writers.
pub record IsSound (n : ℕ) (l : RwLock) (k : Counts) : Type 0 where
  pub few : n < 2 ^ 31
  pub read_held : l.read_lock + k.first_readers + k.last_readers + k.has_reads ≡ 1
  pub write_held : l.write_lock + k.first_writers + k.last_writers + k.has_writes ≡ 1
  pub readers_counted : l.n_readers ≡ k.first_readers + k.readers
  pub writers_counted : l.n_writers ≡ k.first_writers + k.writers
  pub alone_reader : 0 < k.first_readers → k.readers ≡ 0
  pub alone_writer : 0 < k.first_writers → k.writers ≡ 0
  pub resource_free : l.n_readers ≡ 0 → l.resource_lock + k.in_writes + k.last_readers ≡ 1
  pub resource_read : 0 < l.n_readers → l.resource_lock + k.in_writes ≡ k.first_readers
  pub none_last : 0 < l.n_readers → k.last_readers ≡ 0
  pub block_free : l.n_writers ≡ 0 → l.block_readers + k.has_blocks + k.last_writers ≡ 1
  pub block_held : 0 < l.n_writers → l.block_readers + k.has_blocks ≡ k.first_writers
  pub no_last_writer : 0 < l.n_writers → k.last_writers ≡ 0

pub Move-IsSound :
    {l l' : RwLock} {p p' : Pc} {n : ℕ} {k k' : Counts}
    → Move l p l' p'
    → Moved n k k' p p'
    → IsSound n l k
    → IsSound n l' k'
Move-IsSound (Move.take_block h) m s = ground arith
Move-IsSound (Move.take_read h) m s = ground arith
Move-IsSound (Move.count_first h) m s = ground arith
Move-IsSound (Move.count_more h) m s = ground arith
Move-IsSound (Move.take_resource h) m s = ground arith
Move-IsSound Move.give_read m s = ground arith
Move-IsSound Move.give_block m s = ground arith
Move-IsSound (Move.retake_read h) m s = ground arith
Move-IsSound (Move.uncount_last h) m s = ground arith
Move-IsSound (Move.uncount_more h) m s = ground arith
Move-IsSound Move.give_resource m s = ground arith
Move-IsSound Move.regive_read m s = ground arith
Move-IsSound (Move.take_write h) m s = ground arith
Move-IsSound (Move.writer_first h) m s = ground arith
Move-IsSound (Move.writer_more h) m s = ground arith
Move-IsSound (Move.block h) m s = ground arith
Move-IsSound Move.give_write m s = ground arith
Move-IsSound (Move.start_write h) m s = ground arith
Move-IsSound Move.end_write m s = ground arith
Move-IsSound (Move.retake_write h) m s = ground arith
Move-IsSound (Move.unwriter_last h) m s = ground arith
Move-IsSound (Move.unwriter_more h) m s = ground arith
Move-IsSound Move.unblock m s = ground arith
Move-IsSound Move.regive_write m s = ground arith

Step-IsSound :
    {n : ℕ} {s t : System}
    → Step n s t
    → IsSound n s.lock (counts n s.pc)
    → IsSound n t.lock (counts n t.pc)
Step-IsSound {n} {s} (pick i {p = p'} lt mv) h = Move-IsSound mv (update-Moved n s.pc i p' lt) h

start-IsSound : (n : ℕ) → n < 2 ^ 31 → IsSound n initial (counts n (λ _. Pc.idle))
start-IsSound n few = omega (
  arith,
  sum_to-eq-zero first_reader n Pc.idle refl,
  sum_to-eq-zero last_reader n Pc.idle refl,
  sum_to-eq-zero has_read n Pc.idle refl,
  sum_to-eq-zero has_block n Pc.idle refl,
  sum_to-eq-zero counted_reader n Pc.idle refl,
  sum_to-eq-zero first_writer n Pc.idle refl,
  sum_to-eq-zero last_writer n Pc.idle refl,
  sum_to-eq-zero has_write n Pc.idle refl,
  sum_to-eq-zero counted_writer n Pc.idle refl,
  sum_to-eq-zero in_write n Pc.idle refl,
)

-- Every state that fewer than 2 ^ 31 tasks can reach is sound.
pub Reach-IsSound : {n : ℕ} {s : System} → n < 2 ^ 31 → Reach n s → IsSound n s.lock (counts n s.pc)
Reach-IsSound {n} few start = start-IsSound n few
Reach-IsSound few (later r st) = Step-IsSound st (Reach-IsSound few r)
