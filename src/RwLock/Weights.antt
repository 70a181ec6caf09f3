-- ===== src/RwLock/Weights.antt =====
-- What each place in the code counts for: who holds a mutex, who is counted, who is in `func`.
use ledfw_lib.Common.{ℕ, ◌+◌, ◌≤◌, ◌<◌, ◌≡◌, arith}
use ledfw_lib.RwLock.{
  Pc, r_blocked, r_enter, r_first, r_entered, r_unblock, reading, r_leave, r_last, r_left, w_enter,
  w_first, w_entered, w_wait, writing, w_done, w_leave, w_last, w_left,
}
use ledfw_lib.RwLock.Family.{update, sum_to, sum_to-update, le-sum_to, sum_to-le}

abbrev pub first_reader : Pc → ℕ
first_reader r_first = 1
first_reader _ = 0

abbrev pub last_reader : Pc → ℕ
last_reader r_last = 1
last_reader _ = 0

-- the other places that hold `read_lock`
abbrev pub has_read : Pc → ℕ
has_read r_enter = 1
has_read r_entered = 1
has_read r_leave = 1
has_read r_left = 1
has_read _ = 0

-- a reader that holds `block_readers`
abbrev pub has_block : Pc → ℕ
has_block r_blocked = 1
has_block r_enter = 1
has_block r_first = 1
has_block r_entered = 1
has_block r_unblock = 1
has_block _ = 0

-- the readers in `n_readers`, but for the one that still waits for the resource
abbrev pub counted_reader : Pc → ℕ
counted_reader r_entered = 1
counted_reader r_unblock = 1
counted_reader reading = 1
counted_reader r_leave = 1
counted_reader _ = 0

abbrev pub first_writer : Pc → ℕ
first_writer w_first = 1
first_writer _ = 0

abbrev pub last_writer : Pc → ℕ
last_writer w_last = 1
last_writer _ = 0

-- the other places that hold `write_lock`
abbrev pub has_write : Pc → ℕ
has_write w_enter = 1
has_write w_entered = 1
has_write w_leave = 1
has_write w_left = 1
has_write _ = 0

-- the writers in `n_writers`, but for the one that still waits for `block_readers`
abbrev pub counted_writer : Pc → ℕ
counted_writer w_entered = 1
counted_writer w_wait = 1
counted_writer writing = 1
counted_writer w_done = 1
counted_writer w_leave = 1
counted_writer _ = 0

abbrev pub in_write : Pc → ℕ
in_write writing = 1
in_write _ = 0

-- How many of the tasks stand at such places.
pub record Counts : Type 0 where
  pub first_readers : ℕ
  pub last_readers : ℕ
  pub has_reads : ℕ
  pub has_blocks : ℕ
  pub readers : ℕ
  pub first_writers : ℕ
  pub last_writers : ℕ
  pub has_writes : ℕ
  pub writers : ℕ
  pub in_writes : ℕ

abbrev pub counts : ℕ → (ℕ → Pc) → Counts
counts n pc = record {
  first_readers = sum_to first_reader n pc;
  last_readers = sum_to last_reader n pc;
  has_reads = sum_to has_read n pc;
  has_blocks = sum_to has_block n pc;
  readers = sum_to counted_reader n pc;
  first_writers = sum_to first_writer n pc;
  last_writers = sum_to last_writer n pc;
  has_writes = sum_to has_write n pc;
  writers = sum_to counted_writer n pc;
  in_writes = sum_to in_write n pc;
}

-- One sum when one task moves from weight `w` to weight `w'`.
abbrev pub Trades : ℕ → ℕ → ℕ → ℕ → Type 0
Trades sum sum' w w' = (sum' + w ≡ sum + w') × (w ≤ sum)

pub record Moved (n : ℕ) (k k' : Counts) (p p' : Pc) : Type 0 where
  pub t_first_reader : Trades k.first_readers k'.first_readers (first_reader p) (first_reader p')
  pub t_last_reader : Trades k.last_readers k'.last_readers (last_reader p) (last_reader p')
  pub t_has_read : Trades k.has_reads k'.has_reads (has_read p) (has_read p')
  pub t_has_block : Trades k.has_blocks k'.has_blocks (has_block p) (has_block p')
  pub t_reader : Trades k.readers k'.readers (counted_reader p) (counted_reader p')
  pub t_first_writer : Trades k.first_writers k'.first_writers (first_writer p) (first_writer p')
  pub t_last_writer : Trades k.last_writers k'.last_writers (last_writer p) (last_writer p')
  pub t_has_write : Trades k.has_writes k'.has_writes (has_write p) (has_write p')
  pub t_writer : Trades k.writers k'.writers (counted_writer p) (counted_writer p')
  pub t_in_write : Trades k.in_writes k'.in_writes (in_write p) (in_write p')
  pub few_readers : k.readers ≤ n
  pub few_writers : k.writers ≤ n

pub update-Moved :
    (n : ℕ) (pc : ℕ → Pc) (i : ℕ) (p' : Pc)
    → i < n
    → Moved n (counts n pc) (counts n (update pc i p')) (pc i) p'
update-Moved n pc i p' lt = record {
  t_first_reader = trade first_reader;
  t_last_reader = trade last_reader;
  t_has_read = trade has_read;
  t_has_block = trade has_block;
  t_reader = trade counted_reader;
  t_first_writer = trade first_writer;
  t_last_writer = trade last_writer;
  t_has_write = trade has_write;
  t_writer = trade counted_writer;
  t_in_write = trade in_write;
  few_readers = sum_to-le counted_reader (λ p. ground arith) n pc;
  few_writers = sum_to-le counted_writer (λ p. ground arith) n pc;
}
  where
    trade : (w : Pc → ℕ) → Trades (sum_to w n pc) (sum_to w n (update pc i p')) (w (pc i)) (w p')
    trade w = (sum_to-update w n pc i p' lt, le-sum_to w n pc i lt)
