-- ===== src/Tests/Lock.antt =====
-- Two tasks on one lock.
use ledfw_lib.Common.{ℕ, ◌≡◌, ◌≢◌, refl, inr}
use native.Mathlib.Omega.{arith}
use ledfw_lib.RwLock.{
  RwLock, Pc, idle, r_blocked, r_enter, r_first, r_entered, r_unblock, reading, w_enter, w_first,
  w_entered, w_wait, writing, Move, initial, System, start_system, pick, Reach, start, later,
}
use ledfw_lib.RwLock.Family.{update}
use ledfw_lib.RwLock.Exclusion.{read_write_exclusion, write_write_exclusion, writers_block_readers}
use ledfw_lib.RwLock.Progress.{Progress, progress}

abbrev moved : System → RwLock → Pc → System
moved s l p = record { lock = l; pc = update s.pc 0 p }

abbrev r1 : System
r1 = moved start_system (record initial { block_readers = 0 }) r_blocked

abbrev r2 : System
r2 = moved r1 (record r1.lock { read_lock = 0 }) r_enter

abbrev r3 : System
r3 = moved r2 (record r2.lock { n_readers = 1 }) r_first

abbrev r4 : System
r4 = moved r3 (record r3.lock { resource_lock = 0 }) r_entered

abbrev r5 : System
r5 = moved r4 (record r4.lock { read_lock = 1 }) r_unblock

-- Task 0 reads.
abbrev reader : System
reader = moved r5 (record r5.lock { block_readers = 1 }) reading

reach-r3 : Reach 2 r3
reach-r3 =
    later
      (later (later start (pick 0 (omega arith) (Move.take_block (omega arith))))
        (pick 0 (omega arith) (Move.take_read (omega arith))))
      (pick 0 (omega arith) (Move.count_first refl))

reach-reader : Reach 2 reader
reach-reader =
    later
      (later (later reach-r3 (pick 0 (omega arith) (Move.take_resource (omega arith))))
        (pick 0 (omega arith) Move.give_read))
      (pick 0 (omega arith) Move.give_block)

abbrev w1 : System
w1 = moved start_system (record initial { write_lock = 0 }) w_enter

abbrev w2 : System
w2 = moved w1 (record w1.lock { n_writers = 1 }) w_first

abbrev w3 : System
w3 = moved w2 (record w2.lock { block_readers = 0 }) w_entered

abbrev w4 : System
w4 = moved w3 (record w3.lock { write_lock = 1 }) w_wait

-- Task 0 writes.
abbrev writer : System
writer = moved w4 (record w4.lock { resource_lock = 0 }) writing

reach-w3 : Reach 2 w3
reach-w3 =
    later
      (later (later start (pick 0 (omega arith) (Move.take_write (omega arith))))
        (pick 0 (omega arith) (Move.writer_first refl)))
      (pick 0 (omega arith) (Move.block (omega arith)))

reach-writer : Reach 2 writer
reach-writer =
    later (later reach-w3 (pick 0 (omega arith) Move.give_write))
      (pick 0 (omega arith) (Move.start_write (omega arith)))

read_write_exclusion_example : reader.pc 1 ≢ writing
read_write_exclusion_example =
    read_write_exclusion (omega arith) reach-reader 0 1 (omega arith) (omega arith) refl

write_write_exclusion_example : ◌≡◌ {A = ℕ} 0 0
write_write_exclusion_example =
    write_write_exclusion (omega arith) reach-writer 0 0 (omega arith) (omega arith) refl refl

progress_example : Progress 2 writer
progress_example = progress (omega arith) reach-writer 0 (omega arith) (λ e. absurd cc)

writers_block_readers_example :
    ¬ Move writer.lock idle (record writer.lock { block_readers = 0 }) r_blocked
writers_block_readers_example =
    writers_block_readers (omega arith) reach-writer 0 (omega arith) (inr refl)
      (record writer.lock { block_readers = 0 })
