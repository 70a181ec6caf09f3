-- ===== src/Tests/Queues.antt =====
-- Byte buffers, circular buffers and frames.
use ledfw_lib.Common.{false, ℕ, ◌≡◌, ◌+◌, refl, some, [], ◌∷◌, true}
use native.Mathlib.Omega.{arith}
use ledfw_lib.Fifo
use ledfw_lib.Circbuf
use ledfw_lib.Circbuf.{Circbuf, outcome}
use ledfw_lib.Circbuf.Valid.{IsValid, contents}
use ledfw_lib.Circbuf.Faults.{unless_stopped, push_reaches, pop_reaches, push_outcome, pop_outcome}
use ledfw_lib.Circbuf.Instance.{circbuf_queue}
use ledfw_lib.Queue.{Queue}
use ledfw_lib.Framebuf
use ledfw_lib.Framebuf.{Framebuf}
use ledfw_lib.Framebuf.Frames.{Holds, push_spec, push_frame_refines}
use ledfw_lib.Framebuf.Pop.{pop_spec, pop_frame_refines}
use ledfw_lib.Buffer.{Buffer}
use ledfw_lib.Buffer.Append
use ledfw_lib.Buffer.Append.{Appends, write_refines, fill_refines}

-- 7 then 8, round the end of an array of three
abbrev wrapped : Circbuf ℕ
wrapped = record { start = 2; len = 2; raw = 8 ∷ 0 ∷ 7 ∷ []; asserts = 0 }

abbrev nines : ℕ → ℕ
nines i = 9 + i

wrapped-IsValid : IsValid 3 wrapped
wrapped-IsValid = record {
  small = omega arith;
  storage = refl;
  start_in = omega arith;
  len_in = omega arith;
}

contents-wrapped : contents 3 0 wrapped ≡ 7 ∷ 8 ∷ []
contents-wrapped = refl

-- The items reach the end of the array, and the handler does not return.
push_outcome_example :
    outcome false wrapped (Circbuf.push 3 wrapped (some nines) 1).1 (
      (Circbuf.push 3 wrapped (some nines) 1).0,
      contents 3 0 (Circbuf.push 3 wrapped (some nines) 1).1,
    )
    ≡ unless_stopped false
        (push_reaches 3 wrapped (some nines) 1)
        (Fifo.push 3 (contents 3 0 wrapped) (some nines) 1)
push_outcome_example = push_outcome 3 0 false wrapped (some nines) 1 wrapped-IsValid

pop_outcome_example :
    outcome true wrapped (Circbuf.pop 3 0 wrapped true 2).2 (
      (Circbuf.pop 3 0 wrapped true 2).0,
      (Circbuf.pop 3 0 wrapped true 2).1,
      contents 3 0 (Circbuf.pop 3 0 wrapped true 2).2,
    )
    ≡ unless_stopped true (pop_reaches 3 wrapped true 2) (Fifo.pop (contents 3 0 wrapped) true 2)
pop_outcome_example = pop_outcome 3 0 true wrapped true 2 wrapped-IsValid

abbrev bytes_q : Queue ℕ 8
bytes_q = circbuf_queue 8 0

abbrev lengths_q : Queue ℕ 2
lengths_q = circbuf_queue 2 0

-- One frame of two bytes
abbrev one_frame : Framebuf bytes_q lengths_q
one_frame = record {
  b_buf = record { start = 0; len = 2; raw = 5 ∷ 6 ∷ 0 ∷ 0 ∷ 0 ∷ 0 ∷ 0 ∷ 0 ∷ []; asserts = 0 };
  f_buf = record { start = 0; len = 1; raw = 2 ∷ 0 ∷ []; asserts = 0 };
}

one_frame-Holds : Holds bytes_q lengths_q one_frame ((5 ∷ 6 ∷ []) ∷ [])
one_frame-Holds = record {
  b_valid = record {
    small = omega arith;
    storage = refl;
    start_in = omega arith;
    len_in = omega arith;
  };
  f_valid = record {
    small = omega arith;
    storage = refl;
    start_in = omega arith;
    len_in = omega arith;
  };
  bytes = refl;
  lengths = refl;
}

push_frame_refines_example :
    ((Framebuf.push bytes_q lengths_q one_frame (some nines) 3).0
      ≡ (push_spec bytes_q lengths_q ((5 ∷ 6 ∷ []) ∷ []) (some nines) 3).0)
    × Holds bytes_q lengths_q
        (Framebuf.push bytes_q lengths_q one_frame (some nines) 3).1
        (push_spec bytes_q lengths_q ((5 ∷ 6 ∷ []) ∷ []) (some nines) 3).1
push_frame_refines_example =
    push_frame_refines bytes_q lengths_q one_frame ((5 ∷ 6 ∷ []) ∷ []) (some nines) 3
      one_frame-Holds

pop_frame_refines_example :
    ((Framebuf.pop bytes_q lengths_q one_frame true 2).0
      ≡ (pop_spec bytes_q lengths_q ((5 ∷ 6 ∷ []) ∷ []) true 2).0)
    × ((Framebuf.pop bytes_q lengths_q one_frame true 2).1
        ≡ (pop_spec bytes_q lengths_q ((5 ∷ 6 ∷ []) ∷ []) true 2).1)
    × Holds bytes_q lengths_q
        (Framebuf.pop bytes_q lengths_q one_frame true 2).2
        (pop_spec bytes_q lengths_q ((5 ∷ 6 ∷ []) ∷ []) true 2).2
pop_frame_refines_example =
    pop_frame_refines bytes_q lengths_q one_frame ((5 ∷ 6 ∷ []) ∷ []) true 2 one_frame-Holds

abbrev half_full : Buffer
half_full = record { mem = 1 ∷ 2 ∷ 0 ∷ 0 ∷ []; max_len = 4; pos = 2; n_leading_zeros = 0 }

half_full-IsValid : Append.IsValid half_full
half_full-IsValid = record {
  storage = refl;
  small = omega arith;
  pos_in = omega arith;
  no_zeros = refl;
}
