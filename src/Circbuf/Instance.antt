-- ===== src/Circbuf/Instance.antt =====
-- `circbuf` as an instance of the queue interface, where the error handler of a failed assertion returns.
use ledfw_lib.Common.{ℕ}
use ledfw_lib.Queue.{Queue}
use ledfw_lib.Circbuf.{Circbuf, remaining, push, pop, discard, peek}
use ledfw_lib.Circbuf.Valid.{IsValid, contents, len_lem, remaining-eq}
use ledfw_lib.Circbuf.Push.{push_refines, push-IsValid}
use ledfw_lib.Circbuf.Pop.{pop_refines, pop-IsValid, discard_refines, peek_refines}

abbrev pub circbuf_queue : {A : Type 0} (cap : ℕ) (junk : A) → Queue A cap
circbuf_queue {A} cap junk = record {
  State = Circbuf A;
  IsValid = IsValid cap;
  contents = contents cap junk;
  len = λ c. c.len;
  remaining = remaining cap;
  push = push cap;
  pop = pop cap junk;
  discard = discard cap;
  peek = peek cap junk;
  len_lem = λ c v. len_lem cap junk c;
  remaining_lem = remaining-eq cap junk;
  push_refines = push_refines cap junk;
  push-IsValid = push-IsValid cap junk;
  pop_refines = pop_refines cap junk;
  pop-IsValid = pop-IsValid cap junk;
  discard_refines = discard_refines cap junk;
  peek_refines = peek_refines cap junk;
}
