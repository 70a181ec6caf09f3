-- ===== src/Led/Blank.antt =====
-- The first frame of `thread::task_func` (src/led/thread.cc), which turns all LEDs off.
use ledfw_lib.Common.{
  ℕ, zero, suc, ◌+◌, ◌*◌, ◌≤◌, ◌≡◌, refl, ap, sym, ◌∙◌, List, [], ◌++◌, append_assoc, append-nil,
  length, get_or, tabulate, length-append, length-tabulate, Status,
}
use native.Mathlib.Omega.{arith}
use ledfw_lib.Buffer.{Buffer, reset}
use ledfw_lib.Buffer.Append.{IsValid, contents, reset-IsValid}
use ledfw_lib.Transcode.{black, encode, write, write_bus_reset}
use ledfw_lib.Transcode.Frame.{length-encode, Wrote, write-Wrote, write_bus_reset-Wrote}

-- `cur_tc->write(off)` for each LED; the statuses are not looked at.
unfoldable pub write_offs : ℕ → Buffer → Buffer
write_offs zero b = b
write_offs (suc n) b = write_offs n (write b black).1

-- The calls of `cur_tc` before the first `set_buffer`.
unfoldable pub blank : (max_leds_per_thread : ℕ) → Buffer → Buffer
blank n b = (write_bus_reset (write_offs n (write_bus_reset (reset b)).1)).1

abbrev pub offs : ℕ → List ℕ
offs zero = []
offs (suc n) = encode black ++ offs n

-- The state of the buffer after `out` was appended.
pub record Has (b : Buffer) (out : List ℕ) (pos : ℕ) (r : Buffer) : Type 0 where
  pub items : contents r ≡ contents b ++ out
  pub valid : IsValid r
  pub same_cap : r.max_len ≡ b.max_len
  pub position : r.pos ≡ b.pos + pos

pub Wrote-Has :
    (b : Buffer) (out : List ℕ) (n : ℕ) (r : Status × Buffer)
    → length out ≡ n
    → Wrote b out r
    → Has b out n r.1
Wrote-Has b out n r e w = record {
  items = w.items;
  valid = w.valid;
  same_cap = w.same_cap;
  position = omega (
    arith,
    ap length w.items,
    length-append (contents b) out,
    length-tabulate r.1.pos (λ i. get_or r.1.mem i 0),
    length-tabulate b.pos (λ i. get_or b.mem i 0),
  );
}

Has-Has :
    (a b c : Buffer) (xs ys : List ℕ) (m n : ℕ)
    → Has a xs m b
    → Has b ys n c
    → Has a (xs ++ ys) (m + n) c
Has-Has a b c xs ys m n h g = record {
  items = g.items ∙ ap (λ l. l ++ ys) h.items ∙ append_assoc (contents a) xs ys;
  valid = g.valid;
  same_cap = g.same_cap ∙ h.same_cap;
  position = omega (arith, g.position, h.position);
}

write-Has :
    (b : Buffer) → IsValid b → b.pos + 24 ≤ b.max_len → Has b (encode black) 24 (write b black).1
write-Has b v h =
    Wrote-Has b (encode black) 24 (write b black) (length-encode black) (write-Wrote b black v h)

abbrev pub zero_bytes : List ℕ
zero_bytes = tabulate 1000 (λ _. 0)

reset_bus-Has :
    (b : Buffer)
    → IsValid b
    → b.pos + 1000 ≤ b.max_len
    → Has b zero_bytes 1000 (write_bus_reset b).1
reset_bus-Has b v h =
    let f : ℕ → ℕ = λ _. 0 in
    Wrote-Has b zero_bytes 1000 (write_bus_reset b) (length-tabulate 1000 f)
      (write_bus_reset-Wrote b v h)

write_offs-Has :
    (n : ℕ) (b : Buffer)
    → IsValid b
    → b.pos + 24 * n ≤ b.max_len
    → Has b (offs n) (24 * n) (write_offs n b)
unfolding write_offs
write_offs-Has zero b v h = record {
  items = sym (append-nil (contents b));
  valid = v;
  same_cap = refl;
  position = omega arith;
}
write_offs-Has (suc n) b v h =
    let one = write-Has b v (omega arith) in
    let rest =
      write_offs-Has n (write b black).1 one.valid (omega (arith, one.position, one.same_cap)) in
    let all =
      Has-Has b (write b black).1 (write_offs n (write b black).1) (encode black) (offs n) 24
        (24 * n) one rest in
    record {
      items = all.items;
      valid = all.valid;
      same_cap = all.same_cap;
      position = omega (arith, all.position);
    }

-- The first frame is a bus reset, an encoded black for each LED, and a bus reset, if the buffer has room
-- for 2000 bytes and 24 for each LED.
pub blank-contents :
    (n : ℕ) (b : Buffer)
    → IsValid b
    → 2000 + 24 * n ≤ b.max_len
    → contents (blank n b) ≡ zero_bytes ++ offs n ++ zero_bytes
unfolding blank reset
blank-contents n b v h =
    let b0 = reset b in
    let b1 = (write_bus_reset b0).1 in
    let b2 = write_offs n b1 in
    let e = reset-IsValid b v in
    let one = reset_bus-Has b0 e.0 (omega arith) in
    let two = write_offs-Has n b1 one.valid (omega (arith, one.position, one.same_cap)) in
    let both = Has-Has b0 b1 b2 zero_bytes (offs n) 1000 (24 * n) one two in
    let last = reset_bus-Has b2 both.valid (omega (arith, both.position, both.same_cap)) in
    let all =
      Has-Has b0 b2 (blank n b) (zero_bytes ++ offs n) zero_bytes (1000 + 24 * n) 1000 both last in
    all.items
    ∙ ap (λ l. l ++ ((zero_bytes ++ offs n) ++ zero_bytes)) e.1
    ∙ append_assoc zero_bytes (offs n) zero_bytes
