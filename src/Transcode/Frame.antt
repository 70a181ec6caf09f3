-- ===== src/Transcode/Frame.antt =====
-- Whole frames: a sequence of colours between two bus resets.
use ledfw_lib.Common.{
  ℕ, ◌+◌, ◌≤◌, ◌≡◌, refl, ap, ◌∙◌, List, ◌++◌, length, get_or, tabulate, tabulate-get_or, Status,
  success,
}
use ledfw_lib.Buffer.{Buffer}
use ledfw_lib.Buffer.Append.{IsValid, contents, append_fits, write_refines, fill_refines}
use ledfw_lib.Transcode.{Rgb, channel, encode, write, write_bus_reset}

-- Both results of a call that had room for its bytes.
pub record Wrote (b : Buffer) (out : List ℕ) (r : Status × Buffer) : Type 0 where
  pub status : r.0 ≡ success
  pub items : contents r.1 ≡ contents b ++ out
  pub valid : IsValid r.1
  pub same_cap : r.1.max_len ≡ b.max_len

pub write-Wrote :
    (b : Buffer) (c : Rgb) → IsValid b → b.pos + 24 ≤ b.max_len → Wrote b (encode c) (write b c)
unfolding write encode channel
write-Wrote b c v room =
    let a =
      append_fits b 24 (λ i. get_or (encode c) i 0) (write b c)
        (write_refines b (λ i. get_or (encode c) i 0) 24 v) room in
    record {
      status = a.0;
      items = a.1 ∙ ap (λ l. contents b ++ l) (tabulate-get_or (encode c) 0);
      valid = (write_refines b (λ i. get_or (encode c) i 0) 24 v).valid;
      same_cap = (write_refines b (λ i. get_or (encode c) i 0) 24 v).same_cap;
    }

pub write_bus_reset-Wrote :
    (b : Buffer)
    → IsValid b
    → b.pos + 1000 ≤ b.max_len
    → Wrote b (tabulate 1000 (λ _. 0)) (write_bus_reset b)
unfolding write_bus_reset
write_bus_reset-Wrote b v room =
    let f = fill_refines b 0 1000 v in
    let a = append_fits b 1000 (λ _. 0) (write_bus_reset b) f room in
    record { status = a.0; items = a.1; valid = f.valid; same_cap = f.same_cap }

pub length-encode : (c : Rgb) → length (encode c) ≡ 24
unfolding encode channel
length-encode c = refl
