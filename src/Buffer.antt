-- ===== src/Buffer.antt =====
-- `buffer` of include/util.hh and src/core/buffer.cc: bytes appended to memory that the caller owns.
--
-- `mem` is the memory from `basep` on; the caller promises `max_len` bytes of it (`length` in the
-- source). `bytes` of `write` is what the pointer leads to, by offset.
pub mod Append
use ledfw_lib.Common.{
  ℕ, zero, suc, ◌+◌, min, Bool, ◌&&◌, List, ltb, leb, ◌==◌, if◌then◌else◌, set, write_cells, Status,
  success, invalid_length, add_size, sub_size,
}

pub record Buffer : Type 0 where
  pub mem : List ℕ
  pub pos : ℕ
  pub max_len : ℕ
  pub n_leading_zeros : ℕ

-- `buffer(p, length)`
unfoldable pub init : List ℕ → ℕ → Buffer
init mem max_len = record { mem = mem; pos = 0; max_len = max_len; n_leading_zeros = 0 }

-- `buffer(p, pos, length)`
unfoldable pub init_at : List ℕ → ℕ → ℕ → Buffer
init_at mem pos max_len = record { mem = mem; pos = pos; max_len = max_len; n_leading_zeros = 0 }

unfoldable pub len : Buffer → ℕ
len b = b.pos

unfoldable pub reset : Buffer → Buffer
reset b = record b { pos = 0 }

unfoldable pub write : Buffer → (ℕ → ℕ) → ℕ → Status × Buffer
write b bytes n_bytes = if ltb (sub_size b.max_len b.pos) n_bytes then (invalid_length, b) else (
  success,
  record b {
    n_leading_zeros = min b.n_leading_zeros b.pos;
    mem = write_cells b.mem bytes n_bytes b.pos;
    pos = add_size b.pos n_bytes;
  },
)

-- The memory, `pos` and `n` when the loop `for (; n > 0; --n) basep[pos++] = value` ends.
unfoldable pub fill_loop : List ℕ → ℕ → ℕ → ℕ → List ℕ × ℕ × ℕ
fill_loop mem pos value zero = (mem, pos, 0)
fill_loop mem pos value (suc n) = fill_loop (set mem pos value) (add_size pos 1) value n

unfoldable pub fill : Buffer → ℕ → ℕ → Status × Buffer
fill b value n =
    if ltb (sub_size b.max_len b.pos) n
    then (invalid_length, b)
    else if value == 0 && leb (add_size b.pos n) b.n_leading_zeros
    then (success, b)
    else (let do_set_leading_zero = b.pos == 0 && value == 0 in
        let (mem, pos, n') = fill_loop b.mem b.pos value n in
        let b' : Buffer = record b { mem = mem; pos = pos } in
        (success, if do_set_leading_zero then record b' { n_leading_zeros = n' } else b'))
