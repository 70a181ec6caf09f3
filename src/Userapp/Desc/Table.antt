-- ===== src/Userapp/Desc/Table.antt =====
-- The null-terminated tables of personalities and slots.
use ledfw_lib.Common.{
  ℕ, zero, suc, ◌+◌, ◌*◌, ◌≤◌, ◌<◌, ◌^◌, ◌≡◌, ◌≢◌, refl, arith, ltb, ◌==◌, Bool-cases, inl, inr,
  dec_lt, cong,
}
use ledfw_lib.Userapp.Desc.{Words, count_loop, count_entries, slot_type, slot_id, slot_value}

module _ (buffer : Words) (offset : ℕ) where
  -- The loop stops at the first zero, or at its bound; all that it passed is not zero.
  pub record Stops (rounds from to : ℕ) : Type 0 where
    pub low : from ≤ to
    pub high : to ≤ from + rounds
    pub passed : (i : ℕ) → from ≤ i → i < to → buffer (i + offset) ≢ 0
    pub ended : to < from + rounds → buffer (to + offset) ≡ 0

  count_loop-Stops : (rounds from : ℕ) → Stops rounds from (count_loop buffer offset rounds from)
  unfolding count_loop
  count_loop-Stops zero from = record {
    low = omega arith;
    high = omega arith;
    passed = λ i a b. absurd (omega arith);
    ended = λ h. absurd (omega arith);
  }
  count_loop-Stops (suc rounds) from = elim (Bool-cases (buffer (from + offset) == 0)) [
    | inl e ↦ rw e (record {
      low = omega arith;
      high = omega arith;
      passed = λ i a b. absurd (omega arith);
      ended = λ h. ground arith;
    })
    | inr e ↦
        let r = count_loop-Stops rounds (suc from) in
        rw e (record {
          low = omega (arith, r.low);
          high = omega (arith, r.high);
          passed = λ i a b. elim (dec_lt from i) [
            | yes h ↦ r.passed i h b
            | no h ↦ ground (arith, cong (λ j. buffer (j + offset)) (same i a h))
          ];
          ended = λ h. r.ended (omega arith);
        })
  ]
    where
      same : (i : ℕ) → from ≤ i → ¬ (from < i) → i ≡ from
      same i a h = omega arith

  -- A table of at most `max` entries that ends with a zero is counted exactly.
  pub count_entries-eq :
      (max k : ℕ)
      → k ≤ max
      → ((i : ℕ) → i < k → buffer (i + offset) ≢ 0)
      → buffer (k + offset) ≡ 0
      → count_entries max buffer offset ≡ k
  unfolding count_entries
  count_entries-eq max k le full end = ground (arith, same)
    where
      to : ℕ
      to = count_loop buffer offset (suc max) 0

      r : Stops (suc max) 0 to
      r = count_loop-Stops (suc max) 0

      same : to ≡ k
      same = elim (dec_lt to k) [
        | yes h ↦ absurd (full to h (r.ended (omega arith)))
        | no h ↦ elim (dec_lt k to) [
          | yes g ↦ absurd (r.passed k (omega arith) g end)
          | no g ↦ omega arith
        ]
      ]

  -- Every entry that is counted is there, and at most `max` are; a table with no zero among its first
  -- `max + 1` words counts as empty.
  pub count_entries_sound :
      (max : ℕ)
      → (count_entries max buffer offset ≤ max)
        × ((i : ℕ) → i < count_entries max buffer offset → buffer (i + offset) ≢ 0)
        × (((i : ℕ) → i ≤ max → buffer (i + offset) ≢ 0) → count_entries max buffer offset ≡ 0)
  unfolding count_entries
  count_entries_sound max = elim (Bool-cases (ltb max to)) [
    | inl e ↦ rw e (omega arith, (λ i lt. absurd (omega arith)), λ full. refl)
    | inr e ↦ rw e (
      ground arith,
      (λ i lt. r.passed i (omega arith) lt),
      λ full. absurd (full to (ground arith) (r.ended (ground arith))),
    )
  ]
    where
      to : ℕ
      to = count_loop buffer offset (suc max) 0

      r : Stops (suc max) 0 to
      r = count_loop-Stops (suc max) 0

-- The three fields of a slot's word are disjoint and make it up.
pub slot_fields :
    (buffer : Words)
    → buffer 1 < 2 ^ 32
    → buffer 1 ≡ slot_type buffer + 2 ^ 8 * slot_id buffer + 2 ^ 24 * slot_value buffer
unfolding slot_type slot_id slot_value
slot_fields buffer h = omega arith
