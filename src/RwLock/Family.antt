-- ===== src/RwLock/Family.antt =====
-- Task-indexed families: an update at one task, and a sum of weights over the first `n` tasks.
use ledfw_lib.Common.{
  ℕ, zero, suc, ◌+◌, ◌≤◌, ◌<◌, ◌≡◌, ◌≢◌, refl, arith, dec_lt, ◌==◌, if◌then◌else◌,
}

abbrev pub update : {A : Type 0} → (ℕ → A) → ℕ → A → ℕ → A
update f i a j = if i == j then a else f j

module _ {A : Type 0} (weight : A → ℕ) where
  pub sum_to : ℕ → (ℕ → A) → ℕ
  sum_to zero f = 0
  sum_to (suc n) f = weight (f n) + sum_to n f

  sum_to-update_above :
      (n : ℕ) (f : ℕ → A) (i : ℕ) (a : A) → n ≤ i → sum_to n (update f i a) ≡ sum_to n f
  unfolding sum_to
  sum_to-update_above zero f i a h = refl
  sum_to-update_above (suc n) f i a h = ground (arith, sum_to-update_above n f i a)

  -- An update at a task trades its old weight for the new one.
  pub sum_to-update :
      (n : ℕ) (f : ℕ → A) (i : ℕ) (a : A)
      → i < n
      → sum_to n (update f i a) + weight (f i) ≡ sum_to n f + weight a
  unfolding sum_to
  sum_to-update zero f i a h = absurd (omega arith)
  sum_to-update (suc n) f i a h = elim (dec_lt i n) [
    | yes below ↦ ground (arith, sum_to-update n f i a below)
    | no last ↦ ground (arith, sum_to-update_above n f i a)
  ]

  pub le-sum_to : (n : ℕ) (f : ℕ → A) (i : ℕ) → i < n → weight (f i) ≤ sum_to n f
  unfolding sum_to
  le-sum_to zero f i h = absurd (omega arith)
  le-sum_to (suc n) f i h = elim (dec_lt i n) [
    | yes below ↦ omega (arith, le-sum_to n f i below)
    | no last ↦ ground arith
  ]

  -- Two tasks count apart.
  pub add-le-sum_to :
      (n : ℕ) (f : ℕ → A) (i j : ℕ)
      → i < n
      → j < n
      → i ≢ j
      → weight (f i) + weight (f j) ≤ sum_to n f
  unfolding sum_to
  add-le-sum_to zero f i j h k ne = absurd (omega arith)
  add-le-sum_to (suc n) f i j h k ne = elim (dec_lt i n) [
    | yes a ↦ elim (dec_lt j n) [
      | yes b ↦ omega (arith, add-le-sum_to n f i j a b ne)
      | no b ↦ ground (arith, le-sum_to n f i a)
    ]
    | no a ↦ ground (arith, le-sum_to n f j (omega arith))
  ]

  pub sum_to-eq-zero : (n : ℕ) (a : A) → weight a ≡ 0 → sum_to n (λ _. a) ≡ 0
  unfolding sum_to
  sum_to-eq-zero zero a h = refl
  sum_to-eq-zero (suc n) a h = omega (arith, h, sum_to-eq-zero n a h)

  pub sum_to-le : ((a : A) → weight a ≤ 1) → (n : ℕ) (f : ℕ → A) → sum_to n f ≤ n
  unfolding sum_to
  sum_to-le small zero f = omega arith
  sum_to-le small (suc n) f = omega (arith, small (f n), sum_to-le small n f)

  -- A sum that is not 0 has a task that counts.
  pub find_task : (n : ℕ) (f : ℕ → A) → 0 < sum_to n f → (i : ℕ) × (i < n) × (0 < weight (f i))
  unfolding sum_to
  find_task zero f h = absurd (omega arith)
  find_task (suc n) f h = elim (dec_lt 0 (weight (f n))) [
    | yes here ↦ (n, omega arith, here)
    | no not_here ↦ let (i, lt, w) = find_task n f (omega arith) in (i, omega (arith, lt), w)
  ]

module _ {A : Type 0} (u w : A → ℕ) where
  pub sum_to_mono : ((a : A) → u a ≤ w a) → (n : ℕ) (f : ℕ → A) → sum_to u n f ≤ sum_to w n f
  unfolding sum_to
  sum_to_mono le zero f = omega arith
  sum_to_mono le (suc n) f = omega (arith, le (f n), sum_to_mono le n f)
