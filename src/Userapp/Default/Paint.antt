-- ===== src/Userapp/Default/Paint.antt =====
-- What the default application draws.
use ledfw_lib.Common.{
  ℕ, zero, suc, ◌+◌, ◌*◌, ◌≤◌, ◌<◌, ◌≡◌, ◌≢◌, refl, ap, sym, ◌∙◌, true, List, leb, length, get_or,
  set, length-set, get_or-set_self, get_or-set_ne,
}
use native.Mathlib.Omega.{arith}
use mathlib.Core.Path.{subst}
use ledfw_lib.Userapp.Default.{LedChan, pick_mode, paint, default_refresh}

module _ (value : ℕ → ℕ) where
  abbrev triple : List ℕ → ℕ → List ℕ
  triple buffer i = set (set (set buffer i (value 0)) (i + 1) (value 1)) (i + 2) (value 2)

  length-triple : (buffer : List ℕ) (i : ℕ) → length (triple buffer i) ≡ length buffer
  length-triple buffer i =
      length-set (set (set buffer i (value 0)) (i + 1) (value 1)) (i + 2) (value 2)
      ∙ length-set (set buffer i (value 0)) (i + 1) (value 1)
      ∙ length-set buffer i (value 0)

  triple_ne :
      (buffer : List ℕ) (i m : ℕ)
      → i ≢ m
      → i + 1 ≢ m
      → i + 2 ≢ m
      → get_or (triple buffer i) m 0 ≡ get_or buffer m 0
  triple_ne buffer i m a b c =
      get_or-set_ne (set (set buffer i (value 0)) (i + 1) (value 1)) (i + 2) m (value 2) 0 c
      ∙ get_or-set_ne (set buffer i (value 0)) (i + 1) m (value 1) 0 b
      ∙ get_or-set_ne buffer i m (value 0) 0 a

  triple_at :
      (buffer : List ℕ) (i m j : ℕ)
      → i + 3 ≤ length buffer
      → j < 3
      → m ≡ i + j
      → get_or (triple buffer i) m 0 ≡ value j
  triple_at buffer i m zero h lt e =
      get_or-set_ne (set (set buffer i (value 0)) (i + 1) (value 1)) (i + 2) m (value 2) 0
        (λ q. absurd (omega (arith, q)))
      ∙ get_or-set_ne (set buffer i (value 0)) (i + 1) m (value 1) 0
          (λ q. absurd (omega (arith, q)))
      ∙ ap (λ k. get_or (set buffer i (value 0)) k 0) (omega arith)
      ∙ get_or-set_self buffer i (value 0) 0 (omega arith)
  triple_at buffer i m (suc zero) h lt e =
      get_or-set_ne (set (set buffer i (value 0)) (i + 1) (value 1)) (i + 2) m (value 2) 0
        (λ q. absurd (omega (arith, q)))
      ∙ ap (λ k. get_or (set (set buffer i (value 0)) (i + 1) (value 1)) k 0) (omega arith)
      ∙ get_or-set_self (set buffer i (value 0)) (i + 1) (value 1) 0
          (omega (arith, length-set buffer i (value 0)))
  triple_at buffer i m (suc (suc zero)) h lt e =
      ap (λ k. get_or (triple buffer i) k 0) (omega arith)
      ∙ get_or-set_self (set (set buffer i (value 0)) (i + 1) (value 1)) (i + 2) (value 2) 0 (
          omega (
            arith,
            length-set buffer i (value 0),
            length-set (set buffer i (value 0)) (i + 1) (value 1),
          ))
  triple_at buffer i m (suc (suc (suc j))) h lt e = absurd (omega arith)

  length-paint : (n i : ℕ) (buffer : List ℕ) → length (paint value n i buffer) ≡ length buffer
  unfolding paint
  length-paint zero i buffer = refl
  length-paint (suc n) i buffer = length-paint n (i + 3) (triple buffer i) ∙ length-triple buffer i

  paint_before :
      (n i m : ℕ) (buffer : List ℕ)
      → m < i
      → get_or (paint value n i buffer) m 0 ≡ get_or buffer m 0
  unfolding paint
  paint_before zero i m buffer h = refl
  paint_before (suc n) i m buffer h =
      paint_before n (i + 3) m (triple buffer i) (omega arith)
      ∙ triple_ne buffer i m (λ q. absurd (omega (arith, q))) (λ q. absurd (omega (arith, q)))
          (λ q. absurd (omega (arith, q)))

  paint_after :
      (n i m : ℕ) (buffer : List ℕ)
      → i + 3 * n ≤ m
      → get_or (paint value n i buffer) m 0 ≡ get_or buffer m 0
  unfolding paint
  paint_after zero i m buffer h = refl
  paint_after (suc n) i m buffer h =
      paint_after n (i + 3) m (triple buffer i) (omega arith)
      ∙ triple_ne buffer i m (λ q. absurd (omega (arith, q))) (λ q. absurd (omega (arith, q)))
          (λ q. absurd (omega (arith, q)))

  paint_in :
      (n i m j k : ℕ) (buffer : List ℕ)
      → i + 3 * n ≤ length buffer
      → k < n
      → j < 3
      → m ≡ i + 3 * k + j
      → get_or (paint value n i buffer) m 0 ≡ value j
  unfolding paint
  paint_in zero i m j k buffer h lk lj e = absurd (omega arith)
  paint_in (suc n) i m j zero buffer h lk lj e =
      paint_before n (i + 3) m (triple buffer i) (omega arith)
      ∙ triple_at buffer i m j (omega arith) lj (omega arith)
  paint_in (suc n) i m j (suc k) buffer h lk lj e =
      paint_in n (i + 3) m j k (triple buffer i) (omega (arith, length-triple buffer i))
        (omega arith) lj (omega arith)

-- The values that `default_refresh` leaves in a buffer.
pub record Refreshed (chan new : LedChan) : Type 0 where
  pub painted :
      (k j : ℕ)
      → k < chan.n_leds
      → j < 3
      → get_or new.buffer (3 * k + j) 0 ≡ get_or chan.dmx_vals j 0
  pub kept : (m : ℕ) → 3 * chan.n_leds ≤ m → get_or new.buffer m 0 ≡ get_or chan.buffer m 0
  pub size : length new.buffer ≡ length chan.buffer
  pub mode : new.color_mode < 3

pick_mode-mode : (chan : LedChan) → (pick_mode chan).color_mode < 3
unfolding pick_mode
pick_mode-mode chan = ground arith

-- `default_refresh` with at least three DMX values and a buffer with room for all LEDs gives every LED the
-- first three values, leaves the rest of the buffer, and chooses one of the three colour modes.
pub default_refresh-Refreshed :
    (chan : LedChan)
    → 3 ≤ chan.dmx_vals_len
    → 3 * chan.n_leds ≤ length chan.buffer
    → Refreshed chan (default_refresh chan)
unfolding default_refresh
default_refresh-Refreshed chan h room =
    let e : leb 3 chan.dmx_vals_len ≡ true = ground arith in
    let v : ℕ → ℕ = λ j. get_or chan.dmx_vals j 0 in
    subst (Refreshed chan) (sym (taken e)) (record {
      painted = λ k j lk lj.
          paint_in v chan.n_leds 0 (3 * k + j) j k chan.buffer (omega arith) lk lj (omega arith);
      kept = λ m le. paint_after v chan.n_leds 0 m chan.buffer (omega arith);
      size = length-paint v chan.n_leds 0 chan.buffer;
      mode = pick_mode-mode chan;
    })
  where
    taken :
        leb 3 chan.dmx_vals_len ≡ true
        → default_refresh chan ≡ record (pick_mode chan) {
          buffer = paint (λ j. get_or chan.dmx_vals j 0) chan.n_leds 0 chan.buffer;
        }
    taken e = simp e
