-- ===== src/Uarte/Frames.antt =====
-- Which frames the DMX thread gets.
use ledfw_lib.Common.{
  ℕ, suc, ◌+◌, ◌-◌, ◌*◌, ◌≤◌, ◌<◌, ◌≡◌, refl, sym, ap, ◌∙◌, arith, Bool, true, false, ◌||◌,
  Bool-cases, inl, inr, List, [], ◌∷◌, ◌++◌, append_assoc, append-nil, length, Status, is_success,
}
use ledfw_lib.Dmx.{max_frame_size}
use ledfw_lib.Uarte.{
  Uarte, uarte_rx, enable, disable, rx_done, error, other_event, message_send, uarte_evt_handler,
  Input, enables, disables, happens, takes, System, ended, take_frame, step, run,
}

-- The bytes that messages take in a message buffer: each has its length before it, in four bytes.
unfoldable pub used : List (List ℕ) → ℕ
used [] = 0
used (f ∷ q) = 4 + length f + used q

-- What FreeRTOS documents: there is room for a message if its bytes and its length fit behind the others.
pub record MessageLaw (fits : List (List ℕ) → List ℕ → Bool) (capacity : ℕ) : Type 0 where
  pub room : (q : List (List ℕ)) (f : List ℕ) → used q + 4 + length f ≤ capacity → fits q f ≡ true

abbrev pub AllShort : List (List ℕ) → Type 0
AllShort [] = Unit
AllShort (f ∷ q) = (length f ≤ max_frame_size) × AllShort q

-- Each frame that arrives while the receiver is enabled finds fewer than `k` before it, and is no longer than
-- `buffer0`; `n` frames wait at the start.
abbrev pub InTime : (k n : ℕ) → (is_enabled : Bool) → List Input → Type 0
InTime k n b [] = Unit
InTime k n b (enables started ∷ is) = InTime k n (is_success started || b) is
InTime k n b (disables ∷ is) = InTime k n false is
InTime k n true (happens started (rx_done f) ∷ is) =
    (n < k) × (length f ≤ max_frame_size) × InTime k (n + 1) true is
InTime k n false (happens started (rx_done f) ∷ is) = InTime k n false is
InTime k n b (happens started (error x) ∷ is) = InTime k n b is
InTime k n b (happens started other_event ∷ is) = InTime k n b is
InTime k n b (takes ∷ is) = InTime k (n - 1) b is

-- The frames that arrive while the receiver is enabled
abbrev pub arrived : (is_enabled : Bool) → List Input → List (List ℕ)
arrived b [] = []
arrived b (enables started ∷ is) = arrived (is_success started || b) is
arrived b (disables ∷ is) = arrived false is
arrived true (happens started (rx_done f) ∷ is) = f ∷ arrived true is
arrived false (happens started (rx_done f) ∷ is) = arrived false is
arrived b (happens started (error x) ∷ is) = arrived b is
arrived b (happens started other_event ∷ is) = arrived b is
arrived b (takes ∷ is) = arrived b is

used-AllShort : (q : List (List ℕ)) → AllShort q → used q ≤ 524 * length q
unfolding used
used-AllShort [] a = omega arith
used-AllShort (f ∷ q) a = omega (arith, a.0, used-AllShort q a.1)

append-AllShort :
    (q : List (List ℕ)) (f : List ℕ)
    → AllShort q
    → length f ≤ max_frame_size
    → AllShort (q ++ (f ∷ []))
append-AllShort [] f a h = (h, tt)
append-AllShort (g ∷ q) f a h = (a.0, append-AllShort q f a.1 h)

length-append_one : (q : List (List ℕ)) (f : List ℕ) → length (q ++ (f ∷ [])) ≡ length q + 1
length-append_one [] f = omega arith
length-append_one (g ∷ q) f = omega (arith, length-append_one q f)

module _ (fits : List (List ℕ) → List ℕ → Bool) (capacity : ℕ) (law : MessageLaw fits capacity)
    (k : ℕ) (large : 524 * k ≤ capacity) where
  -- All frames that were taken or wait, the oldest first
  abbrev all_frames : System → List (List ℕ)
  all_frames s = s.taken ++ s.uarte.frame_buf

  abbrev Accounts : List Input → Bool → List (List ℕ) → System → Type 0
  Accounts is b frames s = all_frames (run fits is s) ≡ frames ++ arrived b is

  message_send-short :
      (q : List (List ℕ)) (f : List ℕ)
      → AllShort q
      → length q < k
      → length f ≤ max_frame_size
      → message_send fits f q ≡ q ++ (f ∷ [])
  unfolding message_send
  message_send-short q f a h short =
      rw (law.room q f (omega (arith, used-AllShort q a, h, short, large))) refl

  abbrev system : Bool → List (List ℕ) → Bool → List (List ℕ) → System
  system b q r taken = record {
    uarte = record { is_enabled = b; frame_buf = q; receiving = r };
    taken = taken;
  }

  enable_lem :
      (started : Status) (b : Bool) (q : List (List ℕ)) (r : Bool) (taken : List (List ℕ))
      → step fits (enables started) (system b q r taken)
        ≡ system (is_success started || b) q (is_success started || r) taken
  unfolding step enable uarte_rx
  enable_lem started b q r taken = elim (Bool-cases (is_success started)) [
    | inl e ↦ rw e refl
    | inr e ↦ rw e refl
  ]

  -- What a start of the driver's reception keeps
  uarte_rx-frames :
      (started : Status) (b : Bool) (q : List (List ℕ)) (r : Bool)
      → (r' : Bool) × (uarte_rx started (record { is_enabled = b; frame_buf = q; receiving = r })
          ≡ record { is_enabled = b; frame_buf = q; receiving = r' })
  unfolding uarte_rx
  uarte_rx-frames started b q r = elim (Bool-cases (is_success started)) [
    | inl e ↦ (true, rw e refl)
    | inr e ↦ (r, rw e refl)
  ]

  -- A frame that arrives in time
  step_done :
      (started : Status) (f : List ℕ) (q : List (List ℕ)) (r : Bool) (taken : List (List ℕ))
      → AllShort q
      → length q < k
      → length f ≤ max_frame_size
      → (r' : Bool) × (step fits (happens started (rx_done f)) (system true q r taken)
          ≡ system true (q ++ (f ∷ [])) r' taken)
  unfolding step ended uarte_evt_handler
  step_done started f q r taken a h short =
      let (r', e) = uarte_rx-frames started true (q ++ (f ∷ [])) false in
      (
        r',
        rw (message_send-short q f a h short)
            (ap (λ (u : Uarte). record { uarte = u; taken = taken }) e),
      )

  frames_kept-from :
      (is : List Input) (b : Bool) (q : List (List ℕ)) (r : Bool) (taken : List (List ℕ))
      → AllShort q
      → InTime k (length q) b is
      → Accounts is b (taken ++ q) (system b q r taken)
  unfolding run step disable ended uarte_evt_handler take_frame
  frames_kept-from [] b q r taken a t = sym (append-nil (taken ++ q))
  frames_kept-from (enables started ∷ is) b q r taken a t =
      ap (λ s. all_frames (run fits is s)) (enable_lem started b q r taken)
      ∙ frames_kept-from is (is_success started || b) q (is_success started || r) taken a t
  frames_kept-from (disables ∷ is) b q r taken a t = frames_kept-from is false q false taken a t
  frames_kept-from (happens started (rx_done f) ∷ is) true q r taken a t =
      let (r', e) = step_done started f q r taken a t.0 t.1 in
      let next =
        frames_kept-from is true (q ++ (f ∷ [])) r' taken (append-AllShort q f a t.1)
          (rw (length-append_one q f) t.2) in
      ap (λ s. all_frames (run fits is s)) e
      ∙ next
      ∙ ap (λ l. l ++ arrived true is) (sym (append_assoc taken q (f ∷ [])))
      ∙ append_assoc (taken ++ q) (f ∷ []) (arrived true is)
  frames_kept-from (happens started (rx_done f) ∷ is) false q r taken a t =
      frames_kept-from is false q false taken a t
  frames_kept-from (happens started (error true) ∷ is) true q r taken a t =
      let (r', e) = uarte_rx-frames started true q false in
      ap (λ u. all_frames (run fits is (record { uarte = u; taken = taken }))) e
      ∙ frames_kept-from is true q r' taken a t
  frames_kept-from (happens started (error true) ∷ is) false q r taken a t =
      frames_kept-from is false q false taken a t
  frames_kept-from (happens started (error false) ∷ is) b q r taken a t =
      frames_kept-from is b q false taken a t
  frames_kept-from (happens started other_event ∷ is) b q r taken a t =
      frames_kept-from is b q r taken a t
  frames_kept-from (takes ∷ is) b [] r taken a t = frames_kept-from is b [] r taken a t
  frames_kept-from (takes ∷ is) b (f ∷ q) r taken a t =
      let e : length q ≡ suc (length q) - 1 = omega arith in
      frames_kept-from is b q r (taken ++ (f ∷ [])) a.1 (rw e t)
      ∙ ap (λ l. l ++ arrived b is) (append_assoc taken (f ∷ []) q)

  -- If each frame of at most DMX_MAX_FRAME_SIZE bytes that arrives while the receiver is enabled finds fewer than `k`
  -- others waiting, and the buffer has four bytes more than the maximal size for each of `k`, then no frame is lost:
  -- those that the DMX thread took and those that wait are, in order, those at the start and all
  -- that arrived while it was enabled, whatever errors happen, and however it is enabled and disabled.
  pub frames_kept :
      (is : List Input) (s : System)
      → AllShort s.uarte.frame_buf
      → InTime k (length s.uarte.frame_buf) s.uarte.is_enabled is
      → Accounts is s.uarte.is_enabled (s.taken ++ s.uarte.frame_buf) s
  frames_kept is s a t =
      frames_kept-from is s.uarte.is_enabled s.uarte.frame_buf s.uarte.receiving s.taken a t
