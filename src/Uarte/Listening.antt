-- ===== src/Uarte/Listening.antt =====
-- When the driver listens.
use ledfw_lib.Common.{ℕ, ◌≡◌, refl, Bool, true, false, Bool-cases, inl, inr, List, [], ◌∷◌, success}
use ledfw_lib.Uarte.{
  uarte_rx, enable, disable, rx_done, error, other_event, uarte_evt_handler, Input, enables,
  disables, happens, takes, System, ended, take_frame, step, run,
}

-- The driver accepts each reception, and no error but a break occurs.
abbrev pub IsCalm : Input → Type 0
IsCalm (enables started) = started ≡ success
IsCalm (happens started (error false)) = ⊥
IsCalm (happens started _) = started ≡ success
IsCalm disables = Unit
IsCalm takes = Unit

abbrev pub AllCalm : List Input → Type 0
AllCalm [] = Unit
AllCalm (i ∷ is) = IsCalm i × AllCalm is

module _ (fits : List (List ℕ) → List ℕ → Bool) where
  -- The driver has the buffer exactly if the receiver is enabled.
  abbrev pub IsListening : System → Type 0
  IsListening s = s.uarte.receiving ≡ s.uarte.is_enabled

  take_frame-IsListening :
      (q : List (List ℕ)) (s : System) → IsListening s → IsListening (take_frame fits q s)
  unfolding take_frame
  take_frame-IsListening [] s h = h
  take_frame-IsListening (f ∷ q) s h = h

  step-IsListening :
      (i : Input) (s : System) → IsCalm i → IsListening s → IsListening (step fits i s)
  unfolding step enable disable uarte_rx ended uarte_evt_handler
  step-IsListening (enables started) s c h = rw c refl
  step-IsListening disables s c h = refl
  step-IsListening (happens started (rx_done f)) s c h = elim (Bool-cases s.uarte.is_enabled) [
    | inl e ↦ rw (e, c) refl
    | inr e ↦ rw (e) refl
  ]
  step-IsListening (happens started (error true)) s c h = elim (Bool-cases s.uarte.is_enabled) [
    | inl e ↦ rw (e, c) refl
    | inr e ↦ rw (e) refl
  ]
  step-IsListening (happens started (error false)) s c h = absurd c
  step-IsListening (happens started other_event) s c h = h
  step-IsListening takes s c h = take_frame-IsListening s.uarte.frame_buf s h

  -- While the driver accepts each reception and no error but a break occurs, whatever is done with the receiver and
  -- whatever arrives, the driver has a buffer to receive into exactly if the receiver is enabled.
  pub run-IsListening :
      (is : List Input) (s : System) → AllCalm is → IsListening s → IsListening (run fits is s)
  unfolding run
  run-IsListening [] s c h = h
  run-IsListening (i ∷ is) s c h =
      run-IsListening is (step fits i s) c.1 (step-IsListening i s c.0 h)
