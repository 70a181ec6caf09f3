-- ===== src/Ble/Register/Observers.antt =====
-- The characteristics that clients may write, and the list of their observers.
use ledfw_lib.Common.{
  ℕ, suc, ◌<◌, ◌≡◌, ◌≢◌, refl, sym, ap, ◌∙◌, arith, Bool, true, false, Option, some, List, [], ◌∷◌,
  ℕ_discrete, if◌then◌else◌, ltb, zero, none,
}
use mathlib.Core.Logic.{ite, if_pos, if_neg}
use ledfw_lib.Ble.Chars.{
  CharId, CharId-discrete, led_char, LedChar, num_leds, color_mode, refresh_rate, control,
  userapp_char, dmx_char, meta_char, program, dmx_explorer, system_control, info, app_name,
  app_provider, dmx_info, values, config, device_uid, log, ServiceId, CharDef, Attr,
  set_gatts_attr_value,
}
use ledfw_lib.Ble.Register.{led_observers, observers}

-- The characteristics that clients may write
abbrev pub has_handler : (n_channels : ℕ) → CharId → Bool
has_handler n (userapp_char program) = true
has_handler n (userapp_char dmx_explorer) = true
has_handler n (userapp_char _) = false
has_handler n (dmx_char _) = true
has_handler n (meta_char system_control) = true
has_handler n (meta_char _) = false
has_handler n (led_char channel _) = ltb channel n

-- The items of a list that are `c`
unfoldable pub only : CharId → List CharId → List CharId
only c [] = []
only c (d ∷ l) = let rest = only c l in ite (CharId-discrete d c) (d ∷ rest) rest

only-cons_ne : (c d : CharId) (l : List CharId) → d ≢ c → only c (d ∷ l) ≡ only c l
unfolding only
only-cons_ne c d l h = rw (if_neg (CharId-discrete d c) h) refl

only-cons_eq : (c : CharId) (l : List CharId) → only c (c ∷ l) ≡ c ∷ only c l
unfolding only
only-cons_eq c l = rw (if_pos (CharId-discrete c c) refl) refl

-- Whether a characteristic is one of an LED channel, and the channel
abbrev channel_of : CharId → Option ℕ
channel_of (led_char k x) = some k
channel_of (userapp_char c) = none
channel_of (dmx_char c) = none
channel_of (meta_char c) = none

only_skip :
    (c : CharId) (k : ℕ) (l : List CharId)
    → channel_of c ≢ some k
    → only c (
        led_char k num_leds
        ∷ led_char k color_mode
        ∷ led_char k refresh_rate
        ∷ led_char k control
        ∷ l)
      ≡ only c l
only_skip c k l h =
    let other = λ (x : LedChar) (e : led_char k x ≡ c). h (sym (ap channel_of e)) in
    let l₁ : List CharId = led_char k control ∷ l in
    let l₂ : List CharId = led_char k refresh_rate ∷ l₁ in
    only-cons_ne c (led_char k num_leds) (led_char k color_mode ∷ l₂) (other num_leds)
    ∙ only-cons_ne c (led_char k color_mode) l₂ (other color_mode)
    ∙ only-cons_ne c (led_char k refresh_rate) l₁ (other refresh_rate)
    ∙ only-cons_ne c (led_char k control) l (other control)

only_hit :
    (k : ℕ) (x : LedChar) (l : List CharId)
    → only (led_char k x) l ≡ []
    → only (led_char k x) (
        led_char k num_leds
        ∷ led_char k color_mode
        ∷ led_char k refresh_rate
        ∷ led_char k control
        ∷ l)
      ≡ led_char k x ∷ []
only_hit k num_leds l h =
    only-cons_eq (led_char k num_leds)
      (led_char k color_mode ∷ led_char k refresh_rate ∷ led_char k control ∷ l)
    ∙ ap (λ r. led_char k num_leds ∷ r)
        (only-cons_ne (led_char k num_leds) (led_char k color_mode)
            (led_char k refresh_rate ∷ led_char k control ∷ l) (λ e. cc)
          ∙ only-cons_ne (led_char k num_leds) (led_char k refresh_rate) (led_char k control ∷ l)
              (λ e. cc)
          ∙ only-cons_ne (led_char k num_leds) (led_char k control) (l) (λ e. cc)
          ∙ h)
only_hit k color_mode l h =
    only-cons_ne (led_char k color_mode) (led_char k num_leds)
      (led_char k color_mode ∷ led_char k refresh_rate ∷ led_char k control ∷ l) (λ e. cc)
    ∙ only-cons_eq (led_char k color_mode) (led_char k refresh_rate ∷ led_char k control ∷ l)
    ∙ ap (λ r. led_char k color_mode ∷ r)
        (only-cons_ne (led_char k color_mode) (led_char k refresh_rate) (led_char k control ∷ l)
            (λ e. cc)
          ∙ only-cons_ne (led_char k color_mode) (led_char k control) (l) (λ e. cc)
          ∙ h)
only_hit k refresh_rate l h =
    only-cons_ne (led_char k refresh_rate) (led_char k num_leds)
      (led_char k color_mode ∷ led_char k refresh_rate ∷ led_char k control ∷ l) (λ e. cc)
    ∙ only-cons_ne (led_char k refresh_rate) (led_char k color_mode)
        (led_char k refresh_rate ∷ led_char k control ∷ l) (λ e. cc)
    ∙ only-cons_eq (led_char k refresh_rate) (led_char k control ∷ l)
    ∙ ap (λ r. led_char k refresh_rate ∷ r)
        (only-cons_ne (led_char k refresh_rate) (led_char k control) (l) (λ e. cc) ∙ h)
only_hit k control l h =
    only-cons_ne (led_char k control) (led_char k num_leds)
      (led_char k color_mode ∷ led_char k refresh_rate ∷ led_char k control ∷ l) (λ e. cc)
    ∙ only-cons_ne (led_char k control) (led_char k color_mode)
        (led_char k refresh_rate ∷ led_char k control ∷ l) (λ e. cc)
    ∙ only-cons_ne (led_char k control) (led_char k refresh_rate) (led_char k control ∷ l) (λ e. cc)
    ∙ only-cons_eq (led_char k control) (l)
    ∙ ap (λ r. led_char k control ∷ r) (h)

only-led_observers_ne :
    (c : CharId) (n : ℕ) → ((k : ℕ) → k < n → channel_of c ≢ some k) → only c (led_observers n) ≡ []
unfolding only
only-led_observers_ne c zero h = refl
only-led_observers_ne c (suc k) h =
    only_skip c k (led_observers k) (h k (omega arith))
    ∙ only-led_observers_ne c k (λ j lt. h j (omega arith))

only-led_observers :
    (j : ℕ) (x : LedChar) (n : ℕ)
    → only (led_char j x) (led_observers n) ≡ (if ltb j n then led_char j x ∷ [] else [])
unfolding only
only-led_observers j x zero = ground arith
only-led_observers j x (suc k) = elim (ℕ_discrete k j) [
  | yes e ↦
      let inside : ltb j (suc k) ≡ true = ground (arith, e) in
      rw inside (
        ap (λ i. only (led_char j x) (led_observers (suc i))) e
        ∙ only_hit j x (led_observers j)
            (only-led_observers_ne (led_char j x) j (λ i lt q. ground arith)))
  | no ne ↦
      let same : ltb j (suc k) ≡ ltb j k = ground (arith, ne) in
      rw same (
        only_skip (led_char j x) k (led_observers k) (λ e. ne (ground arith))
        ∙ only-led_observers j x k)
]

pub only-observers :
    (n : ℕ) (c : CharId) → only c (observers n) ≡ (if has_handler n c then c ∷ [] else [])
unfolding only CharId-discrete ledfw_lib.Ble.Chars.userapp-discrete ledfw_lib.Ble.Chars.dmx-discrete
    ledfw_lib.Ble.Chars.meta-discrete
only-observers n (userapp_char program) =
    ap (λ l. userapp_char program ∷ l) (only-led_observers_ne _ n (λ k lt e. cc))
only-observers n (userapp_char info) = only-led_observers_ne _ n (λ k lt e. cc)
only-observers n (userapp_char app_name) = only-led_observers_ne _ n (λ k lt e. cc)
only-observers n (userapp_char app_provider) = only-led_observers_ne _ n (λ k lt e. cc)
only-observers n (userapp_char dmx_info) = only-led_observers_ne _ n (λ k lt e. cc)
only-observers n (userapp_char dmx_explorer) =
    ap (λ l. userapp_char dmx_explorer ∷ l) (only-led_observers_ne _ n (λ k lt e. cc))
only-observers n (dmx_char values) =
    ap (λ l. dmx_char values ∷ l) (only-led_observers_ne _ n (λ k lt e. cc))
only-observers n (dmx_char config) =
    ap (λ l. dmx_char config ∷ l) (only-led_observers_ne _ n (λ k lt e. cc))
only-observers n (meta_char device_uid) = only-led_observers_ne _ n (λ k lt e. cc)
only-observers n (meta_char system_control) =
    ap (λ l. meta_char system_control ∷ l) (only-led_observers_ne _ n (λ k lt e. cc))
only-observers n (meta_char log) = only-led_observers_ne _ n (λ k lt e. cc)
only-observers n (led_char j x) = only-led_observers j x n
