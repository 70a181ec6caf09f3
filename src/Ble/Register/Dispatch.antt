-- ===== src/Ble/Register/Dispatch.antt =====
-- Each write of a client gets to one handler.
use ledfw_lib.Common.{
  ℕ, ◌≤◌, ◌<◌, ◌≡◌, ◌≢◌, refl, sym, ap, ◌∙◌, arith, true, false, List, [], ◌∷◌, if◌then◌else◌,
  Status, success,
}
use mathlib.Core.Logic.{if_pos, if_neg}
use ledfw_lib.Ble.Service
use ledfw_lib.Ble.Service.{matches}
use ledfw_lib.Ble.Chars.{
  CharId, CharId-discrete, led_char, num_leds, color_mode, refresh_rate, control, led, userapp_char,
  dmx_char, meta_char, program, dmx_explorer, system_control, info, app_name, app_provider,
  dmx_info, values, config, device_uid, log, userapp, dmx, meta, ServiceId, CharDef, Attr,
}
use ledfw_lib.Ble.Register.{
  dispatch, handlers, observers, as_characteristic, unregistered, Server, chars_of, init, init_all,
}
use ledfw_lib.Ble.Register.Distinct.{
  GattsLaws, IsDistinct, unregistered-IsDistinct, init_all-IsDistinct,
}
use ledfw_lib.Ble.Register.Observers.{has_handler, only, only-observers}
use ledfw_lib.Ble.Register.Complete.{AllValid, init-IsDistinct, init-AllValid, init_all-keeps}

module _ (invalid : ℕ) where
  handlers-only :
      (s : Server) (c : CharId) (l : List CharId)
      → IsDistinct invalid s
      → s.value_handle c ≢ invalid
      → handlers invalid s (s.value_handle c) l ≡ only c l
  unfolding handlers only matches Service.is_initialized
  handlers-only s c [] v valid = refl
  handlers-only s c (d ∷ l) v valid = elim (CharId-discrete d c) [
    | yes p ↦
        let m : matches invalid (as_characteristic s d) (s.value_handle c) ≡ true =
          ground (arith, ap s.value_handle p, valid) in
        rw (if_pos _ p, m) (ap (λ l. d ∷ l) (handlers-only s c l v valid))
    | no p ↦
        let m : matches invalid (as_characteristic s d) (s.value_handle c) ≡ false =
          ground (arith, v.distinct c d (λ e. p (sym e)) valid) in
        rw (if_neg _ p, m) (handlers-only s c l v valid)
  ]

  -- A write to the handle of a characteristic
  pub distinct-dispatch :
      (n_channels : ℕ) (s : Server) (c : CharId)
      → IsDistinct invalid s
      → s.value_handle c ≢ invalid
      → dispatch invalid n_channels s (s.value_handle c)
        ≡ (if has_handler n_channels c then c ∷ [] else [])
  unfolding dispatch
  distinct-dispatch n_channels s c v valid =
      handlers-only s c (observers n_channels) v valid ∙ only-observers n_channels c

module _ (invalid : ℕ) (service_add : (last : ℕ) → ServiceId → Status × ℕ)
    (characteristic_add : (last service_handle : ℕ) → Attr → Status × ℕ)
    (laws : GattsLaws service_add characteristic_add) where
  module _ (name_len provider_len max_slots config_size : ℕ) (dmx_end : Status)
      (led_end : ℕ → Status) where
    abbrev chars : ServiceId → List (CharId × CharDef)
    chars svc =
        chars_of invalid service_add characteristic_add name_len provider_len max_slots config_size
          dmx_end led_end svc

    abbrev initialize : ServiceId → Server → Status × Server
    initialize svc s =
        init invalid service_add characteristic_add name_len provider_len max_slots config_size
          dmx_end led_end svc s

    abbrev after : List ServiceId → Server → Server
    after svcs s =
        init_all invalid service_add characteristic_add name_len provider_len max_slots config_size
          dmx_end led_end svcs s

    abbrev service_of : CharId → ServiceId
    service_of (userapp_char c) = userapp
    service_of (dmx_char c) = dmx
    service_of (meta_char c) = meta
    service_of (led_char k c) = led k

    AllValid-at :
        (c : CharId) (s : Server)
        → AllValid invalid service_add characteristic_add laws (chars (service_of c)) s
        → invalid < s.value_handle c
    AllValid-at (userapp_char program) s a = a.0
    AllValid-at (userapp_char info) s a = a.1.0
    AllValid-at (userapp_char app_name) s a = a.1.1.0
    AllValid-at (userapp_char app_provider) s a = a.1.1.1.0
    AllValid-at (userapp_char dmx_info) s a = a.1.1.1.1.0
    AllValid-at (userapp_char dmx_explorer) s a = a.1.1.1.1.1.0
    AllValid-at (dmx_char values) s a = a.0
    AllValid-at (dmx_char config) s a = a.1.0
    AllValid-at (meta_char device_uid) s a = a.0
    AllValid-at (meta_char system_control) s a = a.1.0
    AllValid-at (meta_char log) s a = a.1.1.0
    AllValid-at (led_char k num_leds) s a = a.0
    AllValid-at (led_char k color_mode) s a = a.1.0
    AllValid-at (led_char k refresh_rate) s a = a.1.1.0
    AllValid-at (led_char k control) s a = a.1.1.1.0

    module _ (first : ℕ) (low : invalid ≤ first) where
      -- The state after some inits, then the one of a characteristic's service, then others
      abbrev before : List ServiceId → Server
      before earlier = after earlier (unregistered invalid first)

      abbrev final : List ServiceId → CharId → List ServiceId → Server
      final earlier c later = after later (initialize (service_of c) (before earlier)).1

      -- If the first init of a service succeeds, then whatever inits were made before and are made later, with
      -- whatever errors, each of its characteristics has a handle of its own, and a write to that
      -- handle calls the characteristic's handler once, if it has one, and no other; each handle that the
      -- SoftDevice gives is above those before, and the first above the invalid one.
      pub registered-dispatch :
          (n_channels : ℕ) (earlier later : List ServiceId) (c : CharId)
          → (before earlier).service_handle (service_of c) ≡ invalid
          → (initialize (service_of c) (before earlier)).0 ≡ success
          → let s = final earlier c later in
            (invalid < s.value_handle c)
            × (dispatch invalid n_channels s (s.value_handle c)
                ≡ (if has_handler n_channels c then c ∷ [] else []))
      registered-dispatch n_channels earlier later c fresh ok =
          let s = before earlier in
          let kept = λ (svcs : List ServiceId) (t : Server) (d : IsDistinct invalid t).
            init_all-IsDistinct invalid service_add characteristic_add laws name_len provider_len
              max_slots config_size dmx_end led_end svcs t d in
          let v =
            kept earlier (unregistered invalid first) (unregistered-IsDistinct invalid first low) in
          let next = initialize (service_of c) s in
          let v' =
            init-IsDistinct invalid service_add characteristic_add laws name_len provider_len
              max_slots config_size dmx_end led_end (service_of c) s v in
          let valid =
            init_all-keeps invalid service_add characteristic_add laws name_len provider_len
              max_slots config_size dmx_end led_end later c next.1 v'
              (AllValid-at c next.1 (
                init-AllValid invalid service_add characteristic_add laws name_len provider_len
                  max_slots config_size dmx_end led_end (service_of c) s v fresh ok)) in
          (
            valid,
            distinct-dispatch invalid n_channels (final earlier c later) c (kept later next.1 v')
                (λ e. omega (arith, valid)),
          )
