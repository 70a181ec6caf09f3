-- ===== src/Ble/Register.antt =====
-- The registration of services and characteristics, and the way of a write to its handler: `ble::service` and
-- `ble::characteristic` of src/ble/service.cc and include/ble/service.hh, with the services of
-- src/ble/userapp.cc, src/ble/dmx.cc, src/ble/meta.cc and src/ble/led_impl.cc, which is there once for each channel.
--
-- The GATT server of the SoftDevice is the highest handle that it gave and the answers to its two calls, a
-- status and a handle, which are parameters; `invalid` is BLE_GATT_HANDLE_INVALID. A text is its length.
pub mod Observers
pub mod Distinct
pub mod Complete
pub mod Dispatch
pub mod Again
use ledfw_lib.Common.{
  ℕ, zero, suc, ◌+◌, ◌-◌, ℕ_discrete, Bool, true, false, not, Option, none, some, List, [], ◌∷◌,
  ◌++◌, ◌==◌, if◌then◌else◌, Status, success, invalid_state, is_success, verify_success,
}
use mathlib.Core.Logic.{ite}
use ledfw_lib.Ble.Service.{Characteristic, matches}
use ledfw_lib.Ble.Chars.{
  Attr, CharDef, CharId, CharId-discrete, DmxChar, LedChar, MetaChar, ServiceId, ServiceId-discrete,
  UserappChar, app_name, app_provider, buffered, color_mode, config, control, described, device_uid,
  dmx, dmx_char, dmx_char_def, dmx_explorer, dmx_info, info, led, led_char, led_char_def, log,
  max_att_data_len, meta, meta_char, meta_char_def, num_leds, program, refresh_rate,
  set_gatts_attr_value, system_control, userapp, userapp_char, userapp_char_def, values,
  with_format,
}

-- The handles that the code keeps, and the highest that was given
pub record Server : Type 0 where
  pub last_handle : ℕ
  pub service_handle : ServiceId → ℕ
  pub value_handle : CharId → ℕ

module _ (invalid : ℕ) (service_add : (last : ℕ) → ServiceId → Status × ℕ)
    (characteristic_add : (last service_handle : ℕ) → Attr → Status × ℕ) where
  unfoldable pub is_initialized : ServiceId → Server → Bool
  is_initialized svc s = not (s.service_handle svc == invalid)

  unfoldable pub init_service : ServiceId → Server → Status × Server
  init_service svc s =
      let added = service_add s.last_handle svc in
      (
        added.0,
        if is_success added.0
            then record s {
              last_handle = added.1;
              service_handle = λ v. ite (ServiceId-discrete svc v) added.1 (s.service_handle v);
            }
            else s,
      )

  unfoldable pub add_characteristic : ServiceId → CharId × CharDef → Server → Status × Server
  add_characteristic svc (c, d) s =
      let added =
        characteristic_add s.last_handle (s.service_handle svc) (set_gatts_attr_value d) in
      let s' = record s {
        last_handle = added.1;
        value_handle = λ v. ite (CharId-discrete c v) added.1 (s.value_handle v);
      } in
      if is_initialized svc s
      then (added.0, if is_success added.0 then s' else s)
      else (invalid_state, s)

  -- The calls of `add_characteristic` in a row, each with VERIFY_SUCCESS
  unfoldable pub add_all : ServiceId → List (CharId × CharDef) → Server → Status × Server
  add_all svc [] s = (success, s)
  add_all svc (cha ∷ rest) s =
      let added = add_characteristic svc cha s in
      let others = add_all svc rest added.1 in verify_success added.0 others (λ e. (e, added.1))

  -- An init: `end` is the status of what it does when all is added.
  unfoldable pub init_with :
      (end : Status) → ServiceId → List (CharId × CharDef) → Server → Status × Server
  init_with end svc chars s =
      let added = init_service svc s in
      let all = add_all svc chars added.1 in
      let ended = verify_success all.0 (end, all.1) (λ e. (e, all.1)) in
      if is_initialized svc s
      then (success, s)
      else verify_success added.0 ended (λ e. (e, added.1))

  -- `dmx_end` and `led_end` are the statuses of creating the tasks and queues of these services, and of the
  -- subscription to the values of the DMX thread.
  module _ (name_len provider_len max_slots config_size : ℕ) (dmx_end : Status)
      (led_end : ℕ → Status) where
    abbrev pub userapp_chars : List (CharId × CharDef)
    userapp_chars =
        let d : UserappChar → CharDef = userapp_char_def name_len provider_len in
        (userapp_char program, d program)
        ∷ (userapp_char info, d info)
        ∷ (userapp_char app_name, with_format (d app_name))
        ∷ (userapp_char app_provider, with_format (d app_provider))
        ∷ (userapp_char dmx_info, d dmx_info)
        ∷ (userapp_char dmx_explorer, d dmx_explorer)
        ∷ []

    abbrev pub dmx_chars : List (CharId × CharDef)
    dmx_chars =
        let d : DmxChar → CharDef = dmx_char_def max_slots config_size in
        (dmx_char values, d values) ∷ (dmx_char config, d config) ∷ []

    abbrev pub meta_chars : List (CharId × CharDef)
    meta_chars =
        (meta_char device_uid, meta_char_def device_uid)
        ∷ (meta_char system_control, meta_char_def system_control)
        ∷ (meta_char log, with_format (meta_char_def log))
        ∷ []

    abbrev pub led_chars : ℕ → List (CharId × CharDef)
    led_chars channel =
        (led_char channel num_leds, with_format (led_char_def num_leds))
        ∷ (led_char channel color_mode, with_format (led_char_def color_mode))
        ∷ (led_char channel refresh_rate, with_format (led_char_def refresh_rate))
        ∷ (led_char channel control, led_char_def control)
        ∷ []

    abbrev pub end_of : ServiceId → Status
    end_of userapp = success
    end_of dmx = dmx_end
    end_of meta = success
    end_of (led channel) = led_end channel

    abbrev pub chars_of : ServiceId → List (CharId × CharDef)
    chars_of userapp = userapp_chars
    chars_of dmx = dmx_chars
    chars_of meta = meta_chars
    chars_of (led channel) = led_chars channel

    -- The inits of the services, and any sequence of them
    unfoldable pub init : ServiceId → Server → Status × Server
    init svc s = init_with (end_of svc) svc (chars_of svc) s

    unfoldable pub init_all : List ServiceId → Server → Server
    init_all [] s = s
    init_all (svc ∷ rest) s = init_all rest (init svc s).1

-- The characteristics with a BLE_GATT_WRITE_OBSERVER
abbrev pub led_observers : (n_channels : ℕ) → List CharId
led_observers zero = []
led_observers (suc k) =
    led_char k num_leds
    ∷ led_char k color_mode
    ∷ led_char k refresh_rate
    ∷ led_char k control
    ∷ led_observers k

abbrev pub observers : (n_channels : ℕ) → List CharId
observers n_channels =
    userapp_char program
    ∷ userapp_char dmx_explorer
    ∷ dmx_char values
    ∷ dmx_char config
    ∷ meta_char system_control
    ∷ led_observers n_channels

abbrev pub as_characteristic : Server → CharId → Characteristic
as_characteristic s c = record {
  value_handle = some (s.value_handle c);
  buffer = none;
  buffer_max_len = 0;
}

-- Whose handlers are called for a write to a handle
unfoldable pub handlers : (invalid : ℕ) → Server → (handle : ℕ) → List CharId → List CharId
handlers invalid s handle [] = []
handlers invalid s handle (c ∷ rest) =
    let others = handlers invalid s handle rest in
    if matches invalid (as_characteristic s c) handle then c ∷ others else others

unfoldable pub dispatch : (invalid n_channels : ℕ) → Server → (handle : ℕ) → List CharId
dispatch invalid n_channels s handle = handlers invalid s handle (observers n_channels)

-- No service is registered; the SoftDevice has its own attributes up to `first`.
abbrev pub unregistered : (invalid first : ℕ) → Server
unregistered invalid first = record {
  last_handle = first;
  service_handle = λ svc. invalid;
  value_handle = λ c. invalid;
}
