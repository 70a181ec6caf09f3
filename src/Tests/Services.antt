-- ===== src/Tests/Services.antt =====
-- The registration of the services, the DMX service and what clients are told at concrete inputs.
use ledfw_lib.Common.{
  ℕ, suc, ◌+◌, ◌-◌, ◌*◌, ◌/◌, ◌%◌, ◌<◌, ◌≡◌, refl, true, none, some, List, [], ◌∷◌, ◌++◌, replicate,
  Status, success, get_or,
}
use native.Mathlib.Omega.{arith}
use mathlib.Core.List.{map}
use ledfw_lib.Cfg.Ids.{dmx_channel}
use ledfw_lib.Cfg.Cache.{Backend, FlashRecord, initial}
use ledfw_lib.Cfg.Safe.{initial-IsSafe}
use ledfw_lib.Cfg.Param.{Param, padding_size, value_size, get}
use ledfw_lib.Dmx.{zero_config}
use ledfw_lib.Userapp.Desc.{
  n_dmx_pers, n_dmx_slots, count_entries, count_loop, slot_type, slot_id, slot_value, name,
}
use ledfw_lib.Userapp.Upload.{user_app_loaded}
use ledfw_lib.Userapp.Flash.{StorageState}
use ledfw_lib.Userapp.Thread.{get_personality_and_slot_info}
use ledfw_lib.Userapp.Explorer.{Ram, explore}
use ledfw_lib.Userapp.Explorer.Read.{
  personality_info, slot_info, read_message, name_text, personality_row, slot_row, text_of,
}
use ledfw_lib.Userapp.Explorer.Client.{requested, explore-requested}
use ledfw_lib.Ble.Dmx.{State, ClientWrite, to_values, to_config, handle_all, receive}
use ledfw_lib.Ble.Dmx.Echo.{show, with_values, all_shown, writes-shown, config_write-get}
use ledfw_lib.Ble.Info.{Sdk, send_state}
use ledfw_lib.Ble.Info.Published.{Reaches, full_state, send_state-Reaches}
use ledfw_lib.Ble.Chars.{led_char, color_mode, ServiceId, led, userapp, dmx, meta, Attr}
use ledfw_lib.Ble.Register.{dispatch, init, init_all, unregistered}
use ledfw_lib.Ble.Register.Distinct.{GattsLaws, unregistered-IsDistinct}
use ledfw_lib.Ble.Register.Dispatch.{registered-dispatch}
use ledfw_lib.Ble.Register.Again.{init-success}

-- A SoftDevice that accepts all: a service takes one handle, a characteristic three.
abbrev add_service : ℕ → ServiceId → Status × ℕ
add_service last svc = (success, suc last)

abbrev add_char : ℕ → ℕ → Attr → Status × ℕ
add_char last h a = (success, last + 3)

accepts_all : GattsLaws add_service add_char
accepts_all = record {
  service_above = λ last svc e. omega arith;
  characteristic_above = λ last h a e. omega arith;
}

abbrev at_start : (channel : ℕ) → Status
at_start channel = success

-- Nothing was registered before channel 1 of the LEDs; the others follow.
registered-dispatch_example :
    let s =
      init_all 0 add_service add_char 20 20 64 5 success at_start
        (dmx ∷ userapp ∷ meta ∷ [])
        (init 0 add_service add_char 20 20 64 5 success at_start (led 1) (unregistered 0 9)).1 in
    (0 < s.value_handle (led_char 1 color_mode))
    × (dispatch 0 2 s (s.value_handle (led_char 1 color_mode)) ≡ led_char 1 color_mode ∷ [])
unfolding init_all
registered-dispatch_example =
    registered-dispatch 0 add_service add_char accepts_all 20 20 64 5 success at_start 9
      (omega arith) 2 [] (dmx ∷ userapp ∷ meta ∷ []) (led_char 1 color_mode) refl
      (init-success 0 add_service add_char accepts_all 20 20 64 5 success at_start
        (λ last svc. refl) (λ last h a. refl) (led 1) (unregistered 0 9)
        (unregistered-IsDistinct 0 9 (omega arith)) refl refl)

-- Two subscribers
abbrev listened : State
listened = record {
  thread = record {
    subs = (1, 5) ∷ (2, 6) ∷ [];
    dmx_config = zero_config;
    dcfg = zero_config;
    rx_buffer = [];
  };
  backend = initial;
  is_thread = λ sub. true;
  delivered = [];
  told = [];
}

abbrev dmx_param : Param
dmx_param = record { idn = dmx_channel; version = 1; sizeof_value = 5 }

-- A configuration between the values, of which the DMX thread is told, and an empty write, which has no effect
abbrev mixed : List ClientWrite
mixed =
    to_values (7 ∷ 9 ∷ [])
    ∷ to_config (1 ∷ 7 ∷ 0 ∷ 4 ∷ 0 ∷ 2 ∷ [])
    ∷ to_values []
    ∷ to_values (8 ∷ [])
    ∷ []

abbrev observed : State
observed = record listened {
  backend = record initial {
    cache = λ i. record {
      len = 0;
      alloc_length = 0;
      block = none;
      subs = record { context = 1; callback = 2 } ∷ [];
    };
  };
}

writes-shown_example :
    map (show (2, 6)) (
      with_values
        (handle_all (λ t. t) dmx_param (99 ∷ []) (receive 64 mixed []) observed).delivered)
    ≡ all_shown 64 (2, 6) ((1, 5) ∷ (2, 6) ∷ []) mixed
unfolding with_values
writes-shown_example = writes-shown (λ t. t) dmx_param (99 ∷ []) 64 (2, 6) mixed observed

abbrev kept : FlashRecord
kept = record { find = success; open_status = success; close = success; bytes = [] }

-- A configuration, and values after it
abbrev configured : Backend
configured =
    (handle_all (λ t. t) dmx_param (99 ∷ [])
      (receive 64 (to_config (1 ∷ 7 ∷ 0 ∷ 4 ∷ 0 ∷ 2 ∷ []) ∷ to_values (8 ∷ []) ∷ []) [])
      listened).backend

config_write-get_example :
    get (λ t. t) kept dmx_param (some 0) configured
    ≡ (success, some (7 ∷ 0 ∷ 4 ∷ 0 ∷ 2 ∷ []), configured)
unfolding padding_size value_size
config_write-get_example =
    config_write-get (λ t. t) kept dmx_param 64 (7 ∷ 0 ∷ 4 ∷ 0 ∷ 2 ∷ []) (99 ∷ []) ((8 ∷ []) ∷ [])
      listened refl refl refl initial-IsSafe (λ e. absurd (omega (arith, e)))

-- An application with one personality, named A, and its only slot, which has no name
abbrev image : List ℕ
image =
    replicate 32 0
    ++ (0x40 ∷ 0xf0 ∷ 0x03 ∷ 0x20 ∷ replicate 28 0)
    ++ (0x80 ∷ 0xf0 ∷ 0x03 ∷ 0x20 ∷ 0x50 ∷ 0xf0 ∷ 0x03 ∷ 0x20 ∷ replicate 12 0)
    ++ (2 ∷ 3 ∷ 1 ∷ 200 ∷ replicate 40 0)
    ++ (0x41 ∷ [])

abbrev app_ram : Ram
app_ram addr = get_or image (addr - 0x2003f000) 0

abbrev encode : ℕ → ℕ × ℕ
encode n = (n % 256, n / 256)

abbrev decode : ℕ → ℕ → ℕ
decode low high = low + 256 * high

explore-requested_example :
    map
      (read_message decode)
      (explore encode 4 16 app_ram
        (replicate 48 7)
        user_app_loaded
        true
        get_personality_and_slot_info
        0
        0).0
    ≡ some (personality_info 0 1 (0x41 ∷ [])) ∷ some (slot_info 0 0 2 0x0103 200 []) ∷ []
unfolding n_dmx_pers n_dmx_slots count_entries count_loop slot_type slot_id slot_value name
    requested name_text personality_row slot_row text_of
explore-requested_example =
    explore-requested app_ram (replicate 48 7) refl encode decode (λ n h. omega arith) 4 16
      (omega arith) user_app_loaded true get_personality_and_slot_info 0 0

abbrev sdk : Sdk
sdk = record {
  invalid_handle = 0;
  invalid_conn = 65535;
  conn_handle = 3;
  value_set = λ h bytes len. success;
  hvx = λ c h k len bytes. (success, len);
  chars = λ c. record { value_handle = some 9; buffer = none; buffer_max_len = 0 };
  uint16_encode = encode;
}

send_state-Reaches_example :
    Reaches
      (full_state sdk app_ram 20 20 4 16 zero_config user_app_loaded StorageState.empty)
      (send_state sdk app_ram 20 20 4 16 (success, zero_config) user_app_loaded StorageState.empty)
send_state-Reaches_example =
    send_state-Reaches sdk app_ram 20 20 4 16 (success, zero_config) user_app_loaded
      StorageState.empty
