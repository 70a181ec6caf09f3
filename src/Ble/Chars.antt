-- ===== src/Ble/Chars.antt =====
-- The services and their characteristics, as data: the constructors of `characteristic` in include/ble/service.hh and
-- src/ble/service.cc with the static characteristics of src/ble/userapp.cc, src/ble/dmx.cc, src/ble/meta.cc and
-- src/ble/led_impl.cc, and what the SoftDevice is told of one. A text is its length.
use ledfw_lib.Common.{ℕ, ◌+◌, ◌-◌, ℕ_discrete, Bool, true, false, Option, none, some}

pub data UserappChar : Type 0 where
  program info app_name app_provider dmx_info dmx_explorer : UserappChar

pub data DmxChar : Type 0 where
  values config : DmxChar

pub data MetaChar : Type 0 where
  device_uid system_control log : MetaChar

pub data LedChar : Type 0 where
  num_leds color_mode refresh_rate control : LedChar

-- The characteristics with static handles, and their services
pub data CharId : Type 0 where
  userapp_char : UserappChar → CharId
  dmx_char : DmxChar → CharId
  meta_char : MetaChar → CharId
  led_char : (channel : ℕ) → LedChar → CharId

pub data ServiceId : Type 0 where
  userapp dmx meta : ServiceId
  led : (channel : ℕ) → ServiceId

unfoldable pub userapp-discrete : Discrete UserappChar
userapp-discrete = hlevel

unfoldable pub dmx-discrete : Discrete DmxChar
dmx-discrete = hlevel

unfoldable pub meta-discrete : Discrete MetaChar
meta-discrete = hlevel

pub led-discrete : Discrete LedChar
led-discrete = hlevel

unfoldable pub CharId-discrete : Discrete CharId
CharId-discrete = hlevel (userapp-discrete, dmx-discrete, meta-discrete, led-discrete, ℕ_discrete)

pub ServiceId-discrete : Discrete ServiceId
ServiceId-discrete = hlevel (ℕ_discrete)

-- What a constructor of `characteristic` sets. `buffer` is the length of the buffer, `none` for a null pointer;
-- `has_format` says that `set_presentation_format` was called.
pub record CharDef : Type 0 where
  pub read : Bool
  pub write : Bool
  pub notify : Bool
  pub buffer : Option ℕ
  pub buffer_max_len : ℕ
  pub buffer_init_len : ℕ
  pub has_format : Bool
  pub user_desc : Option ℕ

-- The constructor with a description and no buffer, and the one with both
abbrev pub described : (user_desc : ℕ) → (read write notify : Bool) → (buffer_sz : ℕ) → CharDef
described user_desc read write notify buffer_sz = record {
  read = read;
  write = write;
  notify = notify;
  buffer = none;
  buffer_max_len = buffer_sz;
  buffer_init_len = 0;
  has_format = false;
  user_desc = some user_desc;
}

abbrev pub buffered :
    (user_desc : ℕ) → (read write notify : Bool) → (buffer init_sz buffer_sz : ℕ) → CharDef
buffered user_desc read write notify buffer init_sz buffer_sz =
    record (described user_desc read write notify buffer_sz) {
      buffer = some buffer;
      buffer_init_len = init_sz;
    }

abbrev pub with_format : CharDef → CharDef
with_format d = record d { has_format = true }

-- The characteristics of the three services; the maximal lengths come from the application's build.
unfoldable pub userapp_char_def : (name_len provider_len : ℕ) → UserappChar → CharDef
userapp_char_def name_len provider_len program = described 7 false true false (128 + 1)
userapp_char_def name_len provider_len info = described 8 true false true 8
userapp_char_def name_len provider_len app_name = described 8 true false true name_len
userapp_char_def name_len provider_len app_provider = described 12 true false true provider_len
userapp_char_def name_len provider_len dmx_info = described 8 true false true 4
userapp_char_def name_len provider_len dmx_explorer = described 12 false true true 48

unfoldable pub dmx_char_def : (max_slots : ℕ) → (config_size : ℕ) → DmxChar → CharDef
dmx_char_def max_slots config_size values = described 10 true true true max_slots
dmx_char_def max_slots config_size config = described 10 true true true (config_size + 1)

unfoldable pub meta_char_def : MetaChar → CharDef
meta_char_def device_uid = buffered 10 true false false 6 6 6
meta_char_def system_control = described 14 false true false 1
meta_char_def log = described 14 false false true 120

unfoldable pub led_char_def : LedChar → CharDef
led_char_def num_leds = buffered 17 true true true 2 2 2
led_char_def color_mode = buffered 13 true true true 1 1 1
led_char_def refresh_rate = buffered 15 true true true 2 2 2
led_char_def control = described 10 false true false 64

-- `max_att_data_len`, with ATT_MTU
unfoldable pub max_att_data_len : ℕ
max_att_data_len = 128 - 3

-- What `add_characteristic` tells the SoftDevice of a characteristic
pub record Attr : Type 0 where
  pub p_value : Option ℕ
  pub init_len : ℕ
  pub init_offs : ℕ
  pub max_len : ℕ
  pub user_memory : Bool
  pub vlen : ℕ
  pub desc_size : ℕ
  pub desc_max_size : ℕ
  pub has_format : Bool
  pub write_open : Bool
  pub read_open : Bool

unfoldable pub set_gatts_attr_value : CharDef → Attr
unfolding max_att_data_len
set_gatts_attr_value d =
    let size : ℕ = elim d.user_desc [ none ↦ 0 | some n ↦ n ] in
    record {
      p_value = d.buffer;
      init_len = d.buffer_init_len;
      init_offs = 0;
      max_len = elim d.buffer [ none ↦ max_att_data_len | some n ↦ d.buffer_max_len ];
      user_memory = elim d.buffer [ none ↦ false | some n ↦ true ];
      vlen = 1;
      desc_size = size;
      desc_max_size = size;
      has_format = d.has_format;
      write_open = d.write;
      read_open = d.read;
    }
