-- ===== src/Ble/Dmx.antt =====
-- The Bluetooth service of DMX values and configuration: src/ble/dmx.cc, from the writes of clients through the
-- queue of its task to the subscribers of the DMX thread and the parameter, and back to the clients.
--
-- `sent` says whether the queue took a request. `vals` of a request is the array that its value is in, up to the
-- bytes copied. A configuration is the five bytes of `cfg::dmx_config_t` in memory.
pub mod Echo
use ledfw_lib.Common.{
  ℕ, ◌+◌, ◌*◌, ◌/◌, ◌%◌, Bool, true, false, ◌&&◌, Option, none, some, List, [], ◌∷◌, ◌++◌, ltb, leb,
  ◌==◌, if◌then◌else◌, length, get_or, take, drop,
}
use mathlib.Core.List.{map}
use ledfw_lib.Cfg.Cache
use ledfw_lib.Cfg.Cache.{Backend, Sub}
use ledfw_lib.Cfg.Param.{Param, set_param}
use ledfw_lib.Dmx.{DmxConfig, SlotVals, Call, Thread, send, on_channel_cfg_update}
use ledfw_lib.Ble.Chars.{DmxChar, values, config}
use ledfw_lib.Userapp.Program.{WriteEvent}

abbrev pub sizeof_config : ℕ
sizeof_config = 5

-- `char_write`
pub data CharWrite : Type 0 where
  value_write : (n_values : ℕ) → (vals : List ℕ) → CharWrite
  config_write : (bytes : List ℕ) → CharWrite

-- `xQueueSend`
abbrev pub queue_send : (sent : Bool) → CharWrite → List CharWrite → List CharWrite
queue_send sent w q = if sent then q ++ (w ∷ []) else q

unfoldable pub on_values_write :
    (max_slots : ℕ) → (sent : Bool) → WriteEvent → List CharWrite → List CharWrite
on_values_write max_slots sent event q = elim event.data_bytes [
  | none ↦ q
  | some bytes ↦
      if ltb 0 event.len && leb event.len max_slots
      then queue_send sent (value_write event.len (take event.len bytes)) q
      else q
]

unfoldable pub on_config_write : (sent : Bool) → WriteEvent → List CharWrite → List CharWrite
on_config_write sent event q = elim event.data_bytes [
  | none ↦ q
  | some bytes ↦
      if event.len == sizeof_config + 1 && get_or bytes 0 0 == 1
      then queue_send sent (config_write (take sizeof_config (drop 1 bytes))) q
      else q
]

-- A call of a subscriber, with the memory that its values are in
pub record Delivered : Type 0 where
  pub memory : List ℕ
  pub call : Call

-- What the task works on: the DMX thread, the parameters, which subscribers of the parameter are the DMX
-- thread's, the calls made so far of the subscribers of the DMX thread and of those of the parameter.
pub record State : Type 0 where
  pub thread : Thread
  pub backend : Backend
  pub is_thread : Sub → Bool
  pub delivered : List Delivered
  pub told : List Cache.Call

abbrev pub in_memory : List ℕ → Call → Delivered
in_memory memory call = record { memory = memory; call = call }

-- `cfg::dmx_config_t` read from memory
abbrev pub config_of : List ℕ → DmxConfig
config_of bytes = record {
  channel = get_or bytes 0 0 + 256 * get_or bytes 1 0;
  n_channels = get_or bytes 2 0 + 256 * get_or bytes 3 0;
  personality = get_or bytes 4 0;
}

-- The calls of the parameter's subscribers: that of the DMX thread calls `on_channel_cfg_update`.
unfoldable pub tell : List Cache.Call → State → State
tell [] s = s
tell (c ∷ cs) s =
    let r = on_channel_cfg_update (config_of c.bytes) s.thread in
    let updated = record s { thread = r.1; delivered = s.delivered ++ map (in_memory []) r.0 } in
    tell cs (if s.is_thread c.sub then updated else s)

-- One pass of `dmx_char_write_handler`, for the request received. `others` is what other tasks do while the
-- parameter is set.
unfoldable pub handle :
    (others : Backend → Backend) → (p : Param) → (padding : List ℕ) → CharWrite → State → State
handle others p padding (value_write n vals) s = record s {
  delivered =
      s.delivered ++ map (in_memory vals) (send (record { n_vals = n; first = 0 }) s.thread).1;
}
handle others p padding (config_write bytes) s =
    let done = set_param others p (some bytes) padding s.backend in
    tell done.1 (record s { backend = done.2; told = s.told ++ done.1 })

unfoldable pub handle_all :
    (others : Backend → Backend) → (p : Param) → (padding : List ℕ) → List CharWrite → State → State
handle_all others p padding [] s = s
handle_all others p padding (w ∷ ws) s =
    handle_all others p padding ws (handle others p padding w s)

-- `cfg::dmx_config_t` in memory
unfoldable pub config_bytes : DmxConfig → List ℕ
config_bytes c =
    c.channel % 256 ∷ c.channel / 256 ∷ c.n_channels % 256 ∷ c.n_channels / 256 ∷ c.personality ∷ []

-- The values that a subscriber finds at its pointer
unfoldable pub seen : Delivered → Option (List ℕ)
seen d = elim d.call.vals [ none ↦ none | some v ↦ some (take v.n_vals (drop v.first d.memory)) ]

-- What the service does with a value of its characteristics; the statuses are ignored.
pub data Attempt : Type 0 where
  set_to sent : DmxChar → List ℕ → Attempt

-- The service's own subscription to the values: it sets each characteristic and sends it.
unfoldable pub on_slot_vals : Delivered → List Attempt
on_slot_vals d =
    let shown : List Attempt = elim (seen d) [
      | none ↦ []
      | some bytes ↦ set_to values bytes ∷ sent values bytes ∷ []
    ] in
    elim d.call.config [
      | none ↦ shown
      | some c ↦ set_to config (1 ∷ config_bytes c) ∷ sent config (1 ∷ config_bytes c) ∷ shown
    ]

-- Writes of clients to the two characteristics, of which none is refused
pub data ClientWrite : Type 0 where
  to_values to_config : List ℕ → ClientWrite

abbrev pub event_of : List ℕ → WriteEvent
event_of bytes = record { len = length bytes; data_bytes = some bytes }

unfoldable pub receive : (max_slots : ℕ) → List ClientWrite → List CharWrite → List CharWrite
receive max_slots [] q = q
receive max_slots (to_values bytes ∷ rest) q =
    receive max_slots rest (on_values_write max_slots true (event_of bytes) q)
receive max_slots (to_config bytes ∷ rest) q =
    receive max_slots rest (on_config_write true (event_of bytes) q)
