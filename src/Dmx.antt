-- ===== src/Dmx.antt =====
-- The DMX thread: src/dmx/thread.cc with include/dmx.hh, include/dmx/thread.hh and include/dmx/transport.hh.
--
-- A subscriber is what identifies its callback and context. The mutex of the subscriber list is always
-- obtained where the source waits without a limit. `uint16_big_decode` of the SDK is a parameter.
pub mod Delivery
pub mod RdmCheck
pub mod Startup
use ledfw_lib.Common.{
  ℕ, zero, suc, ◌+◌, ◌-◌, ◌%◌, ◌^◌, ◌<◌, min, Bool, true, false, ◌&&◌, ◌||◌, Option, none, some,
  List, [], ◌∷◌, ◌++◌, ltb, leb, ◌==◌, if◌then◌else◌, length, get_or, write_cells, Status, success,
  null, busy, is_not_found,
}

-- `cfg::dmx_config_t`
pub record DmxConfig : Type 0 where
  pub channel : ℕ
  pub n_channels : ℕ
  pub personality : ℕ

abbrev pub zero_config : DmxConfig
zero_config = record { channel = 0; n_channels = 0; personality = 0 }

-- `DMX_MAX_FRAME_SIZE`, and the start codes and the sub-start code that the thread compares with
abbrev pub max_frame_size : ℕ
max_frame_size = 520

abbrev pub dimmer : ℕ
dimmer = 0

abbrev pub rdm : ℕ
rdm = 0xcc

abbrev pub message : ℕ
message = 1

-- `dmx_slot_vals`, with `vals` as an index of `rx_buffer`
pub record SlotVals : Type 0 where
  pub n_vals : ℕ
  pub first : ℕ

-- One call of a subscriber's callback.
pub record Call : Type 0 where
  pub sub : ℕ × ℕ
  pub vals : Option SlotVals
  pub config : Option DmxConfig

-- `dmx::thread`, with the local `dcfg` of its task. `dmx_config` is the data under the lock.
pub record Thread : Type 0 where
  pub subs : List (ℕ × ℕ)
  pub dmx_config : DmxConfig
  pub dcfg : DmxConfig
  pub rx_buffer : List ℕ

unfoldable pub call_all : List (ℕ × ℕ) → Option SlotVals → Option DmxConfig → List Call
call_all [] vals config = []
call_all (s ∷ ss) vals config =
    record { sub = s; vals = vals; config = config } ∷ call_all ss vals config

-- `on_dmx_slot_vals`. `taken` says whether the mutex is obtained in time.
unfoldable pub on_dmx_slot_vals :
    (context : ℕ) → (callback : Option ℕ) → (taken : Bool) → Thread → Status × Thread
on_dmx_slot_vals context none taken t = (null, t)
on_dmx_slot_vals context (some f) true t = (success, record t { subs = (context, f) ∷ t.subs })
on_dmx_slot_vals context (some f) false t = (busy, t)

-- `on_channel_cfg_update`
unfoldable pub on_channel_cfg_update : DmxConfig → Thread → List Call × Thread
on_channel_cfg_update config t =
    (call_all t.subs none (some config), record t { dmx_config = config })

-- The start of `packet_task_func`: the configuration is read, or set to a default if there is none; to set
-- it calls `on_channel_cfg_update`, if `subscribed`. `get` is the status of `config.get` and what it read.
abbrev pub default_config : ℕ → DmxConfig
default_config slots = record { channel = 0; n_channels = slots; personality = 0 }

unfoldable pub set_default : (subscribed : Bool) → DmxConfig → Thread → List Call × Thread
set_default true c t = on_channel_cfg_update c t
set_default false c t = ([], t)

unfoldable pub start_task :
    (max_user_app_slots : ℕ)
    → (subscribed : Bool) → Status × DmxConfig
    → Thread
    → List Call × Thread
start_task slots subscribed get t =
    let told = set_default subscribed (default_config slots) t in
    if is_not_found get.0
    then (
      told.0 ++ call_all told.1.subs none (some (default_config slots)),
      record told.1 { dcfg = default_config slots },
    )
    else (call_all t.subs none (some get.1), record t { dcfg = get.1 })

-- The DMX512 part of the loop: the slots to deliver, if the packet has any for this device.
unfoldable pub dmx_slots : DmxConfig → (nread : ℕ) → (rx_buffer : List ℕ) → Option SlotVals
dmx_slots dcfg nread rx =
    if ltb 0 dcfg.channel && ltb dcfg.channel nread && get_or rx 0 0 == dimmer
    then some (record { n_vals = min nread dcfg.n_channels; first = dcfg.channel })
    else none

-- The copy of the configuration under the lock, if that is free at once.
unfoldable pub refresh_config : (taken : Bool) → Thread → Thread
refresh_config true t = record t { dcfg = t.dmx_config }
refresh_config false t = t

-- `xMessageBufferReceive` into `rx_buffer`
unfoldable pub receive : List ℕ → Thread → Thread
receive frame t = record t {
  rx_buffer = write_cells t.rx_buffer (λ i. get_or frame i 0) (length frame) 0;
}

-- One pass of the loop, up to the RDM part: the calls that deliver a dimmer packet.
unfoldable pub handle_packet : (taken : Bool) → (frame : List ℕ) → Thread → List Call × Thread
handle_packet taken frame t =
    let t' = refresh_config taken (receive frame t) in
    (
      elim (dmx_slots t'.dcfg (length frame) t'.rx_buffer) [
        | none ↦ []
        | some vals ↦ call_all t'.subs (some vals) (some t'.dcfg)
      ],
      t',
    )

-- `thread::send`: values from elsewhere, given by their number and place.
unfoldable pub send : SlotVals → Thread → Status × List Call
send vals t = (success, call_all t.subs (some vals) none)

-- The end of the RDM part.
pub data RdmResult : Type 0 where
  ignored bad_checksum bad_length accepted : RdmResult

-- `memcmp(&rx_buffer[at], uid, n) == 0`
unfoldable pub matches : List ℕ → ℕ → List ℕ → Bool
matches rx at [] = true
matches rx at (u ∷ us) = get_or rx at 0 == u && matches rx (suc at) us

abbrev pub broadcast_uid : List ℕ
broadcast_uid = 0xff ∷ 0xff ∷ 0xff ∷ 0xff ∷ 0xff ∷ 0xff ∷ []

-- `expect_checksum`: the sum of the bytes from `at` on in a 16-bit integer that holds `acc`
unfoldable pub checksum : List ℕ → ℕ → ℕ → ℕ → ℕ
checksum rx zero at acc = acc
checksum rx (suc n) at acc = checksum rx n (suc at) ((acc + get_or rx at 0) % 65536)

-- The condition of the RDM part
unfoldable pub is_rdm : (uid : List ℕ) → (nread : ℕ) → (rx_buffer : List ℕ) → Bool
is_rdm uid nread rx =
    leb 26 nread
    && leb nread 257
    && get_or rx 0 0 == rdm
    && get_or rx 1 0 == message
    && get_or rx 2 0 == nread - 2
    && (matches rx 3 uid || matches rx 3 broadcast_uid)

unfoldable pub rdm_check :
    (big_decode : ℕ → ℕ → ℕ) → (uid : List ℕ) → (nread : ℕ) → (rx_buffer : List ℕ) → RdmResult
rdm_check big_decode uid nread rx =
    let ofs = get_or rx 2 0 in
    if is_rdm uid nread rx
    then if big_decode (get_or rx ofs 0) (get_or rx (suc ofs) 0) == checksum rx ofs 0 0
      then if get_or rx 23 0 == nread - 26 then accepted else bad_length
      else bad_checksum
    else ignored
