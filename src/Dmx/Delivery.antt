-- ===== src/Dmx/Delivery.antt =====
-- Which calls a received packet leads to, and the slots that they see.
use ledfw_lib.Common.{
  Option, ◌+◌, tabulate, ℕ, min, Bool, ◌&&◌, none, some, List, ltb, ◌==◌, if◌then◌else◌, length,
  get_or,
}
use ledfw_lib.Dmx.{SlotVals, Call, DmxConfig, dimmer, Thread}

-- The configuration that a packet is judged by.
abbrev pub current : Bool → Thread → DmxConfig
current taken t = if taken then t.dmx_config else t.dcfg

-- A packet that the device is to act on, read off the packet itself.
abbrev pub is_for_us : DmxConfig → List ℕ → Bool
is_for_us c frame = ltb 0 c.channel && ltb c.channel (length frame) && get_or frame 0 0 == dimmer

-- What a subscriber is given: whose call it is, the values behind its pointer into the receive buffer, and the
-- configuration
abbrev pub Shown : Type 0
Shown = (ℕ × ℕ) × Option (List ℕ) × Option DmxConfig

unfoldable pub values_at : (rx_buffer : List ℕ) → SlotVals → List ℕ
values_at rx v = tabulate v.n_vals (λ i. get_or rx (v.first + i) 0)

abbrev pub show : (rx_buffer : List ℕ) → Call → Shown
show rx c = (c.sub, elim c.vals [ none ↦ none | some v ↦ some (values_at rx v) ], c.config)

-- The values of a packet from the channel on, and behind its end what earlier packets left
unfoldable pub slots_of : DmxConfig → (frame earlier : List ℕ) → List ℕ
slots_of c frame earlier = tabulate (min (length frame) c.n_channels) (λ i.
    let k = c.channel + i in if ltb k (length frame) then get_or frame k 0 else get_or earlier k 0)
