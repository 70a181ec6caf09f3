-- ===== src/Dmx/Startup.antt =====
-- The configuration that the task starts with, and the first packet.
use ledfw_lib.Common.{ℕ, ◌≡◌, refl, Bool, true, List, [], success}
use ledfw_lib.Dmx.{
  DmxConfig, zero_config, Thread, start_task, dmx_slots, refresh_config, receive, handle_packet,
}

-- A configuration that was found in flash is not used: unless it is changed later, no packet that is
-- received with the lock free is delivered.
pub found_config_unused :
    (slots : ℕ) (subscribed : Bool) (config : DmxConfig) (t : Thread) (frame : List ℕ)
    → t.dmx_config ≡ zero_config
    → (handle_packet true frame (start_task slots subscribed (success, config) t).1).0 ≡ []
unfolding handle_packet refresh_config receive start_task dmx_slots
found_config_unused slots subscribed config t frame e = rw e refl
