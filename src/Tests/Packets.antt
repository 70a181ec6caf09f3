-- ===== src/Tests/Packets.antt =====
-- DMX and RDM packets, and their reception.
use ledfw_lib.Common.{
  ℕ, ◌+◌, ◌*◌, ◌≡◌, refl, List, [], ◌∷◌, ◌++◌, Bool, true, false, leb, success, length, inl,
}
use native.Mathlib.Omega.{arith}
use ledfw_lib.Dmx.{DmxConfig, zero_config, Thread, rdm_check, is_rdm, matches, checksum, accepted}
use ledfw_lib.Dmx.RdmCheck.{packet, rdm_check-packet}
use ledfw_lib.Uarte
use ledfw_lib.Uarte.{rx_done, error, Input, enables, disables, happens, takes, System}
use ledfw_lib.Uarte.Frames.{used, MessageLaw, frames_kept}
use ledfw_lib.Uarte.Listening.{IsListening, run-IsListening}

abbrev config : DmxConfig
config = record { channel = 2; n_channels = 3; personality = 0 }

abbrev thread : Thread
thread = record {
  subs = (1, 2) ∷ [];
  dmx_config = config;
  dcfg = zero_config;
  rx_buffer = 0 ∷ 0 ∷ 0 ∷ 0 ∷ 44 ∷ 0 ∷ [];
}

abbrev frame : List ℕ
frame = 0 ∷ 11 ∷ 12 ∷ 13 ∷ []

abbrev big_endian : ℕ → ℕ → ℕ
big_endian hi lo = hi * 256 + lo

abbrev uid : List ℕ
uid = 1 ∷ 2 ∷ 3 ∷ 4 ∷ 5 ∷ 6 ∷ []

abbrev body : List ℕ
body = 6 ∷ 5 ∷ 4 ∷ 3 ∷ 2 ∷ 1 ∷ 0 ∷ 1 ∷ 0 ∷ 0 ∷ 0 ∷ 0x20 ∷ 0x10 ∷ 0 ∷ []

abbrev identify : List ℕ
identify = packet uid body (1 ∷ []) 1 67

rdm_check-identify : rdm_check big_endian uid 27 identify ≡ accepted
unfolding rdm_check is_rdm matches checksum
rdm_check-identify = refl

rdm_check-packet_example : rdm_check big_endian uid (length identify) identify ≡ accepted
rdm_check-packet_example =
    rdm_check-packet big_endian uid uid body (1 ∷ []) 1 67 (inl refl) refl refl (omega arith) refl

-- The message buffer of eight times 520 bytes
abbrev fits : List (List ℕ) → List ℕ → Bool
fits q f = leb (used q + 4 + length f) 4160

fits_law : MessageLaw fits 4160
fits_law = record { room = λ q f h. ground (arith, h) }

-- Two frames, a break, and one more frame when one has been taken; then the receiver is disabled.
abbrev reception : List Input
reception =
    enables success
    ∷ happens success (rx_done (0 ∷ 5 ∷ []))
    ∷ happens success (rx_done (0 ∷ 6 ∷ []))
    ∷ happens success (error true)
    ∷ takes
    ∷ happens success (rx_done (0 ∷ 7 ∷ []))
    ∷ disables
    ∷ happens success (rx_done (0 ∷ []))
    ∷ []

abbrev silent : System
silent = record {
  uarte = record { is_enabled = false; frame_buf = []; receiving = false };
  taken = [];
}

frames_kept_example :
    (Uarte.run fits reception silent).taken ++ (Uarte.run fits reception silent).uarte.frame_buf
    ≡ (0 ∷ 5 ∷ []) ∷ (0 ∷ 6 ∷ []) ∷ (0 ∷ 7 ∷ []) ∷ []
frames_kept_example =
    frames_kept fits 4160 fits_law 7 (omega arith) reception silent tt
      (omega arith, omega arith, (omega arith, omega arith, (omega arith, omega arith, tt)))

run-IsListening_example : IsListening fits (Uarte.run fits reception silent)
run-IsListening_example =
    run-IsListening fits reception silent
      (refl, (refl, (refl, (refl, (tt, (refl, (tt, (refl, tt)))))))) refl
