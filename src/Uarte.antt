-- ===== src/Uarte.antt =====
-- The receiver of DMX frames: `uarte::transport` and its event handler, of src/periph/uarte.cc and
-- include/periph/uarte.hh, for one instance.
--
-- The driver of the SDK has `buffer0` from a call of `nrfx_uarte_rx` that succeeds to the event that ends the
-- reception, or until it is aborted; the status of the call is an argument. A message buffer of FreeRTOS is
-- its messages, the oldest first, and `fits` says whether it has room for one more. The driver hands over the
-- context that `init` gave it, with an event. The pin, the baud rate and the stop bits of `init` are settings
-- of the driver.
pub mod Frames
pub mod Listening
use ledfw_lib.Common.{
  ℕ, Bool, true, false, Option, none, some, List, [], ◌∷◌, ◌++◌, if◌then◌else◌, Status, success,
  no_mem, is_success,
}

-- The fields of `uarte_context` and whether the driver has `buffer0`
pub record Uarte : Type 0 where
  pub is_enabled : Bool
  pub frame_buf : List (List ℕ)
  pub receiving : Bool

-- `transport::init`; without a message buffer the driver is not set up, and there will be no event.
unfoldable pub init : (created : Bool) → (uarte_init : Status) → Status × Option Uarte
init created uarte_init =
    if created
    then (uarte_init, some (record { is_enabled = false; frame_buf = []; receiving = false }))
    else (no_mem, none)

-- `nrfx_uarte_rx`
unfoldable pub uarte_rx : (started : Status) → Uarte → Uarte
uarte_rx started u = if is_success started then record u { receiving = true } else u

unfoldable pub enable : (started : Status) → Uarte → Status × Uarte
enable started u =
    let u' = uarte_rx started u in
    (started, if is_success started then record u' { is_enabled = true } else u')

unfoldable pub disable : Uarte → Status × Uarte
disable u = (success, record u { is_enabled = false; receiving = false })

-- The events; `is_break` says that the mask of the error has the bit of a break.
pub data Event : Type 0 where
  rx_done : (bytes : List ℕ) → Event
  error : (is_break : Bool) → Event
  other_event : Event

-- What happens to a receiver: calls of its operations, events, and frames that the DMX thread takes from its buffer
pub data Input : Type 0 where
  enables : (started : Status) → Input
  disables : Input
  happens : (started : Status) → Event → Input
  takes : Input

-- The receiver with the frames that the DMX thread has taken
pub record System : Type 0 where
  pub uarte : Uarte
  pub taken : List (List ℕ)

module _ (fits : List (List ℕ) → List ℕ → Bool) where
  -- `xMessageBufferSendFromISR`; a message without room is dropped.
  unfoldable pub message_send : List ℕ → List (List ℕ) → List (List ℕ)
  message_send bytes q = if fits q bytes then q ++ (bytes ∷ []) else q

  unfoldable pub uarte_evt_handler : (started : Status) → Event → Uarte → Uarte
  uarte_evt_handler started (rx_done bytes) u =
      let sent = record u { frame_buf = message_send bytes u.frame_buf } in
      if u.is_enabled then uarte_rx started sent else u
  uarte_evt_handler started (error true) u = if u.is_enabled then uarte_rx started u else u
  uarte_evt_handler started (error false) u = u
  uarte_evt_handler started other_event u = u

  -- A reception or an error ends the use of `buffer0`.
  unfoldable pub ended : Event → Uarte → Uarte
  ended (rx_done bytes) u = record u { receiving = false }
  ended (error is_break) u = record u { receiving = false }
  ended other_event u = u

  unfoldable pub take_frame : List (List ℕ) → System → System
  take_frame [] s = s
  take_frame (f ∷ q) s = record s {
    uarte = record s.uarte { frame_buf = q };
    taken = s.taken ++ (f ∷ []);
  }

  unfoldable pub step : Input → System → System
  step (enables started) s = record s { uarte = (enable started s.uarte).1 }
  step disables s = record s { uarte = (disable s.uarte).1 }
  step (happens started e) s = record s { uarte = uarte_evt_handler started e (ended e s.uarte) }
  step takes s = take_frame s.uarte.frame_buf s

  unfoldable pub run : List Input → System → System
  run [] s = s
  run (i ∷ is) s = run is (step i s)
