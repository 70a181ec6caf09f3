-- ===== src/Spi.antt =====
-- `spi::transport` (include/periph/spi.hh, src/periph/spi.cc) for one instance: the four static arrays of
-- spi.cc, each at the instance's index, and the transfers of the peripheral. A pointer is an address,
-- `none` for null.
pub mod Calls
pub mod Idle
pub mod Lockout
use ledfw_lib.Common.{
  ℕ, suc, ◌≡◌, ◌<◌, Bool, true, false, ◌&&◌, Option, none, some, if◌then◌else◌, Status, success,
  busy, no_buffer, verify_success,
}

-- `started` counts the START triggers, `finished` the DONE events.
pub record Spi : Type 0 where
  pub ready : Bool
  pub buffer : Option ℕ
  pub len : ℕ
  pub callback : Option ℕ
  pub context : ℕ
  pub started : ℕ
  pub finished : ℕ

-- The static arrays are zero at the start.
abbrev pub unused : Spi
unused = record {
  ready = false;
  buffer = none;
  len = 0;
  callback = none;
  context = 0;
  started = 0;
  finished = 0;
}

-- `transport::init`, with the status of `nrfx_spim_init`
unfoldable pub init : Status → Spi → Status × Spi
init ret s = verify_success ret (ret, record s { ready = true }) (λ e. (e, s))

-- The static function `callback`: a null argument only reads.
unfoldable pub callback_arg : Option ℕ → Option ℕ → Option ℕ
callback_arg none old = old
callback_arg (some cb) old = some cb

unfoldable pub on_send_complete : ℕ → Option ℕ → Spi → Status × Spi
on_send_complete context cb s =
    (success, record s { callback = callback_arg cb s.callback; context = context })

-- `transport::set_buffer`, with the status of `nrfx_spim_xfer`
unfoldable pub set_buffer : Status → Option ℕ → ℕ → Spi → Status × Spi
set_buffer ret buf len s =
    if s.ready
    then verify_success ret (success, record s { buffer = buf; len = len }) (λ e. (e, s))
    else (busy, s)

-- `transport::send`. `ready` is reset before the missing buffer is reported.
unfoldable pub send : Spi → Status × Spi
send s =
    if s.ready
    then elim s.buffer [
      | none ↦ (no_buffer, record s { ready = false })
      | some p ↦ (success, record s { ready = false; started = suc s.started })
    ]
    else (busy, s)

-- `transport::is_ready`
unfoldable pub is_ready : Spi → Bool
is_ready s = s.ready

-- `do_release_buffer`: what the callback answers; without one the buffer stays. `completion` is the
-- callback with its identity, the buffer, the length and the context.
unfoldable pub do_release : (ℕ → Option ℕ → ℕ → ℕ → Bool) → Spi → Bool
do_release completion s = elim s.callback [
  | none ↦ false
  | some cb ↦ completion cb s.buffer s.len s.context
]

-- `spim_evt_handler` on `NRFX_SPIM_EVENT_DONE`
unfoldable pub spim_evt_handler : (ℕ → Option ℕ → ℕ → ℕ → Bool) → Spi → Spi
spim_evt_handler completion s =
    if do_release completion s
    then record s { buffer = none; len = 0; ready = true; finished = suc s.finished }
    else record s { ready = true; finished = suc s.finished }

-- The steps of a transport after its `init`. The peripheral reports DONE only for a transfer that was
-- started.
pub data Step : Spi → Spi → Type 0 where
  set_buffer_step :
      {s : Spi} (ret : Status) (buf : Option ℕ) (len : ℕ) → Step s (set_buffer ret buf len s).1
  send_step : {s : Spi} → Step s (send s).1
  callback_step : {s : Spi} (context : ℕ) (cb : Option ℕ) → Step s (on_send_complete context cb s).1
  done_step :
      {s : Spi} (completion : ℕ → Option ℕ → ℕ → ℕ → Bool)
      → s.finished < s.started
      → Step s (spim_evt_handler completion s)

pub data Reach : Spi → Type 0 where
  reset : Reach (init success unused).1
  next : {s t : Spi} → Reach s → Step s t → Reach t
