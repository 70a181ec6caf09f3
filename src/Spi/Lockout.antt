-- ===== src/Spi/Lockout.antt =====
-- What follows a `send` without a buffer.
use ledfw_lib.Common.{
  ℕ, ◌≡◌, refl, true, false, Option, none, List, [], ◌∷◌, Status, busy, no_buffer,
}
use ledfw_lib.Spi.Calls.{set_buffer-busy, send-none, send-busy}
use ledfw_lib.Spi.{Spi, set_buffer, send}

-- The calls that a client can make.
pub data Request : Type 0 where
  ask_set_buffer : Status → Option ℕ → ℕ → Request
  ask_send : Request

abbrev pub serve : Request → Spi → Status × Spi
serve (ask_set_buffer ret buf len) s = set_buffer ret buf len s
serve ask_send s = send s

abbrev pub serve_all : List Request → Spi → List Status × Spi
serve_all [] s = ([], s)
serve_all (r ∷ rs) s =
    let one = serve r s in let rest = serve_all rs one.1 in (one.0 ∷ rest.0, rest.1)

abbrev pub all_busy : List Request → List Status
all_busy [] = []
all_busy (r ∷ rs) = busy ∷ all_busy rs

serve_busy : (r : Request) (s : Spi) → s.ready ≡ false → serve r s ≡ (busy, s)
serve_busy (ask_set_buffer ret buf len) s e = set_buffer-busy ret buf len s e
serve_busy ask_send s e = send-busy s e

serve_all_busy : (rs : List Request) (s : Spi) → s.ready ≡ false → serve_all rs s ≡ (all_busy rs, s)
serve_all_busy [] s e = refl
serve_all_busy (r ∷ rs) s e = rw (serve_busy r s e, serve_all_busy rs s e) refl

-- A ready transport without a buffer answers a `send` with `ERROR_NO_BUFFER`; then it starts no transfer
-- and answers busy to every further call, whatever they are: to set a buffer is too late.
pub send_lockout :
    (s : Spi) (rs : List Request)
    → s.ready ≡ true
    → s.buffer ≡ none
    → serve_all (ask_send ∷ rs) s ≡ (no_buffer ∷ all_busy rs, record s { ready = false })
send_lockout s rs e f =
    rw (send-none s e f, serve_all_busy rs (record s { ready = false }) refl) refl
