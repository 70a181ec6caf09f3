-- ===== src/Spi/Calls.antt =====
-- The branches of the transport's calls.
use ledfw_lib.Common.{
  ℕ, suc, ◌≡◌, true, false, Option, none, some, Status, success, busy, no_buffer, verify_success,
}
use ledfw_lib.Spi.{Spi, set_buffer, send}

pub set_buffer-ready :
    (ret : Status) (buf : Option ℕ) (len : ℕ) (s : Spi)
    → s.ready ≡ true
    → set_buffer ret buf len s
      ≡ verify_success ret (success, record s { buffer = buf; len = len }) (λ e. (e, s))
unfolding set_buffer
set_buffer-ready ret buf len s e = simp e

pub set_buffer-busy :
    (ret : Status) (buf : Option ℕ) (len : ℕ) (s : Spi)
    → s.ready ≡ false
    → set_buffer ret buf len s ≡ (busy, s)
unfolding set_buffer
set_buffer-busy ret buf len s e = simp e

pub send-none :
    (s : Spi) → s.ready ≡ true → s.buffer ≡ none → send s ≡ (no_buffer, record s { ready = false })
unfolding send
send-none s e f = simp (e, f)

pub send-some :
    (s : Spi) (p : ℕ)
    → s.ready ≡ true
    → s.buffer ≡ some p
    → send s ≡ (success, record s { ready = false; started = suc s.started })
unfolding send
send-some s p e f = simp (e, f)

pub send-busy : (s : Spi) → s.ready ≡ false → send s ≡ (busy, s)
unfolding send
send-busy s e = simp e
