-- ===== src/Spi/Idle.antt =====
-- The transfers on their way in the reachable states of the transport.
use ledfw_lib.Common.{
  ℕ, suc, ◌≤◌, ◌<◌, ◌≡◌, refl, Bool, true, false, Bool-cases, Option, Option-cases, inl, inr,
  Status, busy, verify_success_elim,
}
use native.Mathlib.Omega.{arith}
use mathlib.Core.Path.{subst, sym}
use ledfw_lib.Spi.Calls.{set_buffer-ready, set_buffer-busy, send-none, send-some, send-busy}
use ledfw_lib.Spi.{
  Spi, init, on_send_complete, set_buffer, send, spim_evt_handler, do_release, Step,
  set_buffer_step, send_step, callback_step, done_step, Reach, reset, next,
}

-- No more than one transfer is on its way, and none while the transport is ready.
pub record IsIdle (s : Spi) : Type 0 where
  pub order : s.finished ≤ s.started
  pub single : s.started ≤ suc s.finished
  pub idle : s.ready ≡ true → s.started ≡ s.finished

set_buffer-IsIdle :
    (ret : Status) (buf : Option ℕ) (len : ℕ) (s : Spi)
    → IsIdle s
    → IsIdle (set_buffer ret buf len s).1
set_buffer-IsIdle ret buf len s h = elim (Bool-cases s.ready) [
  | inl e ↦
      subst (λ (r : Status × Spi). IsIdle r.1) (sym (set_buffer-ready ret buf len s e))
        (verify_success_elim (λ (r : Status × Spi). IsIdle r.1) ret _ _
          (record { order = h.order; single = h.single; idle = h.idle }) (λ _. h))
  | inr e ↦ subst (λ (r : Status × Spi). IsIdle r.1) (sym (set_buffer-busy ret buf len s e)) h
]

send-IsIdle : (s : Spi) → IsIdle s → IsIdle (send s).1
send-IsIdle s h = elim (Bool-cases s.ready) [
  | inl e ↦ elim (Option-cases s.buffer) [
    | inl f ↦
        subst (λ (r : Status × Spi). IsIdle r.1) (sym (send-none s e f))
          (record { order = h.order; single = h.single; idle = λ q. absurd (ground arith) })
    | inr (p, f) ↦
        subst (λ (r : Status × Spi). IsIdle r.1) (sym (send-some s p e f))
          (record {
            order = omega (arith, h.order);
            single = omega (arith, h.idle e);
            idle = λ q. absurd (ground arith);
          })
  ]
  | inr e ↦ subst (λ (r : Status × Spi). IsIdle r.1) (sym (send-busy s e)) h
]

done-IsIdle :
    (completion : ℕ → Option ℕ → ℕ → ℕ → Bool) (s : Spi)
    → s.finished < s.started
    → IsIdle s
    → IsIdle (spim_evt_handler completion s)
unfolding spim_evt_handler
done-IsIdle completion s lt h = elim (Bool-cases (do_release completion s)) [
  | inl e ↦
      rw (e, spim_evt_handler)
        (record {
          order = lt;
          single = omega (arith, h.single);
          idle = λ _. omega (arith, h.single);
        })
  | inr e ↦
      rw (e, spim_evt_handler)
        (record {
          order = lt;
          single = omega (arith, h.single);
          idle = λ _. omega (arith, h.single);
        })
]

Step-IsIdle : (s t : Spi) → Step s t → IsIdle s → IsIdle t
unfolding on_send_complete
Step-IsIdle s t (set_buffer_step ret buf len) h = set_buffer-IsIdle ret buf len s h
Step-IsIdle s t send_step h = send-IsIdle s h
Step-IsIdle s t (callback_step context cb) h = record {
  order = h.order;
  single = h.single;
  idle = h.idle;
}
Step-IsIdle s t (done_step completion lt) h = done-IsIdle completion s lt h

-- At most one transfer is on its way in every reachable state, and none while the transport is ready.
pub Reach-IsIdle : (s : Spi) → Reach s → IsIdle s
unfolding init
Reach-IsIdle s reset = record { order = omega arith; single = omega arith; idle = λ _. refl }
Reach-IsIdle s (next {s = r} p step) = Step-IsIdle r s step (Reach-IsIdle r p)

-- While a transfer is on its way, `set_buffer` and `send` answer busy and change nothing.
pub in_flight-busy :
    (s : Spi) (ret : Status) (buf : Option ℕ) (len : ℕ)
    → Reach s
    → s.finished < s.started
    → (set_buffer ret buf len s ≡ (busy, s)) × (send s ≡ (busy, s))
in_flight-busy s ret buf len p lt =
    let e : s.ready ≡ false = elim (Bool-cases s.ready) [
      | inl e ↦ absurd (omega (arith, (Reach-IsIdle s p).idle e))
      | inr e ↦ e
    ] in
    (set_buffer-busy ret buf len s e, send-busy s e)
