-- ===== src/Led/Rounds.antt =====
-- The loop of `thread::task_func` (src/led/thread.cc): one buffer is sent while the renderer fills the
-- other. `ptr` and `len` give the transcoders' buffers by index.
use ledfw_lib.Common.{
  ℕ, zero, suc, ◌+◌, ◌-◌, ◌%◌, ◌≡◌, refl, ap, sym, ◌∙◌, Bool, true, false, inl, inr, ◌⊎◌, Option,
  none, some, List, [], ◌∷◌, bit_and, Bool-cases, tabulate, tabulate_ext, length, Status, success,
  busy, verify_success,
}
use native.Mathlib.Omega.{arith}
use mathlib.Core.Path.{ap₂}
use ledfw_lib.Spi.{
  Spi, unused, init, on_send_complete, set_buffer, send, spim_evt_handler, do_release,
}
use ledfw_lib.Spi.Calls.{set_buffer-ready, set_buffer-busy, send-some}

-- The local variables that the loop keeps, and the transport.
pub record Loop : Type 0 where
  pub spi : Spi
  pub tc_idx : ℕ

-- What one round did: its status (a failure is fatal by `APP_ERROR_CHECK`), the buffer that `send` put on
-- the wire, the buffer that was rendered into, and the state after it.
pub record Round : Type 0 where
  pub status : Status
  pub wire : Option ℕ
  pub target : ℕ
  pub loop : Loop

-- The callback of `task_func`: it notifies the thread and releases the buffer.
unfoldable pub send_complete : ℕ → Option ℕ → ℕ → ℕ → Bool
send_complete cb buffer length context = true

-- The DONE event comes before the end of the wait, or not.
abbrev pub wait : Bool → Spi → Spi
wait true s = spim_evt_handler send_complete s
wait false s = s

-- One round. `in_time` says whether the transfer is finished when the wait ends (after a time-out the
-- thread goes on all the same), `ret` is the status of `nrfx_spim_xfer`.
unfoldable pub round : (ptr len : ℕ → ℕ) → (in_time : Bool) → (ret : Status) → Loop → Round
round ptr len in_time ret l =
    let idx = bit_and (l.tc_idx + 1) 1 in
    let sent = send l.spi in
    let queued = set_buffer ret (some (ptr idx)) (len idx) (wait in_time sent.1) in
    verify_success sent.0
      (record {
        status = queued.0;
        wire = l.spi.buffer;
        target = ptr idx;
        loop = record { spi = queued.1; tc_idx = idx };
      })
      (λ e. record {
        status = e;
        wire = none;
        target = ptr idx;
        loop = record { spi = sent.1; tc_idx = l.tc_idx };
      })

-- Between two rounds: the transport is ready and holds the buffer of `tc_idx`.
pub record IsSteady (ptr : ℕ → ℕ) (l : Loop) : Type 0 where
  pub index : (l.tc_idx ≡ 0) ⊎ (l.tc_idx ≡ 1)
  pub is_ready : l.spi.ready ≡ true
  pub queued : l.spi.buffer ≡ some (ptr l.tc_idx)

other_index : (i : ℕ) → (i ≡ 0) ⊎ (i ≡ 1) → (bit_and (i + 1) 1 ≡ 1 - i)
other_index i (inl e) = rw e refl
other_index i (inr e) = rw e refl

next_index : (i : ℕ) → (i ≡ 0) ⊎ (i ≡ 1) → (bit_and (i + 1) 1 ≡ 0) ⊎ (bit_and (i + 1) 1 ≡ 1)
next_index i (inl e) = inr (rw e refl)
next_index i (inr e) = inl (rw e refl)

-- A round whose transfer ends in time succeeds; it sends the buffer of `tc_idx`, renders into the other
-- one, and queues that for the next round.
pub record Swaps (ptr : ℕ → ℕ) (l : Loop) (r : Round) : Type 0 where
  pub good : r.status ≡ success
  pub sends : r.wire ≡ some (ptr l.tc_idx)
  pub renders : r.target ≡ ptr (1 - l.tc_idx)
  pub swaps : r.loop.tc_idx ≡ 1 - l.tc_idx
  pub steady : IsSteady ptr r.loop

done-ready : (s : Spi) → (spim_evt_handler send_complete s).ready ≡ true
unfolding spim_evt_handler
done-ready s = elim (Bool-cases (do_release send_complete s)) [
  | inl e ↦ rw e refl
  | inr e ↦ rw e refl
]

pub round-Swaps :
    (ptr len : ℕ → ℕ) (l : Loop) → IsSteady ptr l → Swaps ptr l (round ptr len true success l)
unfolding round
round-Swaps ptr len l h =
    let idx = bit_and (l.tc_idx + 1) 1 in
    let sent : send l.spi ≡ (success, record l.spi { ready = false; started = suc l.spi.started }) =
      send-some l.spi (ptr l.tc_idx) h.is_ready h.queued in
    rw
      (
        sent,
        set_buffer-ready success (some (ptr idx)) (len idx)
            (spim_evt_handler send_complete
              (record l.spi { ready = false; started = suc l.spi.started }))
            (done-ready _),
      )
      (record {
        good = refl;
        sends = h.queued;
        renders = ap ptr (other_index l.tc_idx h.index);
        swaps = other_index l.tc_idx h.index;
        steady = record {
          index = next_index l.tc_idx h.index;
          is_ready = done-ready _;
          queued = refl;
        };
      })

-- The thread before its first round.
unfoldable pub start : (ptr len : ℕ → ℕ) → (context callback : ℕ) → Loop
start ptr len context callback =
    let hooked = on_send_complete context (some callback) (init success unused).1 in
    record { spi = (set_buffer success (some (ptr 0)) (len 0) hooked.1).1; tc_idx = 0 }

-- `n` rounds in time: what is on the wire and what is rendered into, round by round.
unfoldable pub trace : (ptr len : ℕ → ℕ) → ℕ → Loop → List (Option ℕ × ℕ)
trace ptr len zero l = []
trace ptr len (suc n) l =
    let r = round ptr len true success l in (r.wire, r.target) ∷ trace ptr len n r.loop

abbrev pub at_round : (ptr : ℕ → ℕ) → ℕ → ℕ → Option ℕ × ℕ
at_round ptr idx i = (some (ptr ((idx + i) % 2)), ptr ((idx + i + 1) % 2))

at_round_ext :
    (ptr : ℕ → ℕ) (idx i a b : ℕ)
    → a ≡ (idx + i) % 2
    → b ≡ (idx + i + 1) % 2
    → at_round ptr idx i ≡ (some (ptr a), ptr b)
at_round_ext ptr idx i a b e f = rw (e, f) refl

at_round-suc :
    (ptr : ℕ → ℕ) (k idx i : ℕ)
    → (idx ≡ 0) ⊎ (idx ≡ 1)
    → k ≡ 1 - idx
    → at_round ptr k i ≡ at_round ptr idx (suc i)
at_round-suc ptr k idx i h e =
    at_round_ext ptr k i ((idx + suc i) % 2) ((idx + suc i + 1) % 2) (ground arith) (ground arith)

at_round-first :
    (ptr : ℕ → ℕ) (idx : ℕ)
    → (idx ≡ 0) ⊎ (idx ≡ 1)
    → at_round ptr idx 0 ≡ (some (ptr idx), ptr (1 - idx))
at_round-first ptr idx h = at_round_ext ptr idx 0 idx (1 - idx) (ground arith) (ground arith)

trace-steady :
    (ptr len : ℕ → ℕ) (n : ℕ) (l : Loop)
    → IsSteady ptr l
    → trace ptr len n l ≡ tabulate n (at_round ptr l.tc_idx)
unfolding trace
trace-steady ptr len zero l h = refl
trace-steady ptr len (suc n) l h =
    let r = round ptr len true success l in
    let w : Swaps ptr l r = round-Swaps ptr len l h in
    ap₂ ◌∷◌ (rw (w.sends, w.renders) (sym (at_round-first ptr l.tc_idx h.index))) (
      trace-steady ptr len n r.loop w.steady
      ∙ tabulate_ext n n (at_round ptr r.loop.tc_idx) (λ i. at_round ptr l.tc_idx (suc i)) refl
          (λ i lt. at_round-suc ptr r.loop.tc_idx l.tc_idx i h.index w.swaps))

pub start-IsSteady :
    (ptr len : ℕ → ℕ) (context callback : ℕ) → IsSteady ptr (start ptr len context callback)
unfolding start init on_send_complete set_buffer
start-IsSteady ptr len context callback = record {
  index = inl refl;
  is_ready = refl;
  queued = refl;
}

-- From the start `n` rounds, all in time, alternate: round `i` sends buffer `i % 2` and renders into the
-- other one, which the next round sends.
pub trace-start :
    (ptr len : ℕ → ℕ) (context callback n : ℕ)
    → trace ptr len n (start ptr len context callback)
      ≡ tabulate n (λ i. (some (ptr (i % 2)), ptr ((i + 1) % 2)))
unfolding start
trace-start ptr len context callback n =
    trace-steady ptr len n (start ptr len context callback)
      (start-IsSteady ptr len context callback)
    ∙ tabulate_ext n n (at_round ptr 0) (λ i. (some (ptr (i % 2)), ptr ((i + 1) % 2))) refl
        (λ i lt. at_round_ext ptr 0 i (i % 2) ((i + 1) % 2) (ground arith) (ground arith))

-- A round whose transfer is not finished when the wait ends fails: to queue the next buffer is refused
-- as busy, which the thread takes for fatal.
pub round_missed :
    (ptr len : ℕ → ℕ) (ret : Status) (l : Loop)
    → IsSteady ptr l
    → (round ptr len false ret l).status ≡ busy
unfolding round
round_missed ptr len ret l h =
    let idx = bit_and (l.tc_idx + 1) 1 in
    rw
      (
        send-some l.spi (ptr l.tc_idx) h.is_ready h.queued,
        set_buffer-busy ret (some (ptr idx)) (len idx)
            (record l.spi { ready = false; started = suc l.spi.started }) refl,
      )
      refl
