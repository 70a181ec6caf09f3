-- ===== src/Ble/Events/Link.antt =====
-- The connection and its rate, over everything that happens to the device.
use ledfw_lib.Common.{
  ℕ, suc, ◌+◌, ◌^◌, ◌<◌, ◌≤◌, ◌≡◌, refl, sym, arith, true, false, Option, none, some, List, [], ◌∷◌,
  ◌++◌, length, Status, success,
}
use mathlib.Core.Path.{subst}
use ledfw_lib.Ble.Conn.{
  Conn, ConnRate, normal, high_speed, on_connected, on_disconnected, set_conn_rate, opened, Follows,
  untouched, set_conn_rate-connected, opened-bound,
}
use ledfw_lib.Ble.Conn
use ledfw_lib.Ble.Events.{
  Call, indicate_connected, indicate_advertising, qwr_conn_handle_assign, phy_update, disconnect,
  advertising_start_fast, remote_user_terminated, conn_interval_unacceptable, connected,
  disconnected, phy_update_request, gattc_timeout, gatts_timeout, phy_updated, sec_params_request,
  other_event, adv_fast, adv_idle, adv_other, peers_delete_succeeded, pm_other, Device, Input, ble,
  adv, pm, params, rate, checked, ble_evt_handler, on_adv_evt, advertising_start, pm_evt_handler,
  on_conn_params_evt, step, run,
}

-- The connection as the inputs describe it: its handle and the requests for speed that are open on it
abbrev pub next_link : Input → Option (ℕ × ℕ) → Option (ℕ × ℕ)
next_link (ble (connected h)) s = some (h, 0)
next_link (ble disconnected) s = none
next_link (rate changed r) (some (h, n)) = some (h, opened n (r ∷ []))
next_link (rate changed r) none = none
next_link (ble _) s = s
next_link (adv _) s = s
next_link (pm _) s = s
next_link (params _) s = s

abbrev pub link_after : List Input → Option (ℕ × ℕ) → Option (ℕ × ℕ)
link_after [] s = s
link_after (i ∷ is) s = link_after is (next_link i s)

-- The variables agree with it: without a connection the counter is 0; with one it is the number of open requests, and
-- the parameters last asked for on the connection are the fast ones exactly if there are any.
pub data Agrees : Option (ℕ × ℕ) → Conn → Type 0 where
  offline :
      (r : Option ConnRate)
      → Agrees none (record { conn_handle = none; conn_rate_sem = 0; requested = r })
  online :
      (h n : ℕ) (r : Option ConnRate) → Follows n r → Agrees (some (h, n)) (Conn.connected h n r)

abbrev pub n_open : Option (ℕ × ℕ) → ℕ
n_open none = 0
n_open (some (h, n)) = n

n_open-bound : (i : Input) (s : Option (ℕ × ℕ)) → n_open (next_link i s) ≤ suc (n_open s)
n_open-bound (ble (connected h)) s = omega arith
n_open-bound (ble disconnected) s = omega arith
n_open-bound (rate changed r) (some (h, n)) = opened-bound r n
n_open-bound (rate changed r) none = omega arith
n_open-bound (ble _) s = omega arith
n_open-bound (adv _) s = omega arith
n_open-bound (pm _) s = omega arith
n_open-bound (params _) s = omega arith

rate-Agrees :
    (changed : Status) (r : ConnRate) (s : Option (ℕ × ℕ)) (c : Conn)
    → n_open s + 1 < 2 ^ 32
    → Agrees s c
    → Agrees (next_link (rate changed r) s) (set_conn_rate changed r c).1
unfolding set_conn_rate
rate-Agrees changed normal s c b (offline q) = offline q
rate-Agrees changed high_speed s c b (offline q) = offline q
rate-Agrees changed r s c b (online h n q f) =
    let (q', e, g) = set_conn_rate-connected changed r h b f in
    subst (Agrees (some (h, opened n (r ∷ [])))) (sym e) (online h (opened n (r ∷ [])) q' g)

module _ (answers : Call → Status) (ok : (c : Call) → answers c ≡ success) where
  checked_lem :
      (c : Call) (d : Device)
      → checked answers c d ≡ some (record d { calls = d.calls ++ (c ∷ []) })
  unfolding checked
  checked_lem c d = rw (ok c) refl

  -- What a step that leaves the connection alone gives
  abbrev Steps : Option (ℕ × ℕ) → Option Device → Type 0
  Steps s r = (d' : Device) × (r ≡ some d') × Agrees s d'.conn

  checked-Steps :
      (c : Call) (s : Option (ℕ × ℕ)) (d : Device) → Agrees s d.conn → Steps s (checked answers c d)
  checked-Steps c s d a = (record d { calls = d.calls ++ (c ∷ []) }, checked_lem c d, a)

  step-Steps :
      (i : Input) (s : Option (ℕ × ℕ)) (d : Device)
      → n_open s + 1 < 2 ^ 32
      → Agrees s d.conn
      → Steps (next_link i s) (step answers i d)
  unfolding step ble_evt_handler on_adv_evt advertising_start pm_evt_handler on_conn_params_evt
      on_connected on_disconnected
  step-Steps (ble (connected h)) s d b a =
      let d₁ : Device = record d { calls = d.calls ++ (indicate_connected ∷ []) } in
      let d₂ : Device = record d₁ { conn = on_connected h d.conn } in
      let (d', e, a') =
        checked-Steps (qwr_conn_handle_assign h) (some (h, 0)) d₂ (online h 0 none untouched) in
      (d', rw (ble_evt_handler, checked_lem indicate_connected d) e, a')
  step-Steps (ble disconnected) s d b a = (_, refl, offline d.conn.requested)
  step-Steps (ble (phy_update_request h)) s d b a = checked-Steps (phy_update h) s d a
  step-Steps (ble (gattc_timeout h)) s d b a =
      checked-Steps (disconnect (some h) remote_user_terminated) s d a
  step-Steps (ble (gatts_timeout h)) s d b a =
      checked-Steps (disconnect (some h) remote_user_terminated) s d a
  step-Steps (ble phy_updated) s d b a = (d, refl, a)
  step-Steps (ble sec_params_request) s d b a = (d, refl, a)
  step-Steps (ble other_event) s d b a = (d, refl, a)
  step-Steps (adv adv_fast) s d b a = checked-Steps indicate_advertising s d a
  step-Steps (adv adv_idle) s d b a = checked-Steps advertising_start_fast s d a
  step-Steps (adv adv_other) s d b a = (d, refl, a)
  step-Steps (pm peers_delete_succeeded) s d b a = checked-Steps advertising_start_fast s d a
  step-Steps (pm pm_other) s d b a = (d, refl, a)
  step-Steps (params true) s d b a =
      checked-Steps (disconnect d.conn.conn_handle conn_interval_unacceptable) s d a
  step-Steps (params false) s d b a = (d, refl, a)
  step-Steps (rate changed r) s d b a = (_, refl, rate-Agrees changed r s d.conn b a)

  -- While the SoftDevice's calls succeed, the device goes through any sequence of events and requests that the
  -- counter can hold, and the connection then agrees with the description of it by these inputs.
  pub run-Agrees :
      (is : List Input) (s : Option (ℕ × ℕ)) (d : Device)
      → n_open s + length is < 2 ^ 32
      → Agrees s d.conn
      → (d' : Device) × (run answers is d ≡ some d') × Agrees (link_after is s) d'.conn
  unfolding run
  run-Agrees [] s d b a = (d, refl, a)
  run-Agrees (i ∷ is) s d b a =
      let (d₁, p, a₁) = step-Steps i s d (omega arith) a in
      let (d₂, q, a₂) = run-Agrees is (next_link i s) d₁ (omega (arith, n_open-bound i s)) a₁ in
      (d₂, rw (run, p) q, a₂)
