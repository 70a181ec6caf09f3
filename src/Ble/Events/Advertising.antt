-- ===== src/Ble/Events/Advertising.antt =====
-- When advertising is started.
use ledfw_lib.Common.{
  ℕ, ◌+◌, ◌≡◌, refl, arith, Bool, true, false, Option, some, List, [], ◌∷◌, ◌++◌, if◌then◌else◌,
  Status, success,
}
use ledfw_lib.Ble.Conn.{on_connected}
use ledfw_lib.Ble.Events.{
  Call, advertising_start_fast, peers_delete, indicate_connected, indicate_advertising,
  qwr_conn_handle_assign, phy_update, disconnect, remote_user_terminated,
  conn_interval_unacceptable, BleEvt, connected, disconnected, phy_update_request, gattc_timeout,
  gatts_timeout, phy_updated, sec_params_request, other_event, adv_fast, adv_idle, adv_other,
  peers_delete_succeeded, pm_other, Device, Input, ble, adv, pm, params, rate, checked,
  ble_evt_handler, on_adv_evt, erase_bonds, advertising_start, pm_evt_handler, on_conn_params_evt,
  step, run, init_thread,
}

-- How often advertising was started, by the calls, and how often it should be, by what happened
abbrev is_start : Call → ℕ
is_start advertising_start_fast = 1
is_start _ = 0

unfoldable pub n_starts : List Call → ℕ
n_starts [] = 0
n_starts (c ∷ cs) = is_start c + n_starts cs

abbrev pub asks_start : Input → ℕ
asks_start (adv adv_idle) = 1
asks_start (pm peers_delete_succeeded) = 1
asks_start (adv _) = 0
asks_start (pm _) = 0
asks_start (ble _) = 0
asks_start (params _) = 0
asks_start (rate _ _) = 0

abbrev pub n_asked : List Input → ℕ
n_asked [] = 0
n_asked (i ∷ is) = asks_start i + n_asked is

n_starts-append : (cs : List Call) (c : Call) → n_starts (cs ++ (c ∷ [])) ≡ n_starts cs + is_start c
unfolding n_starts
n_starts-append [] c = omega arith
n_starts-append (x ∷ cs) c = omega (arith, n_starts-append cs c)

module _ (answers : Call → Status) (ok : (c : Call) → answers c ≡ success) where
  -- A device that has started advertising so often
  abbrev pub Started : ℕ → Option Device → Type 0
  Started n r = (d' : Device) × (r ≡ some d') × (n_starts d'.calls ≡ n)

  checked-Started :
      (c : Call) (d : Device) → Started (n_starts d.calls + is_start c) (checked answers c d)
  unfolding checked
  checked-Started c d =
      (record d { calls = d.calls ++ (c ∷ []) }, rw (ok c) refl, n_starts-append d.calls c)

  unchanged : (d : Device) → Started (n_starts d.calls + 0) (some d)
  unchanged d = (d, refl, omega arith)

  ble-Started :
      (e : BleEvt) (d : Device) → Started (n_starts d.calls + 0) (ble_evt_handler answers e d)
  unfolding ble_evt_handler
  ble-Started (connected h) d =
      let (d₁, p, n₁) = checked-Started indicate_connected d in
      let d₂ : Device = record d₁ { conn = on_connected h d₁.conn } in
      let (d', q, n₂) = checked-Started (qwr_conn_handle_assign h) d₂ in
      (d', rw (ble_evt_handler, p) q, omega (arith, n₁, n₂))
  ble-Started disconnected d = (_, refl, omega arith)
  ble-Started (phy_update_request h) d = checked-Started (phy_update h) d
  ble-Started (gattc_timeout h) d = checked-Started (disconnect (some h) remote_user_terminated) d
  ble-Started (gatts_timeout h) d = checked-Started (disconnect (some h) remote_user_terminated) d
  ble-Started phy_updated d = unchanged d
  ble-Started sec_params_request d = unchanged d
  ble-Started other_event d = unchanged d

  step-Started :
      (i : Input) (d : Device) → Started (n_starts d.calls + asks_start i) (step answers i d)
  unfolding step on_adv_evt advertising_start pm_evt_handler on_conn_params_evt
  step-Started (ble e) d = ble-Started e d
  step-Started (adv adv_fast) d = checked-Started indicate_advertising d
  step-Started (adv adv_idle) d = checked-Started advertising_start_fast d
  step-Started (adv adv_other) d = unchanged d
  step-Started (pm peers_delete_succeeded) d = checked-Started advertising_start_fast d
  step-Started (pm pm_other) d = unchanged d
  step-Started (params true) d =
      checked-Started (disconnect d.conn.conn_handle conn_interval_unacceptable) d
  step-Started (params false) d = unchanged d
  step-Started (rate changed r) d = (_, refl, omega arith)

  run-Started :
      (is : List Input) (d : Device) → Started (n_starts d.calls + n_asked is) (run answers is d)
  unfolding run
  run-Started [] d = unchanged d
  run-Started (i ∷ is) d =
      let (d₁, p, n₁) = step-Started i d in
      let (d₂, q, n₂) = run-Started is d₁ in (d₂, rw (run, p) q, omega (arith, n₁, n₂))

  -- While the SoftDevice's calls succeed: without bonds to erase advertising is started at once, and else only after
  -- the peer manager says that it deleted them; it is started again for each such message and each time it has
  -- timed out, and at no other event.
  pub init_thread-Started :
      (erase : Bool) (is : List Input) (d : Device)
      → Started
          (n_starts d.calls + (if erase then 0 else 1) + n_asked is)
          (init_thread answers erase is d)
  unfolding init_thread advertising_start erase_bonds
  init_thread-Started true is d =
      let (d₁, p, n₁) = checked-Started peers_delete d in
      let (d₂, q, n₂) = run-Started is d₁ in (d₂, rw (init_thread, p) q, omega (arith, n₁, n₂))
  init_thread-Started false is d =
      let (d₁, p, n₁) = checked-Started advertising_start_fast d in
      let (d₂, q, n₂) = run-Started is d₁ in (d₂, rw (init_thread, p) q, omega (arith, n₁, n₂))
