-- ===== src/Ble/Events.antt =====
-- The handlers of Bluetooth events, advertising, the peer manager and the connection parameters: src/core/ble.cc.
--
-- The SoftDevice's calls are recorded, and `answers` gives their statuses; where APP_ERROR_CHECK stops, the result is
-- `none`. What the handlers of the peer manager itself do with an event, log output and the LED indication of a board
-- without one are left out. `m_conn_handle` is in Ble/Conn.
pub mod Link
pub mod Advertising
use ledfw_lib.Common.{
  ℕ, Bool, true, false, Option, none, some, List, [], ◌∷◌, ◌++◌, if◌then◌else◌, Status, is_success,
}
use ledfw_lib.Ble.Conn.{Conn, ConnRate, on_connected, on_disconnected, set_conn_rate}
use ledfw_lib.Gc.{Gc, schedule_pm_gc}

pub data Reason : Type 0 where
  remote_user_terminated conn_interval_unacceptable : Reason

-- The calls that are checked; a handle is `none` for BLE_CONN_HANDLE_INVALID.
pub data Call : Type 0 where
  indicate_connected indicate_advertising : Call
  qwr_conn_handle_assign : ℕ → Call
  phy_update : ℕ → Call
  disconnect : Option ℕ → Reason → Call
  advertising_start_fast : Call
  peers_delete : Call

pub data BleEvt : Type 0 where
  connected : ℕ → BleEvt
  disconnected : BleEvt
  phy_update_request : ℕ → BleEvt
  gattc_timeout gatts_timeout : ℕ → BleEvt
  phy_updated sec_params_request other_event : BleEvt

pub data AdvEvt : Type 0 where
  adv_fast adv_idle adv_other : AdvEvt

pub data PmEvt : Type 0 where
  peers_delete_succeeded pm_other : PmEvt

pub record Device : Type 0 where
  pub conn : Conn
  pub gc : Gc
  pub calls : List Call

-- What happens to the device; `rate` is a request of one of its tasks, with the status of the change.
pub data Input : Type 0 where
  ble : BleEvt → Input
  adv : AdvEvt → Input
  pm : PmEvt → Input
  params : (failed : Bool) → Input
  rate : (changed : Status) → ConnRate → Input

module _ (answers : Call → Status) where
  -- A call with APP_ERROR_CHECK
  unfoldable pub checked : Call → Device → Option Device
  checked c d =
      if is_success (answers c) then some (record d { calls = d.calls ++ (c ∷ []) }) else none

  unfoldable pub ble_evt_handler : BleEvt → Device → Option Device
  ble_evt_handler (connected h) d = elim (checked indicate_connected d) [
    | none ↦ none
    | some d' ↦ checked (qwr_conn_handle_assign h) (record d' { conn = on_connected h d'.conn })
  ]
  ble_evt_handler disconnected d =
      some (record d { conn = on_disconnected d.conn; gc = schedule_pm_gc d.gc })
  ble_evt_handler (phy_update_request h) d = checked (phy_update h) d
  ble_evt_handler (gattc_timeout h) d = checked (disconnect (some h) remote_user_terminated) d
  ble_evt_handler (gatts_timeout h) d = checked (disconnect (some h) remote_user_terminated) d
  ble_evt_handler phy_updated d = some d
  ble_evt_handler sec_params_request d = some d
  ble_evt_handler other_event d = some d

  unfoldable pub on_adv_evt : AdvEvt → Device → Option Device
  on_adv_evt adv_fast d = checked indicate_advertising d
  on_adv_evt adv_idle d = checked advertising_start_fast d
  on_adv_evt adv_other d = some d

  unfoldable pub erase_bonds : Device → Option Device
  erase_bonds d = checked peers_delete d

  -- With the flag that it clears; `erase` is false for a null pointer.
  unfoldable pub advertising_start : (erase : Bool) → Device → Option Device
  advertising_start erase d = if erase then erase_bonds d else checked advertising_start_fast d

  unfoldable pub pm_evt_handler : PmEvt → Device → Option Device
  pm_evt_handler peers_delete_succeeded d = advertising_start false d
  pm_evt_handler pm_other d = some d

  unfoldable pub on_conn_params_evt : (failed : Bool) → Device → Option Device
  on_conn_params_evt failed d =
      if failed
      then checked (disconnect d.conn.conn_handle conn_interval_unacceptable) d
      else some d

  unfoldable pub step : Input → Device → Option Device
  step (ble e) d = ble_evt_handler e d
  step (adv e) d = on_adv_evt e d
  step (pm e) d = pm_evt_handler e d
  step (params failed) d = on_conn_params_evt failed d
  step (rate changed r) d = some (record d { conn = (set_conn_rate changed r d.conn).1 })

  unfoldable pub run : List Input → Device → Option Device
  run [] d = some d
  run (i ∷ is) d = elim (step i d) [ none ↦ none | some d' ↦ run is d' ]

  -- `init_thread`: the SoftDevice's task starts advertising, and then handles what happens.
  unfoldable pub init_thread : (erase : Bool) → List Input → Device → Option Device
  init_thread erase is d = elim (advertising_start erase d) [ none ↦ none | some d' ↦ run is d' ]
