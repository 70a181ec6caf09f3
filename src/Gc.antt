-- ===== src/Gc.antt =====
-- The garbage collection task: `gc_thread` and what schedules it, of src/core/task.cc.
--
-- The notification bits are what was notified and not yet fetched. The peer manager is how many peers it stores;
-- the statuses of its calls and of `fds_gc` are arguments.
pub mod Peers
use ledfw_lib.Common.{
  ℕ, ◌+◌, ◌-◌, Bool, true, false, Option, none, some, ltb, if◌then◌else◌, Status, is_success,
}

-- The bits NOTIFY_FDS_GC and NOTIFY_PEERS_GC, the stored peers, and the collections asked for
pub record Gc : Type 0 where
  pub notify_fds_gc : Bool
  pub notify_peers_gc : Bool
  pub n_peers : ℕ
  pub collections : ℕ

-- `schedule_fds_gc` and `schedule_pm_gc`, also from an interrupt; bits that are set stay set.
unfoldable pub schedule_fds_gc : Gc → Gc
schedule_fds_gc g = record g { notify_fds_gc = true }

unfoldable pub schedule_pm_gc : Gc → Gc
schedule_pm_gc g = record g { notify_peers_gc = true }

-- `pm_peer_ranks_get` and `pm_peer_delete`; an error that APP_ERROR_CHECK stops at is `none`.
unfoldable pub delete_oldest : (ranks deleted : Status) → Gc → Option Gc
delete_oldest ranks deleted g =
    if is_success ranks
    then if is_success deleted then some (record g { n_peers = g.n_peers - 1 }) else none
    else none

-- The part for the peers, and the one for the flash storage, which goes on whatever the status
unfoldable pub collect_peers :
    (max_stored_peers : ℕ) → (ranks deleted : Status) → (flagged : Bool) → Gc → Option Gc
collect_peers max_stored_peers ranks deleted flagged g =
    if flagged
    then if ltb max_stored_peers g.n_peers then delete_oldest ranks deleted g else some g
    else some g

unfoldable pub collect_fds : (flagged : Bool) → Gc → Gc
collect_fds flagged g = if flagged then record g { collections = g.collections + 1 } else g

-- One pass of the loop, which fetches all the bits
unfoldable pub gc_pass : (max_stored_peers : ℕ) → (ranks deleted : Status) → Gc → Option Gc
gc_pass max_stored_peers ranks deleted g =
    let fetched = record g { notify_fds_gc = false; notify_peers_gc = false } in
    elim (collect_peers max_stored_peers ranks deleted g.notify_peers_gc fetched) [
      | none ↦ none
      | some g' ↦ some (collect_fds g.notify_fds_gc g')
    ]
