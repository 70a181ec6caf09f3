-- ===== src/Tests/Device.antt =====
-- The mutex-guarded value, the stored peers, the Bluetooth device and its advertisement at concrete inputs.
use ledfw_lib.Common.{
  ℕ, ◌≤◌, ◌≡◌, ◌≢◌, refl, take, true, false, none, some, List, [], ◌∷◌, replicate, Status, success,
}
use native.Mathlib.Omega.{arith}
use ledfw_lib.Lock
use ledfw_lib.Lock.{World, Op, construct, takes, destroys}
use ledfw_lib.Lock.Exclusion.{guards_exclusive}
use ledfw_lib.Lock.Lost.{unheld-free}
use ledfw_lib.Gc.{Gc}
use ledfw_lib.Gc.Peers.{rounds, rounds_bounded, rounds_grow}
use ledfw_lib.Ble.Conn.{high_speed}
use ledfw_lib.Ble.Events.{
  Call, connected, disconnected, adv_idle, peers_delete_succeeded, Device, Input, ble, adv, pm,
  rate, init_thread,
}
use ledfw_lib.Ble.Events.Link.{Agrees, offline, run-Agrees}
use ledfw_lib.Ble.Events.Advertising.{Started, n_starts, init_thread-Started}
use ledfw_lib.Ble.Events
use ledfw_lib.Ble.Advdata.{Advdata}

-- Two guards, of which the first takes lock 7
abbrev shared : List Op
shared = construct ∷ construct ∷ takes 7 0 ∷ takes 7 1 ∷ []

first_holds : Lock.as_ptr 0 (Lock.run shared Lock.start) ≡ some 7
unfolding Lock.as_ptr Lock.run Lock.step Lock.take Lock.start
first_holds = refl

guards_exclusive_example : Lock.as_ptr 1 (Lock.run shared Lock.start) ≢ some 7
guards_exclusive_example = guards_exclusive shared 7 0 1 (omega arith) first_holds

-- The guard is destroyed, and the lock is free again.
abbrev given_back : List Op
given_back = construct ∷ takes 7 0 ∷ destroys 0 ∷ []

nobody_holds : (j : ℕ) → Lock.as_ptr j (Lock.run given_back Lock.start) ≢ some 7
unfolding Lock.as_ptr Lock.run Lock.step Lock.take Lock.destroy Lock.start
nobody_holds j = ground arith

unheld-free_example : (Lock.take 7 0 (Lock.run given_back Lock.start)).0 ≡ true
unfolding Lock.as_ptr Lock.run Lock.step Lock.take Lock.start
unheld-free_example = unheld-free given_back 7 0 (refl, tt) nobody_holds

abbrev idle_gc : Gc
idle_gc = record { notify_fds_gc = false; notify_peers_gc = false; n_peers = 4; collections = 0 }

abbrev answer : Gc → Status
answer g = success

rounds_bounded_example :
    (g : Gc) × (rounds answer answer 4 ((true ∷ false ∷ []) ∷ [] ∷ (true ∷ []) ∷ []) idle_gc
      ≡ some g)
    × (g.n_peers ≤ 4)
rounds_bounded_example =
    rounds_bounded answer answer 4 ((true ∷ false ∷ []) ∷ [] ∷ (true ∷ []) ∷ []) idle_gc (λ g. refl)
      (λ g. refl) refl (omega arith) (omega arith)

rounds_grow_example :
    (g : Gc) × (rounds answer answer 4 ((true ∷ true ∷ []) ∷ (true ∷ true ∷ []) ∷ []) idle_gc
      ≡ some g)
    × (g.n_peers ≡ 6)
rounds_grow_example =
    rounds_grow answer answer 4 ((true ∷ true ∷ []) ∷ (true ∷ true ∷ []) ∷ []) idle_gc (λ g. refl)
      (λ g. refl) refl (refl, (refl, tt)) (omega arith)

-- A device that is switched on
abbrev fresh : Device
fresh = record {
  conn = record { conn_handle = none; conn_rate_sem = 0; requested = none };
  gc = idle_gc;
  calls = [];
}

abbrev accept : Call → Status
accept c = success

abbrev session : List Input
session =
    adv adv_idle
    ∷ ble (connected 3)
    ∷ rate success high_speed
    ∷ ble disconnected
    ∷ ble (connected 4)
    ∷ rate success high_speed
    ∷ []

run-Agrees_example :
    (d : Device) × (Events.run accept session fresh ≡ some d) × Agrees (some (4, 1)) d.conn
run-Agrees_example = run-Agrees accept (λ c. refl) session none fresh (omega arith) (offline none)

init_thread-Started_example :
    Started accept
      (λ c. refl)
      2
      (init_thread accept true (pm peers_delete_succeeded ∷ adv adv_idle ∷ []) fresh)
unfolding n_starts
init_thread-Started_example =
    init_thread-Started accept (λ c. refl) true (pm peers_delete_succeeded ∷ adv adv_idle ∷ [])
      fresh

-- The array at the start
abbrev branded : Advdata
branded = record { manuf_adv_data = 0x41 ∷ 0x98 ∷ replicate 14 0; size = 2 }
