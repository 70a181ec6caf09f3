-- ===== src/Ble/Conn.antt =====
-- The connection and its rate: `set_conn_rate` and `ble_evt_handler` of src/core/ble.cc.
--
-- The parameters that `ble_conn_params_change_conn_params` was last called with are kept as the rate; its
-- status is an argument. `m_conn_handle` is `none` for BLE_CONN_HANDLE_INVALID.
use ledfw_lib.Common.{
  ℕ, zero, suc, ◌+◌, ◌-◌, ◌%◌, ◌^◌, ◌<◌, ◌≤◌, sym, ◌∙◌, length, ◌≡◌, refl, false, Option, none,
  some, List, [], ◌∷◌, ◌==◌, if◌then◌else◌, Status, success,
}
use native.Mathlib.Omega.{arith}
use mathlib.Core.Path.{subst}

pub data ConnRate : Type 0 where
  normal high_speed : ConnRate

-- `nrf_atomic_u32_fetch_add` and `nrf_atomic_u32_fetch_sub_hs` with 1: a counter of 32 bits, of which nothing
-- is taken at 0.
abbrev pub increment : ℕ → ℕ
increment n = (n + 1) % 2 ^ 32

abbrev pub decrement : ℕ → ℕ
decrement n = n - 1

pub record Conn : Type 0 where
  pub conn_handle : Option ℕ
  pub conn_rate_sem : ℕ
  pub requested : Option ConnRate

-- The connected and disconnected events
unfoldable pub on_connected : ℕ → Conn → Conn
on_connected handle c = record { conn_handle = some handle; conn_rate_sem = 0; requested = none }

unfoldable pub on_disconnected : Conn → Conn
on_disconnected c = record c { conn_handle = none; conn_rate_sem = 0 }

unfoldable pub set_conn_rate : (changed : Status) → ConnRate → Conn → Status × Conn
set_conn_rate changed normal c = elim c.conn_handle [
  | none ↦ (success, c)
  | some handle ↦
      let c' = record c { conn_rate_sem = decrement c.conn_rate_sem } in
      if c.conn_rate_sem == 1
      then (changed, record c' { requested = some normal })
      else (success, c')
]
set_conn_rate changed high_speed c = elim c.conn_handle [
  | none ↦ (success, c)
  | some handle ↦
      let c' = record c { conn_rate_sem = increment c.conn_rate_sem } in
      if c.conn_rate_sem == 0
      then (changed, record c' { requested = some high_speed })
      else (success, c')
]

unfoldable pub set_conn_rates : List ConnRate → Conn → Conn
set_conn_rates [] c = c
set_conn_rates (rate ∷ rest) c = set_conn_rates rest (set_conn_rate success rate c).1

-- How many requests for speed are open after a sequence of requests that starts with `n` of them; one that is
-- given back while none is open does not count.
abbrev pub opened : ℕ → List ConnRate → ℕ
opened n [] = n
opened n (high_speed ∷ rest) = opened (suc n) rest
opened n (normal ∷ rest) = opened (n - 1) rest

-- What was last asked for on a connection with `n` open requests
pub data Follows : ℕ → Option ConnRate → Type 0 where
  untouched : Follows 0 none
  slow : Follows 0 (some normal)
  fast : (n : ℕ) → Follows (suc n) (some high_speed)

abbrev pub connected : ℕ → ℕ → Option ConnRate → Conn
connected handle n r = record { conn_handle = some handle; conn_rate_sem = n; requested = r }

-- One request on a connection, whatever the status of the change
pub set_conn_rate-connected :
    {n : ℕ} {r : Option ConnRate} (changed : Status) (rate : ConnRate) (handle : ℕ)
    → n + 1 < 2 ^ 32
    → Follows n r
    → (q : Option ConnRate) × ((set_conn_rate changed rate (connected handle n r)).1
        ≡ connected handle (opened n (rate ∷ [])) q)
      × Follows (opened n (rate ∷ [])) q
unfolding set_conn_rate
set_conn_rate-connected changed high_speed handle h untouched = (some high_speed, refl, fast 0)
set_conn_rate-connected changed high_speed handle h slow = (some high_speed, refl, fast 0)
set_conn_rate-connected changed high_speed handle h (fast n) =
    let e : (suc n == 0) ≡ false = ground arith in
    let w : (suc n + 1) % 2 ^ 32 ≡ suc (suc n) = omega arith in
    (some high_speed, rw (e, w) refl, fast (suc n))
set_conn_rate-connected changed normal handle h untouched = (none, refl, untouched)
set_conn_rate-connected changed normal handle h slow = (some normal, refl, slow)
set_conn_rate-connected changed normal handle h (fast zero) = (some normal, refl, slow)
set_conn_rate-connected changed normal handle h (fast (suc n)) =
    let e : (suc (suc n) == 1) ≡ false = ground arith in
    let w : suc (suc n) - 1 ≡ suc n = omega arith in
    (some high_speed, rw (e, w) refl, subst (λ k. Follows k (some high_speed)) (sym w) (fast n))

opened-step :
    (rate : ConnRate) (rest : List ConnRate) (n : ℕ)
    → opened n (rate ∷ rest) ≡ opened (opened n (rate ∷ [])) rest
opened-step normal rest n = refl
opened-step high_speed rest n = refl

pub opened-bound : (rate : ConnRate) (n : ℕ) → opened n (rate ∷ []) ≤ suc n
opened-bound normal n = omega arith
opened-bound high_speed n = omega arith

-- On a connection, after any sequence of requests that the counter can hold, the counter is the number of
-- requests for speed that are open, and the parameters last asked for are the fast ones exactly if there is one.
pub set_conn_rates-Follows :
    (rates : List ConnRate) (n handle : ℕ) (r : Option ConnRate)
    → Follows n r
    → n + length rates < 2 ^ 32
    → let c = set_conn_rates rates (connected handle n r) in
      (c.conn_rate_sem ≡ opened n rates) × Follows c.conn_rate_sem c.requested
unfolding set_conn_rates
set_conn_rates-Follows [] n handle r f h = (refl, f)
set_conn_rates-Follows (rate ∷ rest) n handle r f h =
    let (q, e, g) = set_conn_rate-connected success rate handle (omega arith) f in
    let k : ℕ = opened n (rate ∷ []) in
    let all = set_conn_rates-Follows rest k handle q g (omega (arith, opened-bound rate n)) in
    subst
      (λ (c : Conn).
        ((set_conn_rates rest c).conn_rate_sem ≡ opened n (rate ∷ rest))
        × Follows (set_conn_rates rest c).conn_rate_sem (set_conn_rates rest c).requested)
      (sym e) (all.0 ∙ sym (opened-step rate rest n), all.1)
