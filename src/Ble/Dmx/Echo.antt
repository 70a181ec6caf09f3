-- ===== src/Ble/Dmx/Echo.antt =====
-- What becomes of the writes of clients to the DMX service.
use ledfw_lib.Dmx.{DmxConfig, on_channel_cfg_update, call_all, send}
use ledfw_lib.Common.{
  Option-cases, ℕ, ◌+◌, ◌≡◌, refl, sym, ap, ◌∙◌, arith, Bool, true, ◌&&◌, Bool-cases, inl, inr,
  Option, none, some, List, [], ◌∷◌, ◌++◌, append_assoc, append-nil, ltb, leb, ◌==◌, if◌then◌else◌,
  length, get_or, take, drop, take-length, success,
}
use mathlib.Core.List.{map, map-append}
use ledfw_lib.Cfg.Ids.{id_to_index}
use ledfw_lib.Cfg.Cache
use ledfw_lib.Cfg.Cache.{Backend, FlashRecord}
use ledfw_lib.Cfg.Safe.{IsSafe}
use ledfw_lib.Cfg.ReadWrite.{HasSize}
use ledfw_lib.Cfg.Param.{Param, padding_size, value_size, get, set_param}
use ledfw_lib.Cfg.Param.RoundTrip.{get-set_param}
use ledfw_lib.Ble.Chars.{values}
use ledfw_lib.Ble.Dmx.{
  sizeof_config, CharWrite, value_write, config_write, on_values_write, on_config_write, Delivered,
  State, in_memory, handle, handle_all, seen, on_slot_vals, Attempt, set_to, sent, config_of, tell,
  ClientWrite, to_values, to_config, receive,
}

abbrev is_config : List ℕ → Bool
is_config bytes = length bytes == sizeof_config + 1 && get_or bytes 0 0 == 1

abbrev is_values : ℕ → List ℕ → Bool
is_values max_slots bytes = ltb 0 (length bytes) && leb (length bytes) max_slots

module _ (max_slots : ℕ) where
  -- The request that a write leads to
  request : ClientWrite → List CharWrite
  request (to_values bytes) =
      if is_values max_slots bytes
      then value_write (length bytes) (take (length bytes) bytes) ∷ []
      else []
  request (to_config bytes) =
      if is_config bytes then config_write (take sizeof_config (drop 1 bytes)) ∷ [] else []

  requests : List ClientWrite → List CharWrite
  unfolding request
  requests [] = []
  requests (w ∷ rest) = request w ++ requests rest

  receive-requests :
      (ws : List ClientWrite) (q : List CharWrite) → receive max_slots ws q ≡ q ++ requests ws
  unfolding receive requests on_values_write on_config_write
  receive-requests [] q = sym (append-nil q)
  receive-requests (to_values bytes ∷ rest) q = elim (Bool-cases (is_values max_slots bytes)) [
    | inl e ↦
        let r : List CharWrite = value_write (length bytes) (take (length bytes) bytes) ∷ [] in
        rw e (receive-requests rest (q ++ r) ∙ append_assoc q r (requests rest))
    | inr e ↦ rw e (receive-requests rest q)
  ]
  receive-requests (to_config bytes ∷ rest) q = elim (Bool-cases (is_config bytes)) [
    | inl e ↦
        let r : List CharWrite = config_write (take sizeof_config (drop 1 bytes)) ∷ [] in
        rw e (receive-requests rest (q ++ r) ∙ append_assoc q r (requests rest))
    | inr e ↦ rw e (receive-requests rest q)
  ]

-- The calls that carry values
unfoldable pub with_values : List Delivered → List Delivered
with_values [] = []
with_values (d ∷ ds) =
    let rest = with_values ds in elim d.call.vals [ none ↦ rest | some v ↦ d ∷ rest ]

abbrev pub is_own : (own sub : ℕ × ℕ) → Bool
is_own own sub = sub.0 == own.0 && sub.1 == own.1

-- What a call shows: whose it is, the values that its subscriber finds, and if that is the service's own subscription
-- `own`, what it does with them
abbrev pub Shown : Type 0
Shown = (ℕ × ℕ) × Option (List ℕ) × List Attempt

abbrev pub show : (own : ℕ × ℕ) → Delivered → Shown
show own d = (d.call.sub, seen d, if is_own own d.call.sub then on_slot_vals d else [])

-- One write of values, shown to each subscriber
abbrev pub shown_to : (own : ℕ × ℕ) → List (ℕ × ℕ) → List ℕ → List Shown
shown_to own subs bytes =
    map
      (λ sub. (
        sub,
        some bytes,
        if is_own own sub then set_to values bytes ∷ sent values bytes ∷ [] else [],
      ))
      subs

-- The writes to the characteristic of the values that have one byte or more and at most `max_slots`, shown in order
pub all_shown : (max_slots : ℕ) → (own : ℕ × ℕ) → List (ℕ × ℕ) → List ClientWrite → List Shown
all_shown max_slots own subs [] = []
all_shown max_slots own subs (to_values bytes ∷ rest) =
    let others = all_shown max_slots own subs rest in
    if ltb 0 (length bytes) && leb (length bytes) max_slots
    then shown_to own subs bytes ++ others
    else others
all_shown max_slots own subs (to_config bytes ∷ rest) = all_shown max_slots own subs rest

module _ (own : ℕ × ℕ) where
  show-call_all :
      (subs : List (ℕ × ℕ)) (n : ℕ) (bytes : List ℕ)
      → take n bytes ≡ bytes
      → map (show own) (
          with_values
            (map (in_memory bytes) (call_all subs (some (record { n_vals = n; first = 0 })) none)))
        ≡ shown_to own subs bytes
  unfolding call_all seen on_slot_vals with_values
  show-call_all [] n bytes e = refl
  show-call_all (sub ∷ subs) n bytes e =
      let first : List Attempt =
        if is_own own sub then set_to values bytes ∷ sent values bytes ∷ [] else [] in
      rw e (ap (λ l. (sub, some bytes, first) ∷ l) (show-call_all subs n bytes e))

  with_values-append :
      (xs ys : List Delivered) → with_values (xs ++ ys) ≡ with_values xs ++ with_values ys
  unfolding with_values
  with_values-append [] ys = refl
  with_values-append (x ∷ xs) ys = elim (Option-cases x.call.vals) [
    | inl e ↦ rw e (with_values-append xs ys)
    | inr (v, e) ↦ rw e (ap (λ l. x ∷ l) (with_values-append xs ys))
  ]

  without_values :
      (subs : List (ℕ × ℕ)) (c : DmxConfig)
      → with_values (map (in_memory []) (call_all subs none (some c))) ≡ []
  unfolding call_all with_values
  without_values [] c = refl
  without_values (sub ∷ subs) c = without_values subs c

  -- The calls about the configuration carry no values, and no one subscribes.
  tell-keeps :
      (cs : List Cache.Call) (s : State)
      → (with_values (tell cs s).delivered ≡ with_values s.delivered)
        × ((tell cs s).thread.subs ≡ s.thread.subs)
        × ((tell cs s).backend ≡ s.backend)
  unfolding tell on_channel_cfg_update
  tell-keeps [] s = (refl, refl, refl)
  tell-keeps (c ∷ cs) s = elim (Bool-cases (s.is_thread c.sub)) [
    | inr e ↦ rw (tell, e) (tell-keeps cs s)
    | inl e ↦
        let new : List Delivered =
          map (in_memory []) (call_all s.thread.subs none (some (config_of c.bytes))) in
        let s' : State = record s {
          thread = (on_channel_cfg_update (config_of c.bytes) s.thread).1;
          delivered = s.delivered ++ new;
        } in
        let (a, b, d) = tell-keeps cs s' in
        rw (tell, e)
          (
            a
                ∙ with_values-append s.delivered new
                ∙ ap (λ l. with_values s.delivered ++ l)
                    (without_values s.thread.subs (config_of c.bytes))
                ∙ append-nil (with_values s.delivered),
            b,
            d,
          )
  ]

module _ (others : Backend → Backend) (p : Param) (padding : List ℕ) where
  handle_all-append :
      (xs ys : List CharWrite) (s : State)
      → handle_all others p padding (xs ++ ys) s
        ≡ handle_all others p padding ys (handle_all others p padding xs s)
  unfolding handle_all
  handle_all-append [] ys s = refl
  handle_all-append (x ∷ xs) ys s = handle_all-append xs ys (handle others p padding x s)

  requests-shown :
      (max_slots : ℕ) (own : ℕ × ℕ) (ws : List ClientWrite) (s : State)
      → map
          (show own)
          (with_values (handle_all others p padding (requests max_slots ws) s).delivered)
        ≡ map (show own) (with_values s.delivered) ++ all_shown max_slots own s.thread.subs ws
  unfolding handle_all handle requests request all_shown send
  requests-shown max_slots own [] s = sym (append-nil (map (show own) (with_values s.delivered)))
  requests-shown max_slots own (to_values bytes ∷ rest) s =
      let n : ℕ = length bytes in
      let all : take n bytes ≡ bytes = take-length n bytes (omega arith) in
      let w : CharWrite = value_write n (take n bytes) in
      let made =
        map (in_memory (take n bytes))
          (call_all s.thread.subs (some (record { n_vals = n; first = 0 })) none) in
      let before = map (show own) (with_values s.delivered) in
      elim (Bool-cases (is_values max_slots bytes)) [
        | inl e ↦ rw e (
            requests-shown max_slots own rest (handle others p padding w s)
            ∙ ap (λ l. l ++ all_shown max_slots own s.thread.subs rest)
                (ap (map (show own)) (with_values-append own s.delivered made)
                  ∙ map-append (show own) (with_values s.delivered) (with_values made)
                  ∙ ap (λ l. before ++ l) (rw all (show-call_all own s.thread.subs n bytes all)))
            ∙ append_assoc before (shown_to own s.thread.subs bytes)
                (all_shown max_slots own s.thread.subs rest))
        | inr e ↦ rw e (requests-shown max_slots own rest s)
      ]
  requests-shown max_slots own (to_config bytes ∷ rest) s = elim (Bool-cases (is_config bytes)) [
    | inl e ↦
        let written : List ℕ = take sizeof_config (drop 1 bytes) in
        let done = set_param others p (some written) padding s.backend in
        let s' : State = record s { backend = done.2; told = s.told ++ done.1 } in
        let (a, b, d) = tell-keeps own done.1 s' in
        rw e (
          requests-shown max_slots own rest (tell done.1 s')
          ∙ ap (λ l. map (show own) l ++ all_shown max_slots own (tell done.1 s').thread.subs rest)
              a
          ∙ ap
              (λ subs.
                map (show own) (with_values s.delivered) ++ all_shown max_slots own subs rest)
              b)
    | inr e ↦ rw e (requests-shown max_slots own rest s)
  ]

  -- When the task has served the writes of clients to both characteristics, none refused, the calls of the
  -- DMX thread's subscribers that carry values are those before and, in the order of the writes, one of each
  -- subscriber for each write of one to `max_slots` values; the subscriber finds just these values, and the
  -- service's own subscription sets its characteristic of values to them and sends them. The configurations
  -- that are written in between, of which each subscriber may be called too, change nothing of that.
  pub writes-shown :
      (max_slots : ℕ) (own : ℕ × ℕ) (ws : List ClientWrite) (s : State)
      → map
          (show own)
          (with_values (handle_all others p padding (receive max_slots ws []) s).delivered)
        ≡ map (show own) (with_values s.delivered) ++ all_shown max_slots own s.thread.subs ws
  writes-shown max_slots own ws s =
      rw (receive-requests max_slots ws []) (requests-shown max_slots own ws s)

-- Writes to the characteristic of the values
abbrev value_writes : List (List ℕ) → List ClientWrite
value_writes [] = []
value_writes (bytes ∷ rest) = to_values bytes ∷ value_writes rest

handle_values-backend :
    (others : Backend → Backend) (p : Param) (padding : List ℕ) (max_slots : ℕ)
    (later : List (List ℕ)) (s : State)
    → (handle_all others p padding (requests max_slots (value_writes later)) s).backend ≡ s.backend
unfolding handle_all handle requests request
handle_values-backend others p padding max_slots [] s = refl
handle_values-backend others p padding max_slots (bytes ∷ rest) s =
    let w : CharWrite = value_write (length bytes) (take (length bytes) bytes) in
    elim (Bool-cases (is_values max_slots bytes)) [
      | inl e ↦
          rw e (handle_values-backend others p padding max_slots rest (handle others p padding w s))
      | inr e ↦ rw e (handle_values-backend others p padding max_slots rest s)
    ]

config_write-backend :
    (p : Param) (max_slots : ℕ) (bytes padding : List ℕ) (later : List (List ℕ)) (s : State)
    → length bytes ≡ 5
    → (handle_all
        (λ t. t)
        p
        padding
        (receive max_slots (to_config (1 ∷ bytes) ∷ value_writes later) [])
        s).backend
      ≡ (set_param (λ t. t) p (some bytes) padding s.backend).2
unfolding handle_all handle requests request
config_write-backend p max_slots bytes padding later s lb =
    let test : is_config (1 ∷ bytes) ≡ true = ground (arith, lb) in
    let whole : take 5 bytes ≡ bytes = take-length 5 bytes (omega arith) in
    rw (receive-requests max_slots (to_config (1 ∷ bytes) ∷ value_writes later) [], test)
      (handle_values-backend (λ t. t) p padding max_slots later
          (handle (λ t. t) p padding (config_write (take 5 bytes)) s)
        ∙ (tell-keeps (0, 0) (set_param (λ t. t) p (some (take 5 bytes)) padding s.backend).1
            (record s {
              backend = (set_param (λ t. t) p (some (take 5 bytes)) padding s.backend).2;
              told = s.told ++ (set_param (λ t. t) p (some (take 5 bytes)) padding s.backend).1;
            })).2
        ∙ ap (λ l. (set_param (λ t. t) p (some l) padding s.backend).2) whole)

-- The five bytes that a client wrote to the characteristic of the configuration, behind a 1, are what `get` of the
-- parameter returns when the task has served that write, whatever values are written after it: if no other task
-- writes the parameter, and under the conditions of a parameter's round trip.
pub config_write-get :
    (others : Backend → Backend) (f : FlashRecord) (p : Param) (max_slots : ℕ)
    (bytes padding : List ℕ) (later : List (List ℕ)) (s : State)
    → length bytes ≡ 5
    → p.sizeof_value ≡ 5
    → length padding ≡ padding_size p.sizeof_value
    → IsSafe s.backend
    → HasSize (s.backend.cache (id_to_index p.idn)) (value_size p.sizeof_value)
    → let ws = to_config (1 ∷ bytes) ∷ value_writes later in
      let b = (handle_all (λ t. t) p padding (receive max_slots ws []) s).backend in
      get others f p (some 0) b ≡ (success, some bytes, b)
config_write-get others f p max_slots bytes padding later s lb lp lpad safe fixed =
    rw (config_write-backend p max_slots bytes padding later s lb)
      (get-set_param others f p bytes padding s.backend (lb ∙ sym lp) lpad safe fixed)
