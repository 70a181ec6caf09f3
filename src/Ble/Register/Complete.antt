-- ===== src/Ble/Register/Complete.antt =====
-- All characteristics of a service have handles after an init that succeeds.
use ledfw_lib.Common.{
  ℕ, ◌<◌, ◌≡◌, refl, arith, false, not, Bool-cases, inl, inr, List, [], ◌∷◌, ◌==◌, Status, success,
  is_success, is_success→success, verify_success_elim, verify_success-eq_success,
}
use mathlib.Core.Logic.{if_pos, if_neg}
use ledfw_lib.Ble.Chars.{CharId, CharId-discrete, ServiceId, CharDef, Attr, set_gatts_attr_value}
use ledfw_lib.Ble.Register.{
  Server, is_initialized, init_service, add_characteristic, add_all, init_with, chars_of, end_of,
  init, init_all,
}
use ledfw_lib.Ble.Register.Distinct
use ledfw_lib.Ble.Register.Distinct.{
  GattsLaws, IsDistinct, init_service-IsDistinct, add_characteristic-IsDistinct, add_all-IsDistinct,
  unregistered-IsDistinct, init_all-IsDistinct,
}

module _ (invalid : ℕ) (service_add : (last : ℕ) → ServiceId → Status × ℕ)
    (characteristic_add : (last service_handle : ℕ) → Attr → Status × ℕ)
    (laws : GattsLaws service_add characteristic_add) where
  -- All characteristics of a list have handles.
  abbrev pub AllValid : List (CharId × CharDef) → Server → Type 0
  AllValid [] s = Unit {0}
  AllValid ((c, d) ∷ rest) s = (invalid < s.value_handle c) × AllValid rest s

  abbrev add : ServiceId → CharId × CharDef → Server → Status × Server
  add svc cha s = add_characteristic invalid service_add characteristic_add svc cha s

  abbrev add_many : ServiceId → List (CharId × CharDef) → Server → Status × Server
  add_many svc chars s = add_all invalid service_add characteristic_add svc chars s

  module _ (svc : ServiceId) where
    -- A characteristic that is added gets a handle, and no other one loses its own.
    add-valid :
        (c : CharId) (d : CharDef) (s : Server)
        → IsDistinct invalid s
        → (add svc (c, d) s).0 ≡ success
        → invalid < (add svc (c, d) s).1.value_handle c
    unfolding add_characteristic
    add-valid c d s v ok =
        let a = set_gatts_attr_value d in
        let h = s.service_handle svc in
        elim (Bool-cases (is_initialized invalid service_add characteristic_add svc s)) [
          | inl ready ↦
              let taken : (characteristic_add s.last_handle h a).0 ≡ success =
                ground (arith, ok, ready) in
              let above = laws.characteristic_above s.last_handle h a taken in
              rw (ready, taken) (rw (if_pos _ refl) (omega (arith, v.first)))
          | inr not_ready ↦ absurd (ground (arith, ok, not_ready))
        ]

    add-keeps :
        (cha : CharId × CharDef) (e : CharId) (s : Server)
        → IsDistinct invalid s
        → invalid < s.value_handle e
        → invalid < (add svc cha s).1.value_handle e
    unfolding add_characteristic
    add-keeps (c, d) e s v valid =
        let a = set_gatts_attr_value d in
        let h = s.service_handle svc in
        elim (Bool-cases (is_initialized invalid service_add characteristic_add svc s)) [
          | inl ready ↦ elim (Bool-cases (is_success (characteristic_add s.last_handle h a).0)) [
            | inl ok ↦
                let above = laws.characteristic_above s.last_handle h a (is_success→success _ ok) in
                elim (CharId-discrete c e) [
                  | yes p ↦ rw (ready, ok) (rw (if_pos _ p) (omega (arith, v.first)))
                  | no p ↦ rw (ready, ok) (rw (if_neg _ p) valid)
                ]
            | inr bad ↦ rw (ready, bad) valid
          ]
          | inr not_ready ↦ rw not_ready valid
        ]

    add_all-keeps :
        (chars : List (CharId × CharDef)) (e : CharId) (s : Server)
        → IsDistinct invalid s
        → invalid < s.value_handle e
        → invalid < (add_many svc chars s).1.value_handle e
    unfolding add_all
    add_all-keeps [] e s v valid = valid
    add_all-keeps (cha ∷ rest) e s v valid =
        let s' = add svc cha s in
        let kept = add-keeps cha e s v valid in
        let v' =
          add_characteristic-IsDistinct invalid service_add characteristic_add laws svc cha s v in
        verify_success_elim (λ (r : Status × Server). invalid < r.1.value_handle e) s'.0
          (add_many svc rest s'.1) (λ q. (q, s'.1)) (add_all-keeps rest e s'.1 v' kept) (λ q. kept)

    add_all-valid :
        (chars : List (CharId × CharDef)) (s : Server)
        → IsDistinct invalid s
        → (add_many svc chars s).0 ≡ success
        → AllValid chars (add_many svc chars s).1
    unfolding add_all
    add_all-valid [] s v ok = tt
    add_all-valid ((c, d) ∷ rest) s v ok =
        let s' = add svc (c, d) s in
        let v' =
          add_characteristic-IsDistinct invalid service_add characteristic_add laws svc (c, d) s
            v in
        let both = verify_success-eq_success s'.0 (add_many svc rest s'.1) s'.1 ok in
        rw (both.0) (
          add_all-keeps rest c s'.1 v' (add-valid c d s v both.0),
          add_all-valid rest s'.1 v' both.1,
        )

  module _ (name_len provider_len max_slots config_size : ℕ) (dmx_end : Status)
      (led_end : ℕ → Status) where
    abbrev chars : ServiceId → List (CharId × CharDef)
    chars svc =
        chars_of invalid service_add characteristic_add name_len provider_len max_slots config_size
          dmx_end led_end svc

    abbrev initialize : ServiceId → Server → Status × Server
    initialize svc s =
        init invalid service_add characteristic_add name_len provider_len max_slots config_size
          dmx_end led_end svc s

    abbrev after : List ServiceId → Server → Server
    after svcs s =
        init_all invalid service_add characteristic_add name_len provider_len max_slots config_size
          dmx_end led_end svcs s

    pub init-IsDistinct :
        (svc : ServiceId) (s : Server)
        → IsDistinct invalid s
        → IsDistinct invalid (initialize svc s).1
    init-IsDistinct svc s v =
        Distinct.init-IsDistinct invalid service_add characteristic_add laws name_len provider_len
          max_slots config_size dmx_end led_end svc s v

    init-keeps :
        (svc : ServiceId) (e : CharId) (s : Server)
        → IsDistinct invalid s
        → invalid < s.value_handle e
        → invalid < (initialize svc s).1.value_handle e
    unfolding init init_with init_service
    init-keeps svc e s v valid =
        let added = init_service invalid service_add characteristic_add svc s in
        let v' = init_service-IsDistinct invalid service_add characteristic_add laws svc s v in
        let kept : invalid < added.1.value_handle e = ground (arith, valid) in
        elim (Bool-cases (is_initialized invalid service_add characteristic_add svc s)) [
          | inl ready ↦ rw ready valid
          | inr fresh ↦ rw fresh (
              verify_success_elim (λ (r : Status × Server). invalid < r.1.value_handle e) added.0 _
                (λ q. (q, added.1))
                (let all = add_many svc (chars svc) added.1 in
                  let kept' = add_all-keeps svc (chars svc) e added.1 v' kept in
                  verify_success_elim (λ (r : Status × Server). invalid < r.1.value_handle e) all.0
                    (
                      end_of invalid service_add characteristic_add name_len provider_len max_slots
                          config_size dmx_end led_end svc,
                      all.1,
                    )
                    (λ q. (q, all.1)) kept' (λ q. kept'))
                (λ q. kept))
        ]

    -- A service that was not registered and whose init succeeds has all its characteristics, each with a handle.
    pub init-AllValid :
        (svc : ServiceId) (s : Server)
        → IsDistinct invalid s
        → s.service_handle svc ≡ invalid
        → (initialize svc s).0 ≡ success
        → AllValid (chars svc) (initialize svc s).1
    unfolding init init_with is_initialized
    init-AllValid svc s v fresh ok =
        let added = init_service invalid service_add characteristic_add svc s in
        let v' = init_service-IsDistinct invalid service_add characteristic_add laws svc s v in
        let e : not (s.service_handle svc == invalid) ≡ false = ground (arith, fresh) in
        let ok' = rw e at ok in
        let all = add_many svc (chars svc) added.1 in
        let both = verify_success-eq_success added.0 _ added.1 ok' in
        let ended = verify_success-eq_success all.0 _ all.1 both.1 in
        rw (e, both.0, ended.0) (add_all-valid svc (chars svc) added.1 v' ended.0)

    pub init_all-keeps :
        (later : List ServiceId) (e : CharId) (s : Server)
        → IsDistinct invalid s
        → invalid < s.value_handle e
        → invalid < (after later s).value_handle e
    unfolding init_all init init_with init_service
    init_all-keeps [] e s v valid = valid
    init_all-keeps (svc ∷ rest) e s v valid =
        let next = initialize svc s in
        init_all-keeps rest e next.1 (init-IsDistinct svc s v) (init-keeps svc e s v valid)
