-- ===== src/Ble/Register/Again.antt =====
-- An init that is made again.
use ledfw_lib.Common.{
  ℕ, ◌≡◌, refl, ◌∙◌, arith, true, false, not, Bool-cases, inl, inr, List, [], ◌∷◌, ◌==◌, Status,
  success, verify_success_elim,
}
use mathlib.Core.Logic.{if_pos}
use ledfw_lib.Ble.Chars.{CharId, ServiceId-discrete, ServiceId, CharDef, Attr, set_gatts_attr_value}
use ledfw_lib.Ble.Register.{
  Server, is_initialized, init_service, add_characteristic, add_all, init_with, chars_of, end_of,
  init, init_all,
}
use ledfw_lib.Ble.Register.Distinct.{GattsLaws, IsDistinct}

module _ (invalid : ℕ) (service_add : (last : ℕ) → ServiceId → Status × ℕ)
    (characteristic_add : (last service_handle : ℕ) → Attr → Status × ℕ)
    (laws : GattsLaws service_add characteristic_add) where
  abbrev add : ServiceId → CharId × CharDef → Server → Status × Server
  add svc cha s = add_characteristic invalid service_add characteristic_add svc cha s

  abbrev add_many : ServiceId → List (CharId × CharDef) → Server → Status × Server
  add_many svc chars s = add_all invalid service_add characteristic_add svc chars s

  module _ (name_len provider_len max_slots config_size : ℕ) (dmx_end : Status)
      (led_end : ℕ → Status) where
    abbrev chars : ServiceId → List (CharId × CharDef)
    chars svc =
        chars_of invalid service_add characteristic_add name_len provider_len max_slots config_size
          dmx_end led_end svc

    abbrev initialize : ServiceId → Server → Status × Server
    initialize svc s =
        init invalid service_add characteristic_add name_len provider_len max_slots config_size
          dmx_end led_end svc s

    abbrev after : List ServiceId → Server → Server
    after svcs s =
        init_all invalid service_add characteristic_add name_len provider_len max_slots config_size
          dmx_end led_end svcs s

    initialized_lem :
        (svc : ServiceId) (t : Server)
        → is_initialized invalid service_add characteristic_add svc t ≡ true
        → initialize svc t ≡ (success, t)
    unfolding init init_with
    initialized_lem svc t ready = rw ready refl

    add-service_handle :
        (svc : ServiceId) (cha : CharId × CharDef) (s : Server)
        → (add svc cha s).1.service_handle svc ≡ s.service_handle svc
    unfolding add_characteristic
    add-service_handle svc (c, d) s = ground arith

    add_all-service_handle :
        (svc : ServiceId) (chars : List (CharId × CharDef)) (s : Server)
        → (add_many svc chars s).1.service_handle svc ≡ s.service_handle svc
    unfolding add_all
    add_all-service_handle svc [] s = refl
    add_all-service_handle svc (cha ∷ rest) s =
        let s' = add svc cha s in
        let same = add-service_handle svc cha s in
        verify_success_elim (λ r. r.1.service_handle svc ≡ s.service_handle svc) s'.0
          (add_many svc rest s'.1) (λ q. (q, s'.1)) (add_all-service_handle svc rest s'.1 ∙ same)
          (λ q. same)

    init_service-ready :
        (svc : ServiceId) (s : Server)
        → IsDistinct invalid s
        → (service_add s.last_handle svc).0 ≡ success
        → is_initialized invalid service_add characteristic_add svc
            (init_service invalid service_add characteristic_add svc s).1
          ≡ true
    unfolding init_service is_initialized
    init_service-ready svc s v registered =
        let above = laws.service_above s.last_handle svc registered in
        let h : ℕ = (service_add s.last_handle svc).1 in
        let given : not (h == invalid) ≡ true = ground (arith, above, v.first) in
        rw (registered, if_pos (ServiceId-discrete svc svc) refl) given

    -- An init that registers the service leaves it initialised.
    init-initialized :
        (svc : ServiceId) (s : Server)
        → IsDistinct invalid s
        → (service_add s.last_handle svc).0 ≡ success
        → is_initialized invalid service_add characteristic_add svc (initialize svc s).1 ≡ true
    unfolding init init_with init_service is_initialized
    init-initialized svc s v registered =
        let above = laws.service_above s.last_handle svc registered in
        let added = init_service invalid service_add characteristic_add svc s in
        let given : added.1.service_handle svc ≡ (service_add s.last_handle svc).1 =
          rw registered (rw (if_pos (ServiceId-discrete svc svc) refl) refl) in
        let all = add_all-service_handle svc (chars svc) added.1 in
        elim (Bool-cases (s.service_handle svc == invalid)) [
          | inl fresh ↦ rw (fresh, registered) (ground (arith, all, given, above, v.first))
          | inr ready ↦ rw (ready, ready) refl
        ]

    -- An init of a service that was not registered succeeds if the SoftDevice accepts all and the end of it succeeds.
    module _ (accepted : (last : ℕ) (svc : ServiceId) → (service_add last svc).0 ≡ success)
        (taken : (last h : ℕ) (a : Attr) → (characteristic_add last h a).0 ≡ success) where
      add_all-success :
          (svc : ServiceId) (chars : List (CharId × CharDef)) (s : Server)
          → is_initialized invalid service_add characteristic_add svc s ≡ true
          → (add_many svc chars s).0 ≡ success
      unfolding add_all
      add_all-success svc [] s ready = refl
      add_all-success svc ((c, d) ∷ rest) s ready =
          let s' = add svc (c, d) s in
          let good : s'.0 ≡ success =
            unfold add_characteristic in
            rw ready (taken s.last_handle (s.service_handle svc) (set_gatts_attr_value d)) in
          let ready' : is_initialized invalid service_add characteristic_add svc s'.1 ≡ true =
            unfold is_initialized in rw (add-service_handle svc (c, d) s) ready in
          rw good (add_all-success svc rest s'.1 ready')

      pub init-success :
          (svc : ServiceId) (s : Server)
          → IsDistinct invalid s
          → s.service_handle svc ≡ invalid
          → end_of invalid service_add characteristic_add name_len provider_len max_slots
              config_size dmx_end led_end svc
            ≡ success
          → (initialize svc s).0 ≡ success
      unfolding init init_with
      init-success svc s v fresh ends =
          let added = init_service invalid service_add characteristic_add svc s in
          let e : is_initialized invalid service_add characteristic_add svc s ≡ false =
            unfold is_initialized in ground (arith, fresh) in
          let good : added.0 ≡ success = unfold init_service in accepted s.last_handle svc in
          let all =
            add_all-success svc (chars svc) added.1
              (init_service-ready svc s v (accepted s.last_handle svc)) in
          rw (e, good, all) ends

    -- Once an init has registered its service, a later one reports success and changes nothing, also where the first
    -- one then failed at a characteristic.
    pub init_again :
        (svc : ServiceId) (s : Server)
        → IsDistinct invalid s
        → (service_add s.last_handle svc).0 ≡ success
        → initialize svc (initialize svc s).1 ≡ (success, (initialize svc s).1)
    init_again svc s v registered =
        initialized_lem svc (initialize svc s).1 (init-initialized svc s v registered)
