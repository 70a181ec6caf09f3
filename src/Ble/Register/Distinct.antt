-- ===== src/Ble/Register/Distinct.antt =====
-- Handles are distinct, whatever inits are made.
use ledfw_lib.Common.{
  ℕ, ◌≤◌, ◌<◌, ◌≡◌, ◌≢◌, refl, sym, ◌∙◌, arith, Bool-cases, inl, inr, List, [], ◌∷◌, Status,
  success, is_success, is_success→success, verify_success_elim,
}
use mathlib.Core.Logic.{ite, if_pos, if_neg}
use ledfw_lib.Ble.Chars.{CharId, CharId-discrete, ServiceId, CharDef, Attr, set_gatts_attr_value}
use ledfw_lib.Ble.Register.{
  Server, is_initialized, init_service, add_characteristic, add_all, init_with, init, init_all,
  unregistered,
}

-- What the SoftDevice documents of the handles that it gives: each is above all that it gave before.
pub record GattsLaws (service_add : (last : ℕ) → ServiceId → Status × ℕ)
    (characteristic_add : (last service_handle : ℕ) → Attr → Status × ℕ) : Type 0 where
  pub service_above :
      (last : ℕ) (svc : ServiceId)
      → (service_add last svc).0 ≡ success
      → last < (service_add last svc).1
  pub characteristic_above :
      (last h : ℕ) (a : Attr)
      → (characteristic_add last h a).0 ≡ success
      → last < (characteristic_add last h a).1

module _ (invalid : ℕ) where
  -- Handles that were given are distinct, and none is above the last one.
  pub record IsDistinct (s : Server) : Type 0 where
    pub first : invalid ≤ s.last_handle
    pub bounded : (c : CharId) → s.value_handle c ≤ s.last_handle
    pub distinct :
        (c d : CharId) → c ≢ d → s.value_handle c ≢ invalid → s.value_handle c ≢ s.value_handle d

  pub unregistered-IsDistinct :
      (first : ℕ) → invalid ≤ first → IsDistinct (unregistered invalid first)
  unregistered-IsDistinct first h = record {
    first = h;
    bounded = λ c. h;
    distinct = λ c d ne valid. absurd (valid refl);
  }

  pub assign : CharId → ℕ → Server → Server
  assign c h s = record s {
    last_handle = h;
    value_handle = λ v. ite (CharId-discrete c v) h (s.value_handle v);
  }

  -- A characteristic that gets a handle above all others
  assign-IsDistinct :
      (c : CharId) (h : ℕ) (s : Server)
      → s.last_handle < h
      → IsDistinct s
      → IsDistinct (assign c h s)
  unfolding assign
  assign-IsDistinct c h s above v = record {
    first = omega (arith, v.first);
    bounded = λ d. elim (CharId-discrete c d) [
      | yes p ↦ rw (if_pos _ p) (omega arith)
      | no p ↦ rw (if_neg _ p) (omega (arith, v.bounded d))
    ];
    distinct = λ d e ne. elim (CharId-discrete c d) [
      | yes p ↦ rw (if_pos _ p) (elim (CharId-discrete c e) [
        | yes q ↦ absurd (ne (sym p ∙ q))
        | no q ↦ rw (if_neg _ q) (λ valid. omega (arith, v.bounded e))
      ])
      | no p ↦ rw (if_neg _ p) (elim (CharId-discrete c e) [
        | yes q ↦ rw (if_pos _ q) (λ valid. omega (arith, v.bounded d))
        | no q ↦ rw (if_neg _ q) (λ valid. v.distinct d e ne valid)
      ])
    ];
  }

  module _ (service_add : (last : ℕ) → ServiceId → Status × ℕ)
      (characteristic_add : (last service_handle : ℕ) → Attr → Status × ℕ)
      (laws : GattsLaws service_add characteristic_add) where
    abbrev pub Kept : Status × Server → Type 0
    Kept r = IsDistinct r.1

    pub init_service-IsDistinct :
        (svc : ServiceId) (s : Server)
        → IsDistinct s
        → Kept (init_service invalid service_add characteristic_add svc s)
    unfolding init_service
    init_service-IsDistinct svc s v =
        elim (Bool-cases (is_success (service_add s.last_handle svc).0)) [
          | inl ok ↦
              let above = laws.service_above s.last_handle svc (is_success→success _ ok) in
              rw ok (record {
                first = omega (arith, v.first);
                bounded = λ c. omega (arith, v.bounded c);
                distinct = v.distinct;
              })
          | inr bad ↦ rw bad v
        ]

    pub add_characteristic-IsDistinct :
        (svc : ServiceId) (cha : CharId × CharDef) (s : Server)
        → IsDistinct s
        → Kept (add_characteristic invalid service_add characteristic_add svc cha s)
    unfolding add_characteristic assign
    add_characteristic-IsDistinct svc (c, d) s v =
        let a = set_gatts_attr_value d in
        let h = s.service_handle svc in
        elim (Bool-cases (is_initialized invalid service_add characteristic_add svc s)) [
          | inl ready ↦ elim (Bool-cases (is_success (characteristic_add s.last_handle h a).0)) [
            | inl ok ↦
                rw (ready, ok)
                  (assign-IsDistinct c (characteristic_add s.last_handle h a).1 s
                    (laws.characteristic_above s.last_handle h a (is_success→success _ ok)) v)
            | inr bad ↦ rw (ready, bad) v
          ]
          | inr not_ready ↦ rw not_ready v
        ]

    pub add_all-IsDistinct :
        (svc : ServiceId) (chars : List (CharId × CharDef)) (s : Server)
        → IsDistinct s
        → Kept (add_all invalid service_add characteristic_add svc chars s)
    unfolding add_all
    add_all-IsDistinct svc [] s v = v
    add_all-IsDistinct svc (cha ∷ rest) s v =
        let added = add_characteristic invalid service_add characteristic_add svc cha s in
        let kept = add_characteristic-IsDistinct svc cha s v in
        verify_success_elim Kept added.0 _ (λ e. (e, added.1))
          (add_all-IsDistinct svc rest added.1 kept) (λ e. kept)

    pub init_with-IsDistinct :
        (end : Status) (svc : ServiceId) (chars : List (CharId × CharDef)) (s : Server)
        → IsDistinct s
        → Kept (init_with invalid service_add characteristic_add end svc chars s)
    unfolding init_with
    init_with-IsDistinct end svc chars s v =
        let added = init_service invalid service_add characteristic_add svc s in
        let kept = init_service-IsDistinct svc s v in
        elim (Bool-cases (is_initialized invalid service_add characteristic_add svc s)) [
          | inl ready ↦ rw ready v
          | inr fresh ↦ rw fresh (
              verify_success_elim Kept added.0 _ (λ e. (e, added.1))
                (let all = add_all invalid service_add characteristic_add svc chars added.1 in
                  let kept' = add_all-IsDistinct svc chars added.1 kept in
                  verify_success_elim Kept all.0 (end, all.1) (λ e. (e, all.1)) kept' (λ e. kept'))
                (λ e. kept))
        ]

    module _ (name_len provider_len max_slots config_size : ℕ) (dmx_end : Status)
        (led_end : ℕ → Status) where
      pub init-IsDistinct :
          (svc : ServiceId) (s : Server)
          → IsDistinct s
          → Kept (
              init invalid service_add characteristic_add name_len provider_len max_slots
                config_size dmx_end led_end svc s)
      unfolding init
      init-IsDistinct svc s v = init_with-IsDistinct _ svc _ s v

      pub init_all-IsDistinct :
          (svcs : List ServiceId) (s : Server)
          → IsDistinct s
          → IsDistinct (
              init_all invalid service_add characteristic_add name_len provider_len max_slots
                config_size dmx_end led_end svcs s)
      unfolding init_all
      init_all-IsDistinct [] s v = v
      init_all-IsDistinct (svc ∷ rest) s v = init_all-IsDistinct rest _ (init-IsDistinct svc s v)
