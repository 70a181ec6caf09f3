-- ===== src/Ble/Info/Published.antt =====
-- What clients are told, up to the first error.
use ledfw_lib.Common.{
  ℕ, ◌%◌, ◌≡◌, ◌≢◌, refl, sym, ap, ◌∙◌, Option, none, some, List, [], ◌∷◌, ◌++◌, append_assoc,
  append-nil, length, tabulate, length-tabulate, Status, no_mem, success,
}
use ledfw_lib.Ble.Chars.{UserappChar, info, app_name, app_provider, dmx_info}
use ledfw_lib.Dmx.{DmxConfig}
use ledfw_lib.Userapp.Desc.{full_desc, n_dmx_pers}
use ledfw_lib.Userapp.Upload.{AppState, empty_tbl}
use ledfw_lib.Userapp.Flash.{StorageState}
use ledfw_lib.Userapp.Explorer.{Ram, text_at, strnlen, descriptor}
use ledfw_lib.Userapp.Explorer.Read.{text_of, tabulate-strnlen}
use ledfw_lib.Ble.Info.{
  app_state_code, storage_state_code, Attempt, set_to, sent, Attempts, and_then, Sdk, pointer,
  publish, send_partial_state, set_name, n_slots_of, send_dmx_info, update_app_info, send_state,
}

-- The calls made are a first part of `full`, and all of it where they succeed.
pub record Reaches (full : List Attempt) (r : Attempts) : Type 0 where
  pub rest : List Attempt
  pub split : full ≡ r.1 ++ rest
  pub whole : r.0 ≡ success → rest ≡ []

abbrev reaches_all : (full : List Attempt) (s : Status) → Reaches full (s, full)
reaches_all full s = record { rest = []; split = sym (append-nil full); whole = λ e. refl }

-- A call that fails ends the rest.
failed-Reaches :
    (s : Status) (l xs ys : List Attempt)
    → s ≢ success
    → Reaches xs (s, l)
    → Reaches (xs ++ ys) (s, l)
failed-Reaches s l xs ys bad a = record {
  rest = a.rest ++ ys;
  split = ap (λ k. k ++ ys) a.split ∙ append_assoc l a.rest ys;
  whole = λ e. absurd (bad e);
}

and_then-Reaches :
    (s : Status) (l : List Attempt) (next : Attempts) (xs ys : List Attempt)
    → Reaches xs (s, l)
    → Reaches ys next
    → Reaches (xs ++ ys) (and_then (s, l) next)
unfolding and_then
and_then-Reaches success l next xs ys a b = record {
  rest = b.rest;
  split =
      ap (λ k. k ++ ys) (a.split ∙ ap (λ k. l ++ k) (a.whole refl) ∙ append-nil l)
      ∙ ap (λ k. l ++ k) b.split
      ∙ sym (append_assoc l next.1 b.rest);
  whole = b.whole;
}
and_then-Reaches no_mem l next xs ys a b = failed-Reaches no_mem l xs ys (λ e. cc) a
and_then-Reaches s l next xs ys a b = failed-Reaches s l xs ys (λ e. cc) a

-- Setting a value and sending it
abbrev pub told : UserappChar → Option (List ℕ) → List Attempt
told c none = set_to c none 0 ∷ sent c none 0 ∷ []
told c (some bytes) = set_to c (some bytes) (length bytes) ∷ sent c (some bytes) (length bytes) ∷ []

module _ (sdk : Sdk) (ram : Ram) where
  publish-Reaches :
      (c : UserappChar) (value : Option (List ℕ)) (len : ℕ)
      → Reaches (set_to c value len ∷ sent c value len ∷ []) (publish sdk ram c value len)
  unfolding publish
  publish-Reaches c value len =
      and_then-Reaches _ (set_to c value len ∷ []) _ (set_to c value len ∷ [])
        (sent c value len ∷ []) (reaches_all _ _) (reaches_all _ _)

  -- The text at an address, as far as its characteristic has room, and no value for a null pointer
  unfoldable pub text_value : (max_len : ℕ) → (text : Option ℕ) → Option (List ℕ)
  text_value max_len none = none
  text_value max_len (some p) = some (text_of (text_at ram p) max_len)

  set_name-Reaches :
      (c : UserappChar) (max_len : ℕ) (text : Option ℕ)
      → Reaches (told c (text_value max_len text)) (set_name sdk ram c max_len text)
  unfolding set_name text_value
  set_name-Reaches c max_len none = publish-Reaches c none 0
  set_name-Reaches c max_len (some p) =
      let text : List ℕ = text_of (text_at ram p) max_len in
      let len : ℕ = strnlen (text_at ram p) max_len in
      let same : tabulate len (text_at ram p) ≡ text = tabulate-strnlen (text_at ram p) max_len in
      let n : len ≡ length text =
        sym (length-tabulate len (text_at ram p)) ∙ ap (λ l. length l) same in
      rw (same, n) (publish-Reaches c (some text) (length text))

  module _ (name_len provider_len max_pers max_slots : ℕ) where
    -- What clients should be told: the state, the two names of the application, and the personalities with the
    -- number of slots of the current one
    abbrev pub state_value : AppState → StorageState → List ℕ
    state_value appst storst =
        let mask = sdk.uint16_encode 0xfffe in
        let required = sdk.uint16_encode 0 in
        1
        ∷ app_state_code appst
        ∷ storage_state_code storst
        ∷ 4
        ∷ mask.0
        ∷ mask.1
        ∷ required.0
        ∷ required.1
        ∷ []

    abbrev pub dmx_value : DmxConfig → List ℕ
    dmx_value config =
        1
        ∷ (n_dmx_pers max_pers (descriptor ram) % 256)
        ∷ config.personality
        ∷ (n_slots_of sdk ram name_len provider_len max_pers max_slots config % 256)
        ∷ []

    abbrev pub app_name_value : Option (List ℕ)
    app_name_value = text_value name_len (pointer (full_desc (descriptor ram) empty_tbl).1.app_name)

    abbrev pub provider_value : Option (List ℕ)
    provider_value =
        text_value provider_len (pointer (full_desc (descriptor ram) empty_tbl).1.provider_name)

    abbrev pub full_state : DmxConfig → AppState → StorageState → List Attempt
    full_state config appst storst =
        told info (some (state_value appst storst))
        ++ (told app_name app_name_value
            ++ (told app_provider provider_value ++ told dmx_info (some (dmx_value config))))

    -- `send_state` sets and sends, in this order, the state, the name of the application, that of its provider and
    -- the personalities; each text ends at its first zero or at the length of its characteristic. It makes all these
    -- calls if it reports success, and else a first part of them.
    pub send_state-Reaches :
        (got : Status × DmxConfig) (appst : AppState) (storst : StorageState)
        → Reaches
            (full_state got.1 appst storst)
            (send_state sdk ram name_len provider_len max_pers max_slots got appst storst)
    unfolding send_state update_app_info send_partial_state send_dmx_info
    send_state-Reaches got appst storst =
        let found = full_desc (descriptor ram) empty_tbl in
        let d : List Attempt = told dmx_info (some (dmx_value got.1)) in
        let p : List Attempt = told app_provider provider_value in
        let n : List Attempt = told app_name app_name_value in
        and_then-Reaches got.0 [] _ [] (full_state got.1 appst storst) (reaches_all [] got.0) (
          and_then-Reaches _ _ _ (told info (some (state_value appst storst))) (n ++ (p ++ d))
            (publish-Reaches info (some (state_value appst storst)) 8)
            (and_then-Reaches found.0 [] _ [] (n ++ (p ++ d)) (reaches_all [] found.0) (
              and_then-Reaches _ _ _ n (p ++ d)
                (set_name-Reaches app_name name_len (pointer found.1.app_name))
                (and_then-Reaches _ _ _ p d
                  (set_name-Reaches app_provider provider_len (pointer found.1.provider_name))
                  (publish-Reaches dmx_info (some (dmx_value got.1)) 4)))))
