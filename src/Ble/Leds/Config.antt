-- ===== src/Ble/Leds/Config.antt =====
-- Client writes to the three properties of an LED channel and the stored configuration: src/ble/led_impl.cc
-- and `handle_led_prop_write` of src/ble/led.cc.
use ledfw_lib.Common.{
  ℕ, ◌≤◌, ◌≡◌, true, false, Bool, not, ◌||◌, ◌&&◌, Bool-cases, inl, inr, List, [], ◌∷◌, ◌++◌, ltb,
  Status, success, is_success,
}
use native.Mathlib.Omega.{arith}
use Prim.{Unit}
use ledfw_lib.Userapp.Program.{WriteEvent}
use ledfw_lib.Ble.Leds.{
  RenderConfig, Prop, color_mode, num_leds, refresh_rate, Request, Context, queue_request,
  reject_write, byte, has_len, on_num_leds_write, on_refresh_rate_write, on_color_mode_write,
  with_prop, handle_request, handle_requests,
}

-- The limits of the configuration
pub record Limits : Type 0 where
  pub max_leds : ℕ
  pub minimum : ℕ
  pub maximum : ℕ

unfoldable pub IsInRange : Limits → Prop → ℕ → Type 0
IsInRange l color_mode v = v ≤ 2
IsInRange l num_leds v = v ≤ l.max_leds
IsInRange l refresh_rate v = (l.minimum ≤ v) × (v ≤ l.maximum)

pub record IsValid (l : Limits) (c : RenderConfig) : Type 0 where
  pub mode : IsInRange l color_mode c.color_mode
  pub leds : IsInRange l num_leds c.n_leds
  pub rate : IsInRange l refresh_rate c.refresh_msec

-- Each request that waits to be saved has a value within the limits.
unfoldable pub AreValid : Limits → List Request → Type 0
AreValid l [] = Unit
AreValid l (req ∷ rest) = (req.save ≡ true → IsInRange l req.type_of req.value) × AreValid l rest

AreValid-append :
    (l : Limits) (xs : List Request) (req : Request)
    → AreValid l xs
    → (req.save ≡ true → IsInRange l req.type_of req.value)
    → AreValid l (xs ++ (req ∷ []))
unfolding AreValid
AreValid-append l [] req v h = (h, record {})
AreValid-append l (x ∷ xs) req (w, v) h = (w, AreValid-append l xs req v h)

queue_request-AreValid :
    (l : Limits) (sent : Bool) (req : Request) (ctx : Context)
    → AreValid l ctx.requests
    → (req.save ≡ true → IsInRange l req.type_of req.value)
    → AreValid l (queue_request sent req ctx).requests
unfolding queue_request
queue_request-AreValid l true req ctx v h = AreValid-append l ctx.requests req v h
queue_request-AreValid l false req ctx v h = v

module _ (uint16_decode : ℕ → ℕ → ℕ) (l : Limits) (sent : Bool) where
  -- The write of a client to one of the three characteristics
  unfoldable pub on_write : Prop → WriteEvent → Context → Context
  on_write color_mode event ctx = on_color_mode_write uint16_decode sent event ctx
  on_write num_leds event ctx = on_num_leds_write uint16_decode sent l.max_leds event ctx
  on_write refresh_rate event ctx =
      on_refresh_rate_write uint16_decode sent l.minimum l.maximum event ctx

  reject-AreValid :
      (p : Prop) (ctx : Context)
      → AreValid l ctx.requests
      → AreValid l (reject_write sent p ctx).requests
  reject-AreValid p ctx v = queue_request-AreValid l sent _ ctx v (λ e. cc)

  -- Whatever a client writes, the requests that wait stay within the limits.
  pub on_write-AreValid :
      (p : Prop) (event : WriteEvent) (ctx : Context)
      → AreValid l ctx.requests
      → AreValid l (on_write p event ctx).requests
  unfolding on_write on_color_mode_write on_num_leds_write on_refresh_rate_write IsInRange
  on_write-AreValid color_mode event ctx v =
      elim (Bool-cases (not (has_len 1 event) || ltb 2 (byte event 0))) [
        | inl bad ↦ rw (bad) (reject-AreValid color_mode ctx v)
        | inr good ↦ rw (good) (queue_request-AreValid l sent _ _ v (λ e. ground arith))
      ]
  on_write-AreValid num_leds event ctx v =
      let value : ℕ = uint16_decode (byte event 0) (byte event 1) in
      elim (Bool-cases (has_len 2 event)) [
        | inr bad ↦ rw (bad) (reject-AreValid num_leds ctx v)
        | inl some_bytes ↦ elim (Bool-cases (ltb l.max_leds value)) [
          | inl over ↦ rw (some_bytes, over) (reject-AreValid num_leds ctx v)
          | inr fits ↦
              rw (some_bytes, fits) (queue_request-AreValid l sent _ _ v (λ e. ground arith))
        ]
      ]
  on_write-AreValid refresh_rate event ctx v =
      let value : ℕ = uint16_decode (byte event 0) (byte event 1) in
      elim (Bool-cases (not (has_len 2 event) || (ltb value l.minimum || ltb l.maximum value))) [
        | inl bad ↦ rw (bad) (reject-AreValid refresh_rate ctx v)
        | inr good ↦
            rw (good) (queue_request-AreValid l sent _ ctx v (λ e. (ground arith, ground arith)))
      ]

with_prop-IsValid :
    (l : Limits) (p : Prop) (v : ℕ) (c : RenderConfig)
    → IsValid l c
    → IsInRange l p v
    → IsValid l (with_prop p v c)
with_prop-IsValid l color_mode v c h r = record { mode = r; leds = h.leds; rate = h.rate }
with_prop-IsValid l num_leds v c h r = record { mode = h.mode; leds = r; rate = h.rate }
with_prop-IsValid l refresh_rate v c h r = record { mode = h.mode; leds = h.leds; rate = r }

-- A pass of the thread keeps the configuration within the limits, if the request is.
handle_request-IsValid :
    (l : Limits) (got stored : Status) (req : Request) (ctx : Context) (c : RenderConfig)
    → IsValid l c
    → (req.save ≡ true → IsInRange l req.type_of req.value)
    → IsValid l (handle_request got stored req (ctx, c)).1
unfolding handle_request
handle_request-IsValid l got stored req ctx c h r = elim (Bool-cases req.save) [
  | inr n ↦ rw (n) h
  | inl y ↦ elim (Bool-cases (is_success got && is_success stored)) [
    | inl z ↦ rw (y, z) (with_prop-IsValid l req.type_of req.value c h (r y))
    | inr z ↦ rw (y, z) h
  ]
]

pub handle_requests-IsValid :
    (l : Limits) (reqs : List Request) (ctx : Context) (c : RenderConfig)
    → IsValid l c
    → AreValid l reqs
    → IsValid l (handle_requests reqs (ctx, c)).1
unfolding AreValid handle_requests handle_request
handle_requests-IsValid l [] ctx c h v = h
handle_requests-IsValid l (req ∷ rest) ctx c h (r, v) =
    handle_requests-IsValid l rest _ _ (handle_request-IsValid l success success req ctx c h r) v

-- Several writes, the first first
abbrev pub deliver :
    (uint16_decode : ℕ → ℕ → ℕ) → Limits → List (Prop × WriteEvent) → Context → Context
deliver uint16_decode l [] ctx = ctx
deliver uint16_decode l ((p, event) ∷ rest) ctx =
    deliver uint16_decode l rest (on_write uint16_decode l true p event ctx)

deliver-AreValid :
    (uint16_decode : ℕ → ℕ → ℕ) (l : Limits) (events : List (Prop × WriteEvent)) (ctx : Context)
    → AreValid l ctx.requests
    → AreValid l (deliver uint16_decode l events ctx).requests
deliver-AreValid uint16_decode l [] ctx v = v
deliver-AreValid uint16_decode l ((p, event) ∷ rest) ctx v =
    deliver-AreValid uint16_decode l rest (on_write uint16_decode l true p event ctx)
      (on_write-AreValid uint16_decode l true p event ctx v)

-- Whatever clients write to the three characteristics, malformed or out of range, when the thread has served
-- the requests the stored configuration is within the limits, if it was before and so is what waited.
pub client_writes-IsValid :
    (uint16_decode : ℕ → ℕ → ℕ) (l : Limits) (events : List (Prop × WriteEvent)) (ctx : Context)
    (c : RenderConfig)
    → IsValid l c
    → AreValid l ctx.requests
    → let ctx' = deliver uint16_decode l events ctx in
      IsValid l (handle_requests ctx'.requests (ctx', c)).1
client_writes-IsValid uint16_decode l events ctx c h v =
    let ctx' : Context = deliver uint16_decode l events ctx in
    handle_requests-IsValid l ctx'.requests ctx' c h (deliver-AreValid uint16_decode l events ctx v)
