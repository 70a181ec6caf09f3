-- ===== src/Ble/Leds.antt =====
-- The service of one LED channel: src/ble/led.cc and src/ble/led_impl.cc.
--
-- A write event is `WriteEvent`. `uint16_decode` and the queue of FreeRTOS are parameters: `sent` says
-- whether a request was taken. MAX_LEDS_PER_THREAD and the limits of the refresh interval are arguments.
pub mod Control
pub mod Config
pub mod Render
use ledfw_lib.Common.{
  ℕ, zero, suc, ◌+◌, ◌-◌, ◌*◌, ◌/◌, ◌%◌, Bool, true, false, not, ◌&&◌, ◌||◌, Option, none, some,
  List, [], ◌∷◌, ◌++◌, ltb, ◌==◌, if◌then◌else◌, length, get_or, set, replicate, Status, success,
  is_success,
}
use ledfw_lib.Userapp.Program.{WriteEvent}

-- `cfg::led_render_t`
pub record RenderConfig : Type 0 where
  pub n_leds : ℕ
  pub refresh_msec : ℕ
  pub color_mode : ℕ

-- `handle_write_data`: the type with its value, which is kept if `save` is set.
pub data Prop : Type 0 where
  color_mode num_leds refresh_rate : Prop

pub record Request : Type 0 where
  pub type_of : Prop
  pub value : ℕ
  pub save : Bool

-- `service_context`, the requests that wait in the queue, and the texts and notifications sent.
pub record Context : Type 0 where
  pub buf_num_leds : List ℕ
  pub buf_color_mode : List ℕ
  pub buf_refresh_rate : List ℕ
  pub reset_strip : Bool
  pub seqwrite_offset : ℕ
  pub user_buffer : List ℕ
  pub requests : List Request
  pub notified : List (Prop × List ℕ)

-- `uint16_encode` of the SDK gives the two bytes of a number.
unfoldable pub init_render : (uint16_encode : ℕ → List ℕ) → RenderConfig → Context → Context
init_render uint16_encode config ctx = record ctx {
  buf_color_mode = config.color_mode ∷ [];
  buf_num_leds = uint16_encode config.n_leds;
  buf_refresh_rate = uint16_encode config.refresh_msec;
}

unfoldable pub reset : Context → Context
reset ctx = record ctx { reset_strip = true }

-- The six functions of `service_context` that queue a request. A rejected write carries no value.
unfoldable pub queue_request : (sent : Bool) → Request → Context → Context
queue_request sent req ctx =
    if sent then record ctx { requests = ctx.requests ++ (req ∷ []) } else ctx

abbrev pub reject_write : (sent : Bool) → Prop → Context → Context
reject_write sent p ctx = queue_request sent (record { type_of = p; value = 0; save = false }) ctx

abbrev pub accept_write : (sent : Bool) → Prop → ℕ → Context → Context
accept_write sent p value ctx =
    queue_request sent (record { type_of = p; value = value; save = true }) ctx

-- The value of a characteristic
abbrev pub buf_of : Prop → Context → List ℕ
buf_of color_mode ctx = ctx.buf_color_mode
buf_of num_leds ctx = ctx.buf_num_leds
buf_of refresh_rate ctx = ctx.buf_refresh_rate

abbrev pub send : Prop → Context → Context
send p ctx = record ctx { notified = ctx.notified ++ ((p, buf_of p ctx) ∷ []) }

abbrev pub has_len : ℕ → WriteEvent → Bool
has_len n event = event.len == n && elim event.data_bytes [ none ↦ false | some bytes ↦ true ]

abbrev pub byte : WriteEvent → ℕ → ℕ
byte event i = elim event.data_bytes [ none ↦ 0 | some bytes ↦ get_or bytes i 0 ]

module _ (uint16_decode : ℕ → ℕ → ℕ) (sent : Bool) where
  unfoldable pub on_num_leds_write : (max_leds : ℕ) → WriteEvent → Context → Context
  on_num_leds_write max_leds event ctx =
      let value = uint16_decode (byte event 0) (byte event 1) in
      if not (has_len 2 event)
      then reject_write sent num_leds ctx
      else (if ltb max_leds value
          then send num_leds (reject_write sent num_leds ctx)
          else accept_write sent num_leds value (record ctx { reset_strip = true }))

  unfoldable pub on_refresh_rate_write : (minimum maximum : ℕ) → WriteEvent → Context → Context
  on_refresh_rate_write minimum maximum event ctx =
      let value = uint16_decode (byte event 0) (byte event 1) in
      if not (has_len 2 event) || (ltb value minimum || ltb maximum value)
      then send refresh_rate (reject_write sent refresh_rate ctx)
      else accept_write sent refresh_rate value ctx

  unfoldable pub on_color_mode_write : WriteEvent → Context → Context
  on_color_mode_write event ctx =
      if not (has_len 1 event) || ltb 2 (byte event 0)
      then send color_mode (reject_write sent color_mode ctx)
      else accept_write sent color_mode (byte event 0) (record ctx { reset_strip = true })

-- Three stores into `user_buffer`, from `pos` on
abbrev pub set_led : List ℕ → ℕ → ℕ → ℕ → ℕ → List ℕ
set_led buffer pos a b c = set (set (set buffer pos a) (pos + 1) b) (pos + 2) c

-- The loop of a range of one colour; `size` is that of `user_buffer`.
unfoldable pub fill_range : (size len offset a b c : ℕ) → List ℕ → List ℕ
fill_range size zero offset a b c buffer = buffer
fill_range size (suc len) offset a b c buffer =
    let rest = fill_range size len (offset + 3) a b c in
    if ltb (offset + 2) size then rest (set_led buffer offset a b c) else buffer

-- The loop of a sequential write: the new offset and the buffer. Each pass reads three bytes, so that `len`
-- passes are enough.
unfoldable pub seq_write : (fuel max_leds len i offset : ℕ) (value : ℕ → ℕ) → List ℕ → ℕ × List ℕ
seq_write zero max_leds len i offset value buffer = (offset, buffer)
seq_write (suc fuel) max_leds len i offset value buffer =
    let led = set_led buffer (3 * offset) (value i) (value (i + 1)) (value (i + 2)) in
    let rest = seq_write fuel max_leds len (i + 3) (offset + 1) value in
    if ltb (i + 2) len && ltb offset max_leds then rest led else (offset, buffer)

unfoldable pub on_control_write :
    (uint16_decode : ℕ → ℕ → ℕ) (max_leds : ℕ) → WriteEvent → Context → Context
on_control_write uint16_decode max_leds event ctx =
    let size = 3 * max_leds in
    let command = byte event 0 in
    let number : ℕ → ℕ = λ i. uint16_decode (byte event i) (byte event (i + 1)) in
    let seq =
      seq_write event.len max_leds event.len 1 ctx.seqwrite_offset (byte event) ctx.user_buffer in
    let has : ℕ → Bool = λ n. has_len n event in
    if has 1 && command == 0
    then record ctx { user_buffer = replicate size 0; reset_strip = true }
    else (if has 8 && command == 1
        then record ctx {
          user_buffer =
              fill_range size (number 3) (3 * number 1) (byte event 5) (byte event 6) (byte event 7)
                ctx.user_buffer;
        }
        else (if has 3 && command == 0x10
            then record ctx { seqwrite_offset = number 1 }
            else (if ltb 1 event.len && has event.len && command == 0x11
                then record ctx { seqwrite_offset = seq.0; user_buffer = seq.1 }
                else ctx)))

-- The configuration with one field replaced
abbrev pub with_prop : Prop → ℕ → RenderConfig → RenderConfig
with_prop color_mode v c = record c { color_mode = v }
with_prop num_leds v c = record c { n_leds = v }
with_prop refresh_rate v c = record c { refresh_msec = v }

-- One pass of `handle_led_prop_write`: the notification, and the change of the stored configuration. `got`
-- and `stored` are the statuses of `config_param`'s `get` and `set`.
unfoldable pub handle_request :
    (got stored : Status) → Request → Context × RenderConfig → Context × RenderConfig
handle_request got stored req (ctx, config) = (
  send req.type_of ctx,
  if req.save && (is_success got && is_success stored)
      then with_prop req.type_of req.value config
      else config,
)

-- The thread serves what waits; no call of the configuration fails.
unfoldable pub handle_requests : List Request → Context × RenderConfig → Context × RenderConfig
handle_requests [] s = s
handle_requests (req ∷ rest) s = handle_requests rest (handle_request success success req s)
