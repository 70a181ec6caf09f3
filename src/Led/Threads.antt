-- ===== src/Led/Threads.antt =====
-- The table of LED threads: `thread::init` and `led::resume_all` of src/led/thread.cc.
pub mod Table
use ledfw_lib.Common.{
  ℕ, zero, suc, ◌-◌, Bool, true, false, Option, none, some, List, [], ◌∷◌, ltb, if◌then◌else◌,
  length, get_or, set, replicate, Status, success, no_mem, invalid_state,
}

-- `m_n_led_threads` and `m_led_threads`, of `MAX_LED_CHANNELS` handles.
pub record Threads : Type 0 where
  pub n_led_threads : ℕ
  pub led_threads : List (Option ℕ)

unfoldable pub initial : (max_led_channels : ℕ) → Threads
initial max_led_channels = record {
  n_led_threads = 0;
  led_threads = replicate max_led_channels none;
}

-- `thread::init`. `created` is the handle that `xTaskCreate` gives, `none` if it fails. The count grows
-- on every path.
unfoldable pub init : (max_led_channels : ℕ) → (created : Option ℕ) → Threads → Status × Threads
init max_led_channels created t =
    let n = suc t.n_led_threads in
    if ltb max_led_channels n then (invalid_state, record t { n_led_threads = n }) else (
      elim created [ none ↦ no_mem | some h ↦ success ],
      record { n_led_threads = n; led_threads = set t.led_threads (n - 1) created },
    )

-- The loop of `resume_all` from index `i`: the handles that are resumed.
unfoldable pub resume_from : List (Option ℕ) → ℕ → ℕ → Option (List (Option ℕ))
resume_from threads zero i = some []
resume_from threads (suc n) i =
    let rest = resume_from threads n (suc i) in
    if ltb i (length threads)
    then elim rest [ none ↦ none | some hs ↦ some (get_or threads i none ∷ hs) ]
    else none

unfoldable pub resume_all : Threads → Option (List (Option ℕ))
resume_all t = resume_from t.led_threads t.n_led_threads 0
