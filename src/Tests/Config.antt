-- ===== src/Tests/Config.antt =====
-- The configuration cache.
use ledfw_lib.Common.{ℕ, ◌≡◌, none, List, [], ◌∷◌, success}
use native.Mathlib.Omega.{arith}
use ledfw_lib.Cfg.Ids.{dmx_channel}
use ledfw_lib.Cfg.Cache.{Backend, initial, FlashRecord, read, write}
use ledfw_lib.Cfg.Safe.{IsSafe, initial-IsSafe, write-IsSafe}
use ledfw_lib.Cfg.ReadWrite.{read-write}
use ledfw_lib.Cfg.Param.{Param}

-- The version and two bytes
abbrev value : List ℕ
value = 1 ∷ 0 ∷ 7 ∷ 9 ∷ []

abbrev stored : FlashRecord
stored = record { find = success; open_status = success; close = success; bytes = value }

read-write_example :
    read (λ t. t) stored (write (λ t. t) initial dmx_channel value).2 dmx_channel 3
    ≡ (success, 1 ∷ 0 ∷ 7 ∷ [], (write (λ t. t) initial dmx_channel value).2)
read-write_example =
    read-write stored (λ t. t) initial dmx_channel value 3 initial-IsSafe
      (λ e. absurd (omega (arith, e)))

write-IsSafe_example : IsSafe (write (λ t. t) initial dmx_channel value).2
write-IsSafe_example = write-IsSafe (λ t. t) initial dmx_channel value (λ t h. h) initial-IsSafe

abbrev subscribed : Backend
subscribed = record initial {
  cache = λ i. record {
    len = 0;
    alloc_length = 0;
    block = none;
    subs = record { context = 3; callback = 5 } ∷ [];
  };
}

-- `cfg::dmx::config`
abbrev dmx_param : Param
dmx_param = record { idn = dmx_channel; version = 1; sizeof_value = 5 }
