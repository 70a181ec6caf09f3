-- ===== src/Cfg/Param.antt =====
-- `cfg::param<T>` of include/cfg.hh and `cfg::param_value<T>` of include/cfg/types.hh.
--
-- A value is the list of the `sizeof(T)` bytes that it has in memory, on a little-endian processor; `size_t` has four
-- bytes. A pointer argument is `none` for null.
pub mod RoundTrip
use ledfw_lib.Common.{
  ℕ, ◌+◌, ◌-◌, ◌*◌, ◌/◌, ◌%◌, Option, none, some, List, [], ◌∷◌, ◌++◌, ◌==◌, if◌then◌else◌, length,
  get_or, take, drop, replicate, Status, success, null, wrong_version, verify_success,
}
use ledfw_lib.Cfg.Ids.{ParamId}
use ledfw_lib.Cfg.Cache
use ledfw_lib.Cfg.Cache.{Backend, FlashRecord, Call, overwrite}

pub record Param : Type 0 where
  pub idn : ParamId
  pub version : ℕ
  pub sizeof_value : ℕ

-- the length of `_padding_`
unfoldable pub padding_size : (sizeof_value : ℕ) → ℕ
padding_size n = 4 - 1 - (n + 1) % 4

-- `sizeof(param_value<T>)`
unfoldable pub value_size : (sizeof_value : ℕ) → ℕ
value_size n = 2 + n + padding_size n

-- `param_value(t, ver)` in memory. Its constructor leaves the padding as it is, `padding`.
unfoldable pub param_value : (version : ℕ) → (value padding : List ℕ) → List ℕ
param_value version value padding = version % 256 ∷ version / 256 ∷ (value ++ padding)

-- `param::get`
unfoldable pub get :
    (Backend → Backend)
    → FlashRecord
    → Param
    → (wanted : Option ℕ) → Backend
    → Status × Option (List ℕ) × Backend
get others f p none s = (null, none, s)
get others f p (some _) s =
    let size = value_size p.sizeof_value in
    let got = Cache.read others f s p.idn size in
    let bytes = overwrite (replicate size 0) got.1 in
    verify_success got.0
      (if get_or bytes 0 0 + 256 * get_or bytes 1 0 == p.version
        then (success, some (take p.sizeof_value (drop 2 bytes)), got.2)
        else (wrong_version, none, got.2))
      (λ e. (e, none, got.2))

-- `param::set`
unfoldable pub set_param :
    (Backend → Backend)
    → Param
    → (value : Option (List ℕ)) → (padding : List ℕ) → Backend
    → Status × List Call × Backend
set_param others p none padding s = (null, [], s)
set_param others p (some v) padding s = Cache.write others s p.idn (param_value p.version v padding)
