-- ===== src/Common/Codes.antt =====
-- `ret_code_t`: the codes that the library itself returns (include/def/errors.def and those of the
-- SDK that it names), and `other` for any further code of the SDK.
use Prim.Native.Nat.{ℕ}
use mathlib.Core.Path.{◌≡◌, refl}
use mathlib.Core.Logic.{◌≢◌}
use native.Mathlib.Decide.{ℕ_discrete}
use mathlib.Core.Bool.{Bool, true, false}

pub data Status : Type 0 where
  success no_mem invalid_length null internal busy invalid_state resources : Status
  no_buffer usercode_not_available wrong_version unreachable : Status
  usercode_invalid_magic usercode_invalid_version usercode_missing_crc : Status
  usercode_invalid_crc usercode_invalid_arch : Status
  fds_not_found fds_no_space_in_flash : Status
  other : ℕ → Status

-- `ret == NRF_SUCCESS`
abbrev pub is_success : Status → Bool
is_success success = true
is_success no_mem = false
is_success _ = false

-- `ret == FDS_ERR_NOT_FOUND`
abbrev pub is_not_found : Status → Bool
is_not_found fds_not_found = true
is_not_found success = false
is_not_found _ = false

-- `VERIFY_SUCCESS(ret)`: go on after success, and return any other code.
abbrev pub verify_success {ℓ} : {A : Type ℓ} → Status → A → (Status → A) → A
verify_success success next fail = next
verify_success no_mem next fail = fail no_mem
verify_success s next fail = fail s

-- What holds of the way on after success and of every early return holds of the whole.
pub verify_success_elim {ℓ κ} :
    {A : Type ℓ} (P : A → Type κ) (s : Status) (next : A) (fail : Status → A)
    → P next
    → ((e : Status) → P (fail e))
    → P (verify_success s next fail)
verify_success_elim P success next fail h k = h
verify_success_elim P no_mem next fail h k = k no_mem
verify_success_elim P s next fail h k = k s

pub Status-discrete : Discrete Status
Status-discrete = hlevel (ℕ_discrete)

pub is_success-ne : (s : Status) → s ≢ success → is_success s ≡ false
is_success-ne success n = absurd (n refl)
is_success-ne no_mem n = refl
is_success-ne s n = refl

pub is_success→success : (s : Status) → is_success s ≡ true → s ≡ success
is_success→success success e = refl
is_success→success no_mem e = cc
is_success→success s e = cc

-- A chain of calls succeeds if each does.
pub verify_success-eq_success {ℓ} :
    {B : Type ℓ} (s : Status) (next : Status × B) (b : B)
    → (verify_success s next (λ e. (e, b))).0 ≡ success
    → (s ≡ success) × (next.0 ≡ success)
verify_success-eq_success success next b h = (refl, h)
verify_success-eq_success no_mem next b h = absurd (cc)
verify_success-eq_success s next b h = absurd (cc)
