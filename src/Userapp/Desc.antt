-- ===== src/Userapp/Desc.antt =====
-- The application descriptor of include/userapp/desc.hh and src/userapp/desc.cc.
--
-- A descriptor, a personality and a slot are each a pointer to 32-bit words, and here those words by
-- index. `MAX_USER_APP_PERSONALITIES` and `MAX_USER_APP_SLOTS` come from the application's build and
-- are the argument `max`.
pub mod Table
pub mod Full
use ledfw_lib.Common.{
  ℕ, zero, suc, ◌+◌, ◌/◌, ◌%◌, ◌^◌, Bool, true, false, ◌&&◌, ◌||◌, not, Option, none, some, ltb,
  leb, ◌==◌, if◌then◌else◌, bit_and, Status, success, unreachable, usercode_invalid_magic,
  usercode_invalid_version, usercode_invalid_arch, verify_success, add_size,
}

abbrev pub Words : Type 0
Words = ℕ → ℕ

abbrev pub usercode_start_addr : ℕ
usercode_start_addr = 0x2003f000

abbrev pub usercode_size : ℕ
usercode_size = 0x1000

abbrev pub usercode_magic : ℕ
usercode_magic = 0x00041198

abbrev pub usercode_version_min : ℕ
usercode_version_min = 0x00010000

abbrev pub usercode_version_max : ℕ
usercode_version_max = 0x0001ffff

abbrev pub usercode_arch_cpu : ℕ
usercode_arch_cpu = 4

abbrev pub usercode_arch_flags_mask : ℕ
usercode_arch_flags_mask = 0xfffe

-- `dmx_slot::type`, `id` and `value`: fields of the word `buffer[1]`
unfoldable pub slot_type : Words → ℕ
slot_type buffer = buffer 1 % 2 ^ 8

unfoldable pub slot_id : Words → ℕ
slot_id buffer = buffer 1 / 2 ^ 8 % 2 ^ 16

unfoldable pub slot_value : Words → ℕ
slot_value buffer = buffer 1 / 2 ^ 24 % 2 ^ 8

-- `name()` of a slot and of a personality: the address of a text inside the user code, or null
unfoldable pub name : Words → Option ℕ
name buffer =
    if leb usercode_start_addr (buffer 0) && ltb (buffer 0) (usercode_start_addr + usercode_size)
    then some (buffer 0)
    else none

-- `for (result = 0; result <= max && buffer[result + offset]; ++result);` The rounds that `result <= max`
-- still allows are counted down, so the loop ends by itself.
unfoldable pub count_loop : Words → (offset rounds result : ℕ) → ℕ
count_loop buffer offset zero result = result
count_loop buffer offset (suc rounds) result =
    let rest = count_loop buffer offset rounds (suc result) in
    if buffer (result + offset) == 0 then result else rest

unfoldable pub count_entries : ℕ → Words → ℕ → ℕ
count_entries max buffer offset =
    let result = count_loop buffer offset (suc max) 0 in if ltb max result then 0 else result

-- `dmx_pers::n_dmx_slots`
unfoldable pub n_dmx_slots : ℕ → Words → ℕ
unfolding count_entries
n_dmx_slots max buffer = count_entries max buffer 1

-- `desc::n_dmx_pers`
unfoldable pub n_dmx_pers : ℕ → Words → ℕ
unfolding count_entries
n_dmx_pers max buffer = count_entries max buffer 8

-- `magic_number`, `version` and `architecture`: the status, with the word that is written back
unfoldable pub magic_number : Words → Status × ℕ
magic_number buffer =
    (if buffer 0 == usercode_magic then success else usercode_invalid_magic, buffer 0)

unfoldable pub version : Words → Status × ℕ
version buffer = (
  if ltb (buffer 1) usercode_version_min || ltb usercode_version_max (buffer 1)
      then usercode_invalid_version
      else success,
  buffer 1,
)

unfoldable pub architecture : Words → Status × ℕ
architecture buffer =
    let cpu = buffer 7 % 2 ^ 16 in
    let flags = buffer 7 / 2 ^ 16 % 2 ^ 16 in
    (
      if not (cpu == usercode_arch_cpu)
          then usercode_invalid_arch
          else if not (bit_and flags usercode_arch_flags_mask == 0)
          then usercode_invalid_arch
          else success,
      buffer 7,
    )

pub record DescTbl : Type 0 where
  pub magic : ℕ
  pub version : ℕ
  pub init : ℕ
  pub refresh : ℕ
  pub provider_name : ℕ
  pub app_name : ℕ
  pub app_id : ℕ

-- The end of `full_desc`, for a checked version `ver`.
unfoldable pub fill_tbl : Words → ℕ → DescTbl → Status × DescTbl
fill_tbl buffer ver tbl =
    if ver / 2 ^ 16 == 1
    then (
      success,
      record tbl {
        init = buffer 2;
        refresh = buffer 3;
        app_name = buffer 4;
        provider_name = buffer 5;
        app_id = buffer 6;
      },
    )
    else (unreachable, tbl)

-- `desc::full_desc`. `unreachable` is the call of the error handler by `unreachable()`.
unfoldable pub full_desc : Words → DescTbl → Status × DescTbl
full_desc buffer tbl =
    let (ret, magic) = magic_number buffer in
    let tbl₁ : DescTbl = record tbl { magic = magic } in
    let (ret₂, ver) = version buffer in
    let tbl₂ : DescTbl = record tbl₁ { version = ver } in
    let (ret₃, arch) = architecture buffer in
    verify_success ret
      (verify_success ret₂ (verify_success ret₃ (fill_tbl buffer ver tbl₂) (λ s. (s, tbl₂)))
        (λ s. (s, tbl₂)))
      (λ s. (s, tbl₁))
