-- ===== src/Userapp/Flash/Laws.antt =====
-- What the code of src/core/userapp.cc relies on in FDS and in `VERIFY_SUCCESS2`.
use ledfw_lib.Common.{ℕ, ◌≡◌, ◌≢◌, Option, none, some, Status, success, fds_not_found}
use ledfw_lib.Userapp.Flash.{FlashRecord, Fds, Outcome}

-- FDS is a map from keys to records: an operation that is queued and whose event reports success has the effect that
-- its name says, a call that fails leaves the map, and reading does not fail. Of an operation that is queued
-- and fails later nothing is said but that it leaves the other records.
pub record FdsLaws {Flash Desc : Type 0} (fds : Fds Flash Desc) : Type 0 where
  pub lookup : Flash → ℕ → Option FlashRecord
  pub found :
      (f : Flash) (k : ℕ) (r : FlashRecord)
      → lookup f k ≡ some r
      → ((fds.find f k).0 ≡ success)
        × (fds.open_record f (fds.find f k).1 ≡ (success, r))
        × (fds.close_record f (fds.find f k).1 ≡ success)
  pub missing : (f : Flash) (k : ℕ) → lookup f k ≡ none → (fds.find f k).0 ≡ fds_not_found
  pub file_found :
      (f : Flash) (k : ℕ) (r : FlashRecord) → lookup f k ≡ some r → fds.find_in_file f ≡ success
  pub written :
      (f : Flash) (k : ℕ) (r : FlashRecord)
      → lookup f k ≡ none
      → (fds.write_record f k r).0 ≡ success
      → fds.write_result f k r ≡ success
      → lookup (fds.write_record f k r).1 k ≡ some r
  pub write_failed :
      (f : Flash) (k : ℕ) (r : FlashRecord)
      → (fds.write_record f k r).0 ≢ success
      → lookup (fds.write_record f k r).1 k ≡ lookup f k
  pub write_others :
      (f : Flash) (k j : ℕ) (r : FlashRecord)
      → j ≢ k
      → lookup (fds.write_record f k r).1 j ≡ lookup f j
  pub updated :
      (f : Flash) (k : ℕ) (old r : FlashRecord)
      → lookup f k ≡ some old
      → let updated = fds.update_record f (fds.find f k).1 k r in
        updated.0 ≡ success
        → fds.update_result f (fds.find f k).1 k r ≡ success
        → lookup updated.1 k ≡ some r
  pub update_failed :
      (f : Flash) (k : ℕ) (r : FlashRecord)
      → let updated = fds.update_record f (fds.find f k).1 k r in
        updated.0 ≢ success → lookup updated.1 k ≡ lookup f k
  pub update_others :
      (f : Flash) (k j : ℕ) (old r : FlashRecord)
      → lookup f k ≡ some old
      → j ≢ k
      → lookup (fds.update_record f (fds.find f k).1 k r).1 j ≡ lookup f j

-- What the code takes for granted where it ignores the result in an event: each operation that was queued is
-- completed with success.
pub record Completes {Flash Desc : Type 0} (fds : Fds Flash Desc) : Type 0 where
  pub write_completes :
      (f : Flash) (k : ℕ) (r : FlashRecord)
      → (fds.write_record f k r).0 ≡ success
      → fds.write_result f k r ≡ success
  pub update_completes :
      (f : Flash) (d : Desc) (k : ℕ) (r : FlashRecord)
      → (fds.update_record f d k r).0 ≡ success
      → fds.update_result f d k r ≡ success

-- `VERIFY_SUCCESS2` goes on after success, and else runs its block and returns the status.
pub record VerifyLaws {Flash : Type 0}
    (verify_success2 : Status → (next fail : Outcome Flash) → Outcome Flash) : Type 0 where
  pub on_success : (next fail : Outcome Flash) → verify_success2 success next fail ≡ next
  pub on_failure :
      (s : Status) (next fail : Outcome Flash) → s ≢ success → verify_success2 s next fail ≡ fail
