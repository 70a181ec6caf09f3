-- ===== src/RwLock/Create.antt =====
-- `task::rw_lock::init` of src/core/task.cc. The kernel's answer to each creation of a semaphore is an
-- argument: `none` for the null handle.
use ledfw_lib.Common.{
  ℕ, ◌≡◌, ◌≢◌, ◌↔◌, Bool, true, false, Option, none, some, if◌then◌else◌, Status, success,
  resources, arith,
}

pub record Handles : Type 0 where
  pub block_readers : Option ℕ
  pub write_lock : Option ℕ
  pub read_lock : Option ℕ
  pub resource_lock : Option ℕ
  pub n_readers : ℕ
  pub n_writers : ℕ

-- What the four creations return, in the order of the calls.
pub record Created : Type 0 where
  pub read_lock : Option ℕ
  pub write_lock : Option ℕ
  pub resource_lock : Option ℕ
  pub block_readers : Option ℕ

abbrev is_null : Option ℕ → Bool
is_null none = true
is_null (some h) = false

-- Every test is of `read_lock`, as in the source. The gives at the end leave `resource_lock` and
-- `block_readers` there to take.
unfoldable pub init : Handles → Created → Status × Handles
init l c =
    let l₁ : Handles = record l { n_readers = 0; n_writers = 0; read_lock = c.read_lock } in
    let l₂ : Handles = record l₁ { write_lock = c.write_lock } in
    let l₃ : Handles = record l₂ { resource_lock = c.resource_lock } in
    let l₄ : Handles = record l₃ { block_readers = c.block_readers } in
    if is_null l₁.read_lock
    then (resources, l₁)
    else if is_null l₂.read_lock
    then (resources, l₂)
    else if is_null l₃.read_lock
    then (resources, l₃)
    else if is_null l₄.read_lock
    then (resources, l₄)
    else (success, l₄)

-- `init` reports success exactly when `read_lock` could be created, whatever became of the other three
-- semaphores, and then leaves in the lock whatever handles it was given, null ones included.
pub init-success_iff :
    (l : Handles) (c : Created)
    → (((init l c).0 ≡ success) ↔ (c.read_lock ≢ none))
      × (c.read_lock ≢ none → (init l c).1.write_lock ≡ c.write_lock)
      × (c.read_lock ≢ none → (init l c).1.resource_lock ≡ c.resource_lock)
      × (c.read_lock ≢ none → (init l c).1.block_readers ≡ c.block_readers)
unfolding init
init-success_iff l c = ground arith
