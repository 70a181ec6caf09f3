-- ===== src/Cfg/Cache.antt =====
-- The cache of src/cfg/flash_backend.cc, and the calls of `flash_backend`.
use ledfw_lib.Common.{
  ℕ, min, Bool, true, false, ◌&&◌, Option, none, some, List, [], ◌∷◌, leb, ◌==◌, if◌then◌else◌,
  length, get_or, take, drop, write_cells, Status, success, null, no_mem, verify_success,
}
use ledfw_lib.Cfg.Ids.{ParamId, id_to_index}

-- `subs_ll`: a callback and its context, by what identifies them. A list is the linked list.
pub record Sub : Type 0 where
  pub context : ℕ
  pub callback : ℕ

-- `param_cache`
pub record ParamCache : Type 0 where
  pub len : ℕ
  pub alloc_length : ℕ
  pub block : Option (List ℕ)
  pub subs : List Sub

abbrev pub no_cache : ParamCache
no_cache = record { len = 0; alloc_length = 0; block = none; subs = [] }

-- `m_cache`, and the bits notified to the flash thread and not yet fetched by it, by index.
pub record Backend : Type 0 where
  pub cache : ℕ → ParamCache
  pub notified : ℕ → Bool

abbrev pub initial : Backend
initial = record { cache = λ i. no_cache; notified = λ i. false }

abbrev pub update : {A : Type 0} → (ℕ → A) → ℕ → A → ℕ → A
update f i a j = if i == j then a else f j

abbrev pub put : Backend → ℕ → ParamCache → Backend
put s i c = record s { cache = update s.cache i c }

-- `memcpy(block, bytes, n)` onto the start of a block
abbrev pub overwrite : List ℕ → List ℕ → List ℕ
overwrite block bytes = write_cells block (λ i. get_or bytes i 0) (length bytes) 0

-- What the flash data storage answers for one record: the status of finding, opening and closing it,
-- and its bytes (a multiple of four).
pub record FlashRecord : Type 0 where
  pub find : Status
  pub open_status : Status
  pub close : Status
  pub bytes : List ℕ

-- `try_read`: the bytes copied to the caller, if the parameter is cached
unfoldable pub try_read : Backend → ParamId → ℕ → Option (List ℕ)
try_read s id n =
    let c = s.cache (id_to_index id) in
    elim c.block [ none ↦ none | some b ↦ some (take (min n c.len) b) ]

-- The part of the callback of `read` that loads the record. All of `param_cache` is assigned, with
-- `subs` left to its default.
unfoldable pub load_record : FlashRecord → Backend → ParamId → ℕ → Status × List ℕ × Backend
load_record f s id n =
    verify_success f.find
      (verify_success f.open_status
        (verify_success f.close
          (
            success,
            take (min (length f.bytes) n) f.bytes,
            put s (id_to_index id) (record {
              len = length f.bytes;
              alloc_length = length f.bytes;
              block = some f.bytes;
              subs = [];
            }),
          )
          (λ e. (e, [], s)))
        (λ e. (e, [], s)))
      (λ e. (e, [], s))

-- The callback under exclusive access.
unfoldable pub read_exclusive : FlashRecord → Backend → ParamId → ℕ → Status × List ℕ × Backend
read_exclusive f s id n = elim (try_read s id n) [
  | some out ↦ (success, out, s)
  | none ↦ load_record f s id n
]

-- `flash_backend::read`: the status and the bytes copied to the caller. Between the shared and the
-- exclusive access other tasks may run; `others` is what they do.
unfoldable pub read :
    (Backend → Backend) → FlashRecord → Backend → ParamId → ℕ → Status × List ℕ × Backend
read others f s id n = elim (try_read s id n) [
  | some out ↦ (success, out, s)
  | none ↦ read_exclusive f (others s) id n
]

-- `memcmp(a, b, n) == 0` of two arrays of `n` bytes
unfoldable pub bytes_eq : List ℕ → List ℕ → Bool
bytes_eq [] [] = true
bytes_eq (x ∷ xs) (y ∷ ys) = x == y && bytes_eq xs ys
bytes_eq _ _ = false

-- `xTaskNotify(m_cfg_flash_task, notify, eSetBits)`
abbrev pub notify : Backend → ℕ → Backend
notify s i = record s { notified = update s.notified i true }

-- What `write` does to one `param_cache`: whether the data changed, and the new value. A reallocation
-- leaves `alloc_length` as it was.
unfoldable pub write_cache : ParamCache → List ℕ → Bool × ParamCache
write_cache c bytes = elim c.block [
  | none ↦ (true, record c { block = some bytes; len = length bytes })
  | some b ↦
      if leb (length bytes) c.alloc_length
      then if c.alloc_length == length bytes && bytes_eq (take (length bytes) b) bytes
        then (false, c)
        else (true, record c { block = some (overwrite b bytes); len = length bytes })
      else (true, record c { block = some bytes; len = length bytes })
]

-- The callback of `write` under exclusive access.
unfoldable pub write_exclusive : Backend → ParamId → List ℕ → Bool × Backend
write_exclusive s id bytes =
    let i = id_to_index id in
    let (changed, c) = write_cache (s.cache i) bytes in
    if changed then (true, notify (put s i c) i) else (false, s)

-- One call of a subscriber: the bytes from its pointer on, and the length that it is told.
pub record Call : Type 0 where
  pub sub : Sub
  pub bytes : List ℕ
  pub told : ℕ

abbrev pub param_hdr_size : ℕ
param_hdr_size = 2

unfoldable pub call_subs : List Sub → List ℕ → ℕ → List Call
call_subs [] bytes told = []
call_subs (x ∷ xs) bytes told =
    record { sub = x; bytes = bytes; told = told } ∷ call_subs xs bytes told

-- The callback of `write` under shared access: `subs->callback(subs->context, p, length)` for each.
unfoldable pub notify_subs : Backend → ParamId → List Call
notify_subs s id =
    let c = s.cache (id_to_index id) in
    elim c.block [ none ↦ [] | some b ↦ call_subs c.subs (drop param_hdr_size b) c.len ]

-- `flash_backend::write`: the subscribers' calls come after the exclusive access, when `others` may
-- have run.
unfoldable pub write :
    (Backend → Backend) → Backend → ParamId → List ℕ → Status × List Call × Backend
write others s id bytes =
    let (did_change, s') = write_exclusive s id bytes in
    let s'' = others s' in
    if did_change then (success, notify_subs s'' id, s'') else (success, [], s')

-- `flash_backend::subscribe`. `callback` is `none` for the null pointer, `allocated` says whether the
-- list node could be allocated.
unfoldable pub subscribe : Backend → ParamId → ℕ → Option ℕ → (allocated : Bool) → Status × Backend
subscribe s id context none allocated = (null, s)
subscribe s id context (some callback) allocated =
    let i = id_to_index id in
    let c = s.cache i in
    let sub : Sub = record { context = context; callback = callback } in
    if allocated then (success, put s i (record c { subs = sub ∷ c.subs })) else (no_mem, s)
