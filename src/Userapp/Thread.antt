-- ===== src/Userapp/Thread.antt =====
-- `userapp_thread` and its queue: src/userapp/thread.cc and include/userapp/thread.hh.
--
-- The queue is the list of its actions; `sent` says whether FreeRTOS took an action. What the actions ask
-- of other parts is a parameter or a count. Log output is left out; what is printed to Bluetooth clients
-- is the list of messages.
pub mod Ram
pub mod Commit
pub mod Heap
pub mod Startup
use ledfw_lib.Common.{
  ℕ, zero, suc, ◌+◌, ◌-◌, Bool, true, false, not, ◌&&◌, ◌||◌, Option, none, some, List, [], ◌∷◌,
  ◌++◌, ltb, leb, replicate, ◌==◌, if◌then◌else◌, length, take, Status, success, no_mem,
  invalid_length, null, is_success, is_not_found, verify_success,
}
use ledfw_lib.Dmx.{DmxConfig}
use ledfw_lib.Userapp.Upload.{App, clear_tempbuf, write_tempbuf, crc_tempbuf, load_from_tempbuf}
use ledfw_lib.Userapp.Flash.{
  Fds, Storage, Outcome, returned, overrun, unfinished, save_tempbuf_to_flash, load_from_flash,
  erase,
}

pub data ExplorerCmd : Type 0 where
  get_personality_info get_slot_info get_personality_and_slot_info : ExplorerCmd

-- `queued_action`; `other` carries whether it has a function, and that function's result.
pub data QueuedAction : Type 0 where
  other : (func : Option Status) → QueuedAction
  erase_app : QueuedAction
  begin_write : QueuedAction
  write : (offset : ℕ) → (buffer : List ℕ) → QueuedAction
  commit : (crc : ℕ) → QueuedAction
  run : (crc : ℕ) → QueuedAction
  send_state : QueuedAction
  dmx_config : DmxConfig → QueuedAction
  dmx_explorer : ExplorerCmd → (personality slot : ℕ) → QueuedAction

-- `m_action_queue`, and the heap blocks that were allocated for chunks and not freed.
pub record Inbox : Type 0 where
  pub queue : List QueuedAction
  pub blocks : ℕ

unfoldable pub queue_action : (sent : Bool) → QueuedAction → Inbox → Status × Inbox
queue_action sent actn q =
    if sent then (success, record q { queue = q.queue ++ (actn ∷ []) }) else (no_mem, q)

abbrev pub queue_length : ℕ
queue_length = 24

-- How many actions of a queue have a chunk
abbrev pub n_chunks : List QueuedAction → ℕ
n_chunks [] = 0
n_chunks (write offset buffer ∷ rest) = suc (n_chunks rest)
n_chunks (other func ∷ rest) = n_chunks rest
n_chunks (_ ∷ rest) = n_chunks rest

abbrev pub max_chunk : ℕ
max_chunk = 128

-- `allocated` says whether `pvPortMalloc` gave a block.
unfoldable pub queue_write :
    (allocated sent : Bool) (offset : ℕ) (buffer : Option (List ℕ)) (len : ℕ)
    → Inbox
    → Status × Inbox
queue_write allocated sent offset buffer len q =
    if ltb max_chunk len then (invalid_length, q) else elim buffer [
      | none ↦ (null, q)
      | some bytes ↦
          if allocated
          then queue_action sent (write offset (take len bytes))
              (record q { blocks = q.blocks + 1 })
          else (no_mem, q)
    ]

-- What the thread tells the clients.
pub data Message : Type 0 where
  no_function erase_failed begin_failed conn_rate_failed write_failed crc_failed : Message
  load_failed save_failed config_failed no_personality no_slot : Message

-- The thread's view: the stored application, the calls of `set_conn_rate`, `schedule_fds_gc` and
-- `led::resume_all`, the status messages sent, the `send_state` actions that it put into its own queue with
-- `queue_send_state`, and the texts printed.
pub record Thread (Flash : Type 0) : Type 0 where
  pub storage : Storage Flash
  pub high_speed : ℕ
  pub gc_scheduled : ℕ
  pub resumed : ℕ
  pub states_sent : ℕ
  pub states_queued : ℕ
  pub messages : List Message

module _ {Flash : Type 0} where
  abbrev pub print : Message → Thread Flash → Thread Flash
  print m t = record t { messages = t.messages ++ (m ∷ []) }

  -- `queue_send_state`, at the end of `load_from_tempbuf`, of `load_from_flash` and of
  -- `save_tempbuf_to_flash`, whatever they return
  abbrev pub queue_state : Thread Flash → Thread Flash
  queue_state t = record t { states_queued = t.states_queued + 1 }

  abbrev pub with_app : App → Thread Flash → Thread Flash
  with_app a t = record t { storage = record t.storage { app = a } }

  -- CHECK_RET_MSG
  abbrev pub check_ret : Status → Message → (next t : Thread Flash) → Thread Flash
  check_ret ret msg next t = if is_success ret then next else print msg t

  -- What is done with the outcome of a call; `none` where it did not return.
  abbrev pub after :
      Outcome Flash → (Status → Storage Flash → Option (Thread Flash)) → Option (Thread Flash)
  after (returned ret s) next = next ret s
  after overrun next = none
  after unfinished next = none

module _ {Flash Desc : Type 0} (fds : Fds Flash Desc)
    (verify_success2 : Status → (next fail : Outcome Flash) → Outcome Flash) (crc16 : List ℕ → ℕ)
    (max_words fuel : ℕ) where
  abbrev pub load_to_ram : Thread Flash → Thread Flash
  load_to_ram t = queue_state (with_app (load_from_tempbuf t.storage.app).1 t)

  unfoldable pub serve_commit : (crc : ℕ) → Thread Flash → Option (Thread Flash)
  serve_commit crc t =
      let actual = crc_tempbuf crc16 t.storage.app in
      let loaded = load_from_tempbuf t.storage.app in
      let t' = load_to_ram t in
      let saved =
        after (save_tempbuf_to_flash fds verify_success2 max_words fuel actual t'.storage) (λ ret s.
          some (
            check_ret ret save_failed
              (record (queue_state t') { storage = s; gc_scheduled = t'.gc_scheduled + 1 })
              (record (queue_state t') { storage = s }))) in
      if not (actual == crc)
      then some (print crc_failed t)
      else (if is_success loaded.0 then saved else some (print load_failed t'))

  unfoldable pub serve_run : (crc : ℕ) → Thread Flash → Thread Flash
  serve_run crc t =
      let loaded = load_from_tempbuf t.storage.app in
      if not (crc_tempbuf crc16 t.storage.app == crc)
      then print crc_failed t
      else check_ret loaded.0 load_failed (load_to_ram t) (load_to_ram t)

  -- `conn_rate` is the status of `ble::set_conn_rate`, `set_config` that of setting the parameter, and
  -- `explore` what the explorer sends.
  module _ (conn_rate : Status) (set_config : DmxConfig → Status)
      (explore : ExplorerCmd → ℕ → ℕ → Thread Flash → Thread Flash) where
    -- One pass of the loop, for the action received
    unfoldable pub serve : QueuedAction → Thread Flash → Option (Thread Flash)
    serve (other none) t = some (print no_function t)
    serve (other (some ret)) t = some t
    serve erase_app t =
        let erased = erase fds t.storage in
        some (
          check_ret erased.0 erase_failed (record t { storage = erased.1 })
            (record t { storage = erased.1 }))
    serve begin_write t =
        let cleared = clear_tempbuf t.storage.app in
        let t' = with_app cleared.1 t in
        let fast = record t' { high_speed = t'.high_speed + 1 } in
        some (check_ret cleared.0 begin_failed (check_ret conn_rate conn_rate_failed fast fast) t')
    serve (write offset buffer) t =
        let done = write_tempbuf offset buffer t.storage.app in
        let t' = with_app done.1 t in some (check_ret done.0 write_failed t' t')
    serve (commit crc) t = serve_commit crc t
    serve (run crc) t = some (serve_run crc t)
    serve send_state t = some (record t { states_sent = t.states_sent + 1 })
    serve (dmx_config config) t = some (check_ret (set_config config) config_failed t t)
    serve (dmx_explorer command personality slot) t = some (explore command personality slot t)

    -- The next pass, with the receipt of its action: a chunk is freed when it was written, and the
    -- `send_state` actions that the thread queues wait behind the others. `queue_action` waits without a
    -- limit, and only this thread takes from the queue: without room it waits forever, which is `none`.
    unfoldable pub pass : Inbox → Thread Flash → Option (Inbox × Thread Flash)
    pass q t = elim q.queue [
      | [] ↦ some (q, t)
      | actn ∷ rest ↦ elim (serve actn t) [
        | none ↦ none
        | some t' ↦
            let own = t'.states_queued - t.states_queued in
            if own == 0 || leb (length rest + own) queue_length
            then some (
              record {
                queue = rest ++ replicate own send_state;
                blocks = q.blocks - n_chunks (actn ∷ []);
              },
              t',
            )
            else none
      ]
    ]

    unfoldable pub passes : (n : ℕ) → Inbox → Thread Flash → Option (Inbox × Thread Flash)
    passes zero q t = some (q, t)
    passes (suc n) q t = elim (pass q t) [ none ↦ none | some r ↦ passes n r.0 r.1 ]

    -- The passes for a sequence of actions, where the queue has room for what the thread queues
    unfoldable pub serve_all : List QueuedAction → Thread Flash → Option (Thread Flash)
    serve_all [] t = some t
    serve_all (actn ∷ rest) t = elim (serve actn t) [ none ↦ none | some t' ↦ serve_all rest t' ]

  -- What the thread does first. `got` and `set` are the statuses of reading the DMX configuration and of
  -- setting the default one; a failure that APP_ERROR_CHECK stops at is `none`.
  -- The one or two states that it queues are taken to find room in the queue, which is served after it.
  unfoldable pub start_thread : (got set : Status) → Thread Flash → Option (Thread Flash)
  start_thread got set t =
      let config = if is_not_found got then set else got in
      let load = after (load_from_flash fds verify_success2 crc16 fuel t.storage) (λ ret s.
        let t' = queue_state (record t { storage = s }) in
        let again = load_from_tempbuf s.app in
        let first : Status × Thread Flash = (ret, t') in
        let second : Status × Thread Flash = (again.0, queue_state (with_app again.1 t')) in
        let tried = if is_success ret then first else second in
        if is_success tried.0
        then some (record tried.1 { resumed = t'.resumed + 1; states_sent = t'.states_sent + 1 })
        else none) in
      if is_success config then load else none
