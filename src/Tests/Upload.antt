-- ===== src/Tests/Upload.antt =====
-- The thread of the user application: its start, a client's session, and the blocks of its queue.
use ledfw_lib.Common.{
  ℕ, ◌+◌, ◌-◌, ◌*◌, ◌≡◌, refl, true, false, some, List, [], ◌∷◌, ◌++◌, length, replicate,
  write_cells, Status, success,
}
use native.Mathlib.Omega.{arith}
use ledfw_lib.Dmx.{DmxConfig}
use ledfw_lib.Userapp.Upload.{usercode_size, write_tempbuf}
use ledfw_lib.Userapp.Upload.Chunks.{joined}
use ledfw_lib.Userapp.Thread.{
  ExplorerCmd, begin_write, write, Inbox, n_chunks, queue_write, Thread, with_app, pass, passes,
  send_state, serve,
}
use ledfw_lib.Userapp.Thread.Heap.{queue_write-blocks}
use ledfw_lib.Userapp.Thread.Commit.{Committed}
use ledfw_lib.Userapp.Program.{deliver}
use ledfw_lib.Userapp.Program.Session.{AreChunks, Decodes, session, loaded_app, commit-session}
use ledfw_lib.Tests.Flash.{
  Flash, memory, verify, memory_laws, memory_completes, verify_laws, empty-IsWellStored, start,
  first_byte,
}

abbrev thread : Thread Flash
thread = record {
  storage = start;
  high_speed = 0;
  gc_scheduled = 0;
  resumed = 0;
  states_sent = 0;
  states_queued = 0;
  messages = [];
}

abbrev decode : ℕ → ℕ → ℕ
decode low high = low + 256 * high

decode-Decodes : Decodes decode
unfolding Decodes
decode-Decodes n lt = omega arith

abbrev chunks : List (List ℕ)
chunks = (5 ∷ 2 ∷ 3 ∷ []) ∷ (4 ∷ []) ∷ []

chunks-AreChunks : AreChunks chunks
unfolding AreChunks
chunks-AreChunks = (omega arith, omega arith, (omega arith, omega arith, record {}))

abbrev image : List ℕ
image = joined chunks ++ replicate (usercode_size - length (joined chunks)) 0

abbrev set_config : DmxConfig → Status
set_config c = success

abbrev explore : ExplorerCmd → ℕ → ℕ → Thread Flash → Thread Flash
explore c p s t = t

-- The queue after the session
abbrev received : Inbox
received =
    deliver decode (session decode chunks (first_byte image)) (record { queue = []; blocks = 0 })

commit-session_example :
    (before t' : Thread Flash) × (blocks : ℕ) × (passes memory verify first_byte 1016 1025 success
        set_config explore
        (length received.queue)
        received
        thread
      ≡ some (record { queue = send_state ∷ send_state ∷ []; blocks = blocks }, t'))
    × (before.storage ≡ record start {
      app =
          loaded_app memory_laws verify_laws memory_completes success set_config explore start.app
            image;
    })
    × Committed memory_laws verify_laws memory_completes (first_byte image) before t'
commit-session_example =
    commit-session memory_laws verify_laws memory_completes success set_config explore decode
      first_byte 1016 1025 chunks thread chunks-AreChunks (omega arith) decode-Decodes (omega arith)
      (omega arith) (omega arith) empty-IsWellStored

-- The queue is full: the block of the chunk is lost.
queue_write-blocks_example :
    let q' =
      (queue_write true false 0 (some (1 ∷ 2 ∷ [])) 2 (record { queue = []; blocks = 0 })).1 in
    q'.blocks ≡ n_chunks q'.queue + 1
queue_write-blocks_example =
    queue_write-blocks true false 0 2 0 (1 ∷ 2 ∷ []) (record { queue = []; blocks = 0 }) refl

-- One lost block stays lost, the other is freed with its chunk.
abbrev waiting : Inbox
waiting = record { queue = begin_write ∷ []; blocks = 1 }

abbrev written : Thread Flash
written = with_app (write_tempbuf 0 (1 ∷ []) start.app).1 thread

pass-written :
    pass memory verify first_byte 1016 1025 success set_config explore
      (record { queue = write 0 (1 ∷ []) ∷ begin_write ∷ []; blocks = 2 })
      thread
    ≡ some (waiting, written)
unfolding pass serve write_tempbuf write_cells
pass-written = refl
