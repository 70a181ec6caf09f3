-- ===== src/Userapp/Program/Session.antt =====
-- A client sends an application over Bluetooth: src/ble/userapp.cc, include/userapp/thread.hh,
-- src/userapp/thread.cc and src/core/userapp.cc together.
use ledfw_lib.Common.{
  ℕ, suc, ◌+◌, ◌-◌, ◌/◌, ◌%◌, ◌≤◌, ◌<◌, ◌^◌, ◌≡◌, refl, sym, ap, ◌∙◌, true, false, some, List, [],
  ◌∷◌, ◌++◌, append_assoc, append-nil, ltb, ◌==◌, length, take-length, length-append, replicate,
  length-replicate, Status,
}
use native.Mathlib.Omega.{arith}
use mathlib.Core.Path.{subst}
use Prim.{Unit}
use ledfw_lib.Dmx.{DmxConfig}
use ledfw_lib.Userapp.Upload.{App, Action, user_app_loaded, usercode_size, load_from_tempbuf}
use ledfw_lib.Userapp.Upload
use ledfw_lib.Userapp.Upload.Chunks.{joined, writes, sent, serve-begin, writes-sent}
use ledfw_lib.Userapp.Flash.{Fds, Storage, Outcome, size_words}
use ledfw_lib.Userapp.Flash.Laws.{FdsLaws, VerifyLaws, Completes}
use ledfw_lib.Userapp.Flash.Save.{IsWellStored}
use ledfw_lib.Userapp.Thread.{
  ExplorerCmd, QueuedAction, begin_write, write, commit, Inbox, Thread, max_chunk, queue_action,
  queue_write, load_to_ram, serve_commit, serve, pass, passes, send_state,
}
use ledfw_lib.Userapp.Thread.Ram.{embed_all, n_states, passes-embed}
use ledfw_lib.Userapp.Thread.Commit.{Committed, all_stored, not_stored, serve_commit-Committed}
use ledfw_lib.Userapp.Program.{on_program_data, on_program_write, packet, deliver}

-- Chunks that the characteristic takes
unfoldable pub AreChunks : List (List ℕ) → Type 0
AreChunks [] = Unit
AreChunks (c ∷ cs) = (1 ≤ length c) × (length c ≤ max_chunk) × AreChunks cs

-- What the client writes: a 16-bit number with its low byte first
abbrev pub begin_packet : List ℕ
begin_packet = 2 ∷ []

abbrev pub write_packet : ℕ → List ℕ → List ℕ
write_packet offset c = 3 ∷ offset % 256 ∷ offset / 256 ∷ c

abbrev pub commit_packet : ℕ → List ℕ
commit_packet crc = 4 ∷ crc % 256 ∷ crc / 256 ∷ []

abbrev pub write_packets : ℕ → List (List ℕ) → List (List ℕ)
write_packets offset [] = []
write_packets offset (c ∷ cs) = write_packet offset c ∷ write_packets (offset + length c) cs

-- `uint16_decode` reads a 16-bit number with its low byte first.
unfoldable pub Decodes : (ℕ → ℕ → ℕ) → Type 0
Decodes uint16_decode = (n : ℕ) → n < 2 ^ 16 → uint16_decode (n % 256) (n / 256) ≡ n

abbrev enqueue : Inbox → List QueuedAction → ℕ → Inbox
enqueue q actions n = record { queue = q.queue ++ actions; blocks = q.blocks + n }

module _ (uint16_decode : ℕ → ℕ → ℕ) where
  deliver-begin :
      (q : Inbox)
      → on_program_write uint16_decode true true (packet begin_packet) q
        ≡ enqueue q (begin_write ∷ []) 0
  unfolding on_program_write on_program_data queue_action
  deliver-begin q =
      ap (λ b. record { queue = q.queue ++ (begin_write ∷ []); blocks = b }) (omega arith)

  deliver-write :
      (offset : ℕ) (c : List ℕ) (q : Inbox)
      → 1 ≤ length c
      → length c ≤ max_chunk
      → uint16_decode (offset % 256) (offset / 256) ≡ offset
      → on_program_write uint16_decode true true (packet (write_packet offset c)) q
        ≡ enqueue q (write offset c ∷ []) 1
  unfolding on_program_write on_program_data queue_action queue_write
  deliver-write offset c q one most e =
      let n : ℕ = length c in
      let a : (suc (suc (suc n)) == 1) ≡ false = ground arith in
      let b : ltb 3 (suc (suc (suc n))) ≡ true = ground arith in
      let d : (suc (suc (suc n)) - 3) ≡ n = omega arith in
      let f : ltb max_chunk n ≡ false = ground arith in
      rw (a, b, e, d, f, take-length n c (omega arith)) refl

  deliver-commit :
      (crc : ℕ) (q : Inbox)
      → uint16_decode (crc % 256) (crc / 256) ≡ crc
      → on_program_write uint16_decode true true (packet (commit_packet crc)) q
        ≡ enqueue q (commit crc ∷ []) 0
  unfolding on_program_write on_program_data queue_action
  deliver-commit crc q e =
      ap (λ n. record { queue = q.queue ++ (commit n ∷ []); blocks = q.blocks }) e
      ∙ ap (λ b. record { queue = q.queue ++ (commit crc ∷ []); blocks = b }) (omega arith)

  deliver-append :
      (xs ys : List (List ℕ)) (q : Inbox)
      → deliver uint16_decode (xs ++ ys) q ≡ deliver uint16_decode ys (deliver uint16_decode xs q)
  deliver-append [] ys q = refl
  deliver-append (x ∷ xs) ys q =
      deliver-append xs ys (on_program_write uint16_decode true true (packet x) q)

  -- The packets of the chunks become the writes of the chunks.
  deliver-writes :
      (cs : List (List ℕ)) (offset : ℕ) (q : Inbox)
      → AreChunks cs
      → offset + length (joined cs) < 2 ^ 16
      → Decodes uint16_decode
      → deliver uint16_decode (write_packets offset cs) q
        ≡ enqueue q (embed_all (writes offset cs)) (length cs)
  unfolding AreChunks Decodes
  deliver-writes [] offset q w h e =
      ap (λ l. record { queue = l; blocks = q.blocks }) (sym (append-nil q.queue))
      ∙ ap (λ b. record { queue = q.queue ++ []; blocks = b }) (omega arith)
  deliver-writes (c ∷ cs) offset q (one, most, w) h e =
      let all : length (c ++ joined cs) ≡ length c + length (joined cs) =
        length-append c (joined cs) in
      ap (deliver uint16_decode (write_packets (offset + length c) cs))
        (deliver-write offset c q one most (e offset (omega (arith, all))))
      ∙ deliver-writes cs (offset + length c) (enqueue q (write offset c ∷ []) 1) w
          (omega (arith, all)) e
      ∙ ap (λ l. record { queue = l; blocks = q.blocks + 1 + length cs })
          (append_assoc q.queue (write offset c ∷ []) (embed_all (writes (offset + length c) cs)))
      ∙ ap
          (λ b. record {
            queue = q.queue ++ (write offset c ∷ embed_all (writes (offset + length c) cs));
            blocks = b;
          })
          (omega arith)

  -- The packets of an application: the chunks one behind the other, and the CRC of the padded whole.
  abbrev pub session : List (List ℕ) → ℕ → List (List ℕ)
  session cs crc = begin_packet ∷ (write_packets 0 cs ++ (commit_packet crc ∷ []))

  pub deliver-session :
      (cs : List (List ℕ)) (crc : ℕ)
      → AreChunks cs
      → length (joined cs) < 2 ^ 16
      → crc < 2 ^ 16
      → Decodes uint16_decode
      → (deliver uint16_decode (session cs crc) (record { queue = []; blocks = 0 })).queue
        ≡ embed_all (Upload.begin_write ∷ writes 0 cs) ++ (commit crc ∷ [])
  unfolding Decodes
  deliver-session cs crc w h k e =
      let q0 : Inbox = record { queue = []; blocks = 0 } in
      let q1 : Inbox = enqueue q0 (begin_write ∷ []) 0 in
      let q2 : Inbox = enqueue q1 (embed_all (writes 0 cs)) (length cs) in
      let last : List (List ℕ) = commit_packet crc ∷ [] in
      ap (λ (q : Inbox). q.queue)
        (ap (deliver uint16_decode (write_packets 0 cs ++ last)) (deliver-begin q0)
          ∙ deliver-append (write_packets 0 cs) last q1
          ∙ ap (deliver uint16_decode last) (deliver-writes cs 0 q1 w (omega arith) e)
          ∙ deliver-commit crc q2 (e crc k))

-- The buffer after the writes
serve-begin-writes :
    (crc16 : List ℕ → ℕ) (cs : List (List ℕ)) (a : App)
    → length (joined cs) ≤ usercode_size
    → Upload.serve_all crc16 (Upload.begin_write ∷ writes 0 cs) a ≡ sent a (joined cs)
unfolding Upload.serve_all
serve-begin-writes crc16 cs a h =
    ap (Upload.serve_all crc16 (writes 0 cs)) (serve-begin crc16 a)
    ∙ writes-sent crc16 cs a [] 0 refl (omega arith)

length-image :
    (bytes : List ℕ)
    → length bytes ≤ usercode_size
    → length (bytes ++ replicate (usercode_size - length bytes) 0) ≡ usercode_size
length-image bytes h =
    let n : ℕ = usercode_size - length bytes in
    omega (arith, length-append bytes (replicate n 0), length-replicate {A = ℕ} n 0)

length-embed_all : (actions : List Action) → length (embed_all actions) ≡ length actions
length-embed_all [] = refl
length-embed_all (a ∷ rest) = ap suc (length-embed_all rest)

n_states-writes : (cs : List (List ℕ)) (offset : ℕ) → n_states (writes offset cs) ≡ 0
n_states-writes [] offset = refl
n_states-writes (c ∷ cs) offset = n_states-writes cs (offset + length c)

module _ {Flash Desc : Type 0} {fds : Fds Flash Desc}
    {verify_success2 : Status → (next fail : Outcome Flash) → Outcome Flash} (laws : FdsLaws fds)
    (verify : VerifyLaws verify_success2) (completes : Completes fds) (conn_rate : Status)
    (set_config : DmxConfig → Status)
    (explore : ExplorerCmd → ℕ → ℕ → Thread Flash → Thread Flash) where
  abbrev pub loaded_app : App → List ℕ → App
  loaded_app a image = record {
    app_state = user_app_loaded;
    temp_buf = image;
    user_code = image;
    led_resets = a.led_resets + 1;
  }

  Committed-states :
      (crc : ℕ) (t t' : Thread Flash)
      → Committed laws verify completes crc t t'
      → t'.states_queued ≡ t.states_queued + 1
  Committed-states crc t _ (all_stored t' a b c d e) = e
  Committed-states crc t _ (not_stored t' a b c d e) = e

  -- The last pass, which leaves the states that it queued
  passes-commit :
      (crc16 : List ℕ → ℕ) (max_words fuel crc blocks : ℕ) (t t' : Thread Flash)
      → serve_commit fds verify_success2 crc16 max_words fuel crc t ≡ some t'
      → t'.states_queued ≡ t.states_queued + 2
      → passes fds verify_success2 crc16 max_words fuel conn_rate set_config explore 1
          (record { queue = commit crc ∷ []; blocks = blocks })
          t
        ≡ some (record { queue = send_state ∷ send_state ∷ []; blocks = blocks - 0 }, t')
  unfolding passes pass serve
  passes-commit crc16 max_words fuel crc blocks t t' e two =
      let own : t'.states_queued - t.states_queued ≡ 2 = omega (arith, two) in
      rw (passes, pass, serve, e, own) refl

  -- A client begins, writes an application in consecutive chunks of 1 to 128 bytes, at most 4096 in all, and
  -- commits with the CRC of the padded whole. If no write is refused, flash held a chain that fits and each operation
  -- that is queued in FDS is completed with success, as many passes of the thread as there are actions serve
  -- all of them, and leave the two state actions in the queue that the commit puts there; then the code in RAM
  -- is the application followed by zeros, marked as loaded, and flash holds the same and its CRC, or the save failed,
  -- the clients were told and flash holds a chain that fits.
  pub commit-session :
      (uint16_decode : ℕ → ℕ → ℕ) (crc16 : List ℕ → ℕ) (max_words fuel : ℕ) (cs : List (List ℕ))
      (t : Thread Flash)
      → AreChunks cs
      → length (joined cs) ≤ usercode_size
      → Decodes uint16_decode
      → let image = joined cs ++ replicate (usercode_size - length (joined cs)) 0 in
        crc16 image < 2 ^ 16
        → 1 ≤ max_words
        → size_words < fuel
        → IsWellStored (laws.lookup t.storage.flash)
        → let q =
            deliver uint16_decode
              (session uint16_decode cs (crc16 image))
              (record { queue = []; blocks = 0 }) in
          (before t' : Thread Flash) × (blocks : ℕ) × (passes fds verify_success2 crc16 max_words
              fuel conn_rate set_config explore
              (length q.queue)
              q
              t
            ≡ some (record { queue = send_state ∷ send_state ∷ []; blocks = blocks }, t'))
          × (before.storage ≡ record t.storage { app = loaded_app t.storage.app image })
          × Committed laws verify completes (crc16 image) before t'
  unfolding load_from_tempbuf
  commit-session uint16_decode crc16 max_words fuel cs t w h e k some_words enough well =
      let image : List ℕ = joined cs ++ replicate (usercode_size - length (joined cs)) 0 in
      let crc : ℕ = crc16 image in
      let q : Inbox =
        deliver uint16_decode (session uint16_decode cs crc) (record { queue = []; blocks = 0 }) in
      let filling = Upload.begin_write ∷ writes 0 cs in
      let (t1, b1, e1, f1) =
        passes-embed fds verify_success2 crc16 max_words fuel conn_rate set_config explore filling
          (commit crc ∷ []) 1 q.blocks t (n_states-writes cs 0) in
      let filled : t1.storage ≡ record t.storage { app = sent t.storage.app (joined cs) } =
        f1
        ∙ ap (λ (a : App). record t.storage { app = a })
            (serve-begin-writes crc16 cs t.storage.app h) in
      let (t', e2, r) =
        serve_commit-Committed laws verify completes crc16 max_words fuel crc t1 some_words enough
          (ap (λ (s : Storage Flash). length s.app.temp_buf) filled ∙ length-image (joined cs) h)
          (subst (λ (s : Storage Flash). IsWellStored (laws.lookup s.flash)) (sym filled) well)
          (ap (λ (s : Storage Flash). crc16 s.app.temp_buf) filled) in
      let before : Thread Flash = load_to_ram fds verify_success2 crc16 max_words fuel t1 in
      let two : t'.states_queued ≡ t1.states_queued + 2 =
        omega (arith, Committed-states crc before t' r) in
      (
        before,
        t',
        b1 - 0,
        ap
              (λ actions.
                passes fds verify_success2 crc16 max_words fuel conn_rate set_config explore
                  (length actions) (record { queue = actions; blocks = q.blocks }) t)
              (deliver-session uint16_decode cs crc w (omega arith) k e)
            ∙ ap
                (λ n.
                  passes fds verify_success2 crc16 max_words fuel conn_rate set_config explore n
                    (record { queue = embed_all filling ++ (commit crc ∷ []); blocks = q.blocks })
                    t)
                (omega (
                  arith,
                  length-append (embed_all filling) (commit crc ∷ []),
                  length-embed_all filling,
                ))
            ∙ e1
            ∙ passes-commit crc16 max_words fuel crc b1 t1 t' e2 two,
        ap (λ (s : Storage Flash). record s { app = (load_from_tempbuf s.app).1 }) filled,
        r,
      )
