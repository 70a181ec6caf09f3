-- ===== src/Userapp/Thread/Ram.antt =====
-- The actions of the thread of src/userapp/thread.cc that fill the buffer and run what it holds, as
-- `Upload` serves them.
use ledfw_lib.Common.{
  ℕ, suc, ◌≤◌, ◌+◌, ◌-◌, append-nil, length, ◌≡◌, refl, ap, ◌∙◌, Bool-cases, inl, inr, Option, some,
  List, [], ◌∷◌, ◌++◌, ◌==◌, is_success, Status,
}
use native.Mathlib.Omega.{arith}
use ledfw_lib.Dmx.{DmxConfig}
use ledfw_lib.Userapp.Upload.{
  App, Action, clear_tempbuf, write_tempbuf, crc_tempbuf, load_from_tempbuf,
}
use ledfw_lib.Userapp.Upload
use ledfw_lib.Userapp.Flash.{Fds, Storage, Outcome}
use ledfw_lib.Userapp.Thread.{
  ExplorerCmd, QueuedAction, begin_write, write, run, Message, begin_failed, conn_rate_failed,
  write_failed, load_failed, Thread, with_app, queue_state, check_ret, serve_run, serve, serve_all,
  Inbox, n_chunks, pass, passes,
}

-- The queued action for each of them
abbrev pub embed : Action → QueuedAction
embed Upload.begin_write = begin_write
embed (Upload.write offset buffer) = write offset buffer
embed (Upload.run crc) = run crc

abbrev pub embed_all : List Action → List QueuedAction
embed_all [] = []
embed_all (a ∷ rest) = embed a ∷ embed_all rest

-- How many `send_state` actions the thread may put into its queue for them
abbrev pub n_states : List Action → ℕ
n_states [] = 0
n_states (Upload.begin_write ∷ rest) = n_states rest
n_states (Upload.write offset buffer ∷ rest) = n_states rest
n_states (Upload.run crc ∷ rest) = suc (n_states rest)

n_states-add :
    (a : Action) (rest : List Action) → n_states (a ∷ rest) ≡ n_states (a ∷ []) + n_states rest
n_states-add Upload.begin_write rest = omega arith
n_states-add (Upload.write offset buffer) rest = omega arith
n_states-add (Upload.run crc) rest = omega arith

module _ {Flash : Type 0} where
  check_ret-states :
      (ret : Status) (m : Message) (next t : Thread Flash) (k : ℕ)
      → next.states_queued ≤ k
      → t.states_queued ≤ k
      → (check_ret ret m next t).states_queued ≤ k
  check_ret-states ret m next t k e f = elim (Bool-cases (is_success ret)) [
    | inl y ↦ rw (y) e
    | inr n ↦ rw (n) f
  ]

  check_ret-storage :
      (ret : Status) (m : Message) (next t : Thread Flash) (s : Storage Flash)
      → next.storage ≡ s
      → t.storage ≡ s
      → (check_ret ret m next t).storage ≡ s
  check_ret-storage ret m next t s e f = elim (Bool-cases (is_success ret)) [
    | inl y ↦ rw (y) e
    | inr n ↦ rw (n) f
  ]

module _ {Flash Desc : Type 0} (fds : Fds Flash Desc)
    (verify_success2 : Status → (next fail : Outcome Flash) → Outcome Flash) (crc16 : List ℕ → ℕ)
    (max_words fuel : ℕ) (conn_rate : Status) (set_config : DmxConfig → Status)
    (explore : ExplorerCmd → ℕ → ℕ → Thread Flash → Thread Flash) where
  abbrev pub serves : List QueuedAction → Thread Flash → Option (Thread Flash)
  serves actions t =
      serve_all fds verify_success2 crc16 max_words fuel conn_rate set_config explore actions t

  -- Such an action is served, and of the storage it changes what `Upload` says.
  serve-embed :
      (a : Action) (t : Thread Flash)
      → (t' : Thread Flash) × (serve fds verify_success2 crc16 max_words fuel conn_rate set_config
            explore
            (embed a)
            t
          ≡ some t')
        × (t'.storage ≡ record t.storage { app = Upload.serve crc16 a t.storage.app })
        × (t'.states_queued ≤ t.states_queued + n_states (a ∷ []))
  unfolding serve serve_run Upload.serve
  serve-embed Upload.begin_write t =
      let cleared = clear_tempbuf t.storage.app in
      let t' : Thread Flash = with_app cleared.1 t in
      let fast : Thread Flash = record t' { high_speed = t'.high_speed + 1 } in
      let inner : Thread Flash = check_ret conn_rate conn_rate_failed fast fast in
      (
        check_ret cleared.0 begin_failed inner t',
        refl,
        check_ret-storage cleared.0 begin_failed inner t' t'.storage
            (check_ret-storage conn_rate conn_rate_failed fast fast t'.storage refl refl) refl,
        check_ret-states cleared.0 begin_failed inner t' _
            (check_ret-states conn_rate conn_rate_failed fast fast _ (omega arith) (omega arith))
            (omega arith),
      )
  serve-embed (Upload.write offset buffer) t =
      let done = write_tempbuf offset buffer t.storage.app in
      let t' : Thread Flash = with_app done.1 t in
      (
        check_ret done.0 write_failed t' t',
        refl,
        check_ret-storage done.0 write_failed t' t' t'.storage refl refl,
        check_ret-states done.0 write_failed t' t' _ (omega arith) (omega arith),
      )
  serve-embed (Upload.run crc) t = (
    serve_run fds verify_success2 crc16 max_words fuel crc t,
    refl,
    elim (Bool-cases (crc_tempbuf crc16 t.storage.app == crc)) [
      | inl y ↦
          let loaded = load_from_tempbuf t.storage.app in
          let t' : Thread Flash = queue_state (with_app loaded.1 t) in
          rw (serve_run, y) (check_ret-storage loaded.0 load_failed t' t' t'.storage refl refl)
      | inr n ↦ rw (serve_run, n) refl
    ],
    elim (Bool-cases (crc_tempbuf crc16 t.storage.app == crc)) [
      | inl y ↦
          let loaded = load_from_tempbuf t.storage.app in
          let t' : Thread Flash = queue_state (with_app loaded.1 t) in
          rw (serve_run, y)
            (check_ret-states loaded.0 load_failed t' t' _ (omega arith) (omega arith))
      | inr n ↦ rw (serve_run, n) (omega arith)
    ],
  )

  -- The same for a sequence
  pub serve_all-embed :
      (actions : List Action) (rest : List QueuedAction) (t : Thread Flash)
      → (t' : Thread Flash) × (serves (embed_all actions ++ rest) t ≡ serves rest t')
        × (t'.storage ≡ record t.storage { app = Upload.serve_all crc16 actions t.storage.app })
        × (t'.states_queued ≤ t.states_queued + n_states actions)
  unfolding serve_all Upload.serve_all
  serve_all-embed [] rest t = (t, refl, refl, omega arith)
  serve_all-embed (a ∷ actions) rest t =
      let (t1, e1, f1, n1) = serve-embed a t in
      let (t2, e2, f2, n2) = serve_all-embed actions rest t1 in
      (
        t2,
        rw (serve_all, e1) e2,
        f2 ∙ ap (λ (s : Storage Flash). record s { app = Upload.serve_all crc16 actions s.app }) f1,
        omega (arith, n1, n2, n_states-add a actions),
      )

  -- A pass for an action that queues no state
  pass-served :
      (actn : QueuedAction) (rest : List QueuedAction) (blocks : ℕ) (t t' : Thread Flash)
      → serve fds verify_success2 crc16 max_words fuel conn_rate set_config explore actn t ≡ some t'
      → t'.states_queued ≤ t.states_queued
      → pass fds verify_success2 crc16 max_words fuel conn_rate set_config explore
          (record { queue = actn ∷ rest; blocks = blocks })
          t
        ≡ some (record { queue = rest; blocks = blocks - n_chunks (actn ∷ []) }, t')
  unfolding pass
  pass-served actn rest blocks t t' e quiet =
      let own : t'.states_queued - t.states_queued ≡ 0 = omega arith in
      rw (pass, e, own)
        (ap (λ l. some (record { queue = l; blocks = blocks - n_chunks (actn ∷ []) }, t'))
          (append-nil rest))

  -- The passes for a sequence that queues no state
  pub passes-embed :
      (actions : List Action) (rest : List QueuedAction) (n blocks : ℕ) (t : Thread Flash)
      → n_states actions ≡ 0
      → (t' : Thread Flash) × (blocks' : ℕ) × (passes fds verify_success2 crc16 max_words fuel
            conn_rate set_config explore
            (length actions + n)
            (record { queue = embed_all actions ++ rest; blocks = blocks })
            t
          ≡ passes fds verify_success2 crc16 max_words fuel conn_rate set_config explore n
              (record { queue = rest; blocks = blocks' })
              t')
        × (t'.storage ≡ record t.storage { app = Upload.serve_all crc16 actions t.storage.app })
  unfolding passes Upload.serve_all
  passes-embed [] rest n blocks t quiet =
      let q : Inbox = record { queue = rest; blocks = blocks } in
      let e : 0 + n ≡ n = omega arith in
      (
        t,
        blocks,
        ap (λ m. passes fds verify_success2 crc16 max_words fuel conn_rate set_config explore m q t)
            e,
        refl,
      )
  passes-embed (a ∷ actions) rest n blocks t quiet =
      let (t1, e1, f1, n1) = serve-embed a t in
      let b1 : ℕ = blocks - n_chunks (embed a ∷ []) in
      let (t2, b2, e2, f2) =
        passes-embed actions rest n b1 t1 (omega (arith, quiet, n_states-add a actions)) in
      let q : Inbox = record { queue = embed a ∷ (embed_all actions ++ rest); blocks = blocks } in
      let e : suc (length actions) + n ≡ suc (length actions + n) = omega arith in
      let one =
        pass-served (embed a) (embed_all actions ++ rest) blocks t t1 e1
          (omega (arith, n1, quiet, n_states-add a actions)) in
      (
        t2,
        b2,
        ap (λ m. passes fds verify_success2 crc16 max_words fuel conn_rate set_config explore m q t)
              e
            ∙ rw (passes, one) e2,
        f2 ∙ ap (λ (s : Storage Flash). record s { app = Upload.serve_all crc16 actions s.app }) f1,
      )
