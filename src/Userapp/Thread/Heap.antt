-- ===== src/Userapp/Thread/Heap.antt =====
-- The heap blocks of the chunks that wait in the queue: `queue_write` of include/userapp/thread.hh and the
-- loop of src/userapp/thread.cc.
use ledfw_lib.Common.{
  ℕ, zero, suc, sym, replicate, length, ◌≢◌, ◌+◌, ◌-◌, ◌≡◌, refl, ap, ◌∙◌, Bool, true, false, not,
  ◌&&◌, ◌||◌, ◌==◌, Bool-cases, inl, inr, Option, none, some, List, [], ◌∷◌, ◌++◌, ltb, leb,
  if◌then◌else◌, take, Status, no_mem, Option-cases,
}
use native.Mathlib.Omega.{arith}
use mathlib.Core.Path.{subst}
use ledfw_lib.Dmx.{DmxConfig}
use ledfw_lib.Userapp.Flash.{Fds, Outcome}
use ledfw_lib.Userapp.Thread.{
  ExplorerCmd, QueuedAction, other, erase_app, begin_write, write, commit, run, send_state,
  dmx_config, dmx_explorer, Inbox, queue_length, n_chunks, max_chunk, queue_action, queue_write,
  Thread, serve, pass,
}

n_chunks-add :
    (a : QueuedAction) (q : List QueuedAction) → n_chunks (a ∷ q) ≡ n_chunks (a ∷ []) + n_chunks q
n_chunks-add (other func) q = omega arith
n_chunks-add erase_app q = omega arith
n_chunks-add begin_write q = omega arith
n_chunks-add (write offset buffer) q = omega arith
n_chunks-add (commit crc) q = omega arith
n_chunks-add (run crc) q = omega arith
n_chunks-add send_state q = omega arith
n_chunks-add (dmx_config c) q = omega arith
n_chunks-add (dmx_explorer c p s) q = omega arith

n_chunks-append : (xs ys : List QueuedAction) → n_chunks (xs ++ ys) ≡ n_chunks xs + n_chunks ys
n_chunks-append [] ys = omega arith
n_chunks-append (x ∷ xs) ys =
    omega (arith, n_chunks-append xs ys, n_chunks-add x xs, n_chunks-add x (xs ++ ys))

n_chunks-states : (n : ℕ) → n_chunks (replicate n send_state) ≡ 0
n_chunks-states zero = refl
n_chunks-states (suc n) = n_chunks-states n

none-ne-some : {A : Type 0} {x : A} → none ≢ some x
none-ne-some e = cc

-- `queue_write` keeps the number of blocks that no queued chunk owns, unless the queue refuses a chunk of at
-- most 128 bytes that was allocated: then one more block is lost.
pub queue_write-blocks :
    (allocated sent : Bool) (offset len k : ℕ) (bytes : List ℕ) (q : Inbox)
    → q.blocks ≡ n_chunks q.queue + k
    → let q' = (queue_write allocated sent offset (some bytes) len q).1 in
      q'.blocks
      ≡ n_chunks q'.queue + (if leb len max_chunk && (allocated && not sent) then suc k else k)
unfolding queue_write queue_action
queue_write-blocks allocated sent offset len k bytes q e = elim (Bool-cases (ltb max_chunk len)) [
  | inl over ↦ let g : leb len max_chunk ≡ false = ground arith in rw (over, g) e
  | inr fits ↦
      let g : leb len max_chunk ≡ true = ground arith in rw (fits, g) (queued allocated sent)
]
  where
    queued :
        (allocated sent : Bool)
        → let q' : Inbox =
            (if allocated
              then queue_action sent
                  (write offset (take len bytes))
                  (record q { blocks = q.blocks + 1 })
              else (no_mem, q)).1 in
          q'.blocks ≡ n_chunks q'.queue + (if allocated && not sent then suc k else k)
    queued false sent = e
    queued true true =
        omega (arith, e, n_chunks-append q.queue (write offset (take len bytes) ∷ []))
    queued true false = omega (arith, e)

module _ {Flash Desc : Type 0} (fds : Fds Flash Desc)
    (verify_success2 : Status → (next fail : Outcome Flash) → Outcome Flash) (crc16 : List ℕ → ℕ)
    (max_words fuel : ℕ) (conn_rate : Status) (set_config : DmxConfig → Status)
    (explore : ExplorerCmd → ℕ → ℕ → Thread Flash → Thread Flash) where
  abbrev inbox_or : Inbox → Option (Inbox × Thread Flash) → Inbox
  inbox_or q none = q
  inbox_or q (some p) = p.0

  -- A pass of the thread keeps that number: it frees the block of the chunk that it wrote, and no other.
  pub pass-blocks :
      (actions : List QueuedAction) (blocks k : ℕ) (q' : Inbox) (t t' : Thread Flash)
      → pass fds verify_success2 crc16 max_words fuel conn_rate set_config explore
          (record { queue = actions; blocks = blocks })
          t
        ≡ some (q', t')
      → blocks ≡ n_chunks actions + k
      → q'.blocks ≡ n_chunks q'.queue + k
  unfolding pass
  pass-blocks [] blocks k q' t t' r e =
      let q : Inbox = record { queue = []; blocks = blocks } in
      subst (λ (i : Inbox). i.blocks ≡ n_chunks i.queue + k) (ap (inbox_or q) r) e
  pass-blocks (actn ∷ rest) blocks k q' t t' r e =
      let q : Inbox = record { queue = actn ∷ rest; blocks = blocks } in
      let done =
        Option-cases
          (serve fds verify_success2 crc16 max_words fuel conn_rate set_config explore actn t) in
      elim done [
        | inl stuck ↦ absurd (none-ne-some (sym (rw (pass, stuck) refl) ∙ r))
        | inr (t1, served) ↦
            let own : ℕ = t1.states_queued - t.states_queued in
            let next : Inbox = record {
              queue = rest ++ replicate own send_state;
              blocks = blocks - n_chunks (actn ∷ []);
            } in
            elim (Bool-cases (own == 0 || leb (length rest + own) queue_length)) [
              | inr full ↦ absurd (none-ne-some (sym (rw (pass, served, full) refl) ∙ r))
              | inl room ↦
                  let passed : pass fds verify_success2 crc16 max_words fuel conn_rate set_config
                        explore q t
                      ≡ some (next, t1) =
                    rw (pass, served, room) refl in
                  let same : next ≡ q' = ap (inbox_or q) (sym passed ∙ r) in
                  subst (λ (i : Inbox). i.blocks ≡ n_chunks i.queue + k) same
                    (omega (
                      arith,
                      e,
                      n_chunks-add actn rest,
                      n_chunks-append rest (replicate own send_state),
                      n_chunks-states own,
                    ))
            ]
      ]
