-- ===== src/Gc/Peers.antt =====
-- How many peers are stored, when each connection may add one.
use ledfw_lib.Common.{
  ℕ, suc, ◌+◌, ◌-◌, ◌≤◌, ◌≡◌, refl, ap, ◌∙◌, arith, Bool, true, false, Option, none, some, List, [],
  ◌∷◌, ltb, if◌then◌else◌, success, Bool-cases, inl, inr, length, Status,
}
use ledfw_lib.Gc.{Gc, schedule_pm_gc, collect_peers, collect_fds, delete_oldest, gc_pass}

-- Connections that end, each with whether it bonded a new peer; a disconnection schedules the collection.
unfoldable pub connections : List Bool → Gc → Gc
connections [] g = g
connections (bonded ∷ rest) g =
    connections rest
      (schedule_pm_gc (record g { n_peers = if bonded then g.n_peers + 1 else g.n_peers }))

-- Groups of connections, with a pass of the task after each group. `ranks` and `deleted` are what `pm_peer_ranks_get`
-- and `pm_peer_delete` answer.
unfoldable pub rounds :
    (ranks deleted : Gc → Status) → (max_stored_peers : ℕ) → List (List Bool) → Gc → Option Gc
rounds ranks deleted max_stored_peers [] g = some g
rounds ranks deleted max_stored_peers (group ∷ rest) g =
    let g₁ = connections group g in
    elim (gc_pass max_stored_peers (ranks g₁) (deleted g₁) g₁) [
      | none ↦ none
      | some g' ↦ rounds ranks deleted max_stored_peers rest g'
    ]

-- How many of a group bonded
abbrev pub n_bonded : List Bool → ℕ
n_bonded [] = 0
n_bonded (true ∷ rest) = suc (n_bonded rest)
n_bonded (false ∷ rest) = n_bonded rest

-- The stored peers after groups of connections, by a count: after each group that has a connection the oldest peer
-- goes, if there are too many.
pub stored : (max_stored_peers : ℕ) → List (List Bool) → (n_peers : ℕ) → ℕ
stored max_stored_peers [] n = n
stored max_stored_peers ([] ∷ rest) n = stored max_stored_peers rest n
stored max_stored_peers ((b ∷ bs) ∷ rest) n =
    let m = n + n_bonded (b ∷ bs) in
    stored max_stored_peers rest (if ltb max_stored_peers m then m - 1 else m)

connections-n_peers :
    (bs : List Bool) (g : Gc) → (connections bs g).n_peers ≡ g.n_peers + n_bonded bs
unfolding connections schedule_pm_gc
connections-n_peers [] g = omega arith
connections-n_peers (true ∷ bs) g =
    omega (arith, connections-n_peers bs (schedule_pm_gc (record g { n_peers = g.n_peers + 1 })))
connections-n_peers (false ∷ bs) g = omega (arith, connections-n_peers bs (schedule_pm_gc g))

connections-notified :
    (bs : List Bool) (g : Gc) → g.notify_peers_gc ≡ true → (connections bs g).notify_peers_gc ≡ true
unfolding connections schedule_pm_gc
connections-notified [] g e = e
connections-notified (b ∷ bs) g e = connections-notified bs _ refl

connections-flag :
    (b : Bool) (bs : List Bool) (g : Gc) → (connections (b ∷ bs) g).notify_peers_gc ≡ true
unfolding connections schedule_pm_gc
connections-flag b bs g =
    connections-notified bs
      (schedule_pm_gc (record g { n_peers = if b then g.n_peers + 1 else g.n_peers })) refl

-- A pass after a group of connections
pass-stored :
    (max_stored_peers : ℕ) (group : List Bool) (g : Gc)
    → g.notify_peers_gc ≡ false
    → (g' : Gc) × (gc_pass max_stored_peers success success (connections group g) ≡ some g')
      × (g'.notify_peers_gc ≡ false)
      × (g'.n_peers ≡ stored max_stored_peers (group ∷ []) g.n_peers)
unfolding gc_pass collect_peers delete_oldest collect_fds stored
pass-stored max_stored_peers [] g e =
    let fetched : Gc = record g { notify_fds_gc = false; notify_peers_gc = false } in
    (
      collect_fds g.notify_fds_gc fetched,
      unfold connections in rw e refl,
      ground arith,
      ground arith,
    )
pass-stored max_stored_peers (b ∷ bs) g e =
    let c : Gc = connections (b ∷ bs) g in
    let flagged : c.notify_peers_gc ≡ true = connections-flag b bs g in
    let counted : c.n_peers ≡ g.n_peers + n_bonded (b ∷ bs) = connections-n_peers (b ∷ bs) g in
    let fetched : Gc = record c { notify_fds_gc = false; notify_peers_gc = false } in
    elim (Bool-cases (ltb max_stored_peers c.n_peers)) [
      | inl over ↦ (
        collect_fds c.notify_fds_gc (record fetched { n_peers = c.n_peers - 1 }),
        ground (arith, flagged, over),
        ground arith,
        ground (arith, counted, over),
      )
      | inr fits ↦ (
        collect_fds c.notify_fds_gc fetched,
        ground (arith, flagged, fits),
        ground arith,
        ground (arith, counted, fits),
      )
    ]

-- The peer manager finds the oldest peer and deletes it.
abbrev pub Succeeds : (Gc → Status) → Type 0
Succeeds answer = (g : Gc) → answer g ≡ success

rounds-stored :
    (ranks deleted : Gc → Status) (max_stored_peers : ℕ) (groups : List (List Bool)) (g : Gc)
    → Succeeds ranks
    → Succeeds deleted
    → g.notify_peers_gc ≡ false
    → (g' : Gc) × (rounds ranks deleted max_stored_peers groups g ≡ some g')
      × (g'.n_peers ≡ stored max_stored_peers groups g.n_peers)
unfolding rounds stored
rounds-stored ranks deleted m [] g a b e = (g, refl, refl)
rounds-stored ranks deleted m ([] ∷ rest) g a b e =
    let (g', p, q, n) = pass-stored m [] g e in
    let (h, r, k) = rounds-stored ranks deleted m rest g' a b q in
    (h, rw (rounds, a (connections [] g), b (connections [] g), p) r, k ∙ ap (stored m rest) n)
rounds-stored ranks deleted m ((x ∷ xs) ∷ rest) g a b e =
    let (g', p, q, n) = pass-stored m (x ∷ xs) g e in
    let (h, r, k) = rounds-stored ranks deleted m rest g' a b q in
    (
      h,
      rw (rounds, a (connections (x ∷ xs) g), b (connections (x ∷ xs) g), p) r,
      k ∙ ap (stored m rest) n,
    )

-- At most one new peer, or exactly two, in each group
abbrev pub OneEach : List (List Bool) → Type 0
OneEach [] = Unit {0}
OneEach (group ∷ rest) = (n_bonded group ≤ 1) × OneEach rest

abbrev pub TwoEach : List (List Bool) → Type 0
TwoEach [] = Unit {0}
TwoEach (group ∷ rest) = (n_bonded group ≡ 2) × TwoEach rest

stored-le :
    (m : ℕ) (groups : List (List Bool)) (n : ℕ) → OneEach groups → n ≤ m → stored m groups n ≤ m
unfolding stored
stored-le m [] n o h = h
stored-le m ([] ∷ rest) n o h = stored-le m rest n o.1 h
stored-le m ((b ∷ bs) ∷ rest) n o h = stored-le m rest _ o.1 (ground (arith, o.0))

stored-two :
    (m : ℕ) (groups : List (List Bool)) (n : ℕ)
    → TwoEach groups
    → m ≤ n
    → stored m groups n ≡ n + length groups
unfolding stored
stored-two m [] n o h = omega arith
stored-two m ([] ∷ rest) n o h = absurd (omega (arith, o.0))
stored-two m ((b ∷ bs) ∷ rest) n o h =
    let k : ℕ = n + n_bonded (b ∷ bs) in
    let over : ltb m k ≡ true = ground (arith, o.0) in
    rw over (omega (arith, stored-two m rest (k - 1) o.1 (omega (arith, o.0)), o.0))

-- If the peer manager always finds and deletes the oldest peer and at most one new peer is bonded between two passes
-- of the task, at most `max_stored_peers` are stored after each round, if no more were stored before.
pub rounds_bounded :
    (ranks deleted : Gc → Status) (max_stored_peers : ℕ) (groups : List (List Bool)) (g : Gc)
    → Succeeds ranks
    → Succeeds deleted
    → g.notify_peers_gc ≡ false
    → OneEach groups
    → g.n_peers ≤ max_stored_peers
    → (g' : Gc) × (rounds ranks deleted max_stored_peers groups g ≡ some g')
      × (g'.n_peers ≤ max_stored_peers)
rounds_bounded ranks deleted m groups g a b e one h =
    let (g', r, n) = rounds-stored ranks deleted m groups g a b e in
    (g', r, omega (arith, n, stored-le m groups g.n_peers one h))

-- A pass deletes one peer, however often it was asked for: if two new peers are bonded between any two passes, each
-- round leaves one peer more, without bound, also where the peer manager always finds and deletes the oldest peer.
pub rounds_grow :
    (ranks deleted : Gc → Status) (max_stored_peers : ℕ) (groups : List (List Bool)) (g : Gc)
    → Succeeds ranks
    → Succeeds deleted
    → g.notify_peers_gc ≡ false
    → TwoEach groups
    → max_stored_peers ≤ g.n_peers
    → (g' : Gc) × (rounds ranks deleted max_stored_peers groups g ≡ some g')
      × (g'.n_peers ≡ g.n_peers + length groups)
rounds_grow ranks deleted m groups g a b e two h =
    let (g', r, n) = rounds-stored ranks deleted m groups g a b e in
    (g', r, n ∙ stored-two m groups g.n_peers two h)
