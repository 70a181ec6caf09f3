-- ===== src/Lock/Lost.antt =====
-- Guards that are used for one lock after the other: what is given back, and what is not.
use ledfw_lib.Common.{
  ℕ, suc, ◌+◌, ◌<◌, ◌≡◌, ◌≢◌, refl, arith, true, false, Bool-cases, none, some, inl, inr, List, [],
  ◌∷◌, ltb, get_or, length,
}
use ledfw_lib.Lock.{
  Guard, World, no_guard, take, destroy, as_ptr, Op, construct, takes, destroys, step, run, start,
}
use ledfw_lib.Lock.Exclusion.{
  holding, holders, holders-append_none, holders-set, holding_self, holding-le-holders, free_count,
  get_or-above, destroy-above, run-IsExclusive, start-IsExclusive,
}

-- No take is given a guard that still has a mutex.
abbrev pub Fresh : List Op → World → Type 0
Fresh [] w = Unit {0}
Fresh (construct ∷ ops) w = Fresh ops (step construct w)
Fresh (takes m i ∷ ops) w = (as_ptr i w ≡ none) × Fresh ops (step (takes m i) w)
Fresh (destroys i ∷ ops) w = Fresh ops (step (destroys i) w)

abbrev pub IsWhole : World → Type 0
IsWhole w = (m : ℕ) → holders m w.guards + free_count w m ≡ 1

take-IsWhole :
    (m i : ℕ) (w : World)
    → i < length w.guards
    → as_ptr i w ≡ none
    → IsWhole w
    → IsWhole (take m i w).1
unfolding take holding as_ptr
take-IsWhole m i w there fresh v k =
    ground (arith, v k, holders-set k i w.guards (record { mutex = some m }) there)

destroy-IsWhole : (i : ℕ) (w : World) → IsWhole w → IsWhole (destroy i w)
unfolding destroy holding
destroy-IsWhole i w v k = elim (Bool-cases (ltb i (length w.guards))) [
  | inl there ↦ ground (
    arith,
    v k,
    holders-set k i w.guards no_guard (ground arith),
    holding-le-holders k i w.guards,
  )
  | inr missing ↦ rw (destroy-above i w (ground arith)) (v k)
]

run-IsWhole : (ops : List Op) (w : World) → Fresh ops w → IsWhole w → IsWhole (run ops w)
unfolding run step
run-IsWhole [] w f v = v
run-IsWhole (construct ∷ ops) w f v =
    run-IsWhole ops (step construct w) f (λ k. omega (arith, v k, holders-append_none k w.guards))
run-IsWhole (takes m i ∷ ops) w f v = run-IsWhole ops (step (takes m i) w) f.1 λ k.
    elim (Bool-cases (ltb i (length w.guards))) [
      | inl there ↦ rw there (take-IsWhole m i w (ground arith) f.0 v k)
      | inr missing ↦ rw missing (v k)
    ]
run-IsWhole (destroys i ∷ ops) w f v =
    run-IsWhole ops (step (destroys i) w) f (destroy-IsWhole i w v)

start-IsWhole : IsWhole start
unfolding start holders
start-IsWhole m = omega arith

holders-none :
    (m : ℕ) (gs : List Guard) → ((i : ℕ) → (get_or gs i no_guard).mutex ≢ some m) → holders m gs ≡ 0
unfolding holders holding
holders-none m [] h = refl
holders-none m (g ∷ gs) h = ground (arith, h 0, holders-none m gs (λ i. h (suc i)))

-- If no take is given a guard that has a mutex, then however tasks and interrupts interleave, a mutex that no
-- guard has is free, so that the next take succeeds.
pub unheld-free :
    (ops : List Op) (m i : ℕ)
    → Fresh ops start
    → ((j : ℕ) → as_ptr j (run ops start) ≢ some m)
    → (take m i (run ops start)).0 ≡ true
unfolding take as_ptr
unheld-free ops m i f h =
    let w : World = run ops start in
    ground (arith, run-IsWhole ops start f start-IsWhole m, holders-none m w.guards h)

-- A mutex that is neither free nor held
abbrev IsDead : ℕ → World → Type 0
IsDead m w = holders m w.guards + free_count w m ≡ 0

step-IsDead : (op : Op) (m : ℕ) (w : World) → IsDead m w → IsDead m (step op w)
unfolding step take destroy holding
step-IsDead construct m w v = omega (arith, v, holders-append_none m w.guards)
step-IsDead (takes k i) m w v =
    ground (arith, v, holders-set m i w.guards (record { mutex = some k }))
step-IsDead (destroys i) m w v = elim (Bool-cases (ltb i (length w.guards))) [
  | inl there ↦
      ground (
        arith,
        v,
        holders-set m i w.guards no_guard (ground arith),
        holding-le-holders m i w.guards,
      )
  | inr missing ↦ rw (destroy-above i w (ground arith)) v
]

run-IsDead : (ops : List Op) (m : ℕ) (w : World) → IsDead m w → IsDead m (run ops w)
unfolding run
run-IsDead [] m w v = v
run-IsDead (op ∷ ops) m w v = run-IsDead ops m (step op w) (step-IsDead op m w v)

-- If a guard that has a mutex takes another lock, the first one is lost: whatever happens afterwards, no take of
-- it succeeds again.
pub take-loses :
    (ops later : List Op) (m k i j : ℕ)
    → as_ptr i (run ops start) ≡ some m
    → (take k i (run ops start)).0 ≡ true
    → (take m j (run later (step (takes k i) (run ops start)))).0 ≡ false
unfolding take as_ptr step holding
take-loses ops later m k i j held taken =
    let w : World = run ops start in
    let dead : IsDead m (step (takes k i) w) = ground (
      arith,
      run-IsExclusive ops start start-IsExclusive m,
      holding_self m (get_or w.guards i no_guard) held,
      holding-le-holders m i w.guards,
      holders-set m i w.guards (record { mutex = some k }),
      get_or-above w.guards i,
    ) in
    ground (arith, run-IsDead later m (step (takes k i) w) dead)
