-- ===== src/Lock/Exclusion.antt =====
-- At most one guard at a time gives access to the data of a lock.
use ledfw_lib.Common.{
  ℕ, zero, suc, ◌+◌, ◌≤◌, ◌<◌, ◌≡◌, ◌≢◌, refl, ap, arith, Bool-cases, none, some, inl, inr, List,
  [], ◌∷◌, ◌++◌, ◌==◌, ltb, if◌then◌else◌, get_or, set, length,
}
use ledfw_lib.Lock.{
  Guard, World, no_guard, take, destroy, as_ptr, Op, construct, takes, destroys, step, run, start,
}

-- Whether a guard has mutex `m`, and how many of a list have it
unfoldable pub holding : ℕ → Guard → ℕ
holding m g = elim g.mutex [ none ↦ 0 | some k ↦ if k == m then 1 else 0 ]

unfoldable pub holders : ℕ → List Guard → ℕ
holders m [] = 0
holders m (g ∷ gs) = holding m g + holders m gs

abbrev pub free_count : World → ℕ → ℕ
free_count w m = if w.is_free m then 1 else 0

pub holders-append_none :
    (m : ℕ) (gs : List Guard) → holders m (gs ++ (no_guard ∷ [])) ≡ holders m gs
unfolding holders holding
holders-append_none m [] = refl
holders-append_none m (g ∷ gs) = ap (λ n. holding m g + n) (holders-append_none m gs)

-- A guard that is replaced trades what it held.
pub holders-set :
    (m i : ℕ) (gs : List Guard) (g : Guard)
    → i < length gs
    → holders m (set gs i g) + holding m (get_or gs i no_guard) ≡ holders m gs + holding m g
unfolding holders
holders-set m i [] g h = absurd (omega arith)
holders-set m zero (x ∷ gs) g h = omega arith
holders-set m (suc i) (x ∷ gs) g h = omega (arith, holders-set m i gs g (omega arith))

pub holding-le-holders :
    (m i : ℕ) (gs : List Guard) → holding m (get_or gs i no_guard) ≤ holders m gs
unfolding holders holding
holding-le-holders m i [] = omega arith
holding-le-holders m zero (x ∷ gs) = omega arith
holding-le-holders m (suc i) (x ∷ gs) = omega (arith, holding-le-holders m i gs)

two_holders :
    (m i j : ℕ) (gs : List Guard)
    → i ≢ j
    → holding m (get_or gs i no_guard) + holding m (get_or gs j no_guard) ≤ holders m gs
unfolding holders holding
two_holders m i j [] h = omega arith
two_holders m zero zero (x ∷ gs) h = absurd (h refl)
two_holders m zero (suc j) (x ∷ gs) h = omega (arith, holding-le-holders m j gs)
two_holders m (suc i) zero (x ∷ gs) h = omega (arith, holding-le-holders m i gs)
two_holders m (suc i) (suc j) (x ∷ gs) h = omega (arith, two_holders m i j gs (λ e. h (ap suc e)))

pub holding_self : (m : ℕ) (g : Guard) → g.mutex ≡ some m → holding m g ≡ 1
unfolding holding
holding_self m g e = ground arith

-- A mutex is free or at most one guard has it.
abbrev pub IsExclusive : World → Type 0
IsExclusive w = (m : ℕ) → holders m w.guards + free_count w m ≤ 1

pub take-IsExclusive :
    (m i : ℕ) (w : World) → i < length w.guards → IsExclusive w → IsExclusive (take m i w).1
unfolding take holding
take-IsExclusive m i w there v k =
    ground (arith, v k, holders-set k i w.guards (record { mutex = some m }) there)

pub get_or-above : (gs : List Guard) (i : ℕ) → length gs ≤ i → get_or gs i no_guard ≡ no_guard
get_or-above [] i h = refl
get_or-above (g ∷ gs) zero h = absurd (omega arith)
get_or-above (g ∷ gs) (suc i) h = get_or-above gs i (omega arith)

pub destroy-above : (i : ℕ) (w : World) → length w.guards ≤ i → destroy i w ≡ w
unfolding destroy
destroy-above i w h = rw (destroy, get_or-above w.guards i h) refl

pub destroy-IsExclusive : (i : ℕ) (w : World) → IsExclusive w → IsExclusive (destroy i w)
unfolding destroy holding
destroy-IsExclusive i w v k = elim (Bool-cases (ltb i (length w.guards))) [
  | inl there ↦ ground (arith, v k, holders-set k i w.guards no_guard (ground arith))
  | inr missing ↦ rw (destroy-above i w (ground arith)) (v k)
]

pub step-IsExclusive : (op : Op) (w : World) → IsExclusive w → IsExclusive (step op w)
unfolding step
step-IsExclusive construct w v k = omega (arith, v k, holders-append_none k w.guards)
step-IsExclusive (takes m i) w v k = elim (Bool-cases (ltb i (length w.guards))) [
  | inl there ↦ rw there (take-IsExclusive m i w (ground arith) v k)
  | inr missing ↦ rw missing (v k)
]
step-IsExclusive (destroys i) w v k = destroy-IsExclusive i w v k

pub run-IsExclusive : (ops : List Op) (w : World) → IsExclusive w → IsExclusive (run ops w)
unfolding run
run-IsExclusive [] w v = v
run-IsExclusive (op ∷ ops) w v = run-IsExclusive ops (step op w) (step-IsExclusive op w v)

pub start-IsExclusive : IsExclusive start
unfolding start holders
start-IsExclusive m = omega arith

-- Whatever tasks and interrupts do with any locks and guards, in any order, two guards never give access to the
-- data of one lock at once.
pub guards_exclusive :
    (ops : List Op) (m i j : ℕ)
    → i ≢ j
    → as_ptr i (run ops start) ≡ some m
    → as_ptr j (run ops start) ≢ some m
unfolding as_ptr
guards_exclusive ops m i j ne hi hj =
    let w : World = run ops start in
    omega (
      arith,
      run-IsExclusive ops start start-IsExclusive m,
      two_holders m i j w.guards ne,
      holding_self m (get_or w.guards i no_guard) hi,
      holding_self m (get_or w.guards j no_guard) hj,
    )
