-- ===== src/Dmx/RdmCheck.antt =====
-- The validation of RDM packets.
use ledfw_lib.Common.{
  ℕ, zero, suc, ◌+◌, ◌-◌, ◌%◌, ◌≤◌, ◌<◌, ◌≡◌, refl, ap, sym, ◌⊎◌, ◌∙◌, true, ◌&&◌, ◌||◌, Bool-cases,
  inl, inr, List, [], ◌∷◌, ◌++◌, leb, ◌==◌, length, length-append, get_or,
}
use mathlib.Core.Path.{ap₂}
use native.Mathlib.Omega.{arith}
use ledfw_lib.Dmx.{message, rdm, accepted, matches, broadcast_uid, checksum, is_rdm, rdm_check}

abbrev pub sum : List ℕ → ℕ
sum [] = 0
sum (x ∷ xs) = x + sum xs

-- `xs` stands in `rx` from index `at` on.
abbrev pub IsAt : List ℕ → ℕ → List ℕ → Type 0
IsAt rx at xs = (i k : ℕ) → i < length xs → k ≡ at + i → get_or rx k 0 ≡ get_or xs i 0

IsAt-tail : (rx : List ℕ) (at x : ℕ) (xs : List ℕ) → IsAt rx at (x ∷ xs) → IsAt rx (suc at) xs
IsAt-tail rx at x xs h i k lt e = h (suc i) k (omega arith) (omega arith)

IsAt-append :
    (front xs back : List ℕ) (at : ℕ) → at ≡ length front → IsAt (front ++ (xs ++ back)) at xs
IsAt-append [] [] back at e i k lt f = absurd (omega arith)
IsAt-append [] (x ∷ xs) back at e zero zero lt f = refl
IsAt-append [] (x ∷ xs) back at e zero (suc k) lt f = absurd (omega arith)
IsAt-append [] (x ∷ xs) back at e (suc i) zero lt f = absurd (omega arith)
IsAt-append [] (x ∷ xs) back at e (suc i) (suc k) lt f =
    IsAt-append [] xs back 0 refl i k (omega arith) (omega arith)
IsAt-append (y ∷ front) xs back at e i zero lt f = absurd (omega arith)
IsAt-append (y ∷ front) xs back at e i (suc k) lt f =
    IsAt-append front xs back (length front) refl i k lt (omega arith)

IsAt-self : (xs : List ℕ) → IsAt xs 0 xs
IsAt-self xs i k lt e = ap (λ j. get_or xs j 0) (omega (arith, e))

IsAt-skip :
    (front rx xs : List ℕ) (at to : ℕ)
    → IsAt rx at xs
    → to ≡ length front + at
    → IsAt (front ++ rx) to xs
IsAt-skip [] rx xs at to h f i k lt e = h i k lt (omega arith)
IsAt-skip (y ∷ front) rx xs at to h f i zero lt e = absurd (omega arith)
IsAt-skip (y ∷ front) rx xs at zero h f i (suc k) lt e = absurd (omega arith)
IsAt-skip (y ∷ front) rx xs at (suc to) h f i (suc k) lt e =
    IsAt-skip front rx xs at to h (omega arith) i k lt (omega arith)

-- What stands in a list stands at the same place in a longer one.
get_or-left : (rx back : List ℕ) (k : ℕ) → k < length rx → get_or (rx ++ back) k 0 ≡ get_or rx k 0
get_or-left [] back k lt = absurd (omega arith)
get_or-left (x ∷ rx) back zero lt = refl
get_or-left (x ∷ rx) back (suc k) lt = get_or-left rx back k (omega arith)

IsAt-left :
    (rx back xs : List ℕ) (at : ℕ)
    → IsAt rx at xs
    → at + length xs ≤ length rx
    → IsAt (rx ++ back) at xs
IsAt-left rx back xs at h fits i k lt e = get_or-left rx back k (omega arith) ∙ h i k lt e

-- The loop adds up the bytes modulo 2^16.
checksum-eq :
    (rx xs : List ℕ) (n at acc : ℕ)
    → n ≡ length xs
    → IsAt rx at xs
    → acc < 65536
    → checksum rx n at acc ≡ (acc + sum xs) % 65536
unfolding checksum
checksum-eq rx [] zero at acc e h lt = omega arith
checksum-eq rx [] (suc n) at acc e h lt = absurd (omega arith)
checksum-eq rx (x ∷ xs) zero at acc e h lt = absurd (omega arith)
checksum-eq rx (x ∷ xs) (suc n) at acc e h lt =
    let here : get_or rx at 0 ≡ x = h 0 at (omega arith) (omega arith) in
    let rest : checksum rx n (suc at) ((acc + x) % 65536) ≡ ((acc + x) % 65536 + sum xs) % 65536 =
      checksum-eq rx xs n (suc at) ((acc + x) % 65536) (omega arith) (IsAt-tail rx at x xs h)
        (omega arith) in
    let wrap : ((acc + x) % 65536 + sum xs) % 65536 ≡ (acc + (x + sum xs)) % 65536 = omega arith in
    rw here (rest ∙ wrap)

matches-IsAt : (rx uid : List ℕ) (at : ℕ) → IsAt rx at uid → matches rx at uid ≡ true
unfolding matches
matches-IsAt rx [] at h = refl
matches-IsAt rx (u ∷ us) at h =
    let here : (get_or rx at 0 == u) ≡ true = ground (arith, h 0 at (omega arith) (omega arith)) in
    rw here (matches-IsAt rx us (suc at) (IsAt-tail rx at u us h))

-- A packet: start code, sub-start code, message length, destination, the fourteen bytes up to the parameter
-- data length, that length, the data, and the checksum.
abbrev pub checked : (uid body data' : List ℕ) → List ℕ
checked uid body data' =
    rdm ∷ message ∷ (24 + length data') ∷ (uid ++ (body ++ (length data' ∷ data')))

abbrev pub packet : (uid body data' : List ℕ) → (hi lo : ℕ) → List ℕ
packet uid body data' hi lo = checked uid body data' ++ (hi ∷ lo ∷ [])

-- What the check accepts: a message packet of the right length, whose checksum is the sum of its bytes and
-- whose parameter data fills it. The checksum stands within the bytes received.
pub record IsAccepted (big_decode : ℕ → ℕ → ℕ) (nread : ℕ) (rx : List ℕ) : Type 0 where
  pub lower : 26 ≤ nread
  pub upper : nread ≤ 257
  pub start : get_or rx 0 0 ≡ rdm
  pub in_range : get_or rx 2 0 + 2 ≡ nread
  pub data_length : get_or rx 23 0 + 26 ≡ nread
  pub sums :
      big_decode (get_or rx (get_or rx 2 0) 0) (get_or rx (suc (get_or rx 2 0)) 0)
      ≡ checksum rx (get_or rx 2 0) 0 0

rdm_check-accepted :
    (big_decode : ℕ → ℕ → ℕ) (uid : List ℕ) (nread : ℕ) (rx : List ℕ)
    → rdm_check big_decode uid nread rx ≡ accepted
    → (is_rdm uid nread rx ≡ true)
      × ((big_decode (get_or rx (get_or rx 2 0) 0) (get_or rx (suc (get_or rx 2 0)) 0)
            == checksum rx (get_or rx 2 0) 0 0)
          ≡ true)
      × ((get_or rx 23 0 == nread - 26) ≡ true)
unfolding rdm_check
rdm_check-accepted big_decode uid nread rx =
    let ofs = get_or rx 2 0 in
    elim (Bool-cases (is_rdm uid nread rx)) [
      | inr e ↦ rw e (λ h. absurd cc)
      | inl e ↦
          elim (Bool-cases
            (big_decode (get_or rx ofs 0) (get_or rx (suc ofs) 0) == checksum rx ofs 0 0)) [
              | inr f ↦ rw (e, f) (λ h. absurd cc)
              | inl f ↦ elim (Bool-cases (get_or rx 23 0 == nread - 26)) [
                | inr g ↦ rw (e, f, g) (λ h. absurd cc)
                | inl g ↦ λ h. (e, f, g)
              ]
            ]
    ]

-- A packet that is accepted satisfies all of these.
pub rdm_check-IsAccepted :
    (big_decode : ℕ → ℕ → ℕ) (uid : List ℕ) (nread : ℕ) (rx : List ℕ)
    → rdm_check big_decode uid nread rx ≡ accepted
    → IsAccepted big_decode nread rx
unfolding is_rdm
rdm_check-IsAccepted big_decode uid nread rx h =
    let a = rdm_check-accepted big_decode uid nread rx h in gate a.0 a.1 a.2
  where
    gate :
        is_rdm uid nread rx ≡ true
        → (big_decode (get_or rx (get_or rx 2 0) 0) (get_or rx (suc (get_or rx 2 0)) 0)
            == checksum rx (get_or rx 2 0) 0 0)
          ≡ true
        → (get_or rx 23 0 == nread - 26) ≡ true
        → IsAccepted big_decode nread rx
    gate a b c =
        let a' : (leb 26 nread
              && leb nread 257
              && get_or rx 0 0 == rdm
              && get_or rx 1 0 == message
              && get_or rx 2 0 == nread - 2
              && (matches rx 3 uid || matches rx 3 broadcast_uid))
            ≡ true =
          a in
        record {
          lower = ground arith;
          upper = ground arith;
          start = ground arith;
          in_range = ground arith;
          data_length = ground arith;
          sums = ground arith;
        }

rdm_check-good :
    (big_decode : ℕ → ℕ → ℕ) (uid : List ℕ) (nread : ℕ) (rx : List ℕ)
    → is_rdm uid nread rx ≡ true
    → big_decode (get_or rx (get_or rx 2 0) 0) (get_or rx (suc (get_or rx 2 0)) 0)
      ≡ checksum rx (get_or rx 2 0) 0 0
    → get_or rx 23 0 ≡ nread - 26
    → rdm_check big_decode uid nread rx ≡ accepted
unfolding rdm_check
rdm_check-good big_decode uid nread rx a b c =
    let ofs = get_or rx 2 0 in
    let b' : (big_decode (get_or rx ofs 0) (get_or rx (suc ofs) 0) == checksum rx ofs 0 0) ≡ true =
      ground (arith, b) in
    let c' : (get_or rx 23 0 == nread - 26) ≡ true = ground (arith, c) in rw (a, b', c') refl

is_rdm-good :
    (uid : List ℕ) (nread : ℕ) (rx : List ℕ)
    → 26 ≤ nread
    → nread ≤ 257
    → get_or rx 0 0 ≡ rdm
    → get_or rx 1 0 ≡ message
    → get_or rx 2 0 + 2 ≡ nread
    → (matches rx 3 uid ≡ true) ⊎ (matches rx 3 broadcast_uid ≡ true)
    → is_rdm uid nread rx ≡ true
unfolding is_rdm
is_rdm-good uid nread rx a b c d e (inl f) = ground arith
is_rdm-good uid nread rx a b c d e (inr f) = ground arith

-- A packet whose destination is this device or all devices, with fourteen bytes up to its parameter data
-- length, at most 231 bytes of data and the sum of its bytes modulo 2^16 as its checksum, is accepted.
pub rdm_check-packet :
    (big_decode : ℕ → ℕ → ℕ) (uid dest body data' : List ℕ) (hi lo : ℕ)
    → (dest ≡ uid) ⊎ (dest ≡ broadcast_uid)
    → length dest ≡ 6
    → length body ≡ 14
    → length data' ≤ 231
    → big_decode hi lo ≡ sum (checked dest body data') % 65536
    → rdm_check big_decode uid
        (length (packet dest body data' hi lo))
        (packet dest body data' hi lo)
      ≡ accepted
rdm_check-packet big_decode uid dest body data' hi lo d u b l s =
    let m : ℕ = length data' in
    let xs = checked dest body data' in
    let rx = packet dest body data' hi lo in
    let tail : List ℕ = m ∷ data' in
    let n2 : length (body ++ tail) ≡ 15 + m = omega (arith, length-append body tail) in
    let n1 : length (dest ++ (body ++ tail)) ≡ 21 + m =
      omega (arith, length-append dest (body ++ tail), n2) in
    let n : length xs ≡ 24 + m = omega (arith, n1) in
    let nread : length rx ≡ 26 + m = omega (arith, length-append xs (hi ∷ lo ∷ []), n) in
    let sent : IsAt rx (24 + m) (hi ∷ lo ∷ []) =
      IsAt-skip xs (hi ∷ lo ∷ []) (hi ∷ lo ∷ []) 0 (24 + m) (IsAt-self (hi ∷ lo ∷ []))
        (omega (arith, n)) in
    let rest : IsAt (dest ++ (body ++ tail)) 20 tail =
      IsAt-skip dest (body ++ tail) tail 14 20
        (IsAt-skip body tail tail 0 14 (IsAt-self tail) (omega arith)) (omega arith) in
    let pdl : get_or rx 23 0 ≡ m =
      IsAt-left xs (hi ∷ lo ∷ []) tail 23
        (IsAt-skip (rdm ∷ message ∷ (24 + m) ∷ []) (dest ++ (body ++ tail)) tail 20 23 rest
          (omega arith))
        (omega (arith, n)) 0 23 (omega arith) (omega arith) in
    let addressed : IsAt rx 3 dest =
      IsAt-left xs (hi ∷ lo ∷ []) dest 3
        (IsAt-append (rdm ∷ message ∷ (24 + m) ∷ []) dest (body ++ tail) 3 refl)
        (omega (arith, n)) in
    let sums : checksum rx (24 + m) 0 0 ≡ (0 + sum xs) % 65536 =
      checksum-eq rx xs (24 + m) 0 0 (sym n)
        (IsAt-left xs (hi ∷ lo ∷ []) xs 0 (IsAt-self xs) (omega arith)) (omega arith) in
    let to_us : (matches rx 3 uid ≡ true) ⊎ (matches rx 3 broadcast_uid ≡ true) = elim d [
      | inl e ↦ inl (ap (λ v. matches rx 3 v) (sym e) ∙ matches-IsAt rx dest 3 addressed)
      | inr e ↦ inr (ap (λ v. matches rx 3 v) (sym e) ∙ matches-IsAt rx dest 3 addressed)
    ] in
    rdm_check-good big_decode uid (length rx) rx
      (is_rdm-good uid (length rx) rx (omega (arith, nread)) (omega (arith, nread)) refl refl
        (omega (arith, nread)) to_us)
      (ap₂ big_decode (sent 0 (24 + m) (omega arith) (omega arith))
          (sent 1 (suc (24 + m)) (omega arith) (omega arith))
        ∙ s
        ∙ omega (arith, sums))
      (omega (arith, pdl, nread))
