-- ===== src/Userapp/Flash/Chain.antt =====
-- The records of an application in flash: consecutive keys from a first one on.
use ledfw_lib.Common.{
  ℕ, suc, ◌+◌, ◌*◌, ◌≤◌, ◌<◌, ◌≡◌, ◌≢◌, refl, sym, ap, ◌∙◌, Option, none, some, List, [], ◌∷◌, ◌++◌,
  append_assoc, length, length-append,
}
use Prim.{Unit}
use mathlib.Core.Path.{subst}
use native.Mathlib.Omega.{arith}
use ledfw_lib.Userapp.Flash.{FlashRecord, code_crc}

-- The contents of the flash
abbrev pub Lookup : Type 0
Lookup = ℕ → Option FlashRecord

pub record IsRecord (r : FlashRecord) : Type 0 where
  pub some_words : 1 ≤ r.length_words
  pub size : length r.data_bytes ≡ 4 * r.length_words

abbrev pub total : List FlashRecord → ℕ
total [] = 0
total (r ∷ rs) = r.length_words + total rs

abbrev pub joined : List FlashRecord → List ℕ
joined [] = []
joined (r ∷ rs) = r.data_bytes ++ joined rs

-- The records `rs` lie at the keys from `k` on.
unfoldable pub Seg : Lookup → ℕ → List FlashRecord → Type 0
Seg v k [] = Unit
Seg v k (r ∷ rs) = (v k ≡ some r) × IsRecord r × Seg v (suc k) rs

-- No key from `k` up to that of the CRC has a record.
unfoldable pub End : Lookup → ℕ → Type 0
End v k = (j : ℕ) → k ≤ j → j < code_crc → v j ≡ none

-- Flash holds `rs` from `k` on, and nothing behind them.
pub record Chain (v : Lookup) (k : ℕ) (rs : List FlashRecord) : Type 0 where
  pub seg : Seg v k rs
  pub end_of : End v (k + length rs)

pub Seg-ext :
    (v v' : Lookup) (k : ℕ) (rs : List FlashRecord)
    → ((j : ℕ) → k ≤ j → j < k + length rs → v' j ≡ v j)
    → Seg v k rs
    → Seg v' k rs
unfolding Seg
Seg-ext v v' k [] h s = s
Seg-ext v v' k (r ∷ rs) h (e, w, s) = (
  h k (omega arith) (omega arith) ∙ e,
  w,
  Seg-ext v v' (suc k) rs (λ j a b. h j (omega arith) (omega arith)) s,
)

pub Seg-append :
    (v : Lookup) (k j : ℕ) (rs ts : List FlashRecord)
    → j ≡ k + length rs
    → Seg v k rs
    → Seg v j ts
    → Seg v k (rs ++ ts)
unfolding Seg
Seg-append v k j [] ts e s t = subst (λ i. Seg v i ts) (omega arith) t
Seg-append v k j (r ∷ rs) ts e (f, w, s) t = (f, w, Seg-append v (suc k) j rs ts (omega arith) s t)

pub total-append : (rs ts : List FlashRecord) → total (rs ++ ts) ≡ total rs + total ts
total-append [] ts = omega arith
total-append (r ∷ rs) ts = omega (arith, total-append rs ts)

pub joined-append : (rs ts : List FlashRecord) → joined (rs ++ ts) ≡ joined rs ++ joined ts
joined-append [] ts = refl
joined-append (r ∷ rs) ts =
    ap (λ l. r.data_bytes ++ l) (joined-append rs ts)
    ∙ sym (append_assoc r.data_bytes (joined rs) (joined ts))

-- Each record has a word or more, and four bytes for each word.
pub length-total :
    (v : Lookup) (k : ℕ) (rs : List FlashRecord)
    → Seg v k rs
    → (length rs ≤ total rs) × (length (joined rs) ≡ 4 * total rs)
unfolding Seg
length-total v k [] s = (omega arith, refl)
length-total v k (r ∷ rs) (e, w, s) =
    let rest = length-total v (suc k) rs s in
    (
      omega (arith, rest.0, w.some_words),
      omega (arith, rest.1, w.size, length-append r.data_bytes (joined rs)),
    )

pub Chain-ext :
    (v v' : Lookup) (k : ℕ) (rs : List FlashRecord)
    → k + total rs ≤ code_crc
    → ((j : ℕ) → k ≤ j → j < code_crc → v' j ≡ v j)
    → Chain v k rs
    → Chain v' k rs
unfolding End
Chain-ext v v' k rs room h c =
    let short = (length-total v k rs c.seg).0 in
    record {
      seg = Seg-ext v v' k rs (λ j a b. h j a (omega (arith, short))) c.seg;
      end_of = λ j a b. h j (omega arith) b ∙ c.end_of j a b;
    }

-- The chain behind the first record, and that behind none
pub Chain-rest :
    (v : Lookup) (k : ℕ) (r : FlashRecord) (rs : List FlashRecord)
    → Chain v k (r ∷ rs)
    → (v k ≡ some r) × IsRecord r × Chain v (suc k) rs
unfolding Seg End
Chain-rest v k r rs c =
    (c.seg.0, c.seg.1, record { seg = c.seg.2; end_of = λ j a b. c.end_of j (omega arith) b })

pub Chain-none : (v : Lookup) (k : ℕ) → Chain v k [] → k < code_crc → v k ≡ none
unfolding End
Chain-none v k c lt = c.end_of k (omega arith) lt

-- Nothing is behind a key that was the first free one.
pub Chain-skip :
    (v v' : Lookup) (k : ℕ) → ((j : ℕ) → j ≢ k → v' j ≡ v j) → Chain v k [] → Chain v' (suc k) []
unfolding Seg End
Chain-skip v v' k h c = record {
  seg = c.seg;
  end_of = λ j a b. h j (omega arith) ∙ c.end_of j (omega arith) b;
}

pub Chain-end :
    (v : Lookup) (k j : ℕ) (rs : List FlashRecord) → j ≡ k + length rs → Chain v k rs → Chain v j []
unfolding Seg End
Chain-end v k j rs e c = record { seg = record {}; end_of = λ i a b. c.end_of i (omega arith) b }

-- A chain that was put behind another
pub Chain-append :
    (v v' : Lookup) (k j : ℕ) (rs ts : List FlashRecord)
    → j ≡ k + length rs
    → Chain v k rs
    → Chain v' j ts
    → ((i : ℕ) → i < j → v' i ≡ v i)
    → Chain v' k (rs ++ ts)
unfolding End
Chain-append v v' k j rs ts e c d h = record {
  seg = Seg-append v' k j rs ts e (Seg-ext v v' k rs (λ i a b. h i (omega arith)) c.seg) d.seg;
  end_of = λ i a b. d.end_of i (omega (arith, length-append rs ts)) b;
}
