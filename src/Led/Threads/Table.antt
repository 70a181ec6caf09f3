-- ===== src/Led/Threads/Table.antt =====
-- What `resume_all` resumes after a sequence of `init` calls.
use ledfw_lib.Common.{
  ℕ, zero, suc, ◌+◌, ◌-◌, ◌≤◌, ◌<◌, ◌≡◌, refl, ap, ◌∙◌, true, Bool-cases, inl, inr, Option, none,
  some, List, [], ◌∷◌, ltb, leb, if◌then◌else◌, length, get_or, set, replicate, length-set,
  length-replicate, get_or-set_self, get_or-set_ne, tabulate, tabulate_ext, tabulate-get_or, cong,
}
use native.Mathlib.Omega.{arith}
use ledfw_lib.Led.Threads.{Threads, initial, init, resume_from, resume_all}

abbrev pub init_all : ℕ → List (Option ℕ) → Threads → Threads
init_all max [] t = t
init_all max (c ∷ cs) t = init_all max cs (init max c t).1

-- The entries after the calls `cs`.
record Holds (max : ℕ) (cs : List (Option ℕ)) (t u : Threads) : Type 0 where
  count : u.n_led_threads ≡ t.n_led_threads + length cs
  size : length u.led_threads ≡ max
  old : (i : ℕ) → i < t.n_led_threads → get_or u.led_threads i none ≡ get_or t.led_threads i none
  new :
      (i : ℕ)
      → i < length cs
      → t.n_led_threads + i < max
      → get_or u.led_threads (t.n_led_threads + i) none ≡ get_or cs i none

store-Holds :
    (max : ℕ) (c : Option ℕ) (t : Threads) (k : ℕ)
    → length t.led_threads ≡ max
    → k ≡ t.n_led_threads
    → k < max
    → Holds max
        (c ∷ [])
        t
        (record { n_led_threads = suc t.n_led_threads; led_threads = set t.led_threads k c })
store-Holds max c t k e q lt = record {
  count = omega arith;
  size = length-set t.led_threads k c ∙ e;
  old = λ i below. get_or-set_ne t.led_threads k i c none (λ f. absurd (omega (arith, f)));
  new = λ i below r. here i (omega arith);
}
  where
    here :
        (i : ℕ)
        → i ≡ 0
        → get_or (set t.led_threads k c) (t.n_led_threads + i) none ≡ get_or (c ∷ []) i none
    here zero f =
        cong (λ j. get_or (set t.led_threads k c) j none) (omega arith)
        ∙ get_or-set_self t.led_threads k c none (omega arith)
    here (suc i) f = absurd (omega arith)

init-Holds :
    (max : ℕ) (c : Option ℕ) (t : Threads)
    → length t.led_threads ≡ max
    → Holds max (c ∷ []) t (init max c t).1
unfolding init
init-Holds max c t e = elim (Bool-cases (ltb max (suc t.n_led_threads))) [
  | inl f ↦
      rw (f, init)
        (record {
          count = omega arith;
          size = e;
          old = λ i lt. refl;
          new = λ i lt r. absurd (ground arith);
        })
  | inr f ↦
      rw (f, init) (store-Holds max c t (suc t.n_led_threads - 1) e (omega arith) (ground arith))
]

init_all-Holds :
    (max : ℕ) (cs : List (Option ℕ)) (t : Threads)
    → length t.led_threads ≡ max
    → Holds max cs t (init_all max cs t)
init_all-Holds max [] t e = record {
  count = omega arith;
  size = e;
  old = λ i lt. refl;
  new = λ i lt r. absurd (omega arith);
}
init_all-Holds max (c ∷ cs) t e =
    let h = init-Holds max c t e in
    let g = init_all-Holds max cs (init max c t).1 h.size in
    record {
      count = omega (arith, g.count, h.count);
      size = g.size;
      old = λ i lt. g.old i (omega (arith, h.count)) ∙ h.old i lt;
      new = λ i. step h g i;
    }
  where
    step :
        Holds max (c ∷ []) t (init max c t).1
        → Holds max cs (init max c t).1 (init_all max cs (init max c t).1)
        → (i : ℕ) → i < length (c ∷ cs)
        → t.n_led_threads + i < max
        → get_or (init_all max (c ∷ cs) t).led_threads (t.n_led_threads + i) none
          ≡ get_or (c ∷ cs) i none
    step h g zero lt r =
        g.old (t.n_led_threads + 0) (omega (arith, h.count)) ∙ h.new 0 (omega arith) r
    step h g (suc i) lt r =
        cong (λ j. get_or (init_all max (c ∷ cs) t).led_threads j none) (omega (arith, h.count))
        ∙ g.new i (omega arith) (omega (arith, h.count))

resume_from-within :
    (threads : List (Option ℕ)) (n i : ℕ)
    → i + n ≤ length threads
    → resume_from threads n i ≡ some (tabulate n (λ j. get_or threads (i + j) none))
unfolding resume_from
resume_from-within threads zero i h = refl
resume_from-within threads (suc n) i h =
    let e : ltb i (length threads) ≡ true = ground arith in
    let same : tabulate n (λ j. get_or threads (suc i + j) none)
        ≡ tabulate n (λ j. get_or threads (i + suc j) none) =
      tabulate_ext n n _ _ refl (λ j lt. cong (λ k. get_or threads k none) (omega arith)) in
    let first : get_or threads i none ≡ get_or threads (i + 0) none =
      cong (λ k. get_or threads k none) (omega arith) in
    rw (e, resume_from-within threads n (suc i) (omega arith), same, first) refl

resume_from-beyond :
    (threads : List (Option ℕ)) (n i : ℕ)
    → length threads < i + n
    → 0 < n
    → resume_from threads n i ≡ none
unfolding resume_from
resume_from-beyond threads zero i h p = absurd (omega arith)
resume_from-beyond threads (suc n) i h p = elim (Bool-cases (ltb i (length threads))) [
  | inr e ↦ rw e refl
  | inl e ↦ rw (e, resume_from-beyond threads n (suc i) (omega arith) (ground arith)) refl
]

-- After a sequence of `init` calls, one per created handle, `resume_all` resumes every thread, in the
-- order of their calls, if there are at most `MAX_LED_CHANNELS`, whether or not their creation succeeded;
-- otherwise it reads past the end of the table.
pub resume_all-init_all :
    (max : ℕ) (cs : List (Option ℕ))
    → resume_all (init_all max cs (initial max)) ≡ (if leb (length cs) max then some cs else none)
unfolding resume_all initial
resume_all-init_all max cs =
    let start : Threads = record { n_led_threads = 0; led_threads = replicate max none } in
    let u = init_all max cs start in
    let h : Holds max cs start u = init_all-Holds max cs start (length-replicate max none) in
    let count : u.n_led_threads ≡ length cs = omega (arith, h.count) in
    elim (Bool-cases (leb (length cs) max)) [
      | inl e ↦ rw e (
          resume_from-within u.led_threads u.n_led_threads 0 (ground (arith, h.size, count))
          ∙ ap some (
              tabulate_ext u.n_led_threads (length cs) (λ j. get_or u.led_threads (0 + j) none)
                (λ j. get_or cs j none) count (λ i lt. h.new i lt (ground arith))
              ∙ tabulate-get_or cs none))
      | inr e ↦ rw e (
          resume_from-beyond u.led_threads u.n_led_threads 0 (ground (arith, h.size, count))
            (ground (arith, count)))
    ]
