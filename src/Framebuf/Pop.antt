-- ===== src/Framebuf/Pop.antt =====
-- `pop` of a frame buffer.
use ledfw_lib.Common.{
  ℕ, zero, suc, ◌+◌, ◌-◌, min, ◌≡◌, refl, ap, ◌∙◌, ◌⊎◌, inl, inr, Bool, true, false, not, ◌&&◌,
  some, List, [], ◌∷◌, ◌++◌, arith, ltb, Bool-cases, if◌then◌else◌, length, length-append,
  length-drop, take, drop, drop-append, Status, success, no_mem, null,
}
use ledfw_lib.Queue.Cases
use ledfw_lib.Queue.{Queue}
use ledfw_lib.Framebuf.{Framebuf, Popped, nothing, pop, pop_frame, is_empty, len}
use ledfw_lib.Framebuf.Frames.{Holds, bytes_of, lengths_of}

-- What is handed over and what is discarded make up the first frame.
drop-drop-append : (k m : ℕ) (xs ys : List ℕ) → k + m ≡ length xs → drop m (drop k (xs ++ ys)) ≡ ys
drop-drop-append zero m xs ys e = drop-append m xs ys (omega arith)
drop-drop-append (suc k) m [] ys e = absurd (omega arith)
drop-drop-append (suc k) m (x ∷ xs) ys e = drop-drop-append k m xs ys (omega arith)

take-min-append : (k m : ℕ) (xs ys : List ℕ) → m ≡ min k (length xs) → take m (xs ++ ys) ≡ take k xs
take-min-append zero zero xs ys e = refl
take-min-append zero (suc m) xs ys e = absurd (omega arith)
take-min-append (suc k) zero [] ys e = refl
take-min-append (suc k) (suc m) [] ys e = absurd (omega arith)
take-min-append (suc k) zero (x ∷ xs) ys e = absurd (omega arith)
take-min-append (suc k) (suc m) (x ∷ xs) ys e =
    ap (λ l. x ∷ l) (take-min-append k m xs ys (omega arith))

module _ {n_bytes n_frames : ℕ} (B : Queue ℕ n_bytes) (F : Queue ℕ n_frames) where
  -- The oldest frame leaves whole, and as much of it as the caller has room for is handed over.
  pub pop_spec : List (List ℕ) → Bool → ℕ → Status × Popped B F × List (List ℕ)
  pop_spec [] has_data n = (no_mem, nothing B F, [])
  pop_spec (x ∷ xs) has_data n = if ltb 0 n && not has_data then (null, nothing B F, x ∷ xs) else (
    success,
    record { bytes = take n x; data_len = some (min n (length x)); frame_len = some (length x) },
    xs,
  )

  -- The buffer after its oldest length is taken, `l`, and its oldest frame `x` is handed over.
  pop_first :
      (f : Framebuf B F) (x : List ℕ) (xs : List (List ℕ)) (h : Holds B F f (x ∷ xs))
      (has_data : Bool) (n : ℕ)
      → (has_data ≡ true) ⊎ (n ≡ 0)
      → (l : F.State) → F.IsValid l
      → F.contents l ≡ lengths_of xs
      → let (s, r, f') = pop_frame B F f l has_data n (length x) in
        (s ≡ success)
        × (r ≡ record {
          bytes = take n x;
          data_len = some (min n (length x));
          frame_len = some (length x);
        })
        × Holds B F f' xs
  unfolding pop_frame
  pop_first f x xs h has_data n can l v e =
      let m = min n (length x) in
      let (c, out) =
        Cases.pop_fits B f.b_buf (x ++ bytes_of xs) h.b_valid h.bytes m has_data
          (omega (arith, length-append x (bytes_of xs))) can' in
      let d =
        Cases.discard_fits B (B.pop f.b_buf has_data m).2 (drop m (x ++ bytes_of xs)) c.valid
          c.items (length x - m)
          (omega (arith, length-append x (bytes_of xs), length-drop m (x ++ bytes_of xs))) in
      rw (c.status, d.status, out, take-min-append n m x (bytes_of xs) refl)
        (
          refl,
          refl,
          record {
            b_valid = d.valid;
            f_valid = v;
            bytes = d.items ∙ drop-drop-append m (length x - m) x (bytes_of xs) (omega arith);
            lengths = e;
          },
        )
    where
      can' : (has_data ≡ true) ⊎ (min n (length x) ≡ 0)
      can' = elim can [ inl y ↦ inl y | inr z ↦ inr (omega arith) ]

  empty_of_nil : (f : Framebuf B F) → Holds B F f [] → is_empty B F f ≡ true
  unfolding is_empty len
  empty_of_nil f h = rw (F.len_lem f.f_buf h.f_valid, h.lengths)

  not_empty_of_cons :
      (f : Framebuf B F) (x : List ℕ) (xs : List (List ℕ))
      → Holds B F f (x ∷ xs)
      → is_empty B F f ≡ false
  unfolding is_empty len
  not_empty_of_cons f x xs h = rw (F.len_lem f.f_buf h.f_valid, h.lengths) (ground arith)

  -- On every branch `pop` does what the queue of frames does.
  pub pop_frame_refines :
      (f : Framebuf B F) (frames : List (List ℕ)) (has_data : Bool) (n : ℕ)
      → Holds B F f frames
      → let (s, r, f') = pop B F f has_data n in
        let (t, r', frames') = pop_spec frames has_data n in
        (s ≡ t) × (r ≡ r') × Holds B F f' frames'
  unfolding pop pop_spec
  pop_frame_refines f [] has_data n h = rw (empty_of_nil f h) (refl, refl, h)
  pop_frame_refines f (x ∷ xs) has_data n h = elim (Bool-cases (ltb 0 n && not has_data)) [
    | inl e ↦ rw (not_empty_of_cons f x xs h, e) (refl, refl, h)
    | inr e ↦
        let (c, out) =
          Cases.pop_fits F f.f_buf (length x ∷ lengths_of xs) h.f_valid h.lengths 1 true
            (omega arith) (inl refl) in
        rw (not_empty_of_cons f x xs h, e, c.status, out)
          (pop_first f x xs h has_data n (ground arith) (F.pop f.f_buf true 1).2 c.valid c.items)
  ]
