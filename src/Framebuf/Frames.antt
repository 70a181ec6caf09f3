-- ===== src/Framebuf/Frames.antt =====
-- The queue of whole frames, bounded in bytes and in frames, that specifies `framebuf`, and its `push`.
use ledfw_lib.Common.{
  ℕ, suc, ◌-◌, ◌≤◌, ◌<◌, ◌≡◌, refl, sym, ap, ◌∙◌, Bool, true, false, ◌||◌, Option, none, some, List,
  [], ◌∷◌, ◌++◌, append_assoc, append-nil, arith, ltb, ◌==◌, Bool-cases, inl, inr, if◌then◌else◌,
  length, length-tabulate, tabulate, Status, success, no_mem, null,
}
use ledfw_lib.Queue.Cases
use ledfw_lib.Queue.{Queue}
use ledfw_lib.Framebuf.{Framebuf, push}

abbrev pub bytes_of : List (List ℕ) → List ℕ
bytes_of [] = []
bytes_of (x ∷ xs) = x ++ bytes_of xs

abbrev pub lengths_of : List (List ℕ) → List ℕ
lengths_of [] = []
lengths_of (x ∷ xs) = length x ∷ lengths_of xs

pub bytes_of-append : (xs : List (List ℕ)) (x : List ℕ) → bytes_of (xs ++ x ∷ []) ≡ bytes_of xs ++ x
bytes_of-append [] x = append-nil x
bytes_of-append (y ∷ xs) x = rw (bytes_of-append xs x) (sym (append_assoc y (bytes_of xs) x))

pub lengths_of-append :
    (xs : List (List ℕ)) (x : List ℕ) → lengths_of (xs ++ x ∷ []) ≡ lengths_of xs ++ length x ∷ []
lengths_of-append [] x = refl
lengths_of-append (y ∷ xs) x = ap (λ l. length y ∷ l) (lengths_of-append xs x)

pub length-lengths_of : (xs : List (List ℕ)) → length (lengths_of xs) ≡ length xs
length-lengths_of [] = refl
length-lengths_of (x ∷ xs) = ap suc (length-lengths_of xs)

module _ {n_bytes n_frames : ℕ} (B : Queue ℕ n_bytes) (F : Queue ℕ n_frames) where
  -- The two queues hold the bytes and the lengths of `frames`.
  pub record Holds (f : Framebuf B F) (frames : List (List ℕ)) : Type 0 where
    pub b_valid : B.IsValid f.b_buf
    pub f_valid : F.IsValid f.f_buf
    pub bytes : B.contents f.b_buf ≡ bytes_of frames
    pub lengths : F.contents f.f_buf ≡ lengths_of frames

  abbrev full : List (List ℕ) → ℕ → Bool
  full frames n = ltb (n_bytes - length (bytes_of frames)) n || ltb (n_frames - length frames) 1

  -- The queue of frames: a frame goes in whole or not at all.
  pub push_spec : List (List ℕ) → Option (ℕ → ℕ) → ℕ → Status × List (List ℕ)
  push_spec frames items n =
      if ltb (n_bytes - length (bytes_of frames)) n || ltb (n_frames - length frames) 1
      then (no_mem, frames)
      else elim items [
        | none ↦ if n == 0 then (success, frames ++ [] ∷ []) else (null, frames)
        | some p ↦ (success, frames ++ tabulate n p ∷ [])
      ]

  module _ (f : Framebuf B F) (frames : List (List ℕ)) (h : Holds f frames) where
    bytes_room : B.remaining f.b_buf ≡ n_bytes - length (bytes_of frames)
    bytes_room = B.remaining_lem f.b_buf h.b_valid ∙ rw h.bytes

    frames_room : F.remaining f.f_buf ≡ n_frames - length frames
    frames_room =
        F.remaining_lem f.f_buf h.f_valid ∙ rw h.lengths (omega (arith, length-lengths_of frames))

    -- The length of a frame goes in after its bytes.
    length_in :
        (n : ℕ)
        → 1 ≤ n_frames - length frames
        → Cases.Leaves F success (lengths_of frames ++ n ∷ []) (F.push f.f_buf (some (λ _. n)) 1)
    length_in n room =
        Cases.push_fits F f.f_buf (lengths_of frames) h.f_valid h.lengths 1 (λ _. n)
          (omega (arith, length-lengths_of frames))

    frame_in :
        (b : B.State) (x : List ℕ) (n : ℕ)
        → B.IsValid b
        → B.contents b ≡ bytes_of frames ++ x
        → length x ≡ n
        → 1 ≤ n_frames - length frames
        → Holds
            (record { b_buf = b; f_buf = (F.push f.f_buf (some (λ _. n)) 1).1 })
            (frames ++ x ∷ [])
    frame_in b x n v e k room =
        let l = length_in n room in
        record {
          b_valid = v;
          f_valid = l.valid;
          bytes = e ∙ sym (bytes_of-append frames x);
          lengths = l.items ∙ rw (← k) (sym (lengths_of-append frames x));
        }

  push_some :
      (f : Framebuf B F) (frames : List (List ℕ)) (h : Holds f frames) (p : ℕ → ℕ) (n : ℕ)
      → n ≤ n_bytes - length (bytes_of frames)
      → 1 ≤ n_frames - length frames
      → ((push B F f (some p) n).0 ≡ success)
        × Holds (push B F f (some p) n).1 (frames ++ tabulate n p ∷ [])
  unfolding push
  push_some f frames h p n a b =
      let l = length_in f frames h n b in
      let c = Cases.push_fits B f.b_buf (bytes_of frames) h.b_valid h.bytes n p a in
      rw (bytes_room f frames h, frames_room f frames h, not_full, c.status)
        (
          l.status,
          frame_in f frames h (B.push f.b_buf (some p) n).1 (tabulate n p) n c.valid c.items
              (length-tabulate n p) b,
        )
    where
      not_full :
          (ltb (n_bytes - length (bytes_of frames)) n || ltb (n_frames - length frames) 1) ≡ false
      not_full = ground arith

  push_full :
      (f : Framebuf B F) (frames : List (List ℕ)) (h : Holds f frames) (items : Option (ℕ → ℕ))
      (n : ℕ)
      → (ltb (n_bytes - length (bytes_of frames)) n || ltb (n_frames - length frames) 1) ≡ true
      → push B F f items n ≡ (no_mem, f)
  unfolding push
  push_full f frames h items n e = rw (bytes_room f frames h, frames_room f frames h, e)

  push_null :
      (f : Framebuf B F) (frames : List (List ℕ)) (h : Holds f frames) (n : ℕ)
      → n ≤ n_bytes - length (bytes_of frames)
      → 1 ≤ n_frames - length frames
      → 0 < n
      → ((push B F f none n).0 ≡ null) × Holds (push B F f none n).1 frames
  unfolding push
  push_null f frames h n a b pos =
      let c = Cases.push_null B f.b_buf (bytes_of frames) h.b_valid h.bytes n pos a in
      rw (bytes_room f frames h, frames_room f frames h, not_full, c.status)
        (
          refl,
          record { b_valid = c.valid; f_valid = h.f_valid; bytes = c.items; lengths = h.lengths },
        )
    where
      not_full :
          (ltb (n_bytes - length (bytes_of frames)) n || ltb (n_frames - length frames) 1) ≡ false
      not_full = ground arith

  push_empty :
      (f : Framebuf B F) (frames : List (List ℕ)) (h : Holds f frames) (n : ℕ)
      → 1 ≤ n_frames - length frames
      → n ≡ 0
      → ((push B F f none n).0 ≡ success) × Holds (push B F f none n).1 (frames ++ [] ∷ [])
  unfolding push
  push_empty f frames h n b z =
      let l = length_in f frames h n b in
      let c = Cases.push_zero B f.b_buf (bytes_of frames) h.b_valid h.bytes n z in
      rw (bytes_room f frames h, frames_room f frames h, not_full, c.status)
        (
          l.status,
          frame_in f frames h (B.push f.b_buf none n).1 [] n c.valid
              (c.items ∙ sym (append-nil (bytes_of frames))) (sym z) b,
        )
    where
      not_full :
          (ltb (n_bytes - length (bytes_of frames)) n || ltb (n_frames - length frames) 1) ≡ false
      not_full = ground arith

  -- On every branch `push` does what the queue of frames does.
  pub push_frame_refines :
      (f : Framebuf B F) (frames : List (List ℕ)) (items : Option (ℕ → ℕ)) (n : ℕ)
      → Holds f frames
      → let (s, f') = push B F f items n in
        let (t, frames') = push_spec frames items n in (s ≡ t) × Holds f' frames'
  unfolding push_spec
  push_frame_refines f frames none n h = elim (Bool-cases (full frames n)) [
    | inl e ↦ rw (e, push_full f frames h none n e) (refl, h)
    | inr e ↦ elim (Bool-cases (n == 0)) [
      | inl z ↦ rw (e, z) (push_empty f frames h n (ground arith) (ground arith))
      | inr z ↦ rw (e, z) (push_null f frames h n (ground arith) (ground arith) (ground arith))
    ]
  ]
  push_frame_refines f frames (some p) n h = elim (Bool-cases (full frames n)) [
    | inl e ↦ rw (e, push_full f frames h (some p) n e) (refl, h)
    | inr e ↦ rw e (push_some f frames h p n (ground arith) (ground arith))
  ]
