-- ===== src/Framebuf.antt =====
-- `framebuf<NBytes, NFrames>` of include/util.hh: a queue of frames, as a queue of their bytes and a
-- queue of their lengths. The two `circbuf` members are taken through the queue interface.
pub mod Frames
pub mod Pop
use ledfw_lib.Common.{
  ℕ, ◌-◌, min, Bool, true, false, not, ◌&&◌, ◌||◌, Option, none, some, List, [], ltb, ◌==◌,
  if◌then◌else◌, get_or, Status, success, no_mem, null, internal, is_success,
}
use ledfw_lib.Queue.{Queue}

module _ {n_bytes n_frames : ℕ} (B : Queue ℕ n_bytes) (F : Queue ℕ n_frames) where
  pub record Framebuf : Type 0 where
    pub b_buf : B.State
    pub f_buf : F.State

  unfoldable pub len : Framebuf → ℕ
  len f = F.len f.f_buf

  unfoldable pub is_empty : Framebuf → Bool
  is_empty f = len f == 0

  unfoldable pub is_full : Framebuf → Bool
  is_full f = F.len f.f_buf == n_frames || B.len f.b_buf == n_bytes

  unfoldable pub push : Framebuf → Option (ℕ → ℕ) → ℕ → Status × Framebuf
  push f items n =
      if ltb (B.remaining f.b_buf) n || ltb (F.remaining f.f_buf) 1
      then (no_mem, f)
      else (let (ret, b) = B.push f.b_buf items n in
          let (ret', l) = F.push f.f_buf (some (λ _. n)) 1 in
          if is_success ret
          then (ret', record f { b_buf = b; f_buf = l })
          else (ret, record f { b_buf = b }))

  unfoldable pub peek : Framebuf → Bool → Status × Option ℕ
  peek f has_frame_len = F.peek f.f_buf has_frame_len

  -- What `pop` hands over: the bytes put into the caller's memory, and what is written to
  -- `*data_len` and to `*frame_len`.
  pub record Popped : Type 0 where
    pub bytes : List ℕ
    pub data_len : Option ℕ
    pub frame_len : Option ℕ

  abbrev pub nothing : Popped
  nothing = record { bytes = []; data_len = none; frame_len = none }

  -- `pop` after the length `n_frame` is taken from the queue of lengths, which is now `l`
  unfoldable pub pop_frame : Framebuf → F.State → Bool → ℕ → ℕ → Status × Popped × Framebuf
  pop_frame f l has_data n n_frame =
      let n_data = min n n_frame in
      let (ret, out, b) = B.pop f.b_buf has_data n_data in
      let (ret', b') = B.discard b (n_frame - n_data) in
      let result : Popped = record {
        bytes = out;
        data_len = some n_data;
        frame_len = some n_frame;
      } in
      if is_success ret
      then if is_success ret'
        then (ret', result, record f { b_buf = b'; f_buf = l })
        else (internal, result, record f { b_buf = b'; f_buf = l })
      else (internal, result, record f { b_buf = b; f_buf = l })

  -- Both result pointers are given.
  unfoldable pub pop : Framebuf → Bool → ℕ → Status × Popped × Framebuf
  pop f has_data n =
      if is_empty f
      then (no_mem, nothing, f)
      else if ltb 0 n && not has_data
      then (null, nothing, f)
      else (let (ret, out, l) = F.pop f.f_buf true 1 in
          if is_success ret
          then pop_frame f l has_data n (get_or out 0 0)
          else (internal, nothing, record f { f_buf = l }))
