-- ===== src/Y4m/Turn.antt =====
-- The reader of zakuro/src/y4m_reader.rs before and behind one frame of a file.
use mathlib.Core.List.{append_assoc}
use mathlib.Core.Path.{subst}
use native.Mathlib.Nat.{suc-mul}
use zakuro_rs.Base.{
  ℕ, suc, ◌+◌, ◌*◌, ◌^◌, ◌≤◌, ◌<◌, true, false, List, [], ◌∷◌, ◌++◌, ◌≡◌, ◌∙◌, refl, sym, ap, arith,
  add64, ltb, ◌==◌, length, length-append,
}
use zakuro_rs.Base.Result.{ok, and_then}
use zakuro_rs.Base.Sort.{All}
use zakuro_rs.Y4m.Ops
use zakuro_rs.Y4m.Ops.{Y4mReader, Y4mError, moved}
use zakuro_rs.Y4m.Frames.{
  Frame, head_bytes, frame_bytes, frames_bytes, IsFrame, read_exact-part, read_frame_header-moved,
}

-- A file: its header, and its frames, of which there is one at least.
pub record Video : Type 0 where
  pub head : List ℕ
  pub first : Frame
  pub others : List Frame

abbrev pub all_frames : Video → List Frame
all_frames v = v.first ∷ v.others

abbrev pub video_bytes : Video → List ℕ
video_bytes v = v.head ++ frames_bytes (all_frames v)

-- A video with frames of so many bytes, in a file that fits an i64.
pub record IsVideo (size : ℕ) (v : Video) : Type 0 where
  pub frames : All (IsFrame size) (all_frames v)
  pub fits : length (video_bytes v) < 2 ^ 63

-- The frame that stands at the place `k` modulo the number of frames.
pub record IsTurn (v : Video) (k : ℕ) (f : Frame) : Type 0 where
  pub round : ℕ
  pub before : List Frame
  pub after : List Frame
  pub split : all_frames v ≡ before ++ (f ∷ after)
  pub place : k ≡ round * length (all_frames v) + length before

-- The reader stands before the frame that its count tells.
pub record IsAt (size : ℕ) (v : Video) (r : Y4mReader) : Type 0 where
  pub file : r.file ≡ video_bytes v
  pub file_size : r.file_size ≡ length (video_bytes v)
  pub start_pos : r.start_pos ≡ length v.head
  pub frame_bytes_count : Ops.frame_size r ≡ size
  pub pos : r.pos ≡ r.at
  pub next : Frame
  pub turn : IsTurn v r.frame next
  pub at : r.at ≡ length (v.head ++ frames_bytes turn.before)

frames_bytes-append :
    (xs ys : List Frame) → frames_bytes (xs ++ ys) ≡ frames_bytes xs ++ frames_bytes ys
frames_bytes-append [] ys = refl
frames_bytes-append (f ∷ xs) ys =
    ap (λ (t : List ℕ). frame_bytes f ++ t) (frames_bytes-append xs ys)
    ∙ sym (append_assoc (frame_bytes f) (frames_bytes xs) (frames_bytes ys))

All-split :
    (size : ℕ) (xs : List Frame) (f : Frame) (ys zs : List Frame)
    → zs ≡ xs ++ (f ∷ ys)
    → All (IsFrame size) zs
    → IsFrame size f
All-split size [] f ys [] e h = absurd (cc e)
All-split size [] f ys (z ∷ zs) e h = subst (IsFrame size) (cc e) h.0
All-split size (x ∷ xs) f ys [] e h = absurd (cc e)
All-split size (x ∷ xs) f ys (z ∷ zs) e h = All-split size xs f ys zs (cc e) h.1

module _ (size : ℕ) (v : Video) (good : IsVideo size v) (r : Y4mReader) (a : IsAt size v r) where
  abbrev here : List ℕ
  here = v.head ++ frames_bytes a.turn.before

  -- The file around the next frame.
  around : r.file ≡ here ++ (frame_bytes a.next ++ frames_bytes a.turn.after)
  around =
      a.file
      ∙ ap (λ (t : List Frame). v.head ++ frames_bytes t) a.turn.split
      ∙ ap (λ (t : List ℕ). v.head ++ t) (frames_bytes-append a.turn.before (a.next ∷ a.turn.after))
      ∙ sym (append_assoc v.head (frames_bytes a.turn.before) _)

  next-IsFrame : IsFrame size a.next
  next-IsFrame =
      All-split size a.turn.before a.next a.turn.after (all_frames v) a.turn.split good.frames

  header : Ops.read_frame_header r ≡ ok (moved (length (head_bytes a.next)) r)
  header =
      read_frame_header-moved r here _ a.next size
        (around
          ∙ ap (λ (t : List ℕ). here ++ t) (append_assoc (head_bytes a.next) a.next.data_bytes _))
        a.at next-IsFrame

  abbrev pub part : ℕ
  part = length (frame_bytes a.next)

  part_size : part ≡ length (head_bytes a.next) + size
  part_size =
      length-append (head_bytes a.next) a.next.data_bytes
      ∙ ap (λ n. length (head_bytes a.next) + n) next-IsFrame.full

  ends : length r.file ≡ r.at + part + length (frames_bytes a.turn.after)
  ends = omega (
    arith,
    a.at,
    ap length around,
    length-append here (frame_bytes a.next ++ frames_bytes a.turn.after),
    length-append (frame_bytes a.next) (frames_bytes a.turn.after),
  )

  in_file : r.at + part < 2 ^ 63
  in_file = omega (arith, ends, ap length a.file, good.fits)

  abbrev pub Goes : Type 0
  Goes =
      (r' : Y4mReader) × (Ops.after_frame (moved part r) ≡ ok r')
      × IsAt size v r'
      × (r'.frame ≡ r.frame + 1)

  total : length (all_frames v) ≡ length a.turn.before + 1 + length a.turn.after
  total = omega (arith, ap length a.turn.split, length-append a.turn.before (a.next ∷ a.turn.after))

  not_past : ltb r.file_size (r.pos + part) ≡ false
  not_past = ground (arith, ends, a.pos, a.file_size, ap length a.file)

  -- Behind the last frame comes the first one again.
  wraps : a.turn.after ≡ [] → Goes
  unfolding Ops.after_frame Ops.frame_size
  wraps e = (
    record (Ops.seek_to_start r) { frame = r.frame + 1 },
    rw (not_past, at_end) refl,
    record {
      file = a.file;
      file_size = a.file_size;
      start_pos = a.start_pos;
      frame_bytes_count = a.frame_bytes_count;
      pos = refl;
      next = v.first;
      turn = record {
        round = suc a.turn.round;
        before = [];
        after = v.others;
        split = refl;
        place =
            omega (
              arith,
              a.turn.place,
              suc-mul a.turn.round (length (all_frames v)),
              total,
              ap length e,
            );
      };
      at = omega (arith, a.start_pos, length-append v.head []);
    },
    refl,
  )
    where
      at_end : (r.pos + part == r.file_size) ≡ true
      at_end = ground (
        arith,
        ends,
        a.pos,
        a.file_size,
        ap length a.file,
        ap (λ (t : List Frame). length (frames_bytes t)) e,
      )

  goes_on : (g : Frame) (gs : List Frame) → a.turn.after ≡ g ∷ gs → Goes
  unfolding Ops.after_frame Ops.frame_size
  goes_on g gs e = (
    record (moved part r) { frame = r.frame + 1 },
    rw (not_past, not_end) refl,
    record {
      file = a.file;
      file_size = a.file_size;
      start_pos = a.start_pos;
      frame_bytes_count = a.frame_bytes_count;
      pos = ap (λ n. n + part) a.pos;
      next = g;
      turn = record {
        round = a.turn.round;
        before = a.turn.before ++ (a.next ∷ []);
        after = gs;
        split =
            a.turn.split
            ∙ ap (λ (t : List Frame). a.turn.before ++ (a.next ∷ t)) e
            ∙ sym (append_assoc a.turn.before (a.next ∷ []) (g ∷ gs));
        place = omega (arith, a.turn.place, length-append a.turn.before (a.next ∷ []));
      };
      at = omega (
        arith,
        a.at,
        length-append v.head (frames_bytes a.turn.before),
        length-append v.head (frames_bytes (a.turn.before ++ (a.next ∷ []))),
        ap length (frames_bytes-append a.turn.before (a.next ∷ [])),
        length-append (frames_bytes a.turn.before) (frames_bytes (a.next ∷ [])),
        length-append (frame_bytes a.next) [],
      );
    },
    refl,
  )
    where
      not_end : (r.pos + part == r.file_size) ≡ false
      not_end = ground (
        arith,
        ends,
        a.pos,
        a.file_size,
        ap length a.file,
        ap (λ (t : List Frame). length (frames_bytes t)) e,
        length-append (frame_bytes g) (frames_bytes gs),
      )

  by_rest : (xs : List Frame) → a.turn.after ≡ xs → Goes
  by_rest [] e = wraps e
  by_rest (g ∷ gs) e = goes_on g gs e

  pub after_frame-IsAt : Goes
  after_frame-IsAt = by_rest a.turn.after refl

  count : Ops.frame_size (moved (length (head_bytes a.next)) r) ≡ size
  unfolding Ops.frame_size
  count = a.frame_bytes_count

  small : ltb size (2 ^ 63) ≡ true
  small = ground (arith, in_file, part_size)

  -- The reader behind the header and so many bytes more, as skipping and reading leave it.
  behind :
      record (moved (length (head_bytes a.next)) r) {
        at = r.at + length (head_bytes a.next) + size;
        pos = add64 (r.pos + length (head_bytes a.next)) size;
      }
      ≡ moved part r
  behind = rw (part_size, sum, wrapped) refl
    where
      sum : r.at + length (head_bytes a.next) + size ≡ r.at + (length (head_bytes a.next) + size)
      sum = omega arith

      wrapped :
          add64 (r.pos + length (head_bytes a.next)) size
          ≡ r.pos + (length (head_bytes a.next) + size)
      wrapped = omega (arith, in_file, part_size, a.pos)

  pub skip_frame-after : Ops.skip_frame r ≡ Ops.after_frame (moved part r)
  unfolding Ops.skip_frame Ops.seek_current and_then
  skip_frame-after = rw (header, count, small) (ap Ops.after_frame behind)

  pub read_frame-after :
      (len : ℕ)
      → size ≤ len
      → Ops.read_frame r len
        ≡ and_then (Ops.after_frame (moved part r)) (λ r'. ok (r', a.next.data_bytes))
  unfolding Ops.read_frame and_then
  read_frame-after len h =
      rw (header, count, fits_buffer, bytes_read)
        (ap (λ x. and_then (Ops.after_frame x) (λ r'. ok (r', a.next.data_bytes))) behind)
    where
      fits_buffer : ltb len size ≡ false
      fits_buffer = ground arith

      bytes_read : Ops.read_exact (moved (length (head_bytes a.next)) r) size ≡ ok a.next.data_bytes
      bytes_read =
          read_exact-part (moved (length (head_bytes a.next)) r) (here ++ head_bytes a.next)
            a.next.data_bytes (frames_bytes a.turn.after) size (around ∙ simp (append_assoc) refl)
            (omega (arith, a.at, length-append here (head_bytes a.next))) next-IsFrame.full
