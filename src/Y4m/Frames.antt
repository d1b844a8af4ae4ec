-- ===== src/Y4m/Frames.antt =====
-- The frames of a file that the reader of zakuro/src/y4m_reader.rs passes.
use mathlib.Core.List.{append_assoc}
use zakuro_rs.Base.{
  ℕ, zero, suc, ◌+◌, ◌<◌, Bool, true, false, ◌||◌, List, [], ◌∷◌, ◌++◌, ◌≡◌, ◌∙◌, inl, inr, refl,
  sym, ap, arith, ◌==◌, length, length-append, Bool-cases,
}
use zakuro_rs.Base.Result.{ok, and_then}
use zakuro_rs.Base.Text.{codes, text_eq, has_char}
use zakuro_rs.Wav.Parse.Slices.{slice-part}
use zakuro_rs.Y4m.Ops
use zakuro_rs.Y4m.Ops.{Y4mReader, Y4mError, moved}

-- A frame in a file: the text behind its tag, and its data.
pub record Frame : Type 0 where
  pub params : List ℕ
  pub data_bytes : List ℕ

abbrev pub head_bytes : Frame → List ℕ
head_bytes f = codes "FRAME" ++ (f.params ++ (b'\n' ∷ []))

abbrev pub frame_bytes : Frame → List ℕ
frame_bytes f = head_bytes f ++ f.data_bytes

abbrev pub frames_bytes : List Frame → List ℕ
frames_bytes [] = []
frames_bytes (f ∷ fs) = frame_bytes f ++ frames_bytes fs

-- A frame of so many bytes, whose text has no line feed and is below the limit.
pub record IsFrame (size : ℕ) (f : Frame) : Type 0 where
  pub short : length f.params < 1024
  pub one_line : has_char b'\n' f.params ≡ false
  pub full : length f.data_bytes ≡ size

pub read_exact-part :
    (r : Y4mReader) (pre mid post : List ℕ) (n : ℕ)
    → r.file ≡ pre ++ (mid ++ post)
    → r.at ≡ length pre
    → length mid ≡ n
    → Ops.read_exact r n ≡ ok mid
unfolding Ops.read_exact
read_exact-part r pre mid post n e p l =
    rw (slice-part r.file pre mid post r.at (r.at + n) e p (omega arith)) refl

pub moved-moved : (r : Y4mReader) (a b c : ℕ) → c ≡ a + b → moved b (moved a r) ≡ moved c r
moved-moved r a b c h = rw (h, sums r.at, sums r.pos) refl
  where
    sums : (n : ℕ) → n + a + b ≡ n + (a + b)
    sums n = omega arith

line_feed : text_eq (b'\n' ∷ []) (b'\n' ∷ []) ≡ true
unfolding text_eq
line_feed = refl

other_byte :
    (b : ℕ) (params : List ℕ)
    → has_char b'\n' (b ∷ params) ≡ false
    → (text_eq (b ∷ []) (b'\n' ∷ []) ≡ false) × (has_char b'\n' params ≡ false)
unfolding text_eq has_char
other_byte b params h = elim (Bool-cases (b == b'\n')) [
  | inl e ↦ absurd (cc (h, ap (λ (t : Bool). t || has_char b'\n' params) e))
  | inr e ↦ (rw (e) refl, sym (ap (λ (t : Bool). t || has_char b'\n' params) e) ∙ h)
]

skip_line-moved :
    (k : ℕ) (r : Y4mReader) (pre params post : List ℕ)
    → r.file ≡ pre ++ (params ++ (b'\n' ∷ post))
    → r.at ≡ length pre
    → has_char b'\n' params ≡ false
    → length params < k
    → Ops.skip_line k r ≡ ok (moved (length params + 1) r)
unfolding Ops.skip_line and_then
skip_line-moved zero r pre params post e p h l = absurd (omega arith)
skip_line-moved (suc k) r pre [] post e p h l =
    rw (read_exact-part r pre (b'\n' ∷ []) post 1 e p refl, line_feed) refl
skip_line-moved (suc k) r pre (b ∷ params) post e p h l =
    rw
      (
        read_exact-part r pre (b ∷ []) (params ++ (b'\n' ∷ post)) 1 e p refl,
        (other_byte b params h).0,
        skip_line-moved k (moved 1 r) (pre ++ (b ∷ [])) params post
            (e ∙ sym (append_assoc pre (b ∷ []) (params ++ (b'\n' ∷ post))))
            (omega (arith, p, length-append pre (b ∷ []))) (other_byte b params h).1 (omega arith),
      )
      (ap ok (moved-moved r 1 (length params + 1) (suc (length params) + 1) (omega arith)))

tag_eq : text_eq (codes "FRAME") (codes "FRAME") ≡ true
unfolding text_eq
tag_eq = refl

-- The header of a frame is passed as a whole.
pub read_frame_header-moved :
    (r : Y4mReader) (pre post : List ℕ) (f : Frame) (size : ℕ)
    → r.file ≡ pre ++ (head_bytes f ++ post)
    → r.at ≡ length pre
    → IsFrame size f
    → Ops.read_frame_header r ≡ ok (moved (length (head_bytes f)) r)
unfolding Ops.read_frame_header and_then
read_frame_header-moved r pre post f size e p i =
    rw
      (
        read_exact-part r pre (codes "FRAME") (f.params ++ (b'\n' ∷ post)) 5 at_tag p refl,
        tag_eq,
        skip_line-moved 1024 (moved 5 r) (pre ++ codes "FRAME") f.params post
            (at_tag ∙ sym (append_assoc pre (codes "FRAME") (f.params ++ (b'\n' ∷ post))))
            (omega (arith, p, length-append pre (codes "FRAME"))) i.one_line i.short,
      )
      (ap ok (
        moved-moved r 5 (length f.params + 1) (length (head_bytes f))
          (omega (arith, length-append f.params (b'\n' ∷ [])))))
  where
    at_tag : r.file ≡ pre ++ (codes "FRAME" ++ (f.params ++ (b'\n' ∷ post)))
    at_tag =
        e
        ∙ ap (λ (t : List ℕ). pre ++ (codes "FRAME" ++ t)) (append_assoc f.params (b'\n' ∷ []) post)
