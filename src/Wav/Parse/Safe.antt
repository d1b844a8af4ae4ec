-- ===== src/Wav/Parse/Safe.antt =====
-- `parse_wav` of zakuro/src/wav_reader.rs on any bytes.
use zakuro_rs.Base.{
  ℕ, zero, suc, ◌+◌, ◌%◌, ◌≤◌, ◌<◌, not, ◌&&◌, List, Option, none, some, ◌≡◌, ◌⊎◌, inl, inr, arith,
  if◌then◌else◌, ltb, leb, ◌==◌, length, u64_max, Bool-cases,
}
use zakuro_rs.Base.Result.{Result, ok, err, and_then}
use zakuro_rs.Base.Text.{codes, text_eq}
use zakuro_rs.Wav.Types.{ParsedWav, Found, WavError, panic, no_fuel, slice}
use zakuro_rs.Wav.Parse

-- An error of the format, neither a panic nor the end of the fuel.
abbrev pub IsReported : WavError → Type 0
IsReported panic = ⊥
IsReported no_fuel = ⊥
IsReported _ = Unit {0}

abbrev pub Ends : {A : Type 0} → (A → Type 0) → Result WavError A → Type 0
Ends P (ok a) = P a
Ends P (err e) = IsReported e

pub Ends-and_then :
    {A B : Type 0} (P : A → Type 0) (Q : B → Type 0) (r : Result WavError A)
    (k : A → Result WavError B)
    → Ends P r
    → ((a : A) → P a → Ends Q (k a))
    → Ends Q (and_then r k)
unfolding and_then
Ends-and_then P Q (ok a) k h g = g a h
Ends-and_then P Q (err e) k h g = h

abbrev Any : {A : Type 0} → A → Type 0
Any a = Unit {0}

slice-Ends :
    (buf : List ℕ) (from to : ℕ)
    → from ≤ to
    → to ≤ length buf
    → Ends Any (Parse.or_panic (slice buf from to))
unfolding slice
slice-Ends buf from to h k = ground arith

le_at-Ends : (buf : List ℕ) (at k : ℕ) → at + k ≤ length buf → Ends Any (Parse.le_at buf at k)
unfolding Parse.le_at
le_at-Ends buf at k h =
    Ends-and_then Any Any (Parse.or_panic (slice buf at (at + k))) _
      (slice-Ends buf at (at + k) (omega arith) h) (λ _ _. tt)

-- The data lies in the file.
abbrev InFile : List ℕ → Option (ℕ × ℕ) → Type 0
InFile buf none = Unit {0}
InFile buf (some (from, to)) = (from ≤ to) × (to ≤ length buf)

abbrev IsInFile : List ℕ → Found → Type 0
IsInFile buf found = InFile buf found.data_range

fmt_chunk-Ends :
    (buf : List ℕ) (at size : ℕ) (found : Found)
    → at + size ≤ length buf
    → IsInFile buf found
    → Ends (IsInFile buf) (Parse.fmt_chunk buf at size found)
unfolding Parse.fmt_chunk
fmt_chunk-Ends buf at size found h k = elim (Bool-cases (ltb size 16)) [
  | inl e ↦ rw e tt
  | inr e ↦ rw e (
      Ends-and_then Any (IsInFile buf) (Parse.le_at buf at 2) _ (le_at-Ends buf at 2 (ground arith))
        λ a _.
          Ends-and_then Any (IsInFile buf) (Parse.le_at buf (at + 2) 2) _
            (le_at-Ends buf (at + 2) 2 (ground arith))
            λ b _.
              Ends-and_then Any (IsInFile buf) (Parse.le_at buf (at + 4) 4) _
                (le_at-Ends buf (at + 4) 4 (ground arith))
                λ c _.
                  Ends-and_then Any (IsInFile buf) (Parse.le_at buf (at + 14) 2) _
                    (le_at-Ends buf (at + 14) 2 (ground arith)) λ d _. k)
]

match_id-Ends :
    (buf id : List ℕ) (at size : ℕ) (found : Found)
    → at + size ≤ length buf
    → IsInFile buf found
    → Ends (IsInFile buf) (Parse.match_id buf id at (at + size) size found)
unfolding Parse.match_id
match_id-Ends buf id at size found h k = elim (Bool-cases (text_eq id (codes "fmt "))) [
  | inl e ↦ rw e (fmt_chunk-Ends buf at size found h k)
  | inr e ↦ rw e (elim (Bool-cases (text_eq id (codes "data"))) [
    | inl d ↦ rw d (omega arith, h)
    | inr d ↦ rw d k
  ])
]

-- A turn of the loop moves on, and keeps the data in the file.
abbrev IsTurned : List ℕ → ℕ → Found × ℕ → Type 0
IsTurned buf at p = (at + 8 ≤ p.1) × IsInFile buf p.0

chunk_at-Ends :
    (buf : List ℕ) (at : ℕ) (found : Found)
    → at + 8 ≤ length buf
    → IsInFile buf found
    → Ends (IsTurned buf at) (Parse.chunk_at buf at found)
unfolding Parse.chunk_at
chunk_at-Ends buf at found h k =
    Ends-and_then Any (IsTurned buf at) (Parse.or_panic (slice buf at (at + 4))) _
      (slice-Ends buf at (at + 4) (omega arith) (omega arith))
      λ id _.
        Ends-and_then Any (IsTurned buf at) (Parse.le_at buf (at + 4) 4) _
          (le_at-Ends buf (at + 4) 4 (omega arith)) λ size _. body id size
  where
    body :
        (id : List ℕ) (size : ℕ)
        → Ends (IsTurned buf at) (
            if ltb u64_max (at + 8 + size)
            then err WavError.size_overflow
            else if ltb (length buf) (at + 8 + size)
            then err WavError.past_the_end
            else and_then
                (Parse.match_id buf id (at + 8) (at + 8 + size) size found)
                λ found'. ok (found', at + 8 + size + size % 2))
    body id size = elim (Bool-cases (ltb u64_max (at + 8 + size))) [
      | inl e ↦ rw e tt
      | inr e ↦ rw e (elim (Bool-cases (ltb (length buf) (at + 8 + size))) [
        | inl d ↦ rw d tt
        | inr d ↦ rw d (
            Ends-and_then (IsInFile buf) (IsTurned buf at)
              (Parse.match_id buf id (at + 8) (at + 8 + size) size found) _
              (match_id-Ends buf id (at + 8) size found (ground arith) k)
              λ found' k'. (omega arith, k'))
      ])
    ]

chunks_from-Ends :
    (fuel : ℕ) (buf : List ℕ) (at : ℕ) (found : Found)
    → length buf < fuel + at
    → IsInFile buf found
    → Ends (IsInFile buf) (Parse.chunks_from fuel buf at found)
unfolding Parse.chunks_from
chunks_from-Ends zero buf at found h k = elim (Bool-cases (leb (at + 8) (length buf))) [
  | inl e ↦ absurd (ground arith)
  | inr e ↦ rw e k
]
chunks_from-Ends (suc fuel) buf at found h k = elim (Bool-cases (leb (at + 8) (length buf))) [
  | inl e ↦ rw e (
      Ends-and_then (IsTurned buf at) (IsInFile buf) (Parse.chunk_at buf at found) _
        (chunk_at-Ends buf at found (ground arith) k)
        λ p t. chunks_from-Ends fuel buf p.1 p.0 (omega (arith, t.0)) t.1)
  | inr e ↦ rw e k
]

-- What a parsed file promises the rest of the program.
pub record IsPlayable (w : ParsedWav) : Type 0 where
  pub rate : 0 < w.sample_rate
  pub mono_or_stereo : (w.channels ≡ 1) ⊎ (w.channels ≡ 2)

take_data-Ends :
    (buf : List ℕ) (found : Found) (range : Option (ℕ × ℕ))
    → InFile buf range
    → 0 < found.sample_rate
    → (found.channels ≡ 1) ⊎ (found.channels ≡ 2)
    → Ends IsPlayable (Parse.take_data buf found range)
unfolding Parse.take_data
take_data-Ends buf found none k r c = tt
take_data-Ends buf found (some (from, to)) k r c =
    Ends-and_then Any IsPlayable (Parse.or_panic (slice buf from to)) _
      (slice-Ends buf from to k.0 k.1) λ bytes _. record { rate = r; mono_or_stereo = c }

check_found-Ends :
    (buf : List ℕ) (found : Found)
    → IsInFile buf found
    → Ends IsPlayable (Parse.check_found buf found)
unfolding Parse.check_found
check_found-Ends buf found k = elim (Bool-cases (not (found.audio_format == 1))) [
  | inl e ↦ rw e tt
  | inr e ↦ rw e (elim (Bool-cases (not (found.bits_per_sample == 16))) [
    | inl d ↦ rw d tt
    | inr d ↦ rw d (elim (Bool-cases (not (found.channels == 1) && not (found.channels == 2))) [
      | inl c ↦ rw c tt
      | inr c ↦ rw c (elim (Bool-cases (found.sample_rate == 0)) [
        | inl r ↦ rw r tt
        | inr r ↦ rw r (take_data-Ends buf found found.data_range k (ground arith) (ground arith))
      ])
    ])
  ])
]

-- On any bytes, the parser ends with an error of the format or with a file of one or two channels
-- whose sample rate is not zero: no slice is out of range, and the loop over the chunks ends.
pub parse_wav-Ends : (buf : List ℕ) → Ends IsPlayable (Parse.parse_wav buf)
unfolding Parse.parse_wav
parse_wav-Ends buf = elim (Bool-cases (ltb (length buf) 12)) [
  | inl e ↦ rw e tt
  | inr e ↦ rw e (
      Ends-and_then Any IsPlayable (Parse.or_panic (slice buf 0 4)) _
        (slice-Ends buf 0 4 (omega arith) (ground arith)) λ riff _. after_riff riff (ground arith))
]
  where
    after_wave :
        (wave : List ℕ)
        → Ends IsPlayable (
            if not (text_eq wave (codes "WAVE"))
            then err WavError.no_wave
            else and_then
                (Parse.chunks_from (suc (length buf)) buf 12 Parse.nothing_found)
                (Parse.check_found buf))
    after_wave wave = elim (Bool-cases (not (text_eq wave (codes "WAVE")))) [
      | inl d ↦ rw d tt
      | inr d ↦ rw d (
          Ends-and_then (IsInFile buf) IsPlayable
            (Parse.chunks_from (suc (length buf)) buf 12 Parse.nothing_found)
            (Parse.check_found buf)
            (chunks_from-Ends (suc (length buf)) buf 12 Parse.nothing_found (omega arith) tt)
            (check_found-Ends buf))
    ]

    after_riff :
        (riff : List ℕ)
        → 12 ≤ length buf
        → Ends IsPlayable (
            if not (text_eq riff (codes "RIFF"))
            then err WavError.no_riff
            else and_then (Parse.or_panic (slice buf 8 12)) λ wave.
              if not (text_eq wave (codes "WAVE"))
              then err WavError.no_wave
              else and_then
                  (Parse.chunks_from (suc (length buf)) buf 12 Parse.nothing_found)
                  (Parse.check_found buf))
    after_riff riff h = elim (Bool-cases (not (text_eq riff (codes "RIFF")))) [
      | inl d ↦ rw d tt
      | inr d ↦ rw d (
          Ends-and_then Any IsPlayable (Parse.or_panic (slice buf 8 12)) _
            (slice-Ends buf 8 12 (omega arith) h) λ wave _. after_wave wave)
    ]
