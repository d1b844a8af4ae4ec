-- ===== src/Wav/Parse/Chunks.antt =====
-- `parse_wav` of zakuro/src/wav_reader.rs on files that are made of chunks.
use mathlib.Core.List.{append_assoc}
use zakuro_rs.Base.{
  ℕ, ◌+◌, ◌%◌, ◌^◌, ◌≤◌, ◌<◌, true, false, List, [], ◌∷◌, ◌++◌, Option, none, some, ◌≡◌, ◌∙◌, inl,
  inr, refl, sym, ap, arith, if◌then◌else◌, ltb, length, length-append, u64_max, Bool-cases,
}
use zakuro_rs.Base.Result.{Result, ok, and_then}
use zakuro_rs.Base.Text.{codes, text_eq}
use zakuro_rs.Channel.Bytes.{take, drop, le_bytes, length-le_bytes, zeros, length-zeros}
use zakuro_rs.Wav.Types.{Found, WavError, slice, of_le}
use zakuro_rs.Wav.Parse
use zakuro_rs.Wav.Parse.Slices.{of_le-le_bytes, slice-part, le_at-inside, le_at-part}

pub record Chunk : Type 0 where
  pub id : List ℕ
  pub body : List ℕ

-- A chunk in a file: its name, the size of its body, the body, and a byte that evens the size.
abbrev pub chunk_bytes : Chunk → List ℕ
chunk_bytes c = (c.id ++ le_bytes 4 (length c.body)) ++ (c.body ++ zeros (length c.body % 2))

abbrev pub all_bytes : List Chunk → List ℕ → List ℕ
all_bytes [] tail = tail
all_bytes (c ∷ cs) tail = chunk_bytes c ++ all_bytes cs tail

-- A chunk that a file can hold.
pub record IsChunk (c : Chunk) : Type 0 where
  pub name : length c.id ≡ 4
  pub size : length c.body < 2 ^ 32
  pub fmt : text_eq c.id (codes "fmt ") ≡ true → 16 ≤ length c.body

-- What the chunks say: the last "fmt " and the last "data".
pub record Content : Type 0 where
  pub fmt : Option (List ℕ)
  pub data_body : Option (List ℕ)

abbrev pub read_chunk : Content → Chunk → Content
read_chunk s c =
    if text_eq c.id (codes "fmt ")
    then record s { fmt = some c.body }
    else if text_eq c.id (codes "data")
    then record s { data_body = some c.body }
    else s

abbrev pub read_chunks : Content → List Chunk → Content
read_chunks s [] = s
read_chunks s (c ∷ cs) = read_chunks (read_chunk s c) cs

-- The field of `n` bytes at `a` of the last "fmt ", zero without one.
abbrev pub field : ℕ → ℕ → Option (List ℕ) → ℕ
field a n none = 0
field a n (some body) = of_le (take n (drop a body))

-- The data range of the parser stands for the body.
abbrev pub IsBody : List ℕ → Option (ℕ × ℕ) → Option (List ℕ) → Type 0
IsBody buf none none = Unit {0}
IsBody buf (some (from, to)) (some body) = slice buf from to ≡ some body
IsBody buf _ _ = ⊥

pub record IsRead (buf : List ℕ) (found : Found) (s : Content) : Type 0 where
  pub audio_format : found.audio_format ≡ field 0 2 s.fmt
  pub channels : found.channels ≡ field 2 2 s.fmt
  pub sample_rate : found.sample_rate ≡ field 4 4 s.fmt
  pub bits_per_sample : found.bits_per_sample ≡ field 14 2 s.fmt
  pub data_body : IsBody buf found.data_range s.data_body

-- What a step of the parser gives, where it gives something.
abbrev pub Gives : {A : Type 0} → Result WavError A → (A → Type 0) → Type 0
Gives r P = (a : _) × (r ≡ ok a) × P a

fmt_chunk-IsRead :
    (buf pre body post : List ℕ) (at : ℕ) (found : Found) (s : Content)
    → buf ≡ pre ++ (body ++ post)
    → at ≡ length pre
    → 16 ≤ length body
    → IsRead buf found s
    → Gives
        (Parse.fmt_chunk buf at (length body) found)
        (λ f. IsRead buf f (record s { fmt = some body }))
unfolding Parse.fmt_chunk and_then
fmt_chunk-IsRead buf pre body post at found s e p h r = (
  _,
  rw
      (
        long,
        le_at-inside buf pre body post 0 2 at e (omega arith) (omega arith),
        le_at-inside buf pre body post 2 2 (at + 2) e (omega arith) (omega arith),
        le_at-inside buf pre body post 4 4 (at + 4) e (omega arith) (omega arith),
        le_at-inside buf pre body post 14 2 (at + 14) e (omega arith) (omega arith),
      )
      refl,
  record {
    audio_format = refl;
    channels = refl;
    sample_rate = refl;
    bits_per_sample = refl;
    data_body = r.data_body;
  },
)
  where
    long : ltb (length body) 16 ≡ false
    long = ground arith

match_id-IsRead :
    (buf pre post : List ℕ) (at : ℕ) (c : Chunk) (found : Found) (s : Content)
    → buf ≡ pre ++ (c.body ++ post)
    → at ≡ length pre
    → IsChunk c
    → IsRead buf found s
    → Gives
        (Parse.match_id buf c.id at (at + length c.body) (length c.body) found)
        (λ f. IsRead buf f (read_chunk s c))
unfolding Parse.match_id
match_id-IsRead buf pre post at c found s e p i r =
    elim (Bool-cases (text_eq c.id (codes "fmt "))) [
      | inl h ↦ rw h (fmt_chunk-IsRead buf pre c.body post at found s e p (i.fmt h) r)
      | inr h ↦ rw h (elim (Bool-cases (text_eq c.id (codes "data"))) [
        | inl d ↦ rw d (
          _,
          refl,
          record {
            audio_format = r.audio_format;
            channels = r.channels;
            sample_rate = r.sample_rate;
            bits_per_sample = r.bits_per_sample;
            data_body = slice-part buf pre c.body post at (at + length c.body) e p (omega arith);
          },
        )
        | inr d ↦ rw d (found, refl, r)
      ])
    ]

module _ (buf pre rest : List ℕ) (c : Chunk) (e : buf ≡ pre ++ (chunk_bytes c ++ rest)) where
  abbrev size : List ℕ
  size = le_bytes 4 (length c.body)

  abbrev pad : List ℕ
  pad = zeros (length c.body % 2)

  at_name : buf ≡ pre ++ (c.id ++ (size ++ (c.body ++ (pad ++ rest))))
  at_name = e ∙ simp (append_assoc) refl

  at_size : buf ≡ (pre ++ c.id) ++ (size ++ (c.body ++ (pad ++ rest)))
  at_size = e ∙ simp (append_assoc) refl

  at_body : buf ≡ (pre ++ (c.id ++ size)) ++ (c.body ++ (pad ++ rest))
  at_body = e ∙ simp (append_assoc) refl

  length_name : IsChunk c → length pre + 4 ≡ length (pre ++ c.id)
  length_name i = omega (arith, i.name, length-append pre c.id)

  length_head : IsChunk c → length pre + 8 ≡ length (pre ++ (c.id ++ size))
  length_head i = omega (
    arith,
    i.name,
    length-append pre (c.id ++ size),
    length-append c.id size,
    length-le_bytes 4 (length c.body),
  )

  pub length_chunk :
      IsChunk c → length (pre ++ chunk_bytes c) ≡ length pre + 8 + length c.body + length c.body % 2
  length_chunk i = omega (
    arith,
    i.name,
    length-append pre (chunk_bytes c),
    length-append (c.id ++ size) (c.body ++ pad),
    length-append c.id size,
    length-append c.body pad,
    length-le_bytes 4 (length c.body),
    length-zeros (length c.body % 2),
  )

  pub length_file :
      IsChunk c → length buf ≡ length pre + 8 + length c.body + length c.body % 2 + length rest
  length_file i = omega (
    arith,
    length_chunk i,
    length-append (pre ++ chunk_bytes c) rest,
    ap length (e ∙ sym (append_assoc pre (chunk_bytes c) rest)),
  )

  -- One turn of the loop reads one chunk and stops behind it.
  pub chunk_at-IsRead :
      (found : Found) (s : Content)
      → length buf ≤ u64_max
      → IsChunk c
      → IsRead buf found s
      → Gives
          (Parse.chunk_at buf (length pre) found)
          (λ p. IsRead buf p.0 (read_chunk s c) × (p.1 ≡ length (pre ++ chunk_bytes c)))
  unfolding Parse.chunk_at and_then
  chunk_at-IsRead found s u i r = (
    (m.0, length (pre ++ chunk_bytes c)),
    rw (name_slice, size_read, no_overflow, in_file, m.1, length_chunk i) refl,
    (m.2, refl),
  )
    where
      m :
          Gives
            (Parse.match_id buf c.id
              (length pre + 8)
              (length pre + 8 + length c.body)
              (length c.body)
              found)
            (λ f. IsRead buf f (read_chunk s c))
      m =
          match_id-IsRead buf (pre ++ (c.id ++ size)) (pad ++ rest) (length pre + 8) c found s
            at_body (length_head i) i r

      name_slice : slice buf (length pre) (length pre + 4) ≡ some c.id
      name_slice = slice-part buf pre c.id _ _ _ at_name refl (omega (arith, i.name))

      size_read : Parse.le_at buf (length pre + 4) 4 ≡ ok (length c.body)
      size_read =
          le_at-part buf (pre ++ c.id) size _ (length pre + 4) 4 at_size (length_name i)
            (length-le_bytes 4 (length c.body))
          ∙ ap ok (of_le-le_bytes 4 (length c.body) i.size)

      no_overflow : ltb u64_max (length pre + 8 + length c.body) ≡ false
      no_overflow = ground (arith, length_file i)

      in_file : ltb (length buf) (length pre + 8 + length c.body) ≡ false
      in_file = ground (arith, length_file i)
