-- ===== src/Wav/Parse/File.antt =====
-- `parse_wav` of zakuro/src/wav_reader.rs on whole files, against what their chunks say.
use mathlib.Core.List.{append_assoc}
use zakuro_rs.Base.{
  ℕ, zero, suc, ◌+◌, ◌%◌, ◌≤◌, ◌<◌, true, false, not, ◌&&◌, List, [], ◌∷◌, ◌++◌, Option, none, some,
  ◌≡◌, ◌∙◌, refl, sym, ap, arith, if◌then◌else◌, ltb, leb, ◌==◌, length, length-append, u64_max,
}
use zakuro_rs.Base.Result.{Result, ok, err, and_then}
use zakuro_rs.Base.Sort.{All}
use zakuro_rs.Base.Text.{codes, text_eq}
use zakuro_rs.Wav.Types.{
  ParsedWav, Found, WavError, audio_format_unsupported, bits_unsupported, channels_unsupported,
  bad_sample_rate, no_data, slice,
}
use zakuro_rs.Wav.Parse
use zakuro_rs.Wav.Parse.Slices.{slice-part}
use zakuro_rs.Wav.Parse.Chunks.{
  Chunk, chunk_bytes, all_bytes, IsChunk, Content, read_chunk, read_chunks, field, IsBody, IsRead,
  Gives, chunk_at-IsRead, length_file, length_chunk,
}

-- A file: its marks, a size that is not looked at, its chunks, and at most seven bytes behind them.
abbrev pub file_bytes : List ℕ → List Chunk → List ℕ → List ℕ
file_bytes size cs tail = codes "RIFF" ++ (size ++ (codes "WAVE" ++ all_bytes cs tail))

abbrev pub nothing_read : Content
nothing_read = record { fmt = none; data_body = none }

abbrev with_body : Content → Option (List ℕ) → Result WavError ParsedWav
with_body s none = err no_data
with_body s (some body) = ok (record {
  sample_rate = field 4 4 s.fmt;
  channels = field 2 2 s.fmt;
  samples = Parse.decode_samples body;
})

-- What a file with this content is taken for.
abbrev pub meaning : Content → Result WavError ParsedWav
meaning s =
    if not (field 0 2 s.fmt == 1)
    then err audio_format_unsupported
    else if not (field 14 2 s.fmt == 16)
    then err bits_unsupported
    else if not (field 2 2 s.fmt == 1) && not (field 2 2 s.fmt == 2)
    then err channels_unsupported
    else if field 4 4 s.fmt == 0
    then err bad_sample_rate
    else with_body s s.data_body

chunks_from-IsRead :
    (fuel : ℕ) (buf pre : List ℕ) (cs : List Chunk) (tail : List ℕ) (found : Found) (s : Content)
    → buf ≡ pre ++ all_bytes cs tail
    → length buf ≤ u64_max
    → length tail < 8
    → length buf < fuel + length pre
    → All IsChunk cs
    → IsRead buf found s
    → Gives (Parse.chunks_from fuel buf (length pre) found) (λ f. IsRead buf f (read_chunks s cs))
unfolding Parse.chunks_from and_then
chunks_from-IsRead zero buf pre [] tail found s e u t f i r = (found, rw done refl, r)
  where
    done : leb (length pre + 8) (length buf) ≡ false
    done = ground (arith, ap length e, length-append pre tail)
chunks_from-IsRead (suc fuel) buf pre [] tail found s e u t f i r = (found, rw done refl, r)
  where
    done : leb (length pre + 8) (length buf) ≡ false
    done = ground (arith, ap length e, length-append pre tail)
chunks_from-IsRead zero buf pre (c ∷ cs) tail found s e u t f i r =
    absurd (omega (arith, length_file buf pre (all_bytes cs tail) c e i.0))
chunks_from-IsRead (suc fuel) buf pre (c ∷ cs) tail found s e u t f i r =
    let rest =
      chunks_from-IsRead fuel buf (pre ++ chunk_bytes c) cs tail turn.0.0 (read_chunk s c)
        (e ∙ sym (append_assoc pre (chunk_bytes c) (all_bytes cs tail))) u t
        (omega (arith, length_chunk buf pre (all_bytes cs tail) c e i.0)) i.1 turn.2.0 in
    (rest.0, rw (more, turn.1, turn.2.1) rest.1, rest.2)
  where
    turn :
        Gives
          (Parse.chunk_at buf (length pre) found)
          (λ p. IsRead buf p.0 (read_chunk s c) × (p.1 ≡ length (pre ++ chunk_bytes c)))
    turn = chunk_at-IsRead buf pre (all_bytes cs tail) c e found s u i.0 r

    file :
        length buf ≡ length pre + 8 + length c.body + length c.body % 2 + length (all_bytes cs tail)
    file = length_file buf pre (all_bytes cs tail) c e i.0

    more : leb (length pre + 8) (length buf) ≡ true
    more = ground (arith, file)

take_data-with_body :
    (buf : List ℕ) (found : Found) (s : Content) (range : Option (ℕ × ℕ)) (body : Option (List ℕ))
    → IsRead buf found s
    → IsBody buf range body
    → Parse.take_data buf found range ≡ with_body s body
unfolding Parse.take_data and_then
take_data-with_body buf found s none none r b = refl
take_data-with_body buf found s none (some body) r b = absurd b
take_data-with_body buf found s (some (from, to)) none r b = absurd b
take_data-with_body buf found s (some (from, to)) (some body) r b =
    rw (b, r.sample_rate, r.channels) refl

check_found-meaning :
    (buf : List ℕ) (found : Found) (s : Content)
    → IsRead buf found s
    → Parse.check_found buf found ≡ meaning s
unfolding Parse.check_found
check_found-meaning buf found s r =
    rw
      (
        take_data-with_body buf found s found.data_range s.data_body r r.data_body,
        r.audio_format,
        r.bits_per_sample,
        r.channels,
        r.sample_rate,
      )
      refl

-- A file that is made of well-formed chunks, below `u64::MAX` bytes and with less than eight bytes
-- behind the chunks, is parsed to what its last "fmt " and its last "data" say: the rate, the
-- channels and the decoded samples, or the error that these fields call for. Chunks with another
-- name, the padding of odd chunks and the size of the file in its head make no difference.
pub parse_wav-file_bytes :
    (size : List ℕ) (cs : List Chunk) (tail : List ℕ)
    → length size ≡ 4
    → All IsChunk cs
    → length tail < 8
    → length (file_bytes size cs tail) ≤ u64_max
    → Parse.parse_wav (file_bytes size cs tail) ≡ meaning (read_chunks nothing_read cs)
unfolding Parse.parse_wav and_then text_eq
parse_wav-file_bytes size cs tail l i t u =
    rw (long, riff, wave, loop.1) (check_found-meaning (file_bytes size cs tail) loop.0 _ loop.2)
  where
    buf : List ℕ
    buf = file_bytes size cs tail

    head : List ℕ
    head = codes "RIFF" ++ (size ++ codes "WAVE")

    chunks : buf ≡ head ++ all_bytes cs tail
    chunks =
        ap (λ (x : List ℕ). codes "RIFF" ++ x)
          (sym (append_assoc size (codes "WAVE") (all_bytes cs tail)))

    twelve : 12 ≡ length head
    twelve = omega (arith, l, length-append size (codes "WAVE"))

    whole : length buf ≡ 12 + length (all_bytes cs tail)
    whole = omega (arith, l, length-append size (codes "WAVE" ++ all_bytes cs tail))

    long : ltb (length buf) 12 ≡ false
    long = ground (arith, whole)

    riff : slice buf 0 4 ≡ some (codes "RIFF")
    riff = slice-part buf [] (codes "RIFF") _ 0 4 refl refl refl

    wave : slice buf 8 12 ≡ some (codes "WAVE")
    wave =
        slice-part buf (codes "RIFF" ++ size) (codes "WAVE") (all_bytes cs tail) 8 12 refl
          (omega (arith, l)) (omega (arith, l))

    loop :
        Gives
          (Parse.chunks_from (suc (length buf)) buf 12 Parse.nothing_found)
          (λ f. IsRead buf f (read_chunks nothing_read cs))
    loop = rw (twelve) (
        chunks_from-IsRead (suc (length buf)) buf head cs tail Parse.nothing_found nothing_read
          chunks u t (omega arith) i
          (record {
            audio_format = refl;
            channels = refl;
            sample_rate = refl;
            bits_per_sample = refl;
            data_body = tt;
          }))
