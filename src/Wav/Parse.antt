-- ===== src/Wav/Parse.antt =====
-- `parse_wav` of zakuro/src/wav_reader.rs.
pub mod Safe
pub mod Slices
pub mod Chunks
pub mod File
use zakuro_rs.Base.{
  ℕ, zero, suc, ◌+◌, ◌%◌, Bool, true, false, not, ◌&&◌, List, [], ◌∷◌, Option, none, some,
  if◌then◌else◌, ltb, leb, ◌==◌, length, u64_max,
}
use zakuro_rs.Base.Int.{ℤ}
use zakuro_rs.Base.Result.{Result, ok, err, and_then}
use zakuro_rs.Base.Text.{codes, text_eq}
use zakuro_rs.Wav.Types.{
  ParsedWav, Found, WavError, too_short, no_riff, no_wave, size_overflow, past_the_end,
  fmt_too_short, audio_format_unsupported, bits_unsupported, channels_unsupported, bad_sample_rate,
  no_data, panic, no_fuel, slice, of_le, i16_of,
}

abbrev pub or_panic : {A : Type 0} → Option A → Result WavError A
or_panic none = err panic
or_panic (some a) = ok a

-- The number that the `k` bytes from `at` stand for.
unfoldable pub le_at : List ℕ → ℕ → ℕ → Result WavError ℕ
le_at buf at k = and_then (or_panic (slice buf at (at + k))) (λ bs. ok (of_le bs))

unfoldable pub fmt_chunk : List ℕ → ℕ → ℕ → Found → Result WavError Found
fmt_chunk buf body_start size found =
    if ltb size 16
    then err fmt_too_short
    else and_then (le_at buf body_start 2) λ audio_format.
      and_then (le_at buf (body_start + 2) 2) λ channels.
        and_then (le_at buf (body_start + 4) 4) λ sample_rate.
          and_then (le_at buf (body_start + 14) 2) λ bits_per_sample. ok (record found {
            audio_format = audio_format;
            channels = channels;
            sample_rate = sample_rate;
            bits_per_sample = bits_per_sample;
          })

-- The arms of `match id`.
unfoldable pub match_id : List ℕ → List ℕ → ℕ → ℕ → ℕ → Found → Result WavError Found
match_id buf id body_start body_end size found =
    if text_eq id (codes "fmt ")
    then fmt_chunk buf body_start size found
    else if text_eq id (codes "data")
    then ok (record found { data_range = some (body_start, body_end) })
    else ok found

-- One turn of the loop over the chunks.
unfoldable pub chunk_at : List ℕ → ℕ → Found → Result WavError (Found × ℕ)
chunk_at buf at found = and_then (or_panic (slice buf at (at + 4))) λ id.
    and_then (le_at buf (at + 4) 4) λ size.
      let body_start = at + 8 in
      let body_end = body_start + size in
      if ltb u64_max body_end
      then err size_overflow
      else if ltb (length buf) body_end
      then err past_the_end
      else and_then (match_id buf id body_start body_end size found)
          λ found'. ok (found', body_end + size % 2)

unfoldable pub chunks_from : ℕ → List ℕ → ℕ → Found → Result WavError Found
chunks_from zero buf at found = if leb (at + 8) (length buf) then err no_fuel else ok found
chunks_from (suc fuel) buf at found =
    let rest = and_then (chunk_at buf at found) (λ p. chunks_from fuel buf (p.1) (p.0)) in
    if leb (at + 8) (length buf) then rest else ok found

-- The bytes two by two; a byte that is left over is dropped.
unfoldable pub decode_samples : List ℕ → List ℤ
decode_samples (low ∷ high ∷ rest) = i16_of low high ∷ decode_samples rest
decode_samples _ = []

-- The checks after the loop.
unfoldable pub take_data : List ℕ → Found → Option (ℕ × ℕ) → Result WavError ParsedWav
take_data buf found none = err no_data
take_data buf found (some (from, to)) = and_then (or_panic (slice buf from to)) λ bytes.
    ok (record {
      sample_rate = found.sample_rate;
      channels = found.channels;
      samples = decode_samples bytes;
    })

unfoldable pub check_found : List ℕ → Found → Result WavError ParsedWav
check_found buf found =
    if not (found.audio_format == 1)
    then err audio_format_unsupported
    else if not (found.bits_per_sample == 16)
    then err bits_unsupported
    else if not (found.channels == 1) && not (found.channels == 2)
    then err channels_unsupported
    else if found.sample_rate == 0
    then err bad_sample_rate
    else take_data buf found found.data_range

abbrev pub nothing_found : Found
nothing_found = record {
  audio_format = 0;
  channels = 0;
  sample_rate = 0;
  bits_per_sample = 0;
  data_range = none;
}

-- Each turn moves on by eight bytes at least, so the length of the file is fuel enough.
unfoldable pub parse_wav : List ℕ → Result WavError ParsedWav
parse_wav buf =
    if ltb (length buf) 12
    then err too_short
    else and_then (or_panic (slice buf 0 4)) λ riff.
      if not (text_eq riff (codes "RIFF"))
      then err no_riff
      else and_then (or_panic (slice buf 8 12)) λ wave.
        if not (text_eq wave (codes "WAVE"))
        then err no_wave
        else and_then (chunks_from (suc (length buf)) buf 12 nothing_found) (check_found buf)
