-- ===== src/Tests/Wav.antt =====
-- A small WAV file.
use zakuro_rs.Base.{ℕ, List, [], ◌∷◌, ◌++◌, ◌≡◌, refl, arith}
use zakuro_rs.Base.Int.{pos, negsuc}
use zakuro_rs.Base.Result.{ok, and_then}
use zakuro_rs.Base.Sort.{All}
use zakuro_rs.Base.Text.{codes, text_eq}
use zakuro_rs.Channel.Bytes.{le_bytes}
use zakuro_rs.Wav.Types.{WavReader, slice}
use zakuro_rs.Wav.Parse.{
  parse_wav, chunks_from, chunk_at, match_id, fmt_chunk, check_found, take_data, le_at,
  decode_samples,
}
use zakuro_rs.Wav.Parse.Chunks.{Chunk, IsChunk}
use zakuro_rs.Wav.Parse.File.{file_bytes, parse_wav-file_bytes}
use zakuro_rs.Wav.Parse.Safe.{Ends, IsPlayable, parse_wav-Ends}
use zakuro_rs.Wav.Ops.{from_bytes, downmix_to_mono, resample, to_reader}
use zakuro_rs.Wav.Looping.{Plays, read_samples-IsPlayed}
use zakuro_rs.Tests.Stats.{fixed}

-- Two channels, 48,000 Hz, an unknown chunk of an odd size, and three frames.
abbrev file : List ℕ
file =
    codes "RIFF"
    ++ le_bytes 4 50
    ++ codes "WAVE"
    ++ codes "fmt "
    ++ le_bytes 4 16
    ++ le_bytes 2 1
    ++ le_bytes 2 2
    ++ le_bytes 4 48000
    ++ le_bytes 4 192000
    ++ le_bytes 2 4
    ++ le_bytes 2 16
    ++ codes "LIST"
    ++ le_bytes 4 1
    ++ 7 ∷ 0 ∷ codes "data"
    ++ le_bytes 4 12
    ++ le_bytes 2 1000
    ++ le_bytes 2 64536
    ++ le_bytes 2 7
    ++ le_bytes 2 8
    ++ le_bytes 2 65535
    ++ le_bytes 2 65534

abbrev reader : WavReader
reader = record { samples = pos 0 ∷ pos 7 ∷ negsuc 0 ∷ []; cursor = 0 }

opened : from_bytes fixed file ≡ ok reader
unfolding from_bytes parse_wav and_then slice text_eq chunks_from chunk_at match_id fmt_chunk
    check_found take_data le_at decode_samples downmix_to_mono resample to_reader le_bytes
opened = refl

parse_wav-Ends_example : Ends IsPlayable (parse_wav file)
parse_wav-Ends_example = parse_wav-Ends file

read_samples-IsPlayed_example : Plays 7 reader
read_samples-IsPlayed_example = read_samples-IsPlayed 7 reader (record { inside = omega arith })

abbrev fmt_body : List ℕ
fmt_body =
    le_bytes 2 1
    ++ le_bytes 2 2
    ++ le_bytes 4 48000
    ++ le_bytes 4 192000
    ++ le_bytes 2 4
    ++ le_bytes 2 16

-- Two "data" chunks, of which the last counts, an odd chunk between them, and two bytes at the end.
abbrev chunks : List Chunk
chunks =
    record { id = codes "data"; body = 1 ∷ 1 ∷ [] }
    ∷ record { id = codes "fmt "; body = fmt_body }
    ∷ record { id = codes "LIST"; body = 7 ∷ [] }
    ∷ record { id = codes "data"; body = 232 ∷ 3 ∷ 24 ∷ 252 ∷ 9 ∷ [] }
    ∷ []

chunks-IsChunk : All IsChunk chunks
unfolding text_eq le_bytes
chunks-IsChunk = (
  record { name = refl; size = omega arith; fmt = λ h. absurd (cc h) },
  (
    record { name = refl; size = omega arith; fmt = λ h. omega arith },
    (
      record { name = refl; size = omega arith; fmt = λ h. absurd (cc h) },
      (record { name = refl; size = omega arith; fmt = λ h. absurd (cc h) }, tt),
    ),
  ),
)

parse_wav-file_bytes_example :
    parse_wav (file_bytes (7 ∷ 7 ∷ 7 ∷ 7 ∷ []) chunks (1 ∷ 2 ∷ []))
    ≡ ok (record { sample_rate = 48000; channels = 2; samples = pos 1000 ∷ negsuc 999 ∷ [] })
unfolding decode_samples text_eq le_bytes
parse_wav-file_bytes_example =
    parse_wav-file_bytes (7 ∷ 7 ∷ 7 ∷ 7 ∷ []) chunks (1 ∷ 2 ∷ []) refl chunks-IsChunk (omega arith)
      (omega arith)
