-- ===== src/Wav/Types.antt =====
-- The data of zakuro/src/wav_reader.rs, and the slices of a file.
use zakuro_rs.Base.{ℕ, ◌+◌, ◌-◌, ◌*◌, List, [], ◌∷◌, Option, none, some, if◌then◌else◌, length}
use zakuro_rs.Base.Int.{ℤ, pos, negsuc}
use zakuro_rs.Base.{ltb}
use zakuro_rs.Channel.Bytes.{take, drop}

pub record WavReader : Type 0 where
  pub samples : List ℤ
  pub cursor : ℕ

pub record ParsedWav : Type 0 where
  pub sample_rate : ℕ
  pub channels : ℕ
  pub samples : List ℤ

-- `panic` stands for a slice out of range or an `expect`, `no_fuel` for the end of the fuel.
pub data WavError : Type 0 where
  too_short no_riff no_wave size_overflow past_the_end fmt_too_short : WavError
  audio_format_unsupported bits_unsupported channels_unsupported bad_sample_rate : WavError
  no_data no_samples panic no_fuel : WavError

-- What the loop over the chunks has found.
pub record Found : Type 0 where
  pub audio_format : ℕ
  pub channels : ℕ
  pub sample_rate : ℕ
  pub bits_per_sample : ℕ
  pub data_range : Option (ℕ × ℕ)

-- `&buf[from..to]`, `none` for a panic.
unfoldable pub slice : List ℕ → ℕ → ℕ → Option (List ℕ)
slice buf from to =
    if ltb (length buf) to
    then none
    else if ltb to from
    then none
    else some (take (to - from) (drop from buf))

-- `from_le_bytes`
abbrev pub of_le : List ℕ → ℕ
of_le [] = 0
of_le (b ∷ bs) = b + 256 * of_le bs

-- `i16::from_le_bytes`
abbrev pub i16_of : ℕ → ℕ → ℤ
i16_of low high = let n = low + 256 * high in if ltb n 32768 then pos n else negsuc (65535 - n)
