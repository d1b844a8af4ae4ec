-- ===== src/Wav/Ops.antt =====
-- `from_bytes`, `read_samples`, `downmix_to_mono` and `resample` of zakuro/src/wav_reader.rs.
use zakuro_rs.Base.{
  ℕ, zero, suc, ◌+◌, ◌-◌, ◌/◌, ◌||◌, List, [], ◌∷◌, Option, none, some, if◌then◌else◌, leb, ◌==◌,
  length, get_elem?, ◌>>=◌,
}
use zakuro_rs.Base.Int.{ℤ, pos, negsuc, pos_part, neg_part}
use zakuro_rs.Base.Result.{Result, ok, err, and_then}
use zakuro_rs.Stats.Float.{Float}
use zakuro_rs.Wav.Types.{WavReader, WavError, no_samples, panic}
use zakuro_rs.Wav.Parse.{parse_wav}

abbrev pub target_sample_rate : ℕ
target_sample_rate = 48000

-- The sum of some samples as its positive and its negative part.
abbrev sum_parts : List ℤ → ℕ × ℕ
sum_parts [] = (0, 0)
sum_parts (s ∷ ss) = let r = sum_parts ss in (pos_part s + r.0, neg_part s + r.1)

-- Division by a positive number that rounds towards zero.
abbrev pub div_toward_zero : ℕ × ℕ → ℕ → ℤ
div_toward_zero (plus, minus) n =
    if leb minus plus
    then pos ((plus - minus) / n)
    else if (minus - plus) / n == 0
    then pos 0
    else negsuc ((minus - plus) / n - 1)

-- The next `n` samples and those after them, if there are so many.
abbrev split_frame : ℕ → List ℤ → Option (List ℤ × List ℤ)
split_frame zero ss = some ([], ss)
split_frame (suc n) [] = none
split_frame (suc n) (s ∷ ss) = do (frame, rest) ← split_frame n ss; some (s ∷ frame, rest)

-- `chunks_exact`: the frames of `n` samples. The number of samples is fuel enough.
unfoldable pub frames : ℕ → ℕ → List ℤ → List ℤ
frames zero n ss = []
frames (suc fuel) n ss = elim (split_frame n ss) [
  | none ↦ []
  | some (frame, rest) ↦ div_toward_zero (sum_parts frame) n ∷ frames fuel n rest
]

-- `chunks_exact(0)` panics.
unfoldable pub downmix_to_mono : List ℤ → ℕ → Result WavError (List ℤ)
unfolding frames
downmix_to_mono samples channels =
    if channels == 1
    then ok samples
    else if channels == 0
    then err panic
    else ok (frames (length samples) channels samples)

module _ (f : Float) where
  open f use {add, sub, mul, div, floor, of_nat, of_int, to_usize, to_i16}

  interpolate : ℤ → ℤ → f.F → ℤ
  interpolate a b frac = to_i16 (add (of_int a) (mul (sub (of_int b) (of_int a)) frac))

  -- One sample of the output; `none` for an index out of range.
  sample_at : List ℤ → f.F → ℕ → Option ℤ
  sample_at input ratio i =
      let position = mul (of_nat i) ratio in
      let idx = to_usize position in
      if leb (length input - 1) idx
      then get_elem? input (length input - 1)
      else get_elem? input idx >>= λ a.
          get_elem? input (idx + 1) >>= λ b. some (interpolate a b (sub position (of_nat idx)))

  samples_from : ℕ → ℕ → List ℤ → f.F → Option (List ℤ)
  samples_from zero i input ratio = some []
  samples_from (suc n) i input ratio =
      sample_at input ratio i >>= λ s. samples_from n (i + 1) input ratio >>= λ ss. some (s ∷ ss)

  -- `none` for a panic.
  unfoldable pub resample : List ℤ → ℕ → ℕ → Option (List ℤ)
  unfolding samples_from sample_at interpolate
  resample input in_rate out_rate =
      let ratio = div (of_nat in_rate) (of_nat out_rate) in
      if length input == 0 || in_rate == out_rate
      then some input
      else samples_from (to_usize (floor (div (of_nat (length input)) ratio))) 0 input ratio

  unfoldable pub to_reader : Option (List ℤ) → Result WavError WavReader
  to_reader none = err panic
  to_reader (some []) = err no_samples
  to_reader (some (s ∷ ss)) = ok (record { samples = s ∷ ss; cursor = 0 })

  unfoldable pub from_bytes : List ℕ → Result WavError WavReader
  from_bytes buf = and_then (parse_wav buf) λ parsed.
      and_then (downmix_to_mono parsed.samples parsed.channels)
        λ mono. to_reader (resample mono parsed.sample_rate target_sample_rate)

-- `read_samples` with a buffer of `n` samples: what it is filled with. An index out of range
-- is `none`.
unfoldable pub read_samples : ℕ → WavReader → Option (List ℤ × WavReader)
read_samples zero r = some ([], r)
read_samples (suc n) r = do
  s ← get_elem? r.samples r.cursor
  let next = if leb (length r.samples) (r.cursor + 1) then 0 else r.cursor + 1
  (out, r') ← read_samples n (record r { cursor = next })
  some (s ∷ out, r')
