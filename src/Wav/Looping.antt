-- ===== src/Wav/Looping.antt =====
-- What a reader of zakuro/src/wav_reader.rs plays.
use mathlib.Core.Path.{subst}
use native.Mathlib.Nat.{mod-add-mod, mod-mod, mod_self, mod-eq_of_lt}
use zakuro_rs.Base.{
  ℕ, zero, suc, ◌+◌, ◌%◌, ◌≤◌, ◌<◌, List, [], ◌∷◌, Option, none, some, ◌≡◌, refl, arith, sym, ap,
  ◌∙◌, if◌then◌else◌, leb, length, get_elem?, Bool-cases, inl, inr,
}
use zakuro_rs.Base.Int.{ℤ}
use zakuro_rs.Base.Result.{ok, and_then_ok, ok_inj}
use zakuro_rs.Stats.Float.{Float}
use zakuro_rs.Wav.Types.{WavReader}
use zakuro_rs.Wav.Parse.{parse_wav}
use zakuro_rs.Wav.Ops
use zakuro_rs.Wav.Ops.{from_bytes, read_samples, downmix_to_mono, resample, target_sample_rate}

pub record IsReady (r : WavReader) : Type 0 where
  pub inside : r.cursor < length r.samples

get_elem?-inside : (xs : List ℤ) (i : ℕ) → i < length xs → (x : ℤ) × (get_elem? xs i ≡ some x)
get_elem?-inside [] i h = absurd (omega arith)
get_elem?-inside (x ∷ xs) zero h = (x, refl)
get_elem?-inside (x ∷ xs) (suc i) h = get_elem?-inside xs i (omega arith)

-- The samples from a place on, around and around.
abbrev pub IsLooped : List ℤ → ℕ → List ℤ → Type 0
IsLooped samples at [] = Unit {0}
IsLooped samples at (s ∷ out) =
    (get_elem? samples (at % length samples) ≡ some s) × IsLooped samples (at + 1) out

pub record IsPlayed (r r' : WavReader) (n : ℕ) (out : List ℤ) : Type 0 where
  pub filled : length out ≡ n
  pub looped : IsLooped r.samples r.cursor out
  pub same : r'.samples ≡ r.samples
  pub ready : IsReady r'
  pub at : r'.cursor ≡ (r.cursor + n) % length r.samples

next_mod : (a b k size : ℕ) → a % size ≡ b % size → (a + k) % size ≡ (b + k) % size
next_mod a b k size h =
    sym (mod-add-mod a size k) ∙ ap (λ (t : ℕ). (t + k) % size) h ∙ mod-add-mod b size k

IsLooped-mod :
    (samples : List ℤ) (a b : ℕ) (out : List ℤ)
    → a % length samples ≡ b % length samples
    → IsLooped samples a out
    → IsLooped samples b out
IsLooped-mod samples a b [] e h = tt
IsLooped-mod samples a b (s ∷ out) e h =
    (rw (← e) h.0, IsLooped-mod samples (a + 1) (b + 1) out (next_mod a b 1 (length samples) e) h.1)

abbrev cursor_after : WavReader → ℕ
cursor_after r = if leb (length r.samples) (r.cursor + 1) then 0 else r.cursor + 1

moved_mod :
    (cursor size : ℕ)
    → cursor < size
    → (if leb size (cursor + 1) then 0 else cursor + 1) ≡ (cursor + 1) % size
moved_mod cursor size h = elim (Bool-cases (leb size (cursor + 1))) [
  | inl e ↦ rw (e, whole (ground arith)) (sym (mod_self size))
  | inr e ↦ rw e (sym (mod-eq_of_lt (ground arith)))
]
  where
    whole : size ≤ cursor + 1 → cursor + 1 ≡ size
    whole k = omega arith

cursor_after-inside :
    (cursor size : ℕ) → cursor < size → (if leb size (cursor + 1) then 0 else cursor + 1) < size
cursor_after-inside cursor size h = ground arith

abbrev pub Plays : ℕ → WavReader → Type 0
Plays n r =
    (out : List ℤ) × (r' : WavReader) × (read_samples n r ≡ some (out, r')) × IsPlayed r r' n out

none_played : (r : WavReader) → IsReady r → Plays 0 r
unfolding read_samples
none_played r h = (
  [],
  r,
  refl,
  record {
    filled = refl;
    looped = tt;
    same = refl;
    at = sym (ap (λ (t : ℕ). t % length r.samples) (omega arith) ∙ mod-eq_of_lt h.inside);
    ready = h;
  },
)

one_more :
    (n : ℕ) (r : WavReader)
    → IsReady r
    → Plays n (record r { cursor = cursor_after r })
    → Plays (suc n) r
unfolding read_samples
one_more n r h rest = (
  first.0 ∷ rest.0,
  rest.1,
  rw (first.1, rest.2) refl,
  record {
    filled = omega (arith, rest.3.filled);
    looped = (
      ap (get_elem? r.samples) (mod-eq_of_lt h.inside) ∙ first.1,
      IsLooped-mod r.samples (cursor_after r) (r.cursor + 1) rest.0 same_place rest.3.looped,
    );
    same = rest.3.same;
    at =
        rest.3.at
        ∙ next_mod (cursor_after r) (r.cursor + 1) n (length r.samples) same_place
        ∙ ap (λ (t : ℕ). t % length r.samples) (omega arith);
    ready = rest.3.ready;
  },
)
  where
    first : (x : ℤ) × (get_elem? r.samples r.cursor ≡ some x)
    first = get_elem?-inside r.samples r.cursor h.inside

    same_place : cursor_after r % length r.samples ≡ (r.cursor + 1) % length r.samples
    same_place =
        ap (λ (t : ℕ). t % length r.samples) (moved_mod r.cursor (length r.samples) h.inside)
        ∙ mod-mod (r.cursor + 1) (length r.samples)

-- A reader that is ready fills any buffer, never with an index out of range: sample by sample with
-- the file from its cursor on, and from the beginning after the end. The file stays, the cursor
-- has moved on by the size of the buffer, around the end, and the reader is ready again.
pub read_samples-IsPlayed : (n : ℕ) (r : WavReader) → IsReady r → Plays n r
read_samples-IsPlayed zero r h = none_played r h
read_samples-IsPlayed (suc n) r h = one_more n r h (
    read_samples-IsPlayed n (record r { cursor = cursor_after r })
      (record { inside = cursor_after-inside r.cursor (length r.samples) h.inside }))

module _ (f : Float) where
  to_reader-IsReady : (o : Option (List ℤ)) (r : WavReader) → Ops.to_reader f o ≡ ok r → IsReady r
  unfolding Ops.to_reader
  to_reader-IsReady none r h = absurd (cc h)
  to_reader-IsReady (some []) r h = absurd (cc h)
  to_reader-IsReady (some (s ∷ ss)) r h =
      subst IsReady (ok_inj (record { samples = s ∷ ss; cursor = 0 }) r h)
        (record { inside = omega arith })

  -- A file that opens gives a reader that is ready.
  pub from_bytes-IsReady : (buf : List ℕ) (r : WavReader) → from_bytes f buf ≡ ok r → IsReady r
  unfolding from_bytes
  from_bytes-IsReady buf r h =
      let parsed = and_then_ok (parse_wav buf) _ r h in
      let mono = and_then_ok (downmix_to_mono parsed.0.samples parsed.0.channels) _ r parsed.2 in
      to_reader-IsReady (resample f mono.0 parsed.0.sample_rate target_sample_rate) r mono.2
