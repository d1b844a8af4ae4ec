-- ===== src/Wav/Parse/Slices.antt =====
-- The parts of a file that `parse_wav` of zakuro/src/wav_reader.rs reads.
use native.Mathlib.Nat.{pow-suc}
use zakuro_rs.Base.{
  ℕ, zero, suc, ◌+◌, ◌-◌, ◌/◌, ◌^◌, ◌≤◌, ◌<◌, false, List, [], ◌∷◌, ◌++◌, some, ◌≡◌, refl, ap,
  arith, ltb, length, length-append,
}
use zakuro_rs.Base.Result.{ok, and_then}
use zakuro_rs.Channel.Bytes.{take, drop, le_bytes}
use zakuro_rs.Wav.Types.{slice, of_le}
use zakuro_rs.Wav.Parse

pub of_le-le_bytes : (k n : ℕ) → n < 256 ^ k → of_le (le_bytes k n) ≡ n
unfolding le_bytes
of_le-le_bytes zero n h = omega arith
of_le-le_bytes (suc k) n h =
    omega (arith, of_le-le_bytes k (n / 256) (omega (arith, pow-suc 256 k)))

take-front : (xs ys : List ℕ) → take (length xs) (xs ++ ys) ≡ xs
take-front [] ys = refl
take-front (x ∷ xs) ys = ap (λ (t : List ℕ). x ∷ t) (take-front xs ys)

drop-front : (xs ys : List ℕ) → drop (length xs) (xs ++ ys) ≡ ys
drop-front [] ys = refl
drop-front (x ∷ xs) ys = drop-front xs ys

pub take-all : (xs : List ℕ) → take (length xs) xs ≡ xs
take-all [] = refl
take-all (x ∷ xs) = ap (λ (t : List ℕ). x ∷ t) (take-all xs)

drop-past : (pre ys : List ℕ) (n m : ℕ) → m ≡ length pre + n → drop m (pre ++ ys) ≡ drop n ys
drop-past [] ys n m h = ap (λ (k : ℕ). drop k ys) (the_same h)
  where
    the_same : m ≡ 0 + n → m ≡ n
    the_same e = omega arith
drop-past (x ∷ pre) ys n zero h = absurd (omega arith)
drop-past (x ∷ pre) ys n (suc m) h = drop-past pre ys n m (omega arith)

take-inside : (n : ℕ) (mid post : List ℕ) → n ≤ length mid → take n (mid ++ post) ≡ take n mid
take-inside zero mid post h = refl
take-inside (suc n) [] post h = absurd (omega arith)
take-inside (suc n) (x ∷ mid) post h =
    ap (λ (t : List ℕ). x ∷ t) (take-inside n mid post (omega arith))

take-drop-inside :
    (a n : ℕ) (mid post : List ℕ)
    → a + n ≤ length mid
    → take n (drop a (mid ++ post)) ≡ take n (drop a mid)
take-drop-inside zero n mid post h = take-inside n mid post (omega arith)
take-drop-inside (suc a) zero [] post h = absurd (omega arith)
take-drop-inside (suc a) (suc n) [] post h = absurd (omega arith)
take-drop-inside (suc a) n (x ∷ mid) post h = take-drop-inside a n mid post (omega arith)

-- A slice of a part of the file.
pub slice-inside :
    (buf pre mid post : List ℕ) (a n : ℕ)
    → buf ≡ pre ++ (mid ++ post)
    → a + n ≤ length mid
    → slice buf (length pre + a) (length pre + a + n) ≡ some (take n (drop a mid))
unfolding slice
slice-inside buf pre mid post a n e h =
    rw
      (
        e,
        not_past,
        not_back,
        width,
        drop-past pre (mid ++ post) a (length pre + a) refl,
        take-drop-inside a n mid post h,
      )
      refl
  where
    not_past : ltb (length (pre ++ (mid ++ post))) (length pre + a + n) ≡ false
    not_past = ground (arith, length-append pre (mid ++ post), length-append mid post)

    not_back : ltb (length pre + a + n) (length pre + a) ≡ false
    not_back = ground arith

    width : length pre + a + n - (length pre + a) ≡ n
    width = omega arith

-- A part as a whole.
pub slice-part :
    (buf pre mid post : List ℕ) (from to : ℕ)
    → buf ≡ pre ++ (mid ++ post)
    → from ≡ length pre
    → to ≡ length pre + length mid
    → slice buf from to ≡ some mid
slice-part buf pre mid post from to e f t =
    rw (start, end, slice-inside buf pre mid post 0 (length mid) e (omega arith), take-all mid) refl
  where
    start : from ≡ length pre + 0
    start = omega arith

    end : to ≡ length pre + 0 + length mid
    end = omega arith

-- The number in a part of the file.
pub le_at-inside :
    (buf pre mid post : List ℕ) (a n at : ℕ)
    → buf ≡ pre ++ (mid ++ post)
    → a + n ≤ length mid
    → at ≡ length pre + a
    → Parse.le_at buf at n ≡ ok (of_le (take n (drop a mid)))
unfolding Parse.le_at and_then
le_at-inside buf pre mid post a n at e h p = rw (p, slice-inside buf pre mid post a n e h) refl

pub le_at-part :
    (buf pre mid post : List ℕ) (at n : ℕ)
    → buf ≡ pre ++ (mid ++ post)
    → at ≡ length pre
    → length mid ≡ n
    → Parse.le_at buf at n ≡ ok (of_le mid)
unfolding Parse.le_at and_then
le_at-part buf pre mid post at n e p l =
    rw (slice-part buf pre mid post at (at + n) e p (omega arith)) refl
