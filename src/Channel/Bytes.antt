-- ===== src/Channel/Bytes.antt =====
-- Byte buffers as lists, for the code of zakuro/src/data_channel.rs that fills them.
use zakuro_rs.Base.{
  ℕ, zero, suc, ◌+◌, ◌*◌, ◌/◌, ◌%◌, ◌<◌, List, [], ◌∷◌, ◌++◌, Option, none, some, ◌≡◌, refl, arith,
  length, length-append, ◌^◌,
}
use native.Mathlib.Nat.{pow-suc}

-- `to_be_bytes` and `to_le_bytes` of a number of `k` bytes.
unfoldable pub be_bytes : ℕ → ℕ → List ℕ
be_bytes zero n = []
be_bytes (suc k) n = be_bytes k (n / 256) ++ n % 256 ∷ []

unfoldable pub le_bytes : ℕ → ℕ → List ℕ
le_bytes zero n = []
le_bytes (suc k) n = n % 256 ∷ le_bytes k (n / 256)

-- `vec![0u8; n]`
abbrev pub zeros : ℕ → List ℕ
zeros zero = []
zeros (suc n) = 0 ∷ zeros n

module _ {A : Type 0} where
  -- `s[..n]` and `s[n..]` where they are in range.
  abbrev pub take : ℕ → List A → List A
  take zero xs = []
  take (suc n) [] = []
  take (suc n) (x ∷ xs) = x ∷ take n xs

  abbrev pub drop : ℕ → List A → List A
  drop zero xs = xs
  drop (suc n) [] = []
  drop (suc n) (x ∷ xs) = drop n xs

abbrev cons_some : ℕ → Option (List ℕ) → Option (List ℕ)
cons_some b none = none
cons_some b (some bs) = some (b ∷ bs)

-- `buf[..src.len()].copy_from_slice(src)`, `none` for a panic.
abbrev pub overwrite : List ℕ → List ℕ → Option (List ℕ)
overwrite [] buf = some buf
overwrite (x ∷ xs) [] = none
overwrite (x ∷ xs) (b ∷ bs) = cons_some x (overwrite xs bs)

-- `buf[at..at + src.len()].copy_from_slice(src)`
abbrev pub copy_at : ℕ → List ℕ → List ℕ → Option (List ℕ)
copy_at zero src buf = overwrite src buf
copy_at (suc n) src [] = none
copy_at (suc n) src (b ∷ bs) = cons_some b (copy_at n src bs)

-- The number that big-endian bytes stand for.
abbrev pub of_be : ℕ → List ℕ → ℕ
of_be n [] = n
of_be n (b ∷ bs) = of_be (n * 256 + b) bs

of_be-append : (n b : ℕ) (xs : List ℕ) → of_be n (xs ++ b ∷ []) ≡ of_be n xs * 256 + b
of_be-append n b [] = refl
of_be-append n b (x ∷ xs) = of_be-append (n * 256 + x) b xs

pub of_be-be_bytes : (k n : ℕ) → n < 256 ^ k → of_be 0 (be_bytes k n) ≡ n
unfolding be_bytes
of_be-be_bytes zero n h = omega arith
of_be-be_bytes (suc k) n h = omega (
  arith,
  of_be-append 0 (n % 256) (be_bytes k (n / 256)),
  of_be-be_bytes k (n / 256) (omega (arith, pow-suc 256 k)),
)

pub length-be_bytes : (k n : ℕ) → length (be_bytes k n) ≡ k
unfolding be_bytes
length-be_bytes zero n = refl
length-be_bytes (suc k) n =
    omega (arith, length-append (be_bytes k (n / 256)) (n % 256 ∷ []), length-be_bytes k (n / 256))

pub length-le_bytes : (k n : ℕ) → length (le_bytes k n) ≡ k
unfolding le_bytes
length-le_bytes zero n = refl
length-le_bytes (suc k) n = omega (arith, length-le_bytes k (n / 256))

pub length-zeros : (n : ℕ) → length (zeros n) ≡ n
length-zeros zero = refl
length-zeros (suc n) = omega (arith, length-zeros n)

-- A copy replaces the bytes at its place and keeps those around them.
pub copy_at_lem :
    (pre src old post : List ℕ)
    → length src ≡ length old
    → copy_at (length pre) src (pre ++ old ++ post) ≡ some (pre ++ src ++ post)
copy_at_lem [] [] [] post h = refl
copy_at_lem [] (x ∷ xs) (b ∷ bs) post h = rw (copy_at_lem [] xs bs post (omega (arith, h))) refl
copy_at_lem [] [] (b ∷ bs) post h = absurd (omega (arith, h))
copy_at_lem [] (x ∷ xs) [] post h = absurd (omega (arith, h))
copy_at_lem (p ∷ pre) src old post h = rw (copy_at_lem pre src old post h) refl
