-- ===== src/Channel/Layout.antt =====
-- The bytes of a message against the documented layout.
use zakuro_rs.Base.{
  ℕ, zero, suc, ◌+◌, ◌-◌, ◌%◌, ◌^◌, ◌≤◌, ◌<◌, min, List, [], ◌∷◌, ◌++◌, some, ◌≡◌, refl, arith,
  length, length-append, ◌∙◌, ap,
}
use native.Mathlib.Numerals.{unary_clauses}
use zakuro_rs.Channel.Bytes.{
  be_bytes, le_bytes, zeros, take, drop, overwrite, of_be, of_be-be_bytes, length-zeros,
}
use zakuro_rs.Channel.Message.{xorshift32, signature, fill_random, id_bytes, build_message}

module _ {A : Type 0} where
  length-take : (n : ℕ) (xs : List A) → length (take n xs) ≡ min n (length xs)
  length-take zero xs = omega arith
  length-take (suc n) [] = omega arith
  length-take (suc n) (x ∷ xs) = omega (arith, length-take n xs)

  take-append : (n : ℕ) (xs ys : List A) → length xs ≡ n → take n (xs ++ ys) ≡ xs
  take-append zero [] ys h = refl
  take-append zero (x ∷ xs) ys h = absurd (omega (arith, h))
  take-append (suc n) [] ys h = absurd (omega (arith, h))
  take-append (suc n) (x ∷ xs) ys h = ap (◌∷◌ x) (take-append n xs ys (omega (arith, h)))

  drop-append : (n : ℕ) (xs ys : List A) → length xs ≡ n → drop n (xs ++ ys) ≡ ys
  drop-append zero [] ys h = refl
  drop-append zero (x ∷ xs) ys h = absurd (omega (arith, h))
  drop-append (suc n) [] ys h = absurd (omega (arith, h))
  drop-append (suc n) (x ∷ xs) ys h = drop-append n xs ys (omega (arith, h))

  append_assoc : (xs ys zs : List A) → (xs ++ ys) ++ zs ≡ xs ++ ys ++ zs
  append_assoc [] ys zs = refl
  append_assoc (x ∷ xs) ys zs = ap (◌∷◌ x) (append_assoc xs ys zs)

zeros-append : (n m : ℕ) → zeros (n + m) ≡ zeros n ++ zeros m
zeros-append zero m = ap zeros (omega arith)
zeros-append (suc n) m =
    let e : suc n + m ≡ suc (n + m) = omega arith in ap zeros e ∙ ap (◌∷◌ 0) (zeros-append n m)

-- The identifier, cut to 26 bytes and padded with zeros.
abbrev pub padded_id : List ℕ → List ℕ
padded_id connection_id = id_bytes connection_id ++ zeros (26 - length (id_bytes connection_id))

length-id_bytes : (xs : List ℕ) → length (id_bytes xs) ≤ 26
length-id_bytes xs = omega (arith, length-take (min (length xs) 26) xs)

length-padded_id : (xs : List ℕ) → length (padded_id xs) ≡ 26
length-padded_id xs = omega (
  arith,
  length-id_bytes xs,
  length-append (id_bytes xs) (zeros (26 - length (id_bytes xs))),
  length-zeros (26 - length (id_bytes xs)),
)

overwrite-zeros :
    (src : List ℕ) (n : ℕ) (rest : List ℕ)
    → length src ≤ n
    → overwrite src (zeros n ++ rest) ≡ some ((src ++ zeros (n - length src)) ++ rest)
overwrite-zeros [] n rest h = simp unary_clauses refl
overwrite-zeros (x ∷ xs) zero rest h = absurd (omega arith)
overwrite-zeros (x ∷ xs) (suc n) rest h =
    simp unary_clauses (rw (overwrite-zeros xs n rest (omega arith)) refl)

abbrev pub header : ℕ → ℕ → List ℕ → List ℕ
header time_us counter connection_id =
    signature
    ++ (be_bytes 8 (time_us % 18446744073709551616)
        ++ (be_bytes 8 counter ++ padded_id connection_id))

pub build_message-header :
    (time_us counter : ℕ) (id : List ℕ) (n state : ℕ)
    → build_message time_us counter id n state
      ≡ some (
        header time_us counter id ++ (fill_random state (zeros n)).0,
        (fill_random state (zeros n)).1,
      )
unfolding build_message be_bytes
build_message-header time_us counter id n state = rw (zeros-append 48 n) (
    rw (overwrite-zeros (id_bytes id) 26 (zeros n) (length-id_bytes id)) (
      rw (take-append 26 (padded_id id) (zeros n) (length-padded_id id))
        (rw (drop-append 26 (padded_id id) (zeros n) (length-padded_id id)) refl)))

length-fill_random : (state : ℕ) (xs : List ℕ) → length (fill_random state xs).0 ≡ length xs
unfolding fill_random le_bytes
length-fill_random state [] = refl
length-fill_random state (a ∷ b ∷ c ∷ d ∷ rest) =
    omega (arith, length-fill_random (xorshift32 state) rest)
length-fill_random state (a ∷ []) = refl
length-fill_random state (a ∷ b ∷ []) = refl
length-fill_random state (a ∷ b ∷ c ∷ []) = refl

pub length-message :
    (time_us counter : ℕ) (id : List ℕ) (n state : ℕ)
    → length (header time_us counter id ++ (fill_random state (zeros n)).0) ≡ 48 + n
unfolding be_bytes
length-message time_us counter id n state = omega (
  arith,
  length-append (padded_id id) (fill_random state (zeros n)).0,
  length-padded_id id,
  length-fill_random state (zeros n),
  length-zeros n,
)

-- The documented layout of a message of `size` bytes.
pub record IsMessage (m : List ℕ) (size time_us counter : ℕ) (connection_id : List ℕ) : Type 0 where
  pub size_is : length m ≡ size
  pub signed : take 6 m ≡ signature
  pub timed : of_be 0 (take 8 (drop 6 m)) ≡ time_us
  pub counted : of_be 0 (take 8 (drop 14 m)) ≡ counter
  pub named : take 26 (drop 22 m) ≡ padded_id connection_id

-- A message is always built, without a panic. It has the requested number of payload bytes behind
-- 48 bytes of header: the signature, the time and the counter in big-endian order, and the
-- identifier cut to 26 bytes and padded with zeros. The time and the counter are below 2^64.
pub build_message-IsMessage :
    (time_us counter : ℕ) (id : List ℕ) (n state : ℕ)
    → time_us < 256 ^ 8
    → counter < 256 ^ 8
    → (m : List ℕ) × (s : ℕ) × (build_message time_us counter id n state ≡ some (m, s))
      × IsMessage m (48 + n) time_us counter id
unfolding be_bytes
build_message-IsMessage time_us counter id n state t c =
    let payload : List ℕ = (fill_random state (zeros n)).0 in
    (
      header time_us counter id ++ payload,
      (fill_random state (zeros n)).1,
      build_message-header time_us counter id n state,
      record {
        size_is = length-message time_us counter id n state;
        signed = refl;
        timed = of_be-be_bytes 8 (time_us % 18446744073709551616) (omega arith) ∙ omega arith;
        counted = of_be-be_bytes 8 counter c;
        named = take-append 26 (padded_id id) payload (length-padded_id id);
      },
    )
