-- ===== src/Channel/Xorshift.antt =====
-- The generator never reaches 0, the state that it would never leave.
use Prim.Native.Nat.{bit_xor}
use zakuro_rs.Base.{ℕ, zero, suc, ◌*◌, ◌/◌, ◌%◌, ◌<◌, ◌≡◌, refl, arith}
use zakuro_rs.Base.Xor.{bit_xor_lt, bit_xor_eq}
use zakuro_rs.Channel.Message.{xorshift32, compute_seed}

-- A state of the generator that it can go on from.
record IsLive (s : ℕ) : Type 0 where
  positive : 0 < s
  fits : s < 4294967296

positive_of : (n : ℕ) → (n ≡ 0 → ⊥) → 0 < n
positive_of zero h = absurd (h refl)
positive_of (suc n) h = omega arith

-- The state behind `n` steps.
abbrev pub steps : ℕ → ℕ → ℕ
steps zero s = s
steps (suc n) s = steps n (xorshift32 s)

mixed-IsLive : (s t : ℕ) → IsLive s → t < 4294967296 → (s ≡ t → s ≡ 0) → IsLive (bit_xor s t)
mixed-IsLive s t h g k = record {
  positive = positive_of _ (λ e. omega (arith, k (bit_xor_eq 32 s t h.fits g e), h.positive));
  fits = bit_xor_lt 32 s t h.fits g;
}

xorshift32-IsLive : (s : ℕ) → IsLive s → IsLive (xorshift32 s)
unfolding xorshift32
xorshift32-IsLive s h =
    let x : ℕ = bit_xor s (s * 8192 % 4294967296) in
    let y : ℕ = bit_xor x (x / 131072) in
    let p : IsLive x =
      mixed-IsLive s (s * 8192 % 4294967296) h (omega arith) (λ e. omega (arith, e, h.fits)) in
    let q : IsLive y =
      mixed-IsLive x (x / 131072) p (omega (arith, p.fits)) (λ e. omega (arith, e, p.fits)) in
    mixed-IsLive y (y * 32 % 4294967296) q (omega arith) (λ e. omega (arith, e, q.fits))

compute_seed-IsLive : (i v : ℕ) → IsLive (compute_seed i v)
unfolding compute_seed
compute_seed-IsLive i v =
    let a = bit_xor_lt 32 0xdead_beef (v * 2654435761 % 4294967296) (omega arith) (omega arith) in
    let b = bit_xor_lt 32 _ (i * 0x9e37_79b9 % 4294967296) a (omega arith) in
    record { positive = ground arith; fits = ground arith }

steps-IsLive : (n s : ℕ) → IsLive s → IsLive (steps n s)
steps-IsLive zero s h = h
steps-IsLive (suc n) s h = steps-IsLive n (xorshift32 s) (xorshift32-IsLive s h)

-- From any seed that the program computes, every state of the generator is a `u32` other than 0.
pub steps-compute_seed :
    (instance_id vc_id n : ℕ)
    → let s : ℕ = steps n (compute_seed instance_id vc_id) in (0 < s) × (s < 4294967296)
steps-compute_seed i v n =
    let h = steps-IsLive n (compute_seed i v) (compute_seed-IsLive i v) in (h.positive, h.fits)
