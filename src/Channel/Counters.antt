-- ===== src/Channel/Counters.antt =====
-- The messages of a connection: their counters and sizes, and that the loop never panics.
use zakuro_rs.Base.{
  ℕ, zero, suc, ◌+◌, ◌-◌, ◌%◌, ◌^◌, ◌≤◌, ◌<◌, List, [], ◌∷◌, ◌++◌, some, ◌≡◌, refl, arith, inl, inr,
  Bool-cases, length, get_elem?, ltb, leb,
}
use zakuro_rs.Base.Sort.{All}
use zakuro_rs.Base.Map.{insert, string_eq}
use zakuro_rs.Channel.Bytes.{be_bytes, zeros, take, drop, of_be, of_be-be_bytes}
use zakuro_rs.Channel.Message.{xorshift32, fill_random}
use zakuro_rs.Channel.Layout.{header, build_message-header, length-message}
use zakuro_rs.Channel.Config.{MessageChannel}
use zakuro_rs.Channel.Sizes.{IsFit, payload_size_from_between}
use zakuro_rs.Channel.Sender.{
  Sender, Tick, Sent, earliest, set_at, counter_of, next_payload, SendTurn, sent_on, send_on,
}

-- A message of the channel: its size is between the sizes of the channel.
pub record IsOn (ch : MessageChannel) (s : Sent) : Type 0 where
  pub label_is : s.label ≡ ch.label
  pub low : ch.size_min ≤ length s.message
  pub high : length s.message ≤ ch.size_max

next_payload_between :
    (ch : MessageChannel) (state : ℕ)
    → IsFit ch
    → (n : ℕ) × (r : ℕ) × (next_payload ch state ≡ some (n, r))
      × (ch.size_min ≤ 48 + n)
      × (48 + n ≤ ch.size_max)
unfolding next_payload
next_payload_between ch state f = elim (Bool-cases (ltb ch.size_min ch.size_max)) [
  | inl e ↦
      let (n, p, lo, hi) =
        payload_size_from_between ch.size_min ch.size_max (xorshift32 state) f.low f.ordered in
      (n, xorshift32 state, simp (e, p) refl, lo, hi)
  | inr e ↦
      (ch.size_min - 48, state, simp e refl, omega (arith, f.low), omega (arith, f.low, f.ordered))
]

-- The counter that stands in the message, big-endian in its bytes from 14 to 22.
abbrev pub counter_in : Sent → ℕ
counter_in s = of_be 0 (take 8 (drop 14 s.message))

-- The state behind a turn.
pub record IsNext (ch : MessageChannel) (idx : ℕ) (s : Sender) (t : Tick) (turn : SendTurn)
    : Type 0 where
  pub on : IsOn ch turn.sent
  pub counter_is :
      counter_of ch.label s.counters < 256 ^ 8
      → counter_in turn.sent ≡ counter_of ch.label s.counters
  pub next_is :
      (s' : Sender)
      → turn.next ≡ some s'
      → (s'.counters
          ≡ insert ch.label
              ((counter_of ch.label s.counters + 1) % 18446744073709551616)
              s.counters)
        × (s'.next_send ≡ set_at idx (t.now + ch.interval_ms) s.next_send)

pub send_on-IsNext :
    (ch : MessageChannel) (idx : ℕ) (s : Sender) (t : Tick)
    → IsFit ch
    → (turn : SendTurn) × (send_on ch idx s t ≡ some turn) × IsNext ch idx s t turn
unfolding send_on be_bytes
send_on-IsNext ch idx s t f =
    let (n, r, p, lo, hi) = next_payload_between ch s.xorshift_state f in
    let c : ℕ = counter_of ch.label s.counters in
    let message : List ℕ = header t.time_us c [] ++ (fill_random r (zeros n)).0 in
    let size = length-message t.time_us c [] n r in
    (
      sent_on ch idx s t message (fill_random r (zeros n)).1,
      rw (p, build_message-header t.time_us c [] n r) refl,
      record {
        on = record {
          label_is = refl;
          low = omega (arith, size, lo);
          high = omega (arith, size, hi);
        };
        counter_is = λ b. of_be-be_bytes 8 c b;
        next_is = λ s' e. ground arith;
      },
    )

-- The place of the earliest time is a place of the list.
pub earliest_within :
    (ts : List ℕ)
    → 0 < length ts
    → (i : ℕ) × (t : ℕ) × (earliest ts ≡ some (i, t)) × (i < length ts)
unfolding earliest
earliest_within [] h = absurd (omega arith)
earliest_within (t ∷ []) h = (0, t, refl, omega arith)
earliest_within (t ∷ u ∷ ts) h =
    let (i, v, e, l) = earliest_within (u ∷ ts) (omega arith) in
    elim (Bool-cases (leb t v)) [
      | inl b ↦ (0, t, rw (e, b) refl, omega arith)
      | inr b ↦ (suc i, v, rw (e, b) refl, omega arith)
    ]

pub get-IsFit :
    (chs : List MessageChannel) (i : ℕ)
    → All IsFit chs
    → i < length chs
    → (ch : MessageChannel) × (get_elem? chs i ≡ some ch) × IsFit ch
get-IsFit [] i a h = absurd (omega arith)
get-IsFit (ch ∷ chs) zero (f, a) h = (ch, refl, f)
get-IsFit (ch ∷ chs) (suc i) (f, a) h = get-IsFit chs i a (omega arith)

pub length-set_at : (i t : ℕ) (ts : List ℕ) → length (set_at i t ts) ≡ length ts
length-set_at i t [] = refl
length-set_at zero t (u ∷ us) = refl
length-set_at (suc i) t (u ∷ us) = omega (arith, length-set_at i t us)
