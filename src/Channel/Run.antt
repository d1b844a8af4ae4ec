-- ===== src/Channel/Run.antt =====
-- The messages that the loop of a connection sends, over all its turns.
use Prim.Native.String.{String}
use text.Mathlib.Text.{◌==◌ as str_eq}
use zakuro_rs.Base.{
  ℕ, zero, suc, ◌+◌, ◌%◌, ◌≤◌, ◌<◌, true, false, List, [], ◌∷◌, none, some, ◌≡◌, refl, arith,
  if◌then◌else◌, ap, ◌∙◌, sym, inl, inr, Bool-cases, Option-cases, length,
}
use zakuro_rs.Base.Sort.{All}
use zakuro_rs.Base.Map.{lookup, lookup-insert, string_eq, eq_iff}
use zakuro_rs.Channel.Config.{MessageChannel}
use zakuro_rs.Channel.Sizes.{IsFit}
use zakuro_rs.Channel.Sender.{
  Sender, Tick, Sent, counter_of, SendTurn, send_turn, send_loop, first_due, run_messaging,
}
use zakuro_rs.Channel.Counters.{
  counter_in, IsNext, send_on-IsNext, earliest_within, get-IsFit, length-set_at,
}

-- The counters that stand in the messages for a label, in order.
abbrev pub counters_of : String → List Sent → List ℕ
counters_of l [] = []
counters_of l (s ∷ ss) =
    if str_eq s.label l then counter_in s ∷ counters_of l ss else counters_of l ss

abbrev pub count_up : ℕ → ℕ → List ℕ
count_up n zero = []
count_up n (suc k) = n ∷ count_up (n + 1) k

abbrev pub HasSize : Sent → Type 0
HasSize s = (48 ≤ length s.message) × (length s.message ≤ 256000)

-- The counters of each label go up by one from where they are.
pub record IsCounted (counters : List (String × ℕ)) (sent : List Sent) : Type 0 where
  pub sizes : All HasSize sent
  pub counted : (l : String) → (k : ℕ) × (counters_of l sent ≡ count_up (counter_of l counters) k)

module _ (channels : List MessageChannel) (fit : All IsFit channels)
    (some_channel : 0 < length channels) where
  send_loop_last :
      (s : Sender) (t : Tick) (ts : List Tick) (turn : SendTurn)
      → t.cancelled ≡ false
      → send_turn channels s t ≡ some turn
      → turn.next ≡ none
      → send_loop channels s (t ∷ ts) ≡ some (turn.sent ∷ [])
  unfolding send_loop
  send_loop_last s t ts turn e k n = ground arith

  send_loop_more :
      (s : Sender) (t : Tick) (ts : List Tick) (turn : SendTurn) (s' : Sender) (rest : List Sent)
      → t.cancelled ≡ false
      → send_turn channels s t ≡ some turn
      → turn.next ≡ some s'
      → send_loop channels s' ts ≡ some rest
      → send_loop channels s (t ∷ ts) ≡ some (turn.sent ∷ rest)
  unfolding send_loop
  send_loop_more s t ts turn s' rest e k n r = ground arith

  record IsTurn (s : Sender) (t : Tick) (turn : SendTurn) : Type 0 where
    ch : MessageChannel
    is_fit : IsFit ch
    idx : ℕ
    turns : send_turn channels s t ≡ some turn
    is_next : IsNext ch idx s t turn

  IsTurn-exists :
      (s : Sender) (t : Tick)
      → length s.next_send ≡ length channels
      → (turn : SendTurn) × IsTurn s t turn
  unfolding send_turn
  IsTurn-exists s t h =
      let (i, time, e, l) = earliest_within s.next_send (omega (arith, h)) in
      let (ch, g, f) = get-IsFit channels i fit (omega (arith, h, l)) in
      let (turn, p, n) = send_on-IsNext ch i s t f in
      (turn, record { ch = ch; is_fit = f; idx = i; turns = rw (e, g) p; is_next = n })

  HasSize-turn : (s : Sender) (t : Tick) (turn : SendTurn) → IsTurn s t turn → HasSize turn.sent
  HasSize-turn s t turn h =
      let on = h.is_next.on in
      (omega (arith, on.low, h.is_fit.low), omega (arith, on.high, h.is_fit.high))

  counter_step :
      (s : Sender) (t : Tick) (turn : SendTurn) (s' : Sender) (l : String)
      → IsTurn s t turn
      → turn.next ≡ some s'
      → counter_of l s.counters + 1 < 18446744073709551616
      → counter_of l s'.counters ≡ (
          if str_eq turn.sent.label l then counter_of l s.counters + 1 else counter_of l s.counters)
  counter_step s t turn s' l h e b =
      let c = (h.is_next.next_is s' e).0 in
      let n : ℕ = (counter_of h.ch.label s.counters + 1) % 18446744073709551616 in
      rw (ap (counter_of l) c) (
        rw (h.is_next.on.label_is)
          (ground (arith, lookup-insert h.ch.label l n s.counters, eq_iff h.ch.label l)))

  counter_now :
      (s : Sender) (t : Tick) (turn : SendTurn) (l : String)
      → IsTurn s t turn
      → str_eq turn.sent.label l ≡ true
      → counter_of l s.counters < 18446744073709551616
      → counter_in turn.sent ≡ counter_of l s.counters
  counter_now s t turn l h e b =
      let same : h.ch.label ≡ l = sym h.is_next.on.label_is ∙ (eq_iff turn.sent.label l).0 e in
      let here : counter_of h.ch.label s.counters ≡ counter_of l s.counters =
        ap (λ x. counter_of x s.counters) same in
      h.is_next.counter_is (omega (arith, here, b)) ∙ here

  last_counted :
      (s : Sender) (t : Tick) (turn : SendTurn) (l : String)
      → IsTurn s t turn
      → counter_of l s.counters < 18446744073709551616
      → (k : ℕ) × (counters_of l (turn.sent ∷ []) ≡ count_up (counter_of l s.counters) k)
  last_counted s t turn l h b = elim (Bool-cases (str_eq turn.sent.label l)) [
    | inl e ↦ (1, simp e (ap (λ c. c ∷ []) (counter_now s t turn l h e b)))
    | inr e ↦ (0, simp e refl)
  ]

  more_counted :
      (s : Sender) (t : Tick) (turn : SendTurn) (s' : Sender) (rest : List Sent) (l : String)
      → IsTurn s t turn
      → turn.next ≡ some s'
      → counter_of l s.counters + 1 < 18446744073709551616
      → ((k : ℕ) × (counters_of l rest ≡ count_up (counter_of l s'.counters) k))
      → (k : ℕ) × (counters_of l (turn.sent ∷ rest) ≡ count_up (counter_of l s.counters) k)
  more_counted s t turn s' rest l h n b (k, c) = elim (Bool-cases (str_eq turn.sent.label l)) [
    | inl e ↦
        let now = counter_now s t turn l h e (omega (arith, b)) in
        let next : counter_of l s'.counters ≡ counter_of l s.counters + 1 =
          counter_step s t turn s' l h n b ∙ rw e refl in
        (suc k, rw e (rw c (rw (now, next) refl)))
    | inr e ↦
        let next : counter_of l s'.counters ≡ counter_of l s.counters =
          counter_step s t turn s' l h n b ∙ rw e refl in
        (k, rw e (c ∙ ap (λ m. count_up m k) next))
  ]

  bound_step :
      (s : Sender) (t : Tick) (turn : SendTurn) (s' : Sender) (l : String)
      → IsTurn s t turn
      → turn.next ≡ some s'
      → (m : ℕ) → counter_of l s.counters + suc m < 18446744073709551616
      → counter_of l s'.counters + m < 18446744073709551616
  bound_step s t turn s' l h n m b =
      ground (arith, counter_step s t turn s' l h n (omega (arith, b)))

  next_length :
      (s : Sender) (t : Tick) (turn : SendTurn) (s' : Sender)
      → IsTurn s t turn
      → turn.next ≡ some s'
      → length s.next_send ≡ length channels
      → length s'.next_send ≡ length channels
  next_length s t turn s' h n e =
      ap length (h.is_next.next_is s' n).1 ∙ length-set_at h.idx _ s.next_send ∙ e

  send_loop-IsCounted :
      (s : Sender) (ts : List Tick)
      → length s.next_send ≡ length channels
      → ((l : String) → counter_of l s.counters + length ts < 18446744073709551616)
      → (sent : List Sent) × (send_loop channels s ts ≡ some sent) × IsCounted s.counters sent
  unfolding send_loop
  send_loop-IsCounted s [] h b = ([], refl, record { sizes = tt; counted = λ l. (0, refl) })
  send_loop-IsCounted s (t ∷ ts) h b = elim (Bool-cases t.cancelled) [
    | inl e ↦ ([], simp e refl, record { sizes = tt; counted = λ l. (0, refl) })
    | inr e ↦
        let (turn, k) = IsTurn-exists s t h in
        elim (Option-cases turn.next) [
          | inl n ↦ (
            turn.sent ∷ [],
            send_loop_last s t ts turn e k.turns n,
            record {
              sizes = (HasSize-turn s t turn k, tt);
              counted = λ l. last_counted s t turn l k (omega (arith, b l));
            },
          )
          | inr (s', n) ↦
              let (rest, r, c) =
                send_loop-IsCounted s' ts (next_length s t turn s' k n h)
                  (λ l. bound_step s t turn s' l k n (length ts) (b l)) in
              (
                turn.sent ∷ rest,
                send_loop_more s t ts turn s' rest e k.turns n r,
                record {
                  sizes = (HasSize-turn s t turn k, c.sizes);
                  counted =
                      λ l. more_counted s t turn s' rest l k n (omega (arith, b l)) (c.counted l);
                },
              )
        ]
  ]

length-first_due :
    (clock : ℕ → ℕ) (i : ℕ) (channels : List MessageChannel)
    → length (first_due clock i channels) ≡ length channels
length-first_due clock i [] = refl
length-first_due clock i (ch ∷ chs) = omega (arith, length-first_due clock (i + 1) chs)

-- On channels whose sizes are in the documented range and in order, at least one, the loop never
-- panics. The messages that it sends have from 48 to 256000 bytes, and those of each label carry,
-- big-endian in their bytes from 14 to 22, the counters 0, 1, 2 and so on, also where channels share
-- a label. The turns are fewer than
-- 2^64.
pub run_messaging-IsCounted :
    (instance_id vc_id : ℕ) (channels : List MessageChannel) (clock : ℕ → ℕ) (ticks : List Tick)
    → All IsFit channels
    → 0 < length channels
    → length ticks < 18446744073709551616
    → (sent : List Sent) × (run_messaging instance_id vc_id channels clock ticks ≡ some sent)
      × IsCounted [] sent
unfolding run_messaging lookup
run_messaging-IsCounted i v channels clock ticks fit some_channel b =
    send_loop-IsCounted channels fit some_channel _ ticks (length-first_due clock 0 channels)
      (λ l. omega (arith, b))
