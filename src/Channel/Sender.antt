-- ===== src/Channel/Sender.antt =====
-- `run_messaging` of zakuro/src/data_channel.rs: the loop that sends on the channels of one
-- connection. `none` stands for a panic.
use Prim.Native.String.{String}
use zakuro_rs.Base.{
  ℕ, zero, suc, ◌+◌, ◌-◌, ◌%◌, Bool, List, [], ◌∷◌, Option, none, some, if◌then◌else◌, ltb, leb,
  get_elem?, ◌>>=◌,
}
use zakuro_rs.Base.Map.{lookup, insert, string_eq}
use zakuro_rs.Channel.Message.{
  message_size_min, xorshift32, compute_seed, payload_size_from, build_message,
}
use zakuro_rs.Channel.Config.{MessageChannel}

-- The variables of the loop.
pub record Sender : Type 0 where
  pub counters : List (String × ℕ)
  pub xorshift_state : ℕ
  pub next_send : List ℕ

-- What the world decides in one turn: the cancellation before the time to send, the clock of the
-- message, whether the send succeeds, and the time behind it in milliseconds.
pub record Tick : Type 0 where
  pub cancelled : Bool
  pub time_us : ℕ
  pub succeeds : Bool
  pub now : ℕ

-- A call of `send_message`.
pub record Sent : Type 0 where
  pub label : String
  pub message : List ℕ

-- `iter().enumerate().min_by_key(..)`: the first of the smallest.
unfoldable pub earliest : List ℕ → Option (ℕ × ℕ)
earliest [] = none
earliest (t ∷ ts) = elim (earliest ts) [
  | none ↦ some (0, t)
  | some (i, u) ↦ if leb t u then some (0, t) else some (suc i, u)
]

-- `next_send[idx] = t`
abbrev pub set_at : ℕ → ℕ → List ℕ → List ℕ
set_at i t [] = []
set_at zero t (u ∷ us) = t ∷ us
set_at (suc i) t (u ∷ us) = u ∷ set_at i t us

-- `entry(label).or_insert(0)`
abbrev pub counter_of : String → List (String × ℕ) → ℕ
counter_of label counters = elim (lookup label counters) [ none ↦ 0 | some n ↦ n ]

-- The size of the payload, with the state of the generator behind the choice.
unfoldable pub next_payload : MessageChannel → ℕ → Option (ℕ × ℕ)
next_payload ch state =
    if ltb ch.size_min ch.size_max
    then (payload_size_from ch.size_min ch.size_max (xorshift32 state) >>= λ n.
        some (n, xorshift32 state))
    else some (ch.size_min - message_size_min, state)

-- A turn that sends; `next` is `none` for a `break`.
pub record SendTurn : Type 0 where
  pub sent : Sent
  pub next : Option Sender

-- The call with the message, and what follows it.
abbrev pub sent_on : MessageChannel → ℕ → Sender → Tick → List ℕ → ℕ → SendTurn
sent_on ch idx s t message state =
    let counter = counter_of ch.label s.counters in
    record {
      sent = record { label = ch.label; message = message };
      next =
          if t.succeeds
          then some (record {
            counters = insert ch.label ((counter + 1) % 18446744073709551616) s.counters;
            xorshift_state = state;
            next_send = set_at idx (t.now + ch.interval_ms) s.next_send;
          })
          else none;
    }

unfoldable pub send_on : MessageChannel → ℕ → Sender → Tick → Option SendTurn
send_on ch idx s t = do
  (payload_size, chosen) ← next_payload ch s.xorshift_state
  (message, state) ← build_message t.time_us (counter_of ch.label s.counters) [] payload_size chosen
  some (sent_on ch idx s t message state)

unfoldable pub send_turn : List MessageChannel → Sender → Tick → Option SendTurn
send_turn channels s t = do
  (idx, time) ← earliest s.next_send
  ch ← get_elem? channels idx
  send_on ch idx s t

-- The calls of `send_message` over these turns, up to the end of the loop.
unfoldable pub send_loop : List MessageChannel → Sender → List Tick → Option (List Sent)
send_loop channels s [] = some []
send_loop channels s (t ∷ ts) =
    if t.cancelled
    then some []
    else send_turn channels s t >>= λ turn. elim turn.next [
      | none ↦ some (turn.sent ∷ [])
      | some s' ↦ send_loop channels s' ts >>= λ rest. some (turn.sent ∷ rest)
    ]

-- Each channel is first due at a reading of the clock of its own.
abbrev pub first_due : (ℕ → ℕ) → ℕ → List MessageChannel → List ℕ
first_due clock i [] = []
first_due clock i (ch ∷ chs) = clock i ∷ first_due clock (i + 1) chs

-- `run_messaging`, where `clock` has the readings of the clock before the loop.
unfoldable pub run_messaging :
    ℕ → ℕ → List MessageChannel → (ℕ → ℕ) → List Tick → Option (List Sent)
run_messaging instance_id vc_id channels clock ticks =
    send_loop channels
      (record {
        counters = [];
        xorshift_state = compute_seed instance_id vc_id;
        next_send = first_due clock 0 channels;
      })
      ticks
