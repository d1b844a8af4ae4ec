-- ===== src/Scenario/Inside.antt =====
-- A player stays inside its scenario and never panics.
use Prim.Native.String.{String}
use zakuro_rs.Base.{
  ℕ, zero, suc, ◌+◌, ◌-◌, ◌%◌, ◌≤◌, ◌<◌, false, List, [], ◌∷◌, ◌++◌, none, some, ◌≡◌, refl, arith,
  inl, inr, Bool-cases, Option-cases, length, get_elem?, max,
}
use zakuro_rs.Base.Sort.{All}
use zakuro_rs.Channel.Message.{xorshift32, fill_random}
use zakuro_rs.Channel.Bytes.{zeros}
use zakuro_rs.Channel.Layout.{header, build_message-header}
use zakuro_rs.Channel.Sizes.{payload_size_from_between}
use zakuro_rs.Channel.Sender.{Sent, counter_of}
use zakuro_rs.Scenario.Types.{ScenarioOp, ScenarioEnd, ScenarioPlayer}
use zakuro_rs.Scenario.Ops.{
  Moment, Played, played, random_range, normalize_message_sizes, read_connection_id, advance,
  sent_by, slept, sent, send_data_channel_message, play_op, run_until_disconnect,
}

-- The ranges of an operation are in order, and the sizes of a message in the documented range.
abbrev pub IsOp : ScenarioOp → Type 0
IsOp (ScenarioOp.sleep min_ms max_ms) = min_ms ≤ max_ms
IsOp (ScenarioOp.send_data_channel_message label a b) =
    (48 ≤ a) × (a ≤ 256000) × (48 ≤ b) × (b ≤ 256000)
IsOp ScenarioOp.disconnect = Unit
IsOp ScenarioOp.reconnect = Unit
IsOp ScenarioOp.exit = Unit

-- The operations are well formed, and both positions are inside them.
pub record IsReady (p : ScenarioPlayer) : Type 0 where
  pub ops_are : All IsOp p.scenario.ops
  pub loops : p.scenario.loop_index < length p.scenario.ops
  pub inside : p.op_index < length p.scenario.ops

advance-IsReady : (p : ScenarioPlayer) → IsReady p → IsReady (advance p)
unfolding advance
advance-IsReady p h = record {
  ops_are = h.ops_are;
  loops = h.loops;
  inside = ground (arith, h.loops, h.inside);
}

IsOp-here :
    (ops : List ScenarioOp) (i : ℕ)
    → All IsOp ops
    → i < length ops
    → (op : ScenarioOp) × (get_elem? ops i ≡ some op) × IsOp op
IsOp-here [] i a h = absurd (omega arith)
IsOp-here (op ∷ ops) zero (f, a) h = (op, refl, f)
IsOp-here (op ∷ ops) (suc i) (f, a) h = IsOp-here ops i a (omega arith)

normalize_message_sizes_between :
    (a b : ℕ)
    → IsOp (ScenarioOp.send_data_channel_message "" a b)
    → normalize_message_sizes a b ≡ some (a, max b a)
unfolding normalize_message_sizes
normalize_message_sizes_between a b (h₁, h₂, h₃, h₄) = ground arith

send_data_channel_message-IsReady :
    (p : ScenarioPlayer) (t : Moment) (label : String) (a b : ℕ)
    → IsReady p
    → IsOp (ScenarioOp.send_data_channel_message label a b)
    → (p' : ScenarioPlayer) × (s : Sent) × (send_data_channel_message p t label a b ≡ some (p', s))
      × IsReady p'
unfolding send_data_channel_message
send_data_channel_message-IsReady p t label a b h o =
    let (n, e, _, _) =
      payload_size_from_between a (max b a) (xorshift32 p.xorshift_state) o.0 (omega arith) in
    let random : ℕ = xorshift32 p.xorshift_state in
    let id : List ℕ = read_connection_id t.ids in
    let c : ℕ = counter_of label p.dc_counter in
    let payload = fill_random random (zeros n) in
    let after : ScenarioPlayer × Sent =
      sent_by p label (header t.time_us c id ++ payload.0) payload.1 in
    (
      after.0,
      after.1,
      rw (normalize_message_sizes_between a b o, e, build_message-header t.time_us c id n random)
          refl,
      record { ops_are = h.ops_are; loops = h.loops; inside = h.inside },
    )

random_range-some : (lo hi random : ℕ) → lo ≤ hi → (n : ℕ) × (random_range lo hi random ≡ some n)
unfolding random_range
random_range-some lo hi random h =
    ((lo + random % (hi - lo + 1)) % 18446744073709551616, ground arith)

play_op-IsReady :
    (p : ScenarioPlayer) (t : Moment) (op : ScenarioOp)
    → IsReady p
    → IsOp op
    → (now : Played) × (play_op p t op ≡ some now) × IsReady now.player
unfolding play_op
play_op-IsReady p t (ScenarioOp.sleep a b) h o =
    let (n, e) = random_range-some a b t.random o in
    elim (Bool-cases t.cancelled_asleep) [
      | inl c ↦ (played p (slept n ∷ []) (some ScenarioEnd.exit), rw (e, c) refl, h)
      | inr c ↦ (played (advance p) (slept n ∷ []) none, rw (e, c) refl, advance-IsReady p h)
    ]
play_op-IsReady p t ScenarioOp.disconnect h o = (_, refl, advance-IsReady p h)
play_op-IsReady p t ScenarioOp.reconnect h o = (_, refl, advance-IsReady p h)
play_op-IsReady p t (ScenarioOp.send_data_channel_message label a b) h o =
    let (p', s, e, r) = send_data_channel_message-IsReady p t label a b h o in
    (played (advance p') (sent s ∷ []) none, rw e refl, advance-IsReady p' r)
play_op-IsReady p t ScenarioOp.exit h o = (_, refl, h)

pub run_on :
    (p : ScenarioPlayer) (t : Moment) (ts : List Moment) (op : ScenarioOp) (now later : Played)
    → t.cancelled ≡ false
    → get_elem? p.scenario.ops p.op_index ≡ some op
    → play_op p t op ≡ some now
    → now.end ≡ none
    → run_until_disconnect now.player ts ≡ some later
    → run_until_disconnect p (t ∷ ts)
      ≡ some (played later.player (now.effects ++ later.effects) later.end)
unfolding run_until_disconnect
run_on p t ts op now later c g e n k = ground arith

pub run_end :
    (p : ScenarioPlayer) (t : Moment) (ts : List Moment) (op : ScenarioOp) (now : Played)
    (x : ScenarioEnd)
    → t.cancelled ≡ false
    → get_elem? p.scenario.ops p.op_index ≡ some op
    → play_op p t op ≡ some now
    → now.end ≡ some x
    → run_until_disconnect p (t ∷ ts) ≡ some now
unfolding run_until_disconnect
run_end p t ts op now x c g e n = ground arith

-- A player of a well-formed scenario, with both positions inside it, never panics, whatever
-- happens in the turns of its loop, and is again such a player behind them.
pub run_until_disconnect-IsReady :
    (p : ScenarioPlayer) (ts : List Moment)
    → IsReady p
    → (r : Played) × (run_until_disconnect p ts ≡ some r) × IsReady r.player
unfolding run_until_disconnect
run_until_disconnect-IsReady p [] h = (_, refl, h)
run_until_disconnect-IsReady p (t ∷ ts) h =
    let (op, g, o) = IsOp-here p.scenario.ops p.op_index h.ops_are h.inside in
    let (now, e, r) = play_op-IsReady p t op h o in
    elim (Bool-cases t.cancelled) [
      | inl c ↦ (played p [] (some ScenarioEnd.exit), rw c refl, h)
      | inr c ↦ elim (Option-cases now.end) [
        | inl n ↦
            let (later, k, q) = run_until_disconnect-IsReady now.player ts r in
            (
              played later.player (now.effects ++ later.effects) later.end,
              run_on p t ts op now later c g e n k,
              q,
            )
        | inr (x, n) ↦ (now, run_end p t ts op now x c g e n, r)
      ]
    ]
