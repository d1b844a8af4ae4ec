-- ===== src/Moq/Incoming.antt =====
-- The receive side of zakuro-moq/src/moq_client/session.rs: the state of a subscription, the
-- counters, and the check of the payloads that zakuro-moq/src/main.rs fills.
pub mod Pattern
use Prim.Native.String.{String}
use zakuro_rs.Base.{
  ℕ, zero, suc, ◌+◌, ◌%◌, ◌≤◌, ◌<◌, Bool, true, false, not, ◌&&◌, ◌||◌, List, [], ◌∷◌, Option, none,
  some, ◌≡◌, refl, arith, if◌then◌else◌, leb, ◌==◌, length, add64, Bool-cases, inl, inr,
}
use zakuro_rs.Base.Result.{Result, ok, err}
use zakuro_rs.Channel.Bytes.{take, drop}
use zakuro_rs.Moq.Send.{eq_some}

pub record SubscriptionState : Type 0 where
  pub name : String
  pub request_id : Option ℕ
  pub accepted : Bool
  pub track_alias : Option ℕ
  pub received_objects : ℕ
  pub received_bytes : ℕ
  pub mismatched_payloads : ℕ

unfoldable pub new_subscription : String → SubscriptionState
new_subscription name = record {
  name = name;
  request_id = none;
  accepted = false;
  track_alias = none;
  received_objects = 0;
  received_bytes = 0;
  mismatched_payloads = 0;
}

-- The atomic counters, which wrap.
pub record ReceiveCounters : Type 0 where
  pub objects : ℕ
  pub bytes : ℕ
  pub mismatched_payloads : ℕ

abbrev bump_unless : Bool → ℕ → ℕ
bump_unless good n = if good then n else add64 n 1

unfoldable pub record_counters : ℕ → Bool → ReceiveCounters → ReceiveCounters
record_counters payload_length payload_ok c = record {
  objects = add64 c.objects 1;
  bytes = add64 c.bytes payload_length;
  mismatched_payloads = bump_unless payload_ok c.mismatched_payloads;
}

-- The subscription's share of an object.
abbrev attribute : ℕ → Bool → SubscriptionState → SubscriptionState
attribute payload_length payload_ok s = record s {
  received_objects = add64 s.received_objects 1;
  received_bytes = add64 s.received_bytes payload_length;
  mismatched_payloads = bump_unless payload_ok s.mismatched_payloads;
}

-- The first subscription with the alias takes the object.
attribute_first : ℕ → ℕ → Bool → List SubscriptionState → List SubscriptionState
attribute_first alias n good [] = []
attribute_first alias n good (s ∷ ss) =
    if eq_some s.track_alias alias
    then attribute n good s ∷ ss
    else s ∷ attribute_first alias n good ss

unfoldable pub record_received_object :
    Option ℕ
    → ℕ
    → Bool
    → List SubscriptionState × ReceiveCounters
    → List SubscriptionState × ReceiveCounters
unfolding attribute_first
record_received_object none n good (ss, c) = (ss, record_counters n good c)
record_received_object (some alias) n good (ss, c) =
    (attribute_first alias n good ss, record_counters n good c)

-- The bytes from place `i` on.
matches_from : ℕ → List ℕ → Bool
matches_from i [] = true
matches_from i (b ∷ bs) = b == i % 251 && matches_from (i + 1) bs

unfoldable pub payload_matches_pattern : List ℕ → Bool
unfolding matches_from
payload_matches_pattern payload = matches_from 0 payload

fill_from : ℕ → ℕ → List ℕ
fill_from i zero = []
fill_from i (suc n) = i % 251 ∷ fill_from (i + 1) n

unfoldable pub build_payload : ℕ → List ℕ
unfolding fill_from
build_payload max_size = fill_from 0 max_size

-- What the session makes of a datagram: an object to keep, an object to drop, or no object.
pub data Acceptance : Type 0 where
  object_accepted object_dropped no_object : Acceptance

-- What receiving uses of the MOQT library: an operation that fails answers `none`. A decoded
-- datagram gives its track alias and the number of bytes of its header.
pub record Receiving : Type 1 where
  pub Session : Type 0
  pub recv_datagram : Session → List ℕ → Session × Option Acceptance
  pub decode_datagram : List ℕ → Option (ℕ × ℕ)

pub data ReceiveError : Type 0 where
  not_accepted not_decoded slice_panic : ReceiveError

pub record Received (S : Type 0) : Type 0 where
  pub session : S
  pub subscriptions : List SubscriptionState
  pub counters : ReceiveCounters

module _ (m : Receiving) where
  open m use {Session, recv_datagram, decode_datagram}

  -- `&raw[consumed..]`
  record_datagram :
      Bool → List ℕ → Received Session → Option (ℕ × ℕ) → Result ReceiveError (Received Session)
  record_datagram verify raw r none = err not_decoded
  record_datagram verify raw r (some (alias, consumed)) =
      if leb consumed (length raw)
      then (let payload = drop consumed raw in
          let (subscriptions, counters) =
            record_received_object (some alias) (length payload)
              (not verify || payload_matches_pattern payload) (r.subscriptions, r.counters) in
          ok (record r { subscriptions = subscriptions; counters = counters }))
      else err slice_panic

  accept_datagram :
      Bool
      → List ℕ
      → Received Session
      → Session × Option Acceptance
      → Result ReceiveError (Received Session)
  accept_datagram verify raw r (session, none) = err not_accepted
  accept_datagram verify raw r (session, some object_accepted) =
      record_datagram verify raw (record r { session = session }) (decode_datagram raw)
  accept_datagram verify raw r (session, some object_dropped) = ok (record r { session = session })
  accept_datagram verify raw r (session, some no_object) = ok (record r { session = session })

  unfoldable pub handle_received_datagram :
      Bool → List ℕ → Received Session → Result ReceiveError (Received Session)
  unfolding accept_datagram record_datagram
  handle_received_datagram verify raw r = accept_datagram verify raw r (recv_datagram r.session raw)
