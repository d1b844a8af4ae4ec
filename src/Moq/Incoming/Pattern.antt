-- ===== src/Moq/Incoming/Pattern.antt =====
-- The pattern of the payloads, from zakuro-moq/src/main.rs to the check in
-- zakuro-moq/src/moq_client/session.rs.
use zakuro_rs.Base.{
  ℕ, zero, suc, ◌+◌, ◌%◌, ◌^◌, ◌≤◌, Bool, true, false, not, ◌||◌, List, [], ◌∷◌, ◌++◌, Option, none,
  some, ◌≡◌, ◌≢◌, ◌↔◌, ap, refl, arith, length, length-append, leb, ◌==◌, ==_iff, Bool-cases, inl,
  inr,
}
use zakuro_rs.Moq.Send.{eq_some}
use zakuro_rs.Base.Result.{ok}
use zakuro_rs.Channel.Bytes.{take, drop}
use zakuro_rs.Moq.Incoming
use zakuro_rs.Moq.Incoming.{
  Receiving, Received, SubscriptionState, object_accepted, record_counters, record_received_object,
  build_payload, payload_matches_pattern, handle_received_datagram,
}

-- The check passes exactly on a beginning of the pattern.
matches_from_iff :
    (i n : ℕ) (payload : List ℕ)
    → length payload ≤ n
    → (Incoming.matches_from i payload ≡ true)
      ↔ (payload ≡ take (length payload) (Incoming.fill_from i n))
unfolding Incoming.matches_from Incoming.fill_from
matches_from_iff i n [] h = (λ _. refl, λ _. refl)
matches_from_iff i zero (b ∷ bs) h = absurd (omega arith)
matches_from_iff i (suc n) (b ∷ bs) h =
    let rest = matches_from_iff (i + 1) n bs (omega arith) in
    elim (Bool-cases (b == i % 251)) [
      | inl e ↦
          let same : b ≡ i % 251 = (==_iff b (i % 251)).0 e in
          rw e (λ m. let tail = rest.0 m in cc (same, tail), λ p. rest.1 (cc p))
      | inr e ↦ rw e (λ m. absurd (cc m), λ p. absurd (cc (e, (==_iff b (i % 251)).1 (cc p))))
    ]

drop-append : (xs ys : List ℕ) → drop (length xs) (xs ++ ys) ≡ ys
drop-append [] ys = refl
drop-append (x ∷ xs) ys = drop-append xs ys

-- A payload that is checked and is no beginning of what the publishers fill.
abbrev pub IsBad : Bool → ℕ → List ℕ → Type 0
IsBad verify max_size payload =
    (verify ≡ true) × (payload ≢ take (length payload) (build_payload max_size))

abbrev pub plus_bad : Bool → ℕ → ℕ
plus_bad true n = (n + 1) % 2 ^ 64
plus_bad false n = n

-- The first subscription with the alias has one object more, and no other one changes.
pub data IsAttributed (alias size : ℕ) (bad : Bool)
    : List SubscriptionState → List SubscriptionState → Type 0 where
  nobody : IsAttributed alias size bad [] []
  this :
      (s : SubscriptionState) (ss : List SubscriptionState)
      → s.track_alias ≡ some alias
      → IsAttributed alias size bad (s ∷ ss) (
          record s {
            received_objects = (s.received_objects + 1) % 2 ^ 64;
            received_bytes = (s.received_bytes + size) % 2 ^ 64;
            mismatched_payloads = plus_bad bad s.mismatched_payloads;
          }
          ∷ ss)
  later :
      (s : SubscriptionState) (ss ss' : List SubscriptionState)
      → s.track_alias ≢ some alias
      → IsAttributed alias size bad ss ss'
      → IsAttributed alias size bad (s ∷ ss) (s ∷ ss')

eq_some_yes : (a : Option ℕ) (n : ℕ) → eq_some a n ≡ true → a ≡ some n
eq_some_yes none n h = absurd (cc h)
eq_some_yes (some a) n h = ap some ((==_iff a n).0 h)

eq_some_no : (a : Option ℕ) (n : ℕ) → eq_some a n ≡ false → a ≢ some n
eq_some_no none n h e = cc e
eq_some_no (some a) n h e = cc (h, (==_iff a n).1 (cc e))

plus_bad_lem : (good : Bool) (n : ℕ) → Incoming.bump_unless good n ≡ plus_bad (not good) n
plus_bad_lem true n = refl
plus_bad_lem false n = refl

attribute-this :
    (alias size : ℕ) (good : Bool) (s : SubscriptionState) (ss : List SubscriptionState)
    → s.track_alias ≡ some alias
    → IsAttributed alias size (not good) (s ∷ ss) (Incoming.attribute size good s ∷ ss)
attribute-this alias size true s ss e = this s ss e
attribute-this alias size false s ss e = this s ss e

attribute_first-IsAttributed :
    (alias size : ℕ) (good : Bool) (ss : List SubscriptionState)
    → IsAttributed alias size (not good) ss (Incoming.attribute_first alias size good ss)
unfolding Incoming.attribute_first
attribute_first-IsAttributed alias size good [] = nobody
attribute_first-IsAttributed alias size good (s ∷ ss) =
    elim (Bool-cases (eq_some s.track_alias alias)) [
      | inl e ↦ rw e (attribute-this alias size good s ss (eq_some_yes s.track_alias alias e))
      | inr e ↦ rw e (
          later s ss _ (eq_some_no s.track_alias alias e)
            (attribute_first-IsAttributed alias size good ss))
    ]

checked_iff :
    (verify : Bool) (max_size : ℕ) (payload : List ℕ)
    → length payload ≤ max_size
    → (not (not verify || payload_matches_pattern payload) ≡ true) ↔ IsBad verify max_size payload
unfolding payload_matches_pattern build_payload
checked_iff false max_size payload h = (λ e. absurd (cc e), λ b. absurd (cc b.0))
checked_iff true max_size payload h =
    let same = matches_from_iff 0 max_size payload h in
    elim (Bool-cases (Incoming.matches_from 0 payload)) [
      | inl e ↦ rw e (λ f. absurd (cc f), λ b. absurd (b.1 (same.0 e)))
      | inr e ↦ rw e (λ f. (refl, λ p. absurd (cc (e, same.1 p))), λ b. refl)
    ]

-- What a datagram with this payload leaves behind.
pub record IsRecorded {S : Type 0} (verify : Bool) (max_size alias : ℕ) (payload : List ℕ)
    (session : S) (r r' : Received S) : Type 0 where
  pub session_is : r'.session ≡ session
  pub bad : Bool
  pub bad_iff : (bad ≡ true) ↔ IsBad verify max_size payload
  pub objects : r'.counters.objects ≡ (r.counters.objects + 1) % 2 ^ 64
  pub bytes : r'.counters.bytes ≡ (r.counters.bytes + length payload) % 2 ^ 64
  pub mismatched : r'.counters.mismatched_payloads ≡ plus_bad bad r.counters.mismatched_payloads
  pub attributed : IsAttributed alias (length payload) bad r.subscriptions r'.subscriptions

module _ (m : Receiving) (max_size : ℕ) (header payload : List ℕ) (fits : length payload ≤ max_size)
    (alias : ℕ) (verify : Bool) (r : Received (m.Session)) (session : m.Session)
    (accepts : m.recv_datagram r.session (header ++ payload) ≡ (session, some object_accepted))
    (decodes : m.decode_datagram (header ++ payload) ≡ some (alias, length header)) where
  -- A datagram of a header and any payload that is not longer than what a publisher fills, which
  -- the session accepts and whose header the library decodes, is recorded, without an error: the
  -- counters have one object more, with the bytes of the payload, and so has the first subscription
  -- with the alias, and no other one. The payload counts as mismatched, in both places, exactly
  -- where payloads are verified and it is no beginning of what a publisher fills. The counts are
  -- modulo 2^64.
  pub handle_received_datagram-IsRecorded :
      (r' : Received (m.Session)) × (handle_received_datagram m verify (header ++ payload) r
        ≡ ok r')
      × IsRecorded verify max_size alias payload session r r'
  unfolding handle_received_datagram record_received_object record_counters
  handle_received_datagram-IsRecorded = (
    left,
    rw
        (
          accepts,
          Incoming.accept_datagram,
          decodes,
          Incoming.record_datagram,
          long,
          drop-append header payload,
        )
        (cc accepts),
    record {
      session_is = refl;
      bad = not (not verify || payload_matches_pattern payload);
      bad_iff = checked_iff verify max_size payload fits;
      objects = refl;
      bytes = refl;
      mismatched = plus_bad_lem (not verify || payload_matches_pattern payload) _;
      attributed =
          attribute_first-IsAttributed alias (length payload)
            (not verify || payload_matches_pattern payload) r.subscriptions;
    },
  )
    where
      left : Received (m.Session)
      left = record {
        session = session;
        subscriptions =
            Incoming.attribute_first alias (length payload)
              (not verify || payload_matches_pattern payload) r.subscriptions;
        counters =
            record_counters (length payload) (not verify || payload_matches_pattern payload)
              r.counters;
      }

      long : leb (length header) (length (header ++ payload)) ≡ true
      long = ground (arith, length-append header payload)
