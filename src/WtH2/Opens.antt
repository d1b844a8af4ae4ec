-- ===== src/WtH2/Opens.antt =====
-- `pump_opens` of zakuro-moq/src/moq_client/wt_h2.rs: the queue of requests to open a stream. The
-- session is a parameter; a request is told apart by the number of its caller.
use zakuro_rs.Base.{
  ℕ, zero, suc, ◌+◌, Bool, not, ◌||◌, List, [], ◌∷◌, ◌++◌, if◌then◌else◌, ◌==◌, ◌≡◌, refl, arith,
  length,
}

pub record OpenRequest : Type 0 where
  pub bidirectional : Bool
  pub caller : ℕ
  -- the caller waits for the reply
  pub waits : Bool

pub data Opened : Type 0 where
  opened flow_control_error other_error : Opened

-- The session, and `open_streams` on it; whether the owner is alive does not change in a call.
pub record Opener : Type 1 where
  pub Session : Type 0
  pub is_active : Session → Bool
  pub open_streams : Session → Bool → Session × Opened

module _ (o : Opener) where
  open o use {Session, is_active, open_streams}

  -- The session and the queue behind a call, the requests that were answered, in order, and those
  -- that were dropped.
  pub record Pumped : Type 0 where
    pub session : Session
    pub queue : List OpenRequest
    pub answered : List OpenRequest
    pub dropped : List OpenRequest

  abbrev pub answer : OpenRequest → Pumped → Pumped
  answer r p = record {
    session = p.session;
    queue = p.queue;
    answered = r ∷ p.answered;
    dropped = p.dropped;
  }

  abbrev pub drop_request : OpenRequest → Pumped → Pumped
  drop_request r p = record {
    session = p.session;
    queue = p.queue;
    answered = p.answered;
    dropped = r ∷ p.dropped;
  }

  abbrev pub stop : Session → List OpenRequest → Pumped
  stop s q = record { session = s; queue = q; answered = []; dropped = [] }

  -- The loop, with the number of attempts that are left.
  unfoldable pub pump : Bool → Bool → ℕ → Session → List OpenRequest → Pumped
  pump draining owner zero s q = stop s q
  pump draining owner (suc n) s [] = stop s []
  pump draining owner (suc n) s (r ∷ q) =
      if not r.waits
      then drop_request r (pump draining owner n s q)
      else if draining || not (is_active s)
      then answer r (pump draining owner n s q)
      else if not owner
      then answer r (pump draining owner n s q)
      else elim (open_streams s r.bidirectional).1 [
        | opened ↦ answer r (pump draining owner n (open_streams s r.bidirectional).0 q)
        | flow_control_error ↦ stop (open_streams s r.bidirectional).0 (q ++ r ∷ [])
        | other_error ↦ answer r (pump draining owner n (open_streams s r.bidirectional).0 q)
      ]

  unfoldable pub pump_opens : Bool → Bool → Session → List OpenRequest → Pumped
  pump_opens draining owner s q = pump draining owner (length q) s q

  -- How many of the requests are the caller's.
  abbrev pub count_of : ℕ → List OpenRequest → ℕ
  count_of c [] = 0
  count_of c (r ∷ q) = (if r.caller == c then 1 else 0) + count_of c q

  count_of-append :
      (c : ℕ) (p q : List OpenRequest) → count_of c (p ++ q) ≡ count_of c p + count_of c q
  count_of-append c [] q = omega arith
  count_of-append c (r ∷ p) q = omega (arith, count_of-append c p q)

  pump_counts :
      (draining owner : Bool) (c n : ℕ) (s : Session) (q : List OpenRequest)
      → let p : Pumped = pump draining owner n s q in
        count_of c p.answered + count_of c p.dropped + count_of c p.queue ≡ count_of c q
  unfolding pump
  pump_counts draining owner c zero s q = omega arith
  pump_counts draining owner c (suc n) s [] = refl
  pump_counts draining owner c (suc n) s (r ∷ q) = ground (
    arith,
    pump_counts draining owner c n s q,
    pump_counts draining owner c n (open_streams s r.bidirectional).0 q,
    count_of-append c q (r ∷ []),
  )

  -- No request is lost or answered twice: those of each caller are answered, or dropped, or still
  -- in the queue, as many in all as there were.
  pub pump_opens_counts :
      (draining owner : Bool) (c : ℕ) (s : Session) (q : List OpenRequest)
      → let p : Pumped = pump_opens draining owner s q in
        count_of c p.answered + count_of c p.dropped + count_of c p.queue ≡ count_of c q
  unfolding pump_opens
  pump_opens_counts draining owner c s q = pump_counts draining owner c (length q) s q
