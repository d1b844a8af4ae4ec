-- ===== src/Observer/Quiet.antt =====
-- Samples that repeat the counters of the tables show no activity.
use Prim.Native.String.{String}
use text.Mathlib.Text.{◌==◌ as str_eq}
use zakuro_rs.Base.{ℕ, Bool, true, false, ◌||◌, List, [], ◌∷◌, Option, some, ◌≡◌, refl, arith, ◌∙◌}
use zakuro_rs.Base.Map.{lookup, lookup-insert, string_eq, eq_iff, beq_refl}
use zakuro_rs.Observer.Ops.{
  StreamCounters, has_flowed, observe_stream, MediaObserver, Entry, outbound_rtp, inbound_rtp,
  remote_inbound_rtp, other, Scan, observe_entry, observe_entries,
}
use zakuro_rs.Observer.Tables.{latest_outbound, latest_inbound, entries-outbound, entries-inbound}

-- The tables hold exactly the counters that the entries carry.
abbrev pub Agrees : MediaObserver → List Entry → Type 0
Agrees o [] = Unit
Agrees o (outbound_rtp id k c ∷ es) = (lookup id o.outbound ≡ some c) × Agrees o es
Agrees o (inbound_rtp id k c ∷ es) = (lookup id o.inbound ≡ some c) × Agrees o es
Agrees o (remote_inbound_rtp ∷ es) = Agrees o es
Agrees o (other ∷ es) = Agrees o es

abbrev pub SameTables : MediaObserver → MediaObserver → Type 0
SameTables o o' =
    (id : String)
    → (lookup id o'.outbound ≡ lookup id o.outbound) × (lookup id o'.inbound ≡ lookup id o.inbound)

pub Agrees-of_same :
    (o o' : MediaObserver) (es : List Entry) → SameTables o o' → Agrees o es → Agrees o' es
Agrees-of_same o o' [] same a = tt
Agrees-of_same o o' (outbound_rtp id k c ∷ es) same (h, a) =
    ((same id).0 ∙ h, Agrees-of_same o o' es same a)
Agrees-of_same o o' (inbound_rtp id k c ∷ es) same (h, a) =
    ((same id).1 ∙ h, Agrees-of_same o o' es same a)
Agrees-of_same o o' (remote_inbound_rtp ∷ es) same a = Agrees-of_same o o' es same a
Agrees-of_same o o' (other ∷ es) same a = Agrees-of_same o o' es same a

has_flowed_same : (c : StreamCounters) → has_flowed (some c) c ≡ false
unfolding has_flowed
has_flowed_same c = ground arith

abbrev pub any_media : List Entry → Bool
any_media [] = false
any_media (outbound_rtp id k c ∷ es) = true
any_media (inbound_rtp id k c ∷ es) = true
any_media (remote_inbound_rtp ∷ es) = any_media es
any_media (other ∷ es) = any_media es

-- What is left of a scan over entries that agree with the tables.
pub record IsQuiet (es : List Entry) (s s' : Scan) : Type 0 where
  pub same_lifecycle : s'.lifecycle ≡ s.lifecycle
  pub same_activity : s'.has_activity ≡ s.has_activity
  pub media : s'.has_media_entry ≡ (s.has_media_entry || any_media es)
  pub same : SameTables s.observer s'.observer

entry-IsQuiet :
    (t : ℕ) (s : Scan) (e : Entry)
    → Agrees s.observer (e ∷ [])
    → IsQuiet (e ∷ []) s (observe_entry t s e)
unfolding observe_entry observe_stream
entry-IsQuiet t s (outbound_rtp j k c) a = record {
  same_lifecycle = ground (arith, has_flowed_same c);
  same_activity = ground (arith, has_flowed_same c);
  media = ground (arith, has_flowed_same c);
  same = λ id.
      ground (arith, has_flowed_same c, lookup-insert j id c s.observer.outbound, eq_iff j id);
}
entry-IsQuiet t s (inbound_rtp j k c) a = record {
  same_lifecycle = ground (arith, has_flowed_same c);
  same_activity = ground (arith, has_flowed_same c);
  media = ground (arith, has_flowed_same c);
  same =
      λ id. ground (arith, has_flowed_same c, lookup-insert j id c s.observer.inbound, eq_iff j id);
}
entry-IsQuiet t s remote_inbound_rtp a = record {
  same_lifecycle = refl;
  same_activity = refl;
  media = ground arith;
  same = λ id. (refl, refl);
}
entry-IsQuiet t s other a = record {
  same_lifecycle = refl;
  same_activity = refl;
  media = ground arith;
  same = λ id. (refl, refl);
}

media_cons :
    (e : Entry) (es : List Entry) (a b c : Bool)
    → b ≡ (a || any_media (e ∷ []))
    → c ≡ (b || any_media es)
    → c ≡ (a || any_media (e ∷ es))
media_cons (outbound_rtp id k d) es a b c h g = ground arith
media_cons e es a b c h g = ground arith

IsQuiet-cons :
    (t : ℕ) (e : Entry) (es : List Entry) (s : Scan)
    → Agrees s.observer (e ∷ [])
    → Agrees s.observer es
    → (Agrees (observe_entry t s e).observer es
        → IsQuiet es (observe_entry t s e) (observe_entries t (observe_entry t s e) es))
    → IsQuiet (e ∷ es) s (observe_entries t (observe_entry t s e) es)
IsQuiet-cons t e es s head tail rest =
    let q = entry-IsQuiet t s e head in
    let r = rest (Agrees-of_same s.observer (observe_entry t s e).observer es q.same tail) in
    record {
      same_lifecycle = r.same_lifecycle ∙ q.same_lifecycle;
      same_activity = r.same_activity ∙ q.same_activity;
      media = media_cons e es _ _ _ q.media r.media;
      same = λ id. ((r.same id).0 ∙ (q.same id).0, (r.same id).1 ∙ (q.same id).1);
    }

pub entries-IsQuiet :
    (t : ℕ) (es : List Entry) (s : Scan)
    → Agrees s.observer es
    → IsQuiet es s (observe_entries t s es)
unfolding observe_entries
entries-IsQuiet t [] s a = record {
  same_lifecycle = refl;
  same_activity = refl;
  media = ground arith;
  same = λ id. (refl, refl);
}
entries-IsQuiet t (outbound_rtp id k c ∷ es) s (h, a) =
    IsQuiet-cons t (outbound_rtp id k c) es s (h, tt) a (entries-IsQuiet t es _)
entries-IsQuiet t (inbound_rtp id k c ∷ es) s (h, a) =
    IsQuiet-cons t (inbound_rtp id k c) es s (h, tt) a (entries-IsQuiet t es _)
entries-IsQuiet t (remote_inbound_rtp ∷ es) s a =
    IsQuiet-cons t remote_inbound_rtp es s tt a (entries-IsQuiet t es _)
entries-IsQuiet t (other ∷ es) s a = IsQuiet-cons t other es s tt a (entries-IsQuiet t es _)

abbrev pub AbsentOutbound : String → List Entry → Type 0
AbsentOutbound id [] = Unit
AbsentOutbound id (outbound_rtp j k c ∷ es) = (str_eq j id ≡ false) × AbsentOutbound id es
AbsentOutbound id (inbound_rtp j k c ∷ es) = AbsentOutbound id es
AbsentOutbound id (remote_inbound_rtp ∷ es) = AbsentOutbound id es
AbsentOutbound id (other ∷ es) = AbsentOutbound id es

abbrev pub AbsentInbound : String → List Entry → Type 0
AbsentInbound id [] = Unit
AbsentInbound id (inbound_rtp j k c ∷ es) = (str_eq j id ≡ false) × AbsentInbound id es
AbsentInbound id (outbound_rtp j k c ∷ es) = AbsentInbound id es
AbsentInbound id (remote_inbound_rtp ∷ es) = AbsentInbound id es
AbsentInbound id (other ∷ es) = AbsentInbound id es

-- In each direction, no stream has two entries.
abbrev pub Distinct : List Entry → Type 0
Distinct [] = Unit
Distinct (outbound_rtp id k c ∷ es) = AbsentOutbound id es × Distinct es
Distinct (inbound_rtp id k c ∷ es) = AbsentInbound id es × Distinct es
Distinct (remote_inbound_rtp ∷ es) = Distinct es
Distinct (other ∷ es) = Distinct es

latest_outbound_absent :
    (id : String) (es : List Entry) (c : Option StreamCounters)
    → AbsentOutbound id es
    → latest_outbound id es c ≡ c
latest_outbound_absent id [] c a = refl
latest_outbound_absent id (outbound_rtp j k d ∷ es) c (h, a) =
    rw h (latest_outbound_absent id es c a)
latest_outbound_absent id (inbound_rtp j k d ∷ es) c a = latest_outbound_absent id es c a
latest_outbound_absent id (remote_inbound_rtp ∷ es) c a = latest_outbound_absent id es c a
latest_outbound_absent id (other ∷ es) c a = latest_outbound_absent id es c a

latest_inbound_absent :
    (id : String) (es : List Entry) (c : Option StreamCounters)
    → AbsentInbound id es
    → latest_inbound id es c ≡ c
latest_inbound_absent id [] c a = refl
latest_inbound_absent id (inbound_rtp j k d ∷ es) c (h, a) = rw h (latest_inbound_absent id es c a)
latest_inbound_absent id (outbound_rtp j k d ∷ es) c a = latest_inbound_absent id es c a
latest_inbound_absent id (remote_inbound_rtp ∷ es) c a = latest_inbound_absent id es c a
latest_inbound_absent id (other ∷ es) c a = latest_inbound_absent id es c a

pub entries-Agrees :
    (t : ℕ) (es : List Entry) (s : Scan) → Distinct es → Agrees (observe_entries t s es).observer es
unfolding observe_entries
entries-Agrees t [] s d = tt
entries-Agrees t (outbound_rtp id k c ∷ es) s (a, d) = (
  entries-outbound t (outbound_rtp id k c ∷ es) s id
      ∙ rw (beq_refl id) (latest_outbound_absent id es (some c) a),
  entries-Agrees t es (observe_entry t s (outbound_rtp id k c)) d,
)
entries-Agrees t (inbound_rtp id k c ∷ es) s (a, d) = (
  entries-inbound t (inbound_rtp id k c ∷ es) s id
      ∙ rw (beq_refl id) (latest_inbound_absent id es (some c) a),
  entries-Agrees t es (observe_entry t s (inbound_rtp id k c)) d,
)
entries-Agrees t (remote_inbound_rtp ∷ es) s d =
    entries-Agrees t es (observe_entry t s remote_inbound_rtp) d
entries-Agrees t (other ∷ es) s d = entries-Agrees t es (observe_entry t s other) d
