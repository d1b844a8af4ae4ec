-- ===== src/Observer/Tables.antt =====
-- What the two tables of counters hold after a sample.
use Prim.Native.String.{String}
use text.Mathlib.Text.{◌==◌ as str_eq}
use zakuro_rs.Base.{ℕ, List, [], ◌∷◌, Option, some, if◌then◌else◌, ◌≡◌, refl, arith}
use zakuro_rs.Base.Map.{lookup, lookup-insert, string_eq}
use zakuro_rs.Lifecycle.Types.{ConnectionLifecycle}
use zakuro_rs.Observer.Ops.{
  StreamCounters, observe_stream, MediaObserver, Entry, outbound_rtp, inbound_rtp,
  remote_inbound_rtp, other, Scan, observe_entry, observe_entries, observe_sample, start,
}

-- The counters of the last outbound entry for `id`, or `c` where there is none.
abbrev pub latest_outbound : String → List Entry → Option StreamCounters → Option StreamCounters
latest_outbound id [] c = c
latest_outbound id (outbound_rtp j k d ∷ es) c =
    latest_outbound id es (if str_eq j id then some d else c)
latest_outbound id (inbound_rtp j k d ∷ es) c = latest_outbound id es c
latest_outbound id (remote_inbound_rtp ∷ es) c = latest_outbound id es c
latest_outbound id (other ∷ es) c = latest_outbound id es c

abbrev pub latest_inbound : String → List Entry → Option StreamCounters → Option StreamCounters
latest_inbound id [] c = c
latest_inbound id (inbound_rtp j k d ∷ es) c =
    latest_inbound id es (if str_eq j id then some d else c)
latest_inbound id (outbound_rtp j k d ∷ es) c = latest_inbound id es c
latest_inbound id (remote_inbound_rtp ∷ es) c = latest_inbound id es c
latest_inbound id (other ∷ es) c = latest_inbound id es c

entry-outbound :
    (t : ℕ) (s : Scan) (e : Entry) (id : String)
    → lookup id (observe_entry t s e).observer.outbound
      ≡ latest_outbound id (e ∷ []) (lookup id s.observer.outbound)
unfolding observe_entry observe_stream
entry-outbound t s (outbound_rtp j k d) id =
    ground (arith, lookup-insert j id d s.observer.outbound)
entry-outbound t s e id = ground arith

entry-inbound :
    (t : ℕ) (s : Scan) (e : Entry) (id : String)
    → lookup id (observe_entry t s e).observer.inbound
      ≡ latest_inbound id (e ∷ []) (lookup id s.observer.inbound)
unfolding observe_entry observe_stream
entry-inbound t s (inbound_rtp j k d) id = ground (arith, lookup-insert j id d s.observer.inbound)
entry-inbound t s e id = ground arith

pub entries-outbound :
    (t : ℕ) (es : List Entry) (s : Scan) (id : String)
    → lookup id (observe_entries t s es).observer.outbound
      ≡ latest_outbound id es (lookup id s.observer.outbound)
unfolding observe_entries
entries-outbound t [] s id = refl
entries-outbound t (outbound_rtp j k d ∷ es) s id = rw (entries-outbound t es) (rw entry-outbound)
entries-outbound t (e ∷ es) s id = rw (entries-outbound t es) (rw entry-outbound)

pub entries-inbound :
    (t : ℕ) (es : List Entry) (s : Scan) (id : String)
    → lookup id (observe_entries t s es).observer.inbound
      ≡ latest_inbound id es (lookup id s.observer.inbound)
unfolding observe_entries
entries-inbound t [] s id = refl
entries-inbound t (outbound_rtp j k d ∷ es) s id = rw (entries-inbound t es) (rw entry-inbound)
entries-inbound t (e ∷ es) s id = rw (entries-inbound t es) (rw entry-inbound)

-- After a sample, each table holds for each stream the counters of its last entry in the sample,
-- and is otherwise unchanged: a value that fell replaces the earlier one too.
pub observe_sample_tables :
    (o : MediaObserver) (l : ConnectionLifecycle) (es : List Entry) (t : ℕ) (id : String)
    → let o' : MediaObserver = (observe_sample o l es t).0 in
      (lookup id o'.outbound ≡ latest_outbound id es (lookup id o.outbound))
      × (lookup id o'.inbound ≡ latest_inbound id es (lookup id o.inbound))
unfolding observe_sample
observe_sample_tables o l es t id =
    (entries-outbound t es (start o l) id, entries-inbound t es (start o l) id)
