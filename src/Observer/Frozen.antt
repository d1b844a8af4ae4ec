-- ===== src/Observer/Frozen.antt =====
-- Media whose counters stop moving is reported as stalled.
use zakuro_rs.Base.{
  ℕ, ◌+◌, ◌≤◌, min, max, true, false, List, [], ◌∷◌, ◌≡◌, arith, ◌∙◌, is_some, sat_add32, u32_max,
  length,
}
use zakuro_rs.Lifecycle.Types.{ConnectionLifecycle}
use zakuro_rs.Lifecycle.Ops.{is_stalled, on_sample_activity, on_sample_observed, on_delivery_report}
use zakuro_rs.Observer.Ops.{
  MediaObserver, Entry, Scan, observe_entries, observe_sample, start, finish,
}
use zakuro_rs.Observer.Quiet.{
  Agrees, Agrees-of_same, any_media, Distinct, entries-IsQuiet, entries-Agrees,
}

-- The same sample, observed once at each of the times.
unfoldable pub observe_again :
    List ℕ → MediaObserver → ConnectionLifecycle → List Entry → MediaObserver × ConnectionLifecycle
observe_again [] o l es = (o, l)
observe_again (t ∷ ts) o l es = let (o', l') = observe_sample o l es t in observe_again ts o' l' es

-- One more idle sample.
record IsIdled (l l' : ConnectionLifecycle) : Type 0 where
  active : l'.last_media_activity_at ≡ l.last_media_activity_at
  idle : l'.idle_samples ≡ sat_add32 l.idle_samples 1
  longest : l'.max_idle_samples ≡ max l.max_idle_samples (sat_add32 l.idle_samples 1)

finish-IsIdled :
    (t : ℕ) (l : ConnectionLifecycle) (s : Scan)
    → s.lifecycle ≡ l
    → s.has_media_entry ≡ true
    → s.has_activity ≡ false
    → IsIdled l (finish t s)
unfolding finish on_sample_activity on_sample_observed on_delivery_report
finish-IsIdled t l s e m a = record {
  active = ground arith;
  idle = ground arith;
  longest = ground arith;
}

sample-Agrees :
    (es : List Entry) (o : MediaObserver) (l : ConnectionLifecycle) (t : ℕ)
    → Distinct es
    → Agrees (observe_sample o l es t).0 es
unfolding observe_sample
sample-Agrees es o l t d = entries-Agrees t es (start o l) d

module _ (es : List Entry) (media : any_media es ≡ true) where
  sample-IsIdled :
      (o : MediaObserver) (l : ConnectionLifecycle) (t : ℕ)
      → Agrees o es
      → IsIdled l (observe_sample o l es t).1 × Agrees (observe_sample o l es t).0 es
  unfolding observe_sample
  sample-IsIdled o l t a =
      let q = entries-IsQuiet t es (start o l) a in
      (
        finish-IsIdled t l (observe_entries t (start o l) es) q.same_lifecycle (q.media ∙ media)
            q.same_activity,
        Agrees-of_same o (observe_entries t (start o l) es).observer es q.same a,
      )

  again_idle :
      (ts : List ℕ) (o : MediaObserver) (l : ConnectionLifecycle) (n : ℕ)
      → Agrees o es
      → is_some l.last_media_activity_at ≡ true
      → min n u32_max ≤ l.idle_samples
      → min n u32_max ≤ l.max_idle_samples
      → let l' : ConnectionLifecycle = (observe_again ts o l es).1 in
        (is_some l'.last_media_activity_at ≡ true)
        × (min (n + length ts) u32_max ≤ l'.max_idle_samples)
  unfolding observe_again
  again_idle [] o l n a act i m = (act, omega arith)
  again_idle (t ∷ ts) o l n a act i m =
      let (idled, a') = sample-IsIdled o l t a in
      let o' : MediaObserver = (observe_sample o l es t).0 in
      let l' : ConnectionLifecycle = (observe_sample o l es t).1 in
      let r =
        again_idle ts o' l' (n + 1) a' (rw (idled.active) act) (omega (arith, idled.idle))
          (omega (arith, idled.longest)) in
      (r.0, omega (arith, r.1))

-- A sample that holds media, with one entry for each stream, and that leaves the connection with
-- some activity recorded: when three or more further samples repeat its counters, at any times,
-- the connection is reported as stalled, whatever the observer held before.
pub frozen-is_stalled :
    (es : List Entry) (o : MediaObserver) (l : ConnectionLifecycle) (t : ℕ) (ts : List ℕ)
    → any_media es ≡ true
    → Distinct es
    → is_some (observe_sample o l es t).1.last_media_activity_at ≡ true
    → 3 ≤ length ts
    → is_stalled (observe_again (t ∷ ts) o l es).1 ≡ true
unfolding observe_again is_stalled
frozen-is_stalled es o l t ts media d act n =
    let o' : MediaObserver = (observe_sample o l es t).0 in
    let l' : ConnectionLifecycle = (observe_sample o l es t).1 in
    let r =
      again_idle es media ts o' l' 0 (sample-Agrees es o l t d) act (omega arith) (omega arith) in
    ground (arith, r.0, r.1)
