-- ===== src/Client/Once.antt =====
-- What a client reports exactly once: the end of each connection, and its own end.
use zakuro_rs.Base.{
  ℕ, ◌+◌, Bool, not, ◌&&◌, List, [], ◌∷◌, ◌++◌, none, some, if◌then◌else◌, ◌≡◌, inl, inr, refl,
  arith, Option-cases, Bool-cases,
}
use zakuro_rs.Lifecycle.Types.{LifecycleEnd}
use zakuro_rs.Stats.Types.{StatsEvent, connected, disconnected, stopped}
use zakuro_rs.Stats.Count.{count_if, is_end}
use zakuro_rs.Client.Ops.{
  ClientConfig, Attempt, DisconnectReason, shutdown, duration_expired, scenario_disconnect,
  scenario_exit, unexpected, retry, disconnect, turn, run_loop, run, write_connection_lifecycle,
  record_lifecycle, ended_event,
}
use zakuro_rs.Client.Retry.{is_stopped}

pub count_if-append :
    (p : StatsEvent → Bool) (xs ys : List StatsEvent)
    → count_if p (xs ++ ys) ≡ count_if p xs + count_if p ys
count_if-append p [] ys = omega arith
count_if-append p (x ∷ xs) ys = omega (arith, count_if-append p xs ys)

-- The end of a connection reaches the channel if the lifecycle can be read and there is room.
abbrev pub is_reported : Attempt → Bool
is_reported a = not a.poisoned && a.room

-- What the events of one connection hold of ends and of `Stopped`.
record IsOnce (a : Attempt) (es : List StatsEvent) : Type 0 where
  ends : count_if is_end es ≡ (if is_reported a then 1 else 0)
  no_stop : count_if is_stopped es ≡ 0

record IsPlain (es : List StatsEvent) : Type 0 where
  no_end : count_if is_end es ≡ 0
  no_stop : count_if is_stopped es ≡ 0

record_lifecycle-IsOnce :
    (c : ClientConfig) (a : Attempt) (e : LifecycleEnd) → IsOnce a (record_lifecycle c a e)
unfolding record_lifecycle ended_event write_connection_lifecycle
record_lifecycle-IsOnce c a e = record { ends = ground arith; no_stop = ground arith }

IsOnce-append :
    (a : Attempt) (xs ys : List StatsEvent) → IsOnce a xs → IsPlain ys → IsOnce a (xs ++ ys)
IsOnce-append a xs ys o p = record {
  ends = omega (arith, count_if-append is_end xs ys, o.ends, p.no_end);
  no_stop = omega (arith, count_if-append is_stopped xs ys, o.no_stop, p.no_stop);
}

append-IsOnce :
    (a : Attempt) (xs ys : List StatsEvent) → IsPlain xs → IsOnce a ys → IsOnce a (xs ++ ys)
append-IsOnce a xs ys p o = record {
  ends = omega (arith, count_if-append is_end xs ys, o.ends, p.no_end);
  no_stop = omega (arith, count_if-append is_stopped xs ys, o.no_stop, p.no_stop);
}

retry-IsPlain : (c : ClientConfig) (a : Attempt) (n : ℕ) → IsPlain (retry c a n).events
unfolding retry
retry-IsPlain c a n = record { no_end = ground arith; no_stop = ground arith }

-- One end, then `Disconnected`, then events of the kind that `rest` holds.
ended-IsOnce :
    (c : ClientConfig) (a : Attempt) (e : LifecycleEnd) (rest : List StatsEvent)
    → IsPlain rest
    → IsOnce a ((record_lifecycle c a e ++ disconnected c.instance_id c.vc_id ∷ []) ++ rest)
ended-IsOnce c a e rest p =
    IsOnce-append a (record_lifecycle c a e ++ disconnected c.instance_id c.vc_id ∷ []) rest
      (IsOnce-append a (record_lifecycle c a e) _ (record_lifecycle-IsOnce c a e)
        (record { no_end = refl; no_stop = refl }))
      p

disconnect-IsOnce :
    (c : ClientConfig) (a : Attempt) (n : ℕ) (reason : DisconnectReason)
    → IsOnce a (disconnect c a n reason).events
unfolding disconnect
disconnect-IsOnce c a n shutdown =
    IsOnce-append a _ [] (record_lifecycle-IsOnce c a LifecycleEnd.shutdown)
      (record { no_end = refl; no_stop = refl })
disconnect-IsOnce c a n duration_expired =
    ended-IsOnce c a LifecycleEnd.duration_expired _
      (record { no_end = ground arith; no_stop = ground arith })
disconnect-IsOnce c a n scenario_disconnect =
    ended-IsOnce c a LifecycleEnd.scenario_disconnect [] (record { no_end = refl; no_stop = refl })
disconnect-IsOnce c a n scenario_exit =
    ended-IsOnce c a LifecycleEnd.scenario_exit [] (record { no_end = refl; no_stop = refl })
disconnect-IsOnce c a n unexpected =
    ended-IsOnce c a LifecycleEnd.unexpected _ (retry-IsPlain c a n)

connected-IsPlain :
    (c : ClientConfig) (b : Bool) → IsPlain (if b then connected c.instance_id c.vc_id ∷ [] else [])
connected-IsPlain c b = record { no_end = ground arith; no_stop = ground arith }

turn-IsOnce : (c : ClientConfig) (n : ℕ) (a : Attempt) → IsOnce a (turn c n a).events
unfolding turn
turn-IsOnce c n a = elim (Bool-cases a.built) [
  | inl h ↦
      simp h (append-IsOnce a _ _ (connected-IsPlain c a.established) (disconnect-IsOnce c a n _))
  | inr h ↦ simp h (
      IsOnce-append a _ _ (record_lifecycle-IsOnce c a LifecycleEnd.build_failed)
        (retry-IsPlain c a n))
]

-- The attempts that a loop comes to, up to the one that it ends with.
abbrev pub taken : ClientConfig → ℕ → List Attempt → List Attempt
taken c n [] = []
taken c n (a ∷ rest) = elim (turn c n a).next [ none ↦ a ∷ [] | some m ↦ a ∷ taken c m rest ]

abbrev pub count_reported : List Attempt → ℕ
count_reported [] = 0
count_reported (a ∷ rest) = (if is_reported a then 1 else 0) + count_reported rest

record IsTold (c : ClientConfig) (n : ℕ) (attempts : List Attempt) : Type 0 where
  ends : count_if is_end (run_loop c n attempts).events ≡ count_reported (taken c n attempts)
  stops :
      count_if is_stopped (run_loop c n attempts).events
      ≡ (if (run_loop c n attempts).ended then 1 else 0)

run_loop-IsTold : (c : ClientConfig) (attempts : List Attempt) (n : ℕ) → IsTold c n attempts
unfolding run_loop
run_loop-IsTold c [] n = record { ends = refl; stops = refl }
run_loop-IsTold c (a ∷ rest) n =
    let once = turn-IsOnce c n a in
    elim (Option-cases (turn c n a).next) [
      | inl e ↦ record {
        ends =
            rw (e, run_loop, taken)
              (omega (
                arith,
                once.ends,
                count_if-append is_end (turn c n a).events (stopped c.instance_id c.vc_id ∷ []),
              ));
        stops =
            rw (e, run_loop)
              (omega (
                arith,
                once.no_stop,
                count_if-append is_stopped (turn c n a).events (stopped c.instance_id c.vc_id ∷ []),
              ));
      }
      | inr (m, e) ↦
          let told = run_loop-IsTold c rest m in
          record {
            ends =
                rw (e, run_loop, taken)
                  (omega (
                    arith,
                    once.ends,
                    told.ends,
                    count_if-append is_end (turn c n a).events (run_loop c m rest).events,
                  ));
            stops =
                rw (e, run_loop)
                  (omega (
                    arith,
                    once.no_stop,
                    told.stops,
                    count_if-append is_stopped (turn c n a).events (run_loop c m rest).events,
                  ));
          }
    ]

-- The events of a client hold one end of a connection for each attempt that the loop comes to
-- and whose lifecycle can be read and finds room in the channel, and `Stopped` once if the loop
-- has ended and not before.
pub run_told :
    (c : ClientConfig) (attempts : List Attempt)
    → (count_if is_end (run c attempts).events ≡ count_reported (taken c 0 attempts))
      × (count_if is_stopped (run c attempts).events ≡ (if (run c attempts).ended then 1 else 0))
unfolding run
run_told c attempts = let t = run_loop-IsTold c attempts 0 in (t.ends, t.stops)
