-- ===== src/Moq/Ops.antt =====
-- `Publisher` of zakuro-moq/src/moq_client/session.rs. Log lines and the reused buffer are left
-- out.
use zakuro_rs.Base.{
  ℕ, ◌+◌, ◌-◌, Bool, true, false, ◌&&◌, ◌||◌, List, [], ◌∷◌, Option, none, some, if◌then◌else◌, ltb,
  leb, ◌==◌, length, add64, is_none,
}
use zakuro_rs.Channel.Bytes.{take}
use zakuro_rs.Stats.Float.{Float}
use zakuro_rs.Moq.Types.{TrackConfig, Publisher}

abbrev pub max_consecutive_write_failures : ℕ
max_consecutive_write_failures = 5

abbrev pub max_catch_up_objects : ℕ
max_catch_up_objects = 10

abbrev pub loc_timescale : ℕ
loc_timescale = 1_000_000

-- `object_id - prev - 1` stays at or above zero where an object follows the previous one.
unfoldable pub object_id_delta : Option ℕ → ℕ → ℕ
object_id_delta (some prev) object_id = object_id - prev - 1
object_id_delta none object_id = object_id

unfoldable pub is_end_of_group : ℕ → ℕ → Bool
is_end_of_group object_id objects_per_group = add64 object_id 1 == objects_per_group

unfoldable pub should_migrate : Bool → Bool → Bool → Bool
should_migrate has_goaway migrate_on_goaway true = false
should_migrate has_goaway migrate_on_goaway false = has_goaway && migrate_on_goaway

-- `&payload[..n]`, `none` for a panic.
abbrev pub payload_slice : List ℕ → ℕ → Option (List ℕ)
payload_slice payload n = if leb n (length payload) then some (take n payload) else none

module _ {F : Type 0} where
  unfoldable pub is_due : Publisher F → ℕ → Bool
  is_due p now = p.accepted && p.forward && leb p.next_send now

  unfoldable pub deadline : Publisher F → Option ℕ
  deadline p = if p.accepted && p.forward then some p.next_send else none

  -- `now` is what the clock shows in the call.
  unfoldable pub on_accepted : ℕ → ℕ → Publisher F → Publisher F
  on_accepted request_id now p = record p {
    request_id = some request_id;
    accepted = true;
    next_send = now;
  }

  unfoldable pub on_forward_changed : Bool → ℕ → Publisher F → Publisher F
  on_forward_changed forward now p = record p {
    forward = forward;
    next_send = if forward && ltb p.next_send now then now else p.next_send;
  }

  -- The move to the next group, with no stream.
  abbrev pub next_group : Publisher F → Publisher F
  next_group p = record p { group_id = add64 p.group_id 1; object_id = 0; prev_object_id = none }

  unfoldable pub publishers_ready_for_subscribe : List (Publisher F) → Bool
  publishers_ready_for_subscribe [] = true
  publishers_ready_for_subscribe (p ∷ ps) =
      (is_none p.request_id || p.accepted) && publishers_ready_for_subscribe ps

module _ (f : Float) where
  open f use {F, mul, div, fmax, round, of_nat, hundredths, to_usize, as_secs_f64, from_secs_f64}

  unfoldable pub new_publisher : TrackConfig F → ℕ → ℕ → ℕ → Publisher F
  new_publisher config track_alias now datagram_max_size = record {
    config = config;
    request_id = none;
    track_alias = track_alias;
    accepted = false;
    forward = true;
    next_send = now;
    period = from_secs_f64 (div (hundredths 100) config.object_rate);
    stream = none;
    stream_id = none;
    group_id = 0;
    object_id = 0;
    prev_object_id = none;
    objects_per_group = to_usize (fmax (round config.object_rate) (hundredths 100));
    sent_objects = 0;
    consecutive_write_failures = 0;
    datagram_max_size = datagram_max_size;
  }

  abbrev pub catch_up : Publisher F → ℕ
  catch_up p = from_secs_f64 (mul (as_secs_f64 p.period) (of_nat max_catch_up_objects))

  unfoldable pub advance_next_send : ℕ → Publisher F → Publisher F
  advance_next_send now p =
      let next = p.next_send + p.period in
      record p { next_send = if ltb (next + catch_up p) now then now + p.period else next }

  abbrev pub loc_timestamp : ℕ → F → ℕ
  loc_timestamp sent_objects object_rate =
      to_usize (mul (div (of_nat sent_objects) object_rate) (of_nat loc_timescale))
