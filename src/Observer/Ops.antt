-- ===== src/Observer/Ops.antt =====
-- `MediaObserver` and its `observe`, over the JSON reader as a parameter.
use Prim.Native.String.{String}
use text.Mathlib.Text.{◌==◌ as str_eq}
use zakuro_rs.Base.{
  ℕ, Bool, true, false, ◌||◌, List, [], ◌∷◌, Option, none, some, if◌then◌else◌, ltb,
}
use zakuro_rs.Base.Int.{pos_part}
use zakuro_rs.Base.Json.{Json, member}
use zakuro_rs.Base.Map.{lookup, insert, string_eq}
use zakuro_rs.Lifecycle.Types.{ConnectionLifecycle, MediaKind, video, audio}
use zakuro_rs.Lifecycle.Ops.{
  on_media_sent, on_media_received, on_sample_observed, on_sample_activity, on_delivery_report,
}

pub record StreamCounters : Type 0 where
  pub packets : ℕ
  pub bytes : ℕ
  pub frames : ℕ

unfoldable pub has_traffic : StreamCounters → Bool
has_traffic c = ltb 0 c.packets || ltb 0 c.bytes || ltb 0 c.frames

unfoldable pub increased_from : StreamCounters → StreamCounters → Bool
increased_from c previous =
    ltb previous.packets c.packets || ltb previous.bytes c.bytes || ltb previous.frames c.frames

abbrev pub Streams : Type 0
Streams = List (String × StreamCounters)

pub record MediaObserver : Type 0 where
  pub outbound : Streams
  pub inbound : Streams

abbrev pub new_observer : MediaObserver
new_observer = record { outbound = []; inbound = [] }

-- What `observe_stream` returns; the table it leaves is `insert id counters`.
unfoldable pub has_flowed : Option StreamCounters → StreamCounters → Bool
unfolding has_traffic increased_from
has_flowed (some previous) counters = increased_from counters previous
has_flowed none counters = has_traffic counters

unfoldable pub observe_stream : Streams → String → StreamCounters → Streams × Bool
observe_stream streams id counters =
    (insert id counters streams, has_flowed (lookup id streams) counters)

-- An element of a sample, as the arms of the `match` read it; `other` is skipped.
pub data Entry : Type 0 where
  outbound_rtp : String → MediaKind → StreamCounters → Entry
  inbound_rtp : String → MediaKind → StreamCounters → Entry
  remote_inbound_rtp : Entry
  other : Entry

-- The local variables of `observe`, with the two values that it updates.
pub record Scan : Type 0 where
  pub observer : MediaObserver
  pub lifecycle : ConnectionLifecycle
  pub has_media_entry : Bool
  pub has_activity : Bool
  pub has_delivery_report : Bool

-- One turn of the loop, behind the reading of the element.
unfoldable pub observe_entry : ℕ → Scan → Entry → Scan
observe_entry t s (outbound_rtp id kind counters) =
    let (table, flowed) = observe_stream s.observer.outbound id counters in
    let o : MediaObserver = record { outbound = table; inbound = s.observer.inbound } in
    if flowed
    then record s {
      observer = o;
      lifecycle = on_media_sent s.lifecycle kind t;
      has_media_entry = true;
      has_activity = true;
    }
    else record s { observer = o; has_media_entry = true }
observe_entry t s (inbound_rtp id kind counters) =
    let (table, flowed) = observe_stream s.observer.inbound id counters in
    let o : MediaObserver = record { outbound = s.observer.outbound; inbound = table } in
    if flowed
    then record s {
      observer = o;
      lifecycle = on_media_received s.lifecycle kind t;
      has_media_entry = true;
      has_activity = true;
    }
    else record s { observer = o; has_media_entry = true }
observe_entry t s remote_inbound_rtp = record s { has_delivery_report = true }
observe_entry t s other = s

unfoldable pub observe_entries : ℕ → Scan → List Entry → Scan
observe_entries t s [] = s
observe_entries t s (e ∷ es) = observe_entries t (observe_entry t s e) es

-- The updates behind the loop.
unfoldable pub finish : ℕ → Scan → ConnectionLifecycle
finish t s =
    let counted =
      if s.has_media_entry
      then on_sample_activity (on_sample_observed s.lifecycle) t s.has_activity
      else s.lifecycle in
    if s.has_delivery_report then on_delivery_report counted t else counted

abbrev pub start : MediaObserver → ConnectionLifecycle → Scan
start o l = record {
  observer = o;
  lifecycle = l;
  has_media_entry = false;
  has_activity = false;
  has_delivery_report = false;
}

unfoldable pub observe_sample :
    MediaObserver → ConnectionLifecycle → List Entry → ℕ → MediaObserver × ConnectionLifecycle
observe_sample o l es t = let s = observe_entries t (start o l) es in (s.observer, finish t s)

module _ (j : Json) where
  open j use {Value, parse, to_array, as_string, as_i64}

  unfoldable pub get_string : Value → String → Option String
  get_string v key = elim (member j v key) [ none ↦ none | some val ↦ as_string val ]

  unfoldable pub get_u64 : Value → String → ℕ
  get_u64 v key = elim (member j v key) [
    | none ↦ 0
    | some val ↦ elim (as_i64 val) [ none ↦ 0 | some i ↦ pos_part i ]
  ]

  unfoldable pub media_kind : Value → Option MediaKind
  media_kind v = elim (get_string v "kind") [
    | none ↦ none
    | some k ↦
        if str_eq k "video" then some video else if str_eq k "audio" then some audio else none
  ]

  -- An `outbound-rtp` or `inbound-rtp` element; with no id or no known kind it is skipped.
  abbrev read_rtp : Value → (String → MediaKind → StreamCounters → Entry) → StreamCounters → Entry
  read_rtp v make counters = elim (get_string v "id") [
    | none ↦ other
    | some id ↦ elim (media_kind v) [ none ↦ other | some kind ↦ make id kind counters ]
  ]

  unfoldable pub read_entry : Value → Entry
  read_entry v = elim (get_string v "type") [
    | none ↦ other
    | some ty ↦
        if str_eq ty "outbound-rtp"
        then read_rtp v outbound_rtp (record {
          packets = get_u64 v "packetsSent";
          bytes = get_u64 v "bytesSent";
          frames = get_u64 v "framesEncoded";
        })
        else if str_eq ty "inbound-rtp"
        then read_rtp v inbound_rtp (record {
          packets = get_u64 v "packetsReceived";
          bytes = get_u64 v "bytesReceived";
          frames = 0;
        })
        else if str_eq ty "remote-inbound-rtp"
        then remote_inbound_rtp
        else other
  ]

  abbrev read_entries : List Value → List Entry
  read_entries [] = []
  read_entries (v ∷ vs) = read_entry v ∷ read_entries vs

  -- A text that is no JSON array changes nothing.
  unfoldable pub observe :
      MediaObserver → ConnectionLifecycle → String → ℕ → MediaObserver × ConnectionLifecycle
  observe o l stats_json t = elim (parse stats_json) [
    | none ↦ (o, l)
    | some json ↦ elim (to_array json) [
      | none ↦ (o, l)
      | some elements ↦ observe_sample o l (read_entries elements) t
    ]
  ]
