-- ===== src/Channel/Config.antt =====
-- `parse_data_channels` of zakuro/src/data_channel.rs. An error is named for the member that it is
-- about; its text is left out.
use Prim.Native.String.{String}
use text.Mathlib.Text.{◌==◌ as str_eq}
use zakuro_rs.Base.{
  ℕ, max, Bool, not, ◌||◌, ◌&&◌, List, [], ◌∷◌, ◌++◌, Option, none, some, if◌then◌else◌, leb,
}
use zakuro_rs.Base.Int.{ℤ}
use zakuro_rs.Base.Json.{Json}
use zakuro_rs.Base.Result.{Result, ok, err, and_then}
use zakuro_rs.Channel.Message.{message_size_min, message_size_max}

pub record MessageChannel : Type 0 where
  pub label : String
  pub interval_ms : ℕ
  pub size_min : ℕ
  pub size_max : ℕ

-- `header` is always `None` here and is left out.
pub record ConnectDataChannel : Type 0 where
  pub label : String
  pub direction : String
  pub ordered : Option Bool
  pub max_packet_life_time : Option ℤ
  pub max_retransmits : Option ℤ
  pub protocol : Option String
  pub compress : Option Bool

pub data ChannelError : Type 0 where
  no_json no_array : ChannelError
  bad_member : String → ChannelError
  size_min_range size_max_range : ℕ → ChannelError

pub record Channels : Type 0 where
  pub connect : List ConnectDataChannel
  pub message : List MessageChannel

-- The directions that messages are sent on.
unfoldable pub is_sending : String → Bool
is_sending direction = str_eq direction "sendonly" || str_eq direction "sendrecv"

-- `(MESSAGE_SIZE_MIN..=MESSAGE_SIZE_MAX).contains(&size)`
abbrev pub in_range : ℕ → Bool
in_range size = leb message_size_min size && leb size message_size_max

abbrev unwrap_or : Option ℕ → ℕ → ℕ
unwrap_or none d = d
unwrap_or (some n) d = n

-- The checks on the sizes of a channel that messages are sent on.
unfoldable pub message_channel : String → ℕ → ℕ → ℕ → Result ChannelError MessageChannel
message_channel label interval_ms size_min size_max =
    if not (in_range size_min)
    then err (size_min_range size_min)
    else if not (in_range size_max)
    then err (size_max_range size_max)
    else ok (record {
      label = label;
      interval_ms = interval_ms;
      size_min = max size_min message_size_min;
      size_max = max size_max size_min;
    })

abbrev pub push : Channels → ConnectDataChannel → List MessageChannel → Channels
push out c ms = record { connect = out.connect ++ c ∷ []; message = out.message ++ ms }

module _ (j : Json) where
  open j use {Value, parse, to_array, to_member, as_string, as_bool, as_i32, as_u32, as_usize}

  -- `to_member(key)`, then `required()` and `try_into()`.
  unfoldable pub required :
      {A : Type 0} → (Value → Option A) → Value → String → Result ChannelError A
  required conv v key = elim (to_member v key) [
    | none ↦ err (bad_member key)
    | some none ↦ err (bad_member key)
    | some (some m) ↦ elim (conv m) [ none ↦ err (bad_member key) | some a ↦ ok a ]
  ]

  -- `to_member(key)`, then `optional()` and, where there is a value, `try_into()`.
  unfoldable pub optional :
      {A : Type 0} → (Value → Option A) → Value → String → Result ChannelError (Option A)
  optional conv v key = elim (to_member v key) [
    | none ↦ err (bad_member key)
    | some none ↦ ok none
    | some (some m) ↦ elim (conv m) [ none ↦ err (bad_member key) | some a ↦ ok (some a) ]
  ]

  -- The members that Sora is told.
  unfoldable pub connect_channel : Value → Result ChannelError ConnectDataChannel
  connect_channel v = and_then (required as_string v "label") λ label.
      and_then (required as_string v "direction") λ direction.
        and_then (optional as_bool v "ordered") λ ordered.
          and_then (optional as_i32 v "max_packet_life_time") λ max_packet_life_time.
            and_then (optional as_i32 v "max_retransmits") λ max_retransmits.
              and_then (optional as_string v "protocol") λ protocol.
                and_then (optional as_bool v "compress") λ compress. ok (record {
                  label = label;
                  direction = direction;
                  ordered = ordered;
                  max_packet_life_time = max_packet_life_time;
                  max_retransmits = max_retransmits;
                  protocol = protocol;
                  compress = compress;
                })

  -- The members of a channel that messages are sent on.
  unfoldable pub sending_channel : Value → String → Result ChannelError MessageChannel
  sending_channel v label = and_then (optional as_u32 v "interval") λ interval.
      and_then (optional as_usize v "size-min") λ size_min.
        and_then (optional as_usize v "size-max") λ size_max.
          message_channel label (unwrap_or interval 500) (unwrap_or size_min message_size_min)
            (unwrap_or size_max message_size_min)

  -- One turn of the loop.
  unfoldable pub parse_element : Channels → Value → Result ChannelError Channels
  parse_element out v = and_then (connect_channel v) λ c.
      if is_sending c.direction
      then and_then (sending_channel v c.label) (λ m. ok (push out c (m ∷ [])))
      else ok (push out c [])

  unfoldable pub parse_elements : Channels → List Value → Result ChannelError Channels
  parse_elements out [] = ok out
  parse_elements out (v ∷ vs) = and_then (parse_element out v) λ out'. parse_elements out' vs

  unfoldable pub parse_data_channels : String → Result ChannelError Channels
  parse_data_channels json_str = elim (parse json_str) [
    | none ↦ err no_json
    | some json ↦ elim (to_array json) [
      | none ↦ err no_array
      | some elements ↦ parse_elements (record { connect = []; message = [] }) elements
    ]
  ]
