-- ===== src/Channel/Sizes.antt =====
-- The sizes of the channels that `parse_data_channels` accepts, and of their payloads.
use Prim.Native.String.{String}
use zakuro_rs.Base.{
  ℕ, ◌+◌, ◌-◌, ◌%◌, ◌≤◌, List, [], ◌∷◌, ◌++◌, some, ◌≡◌, refl, arith, map, if◌then◌else◌, ap, ◌∙◌,
  inl, inr, Bool-cases, Option-cases, ltb,
}
use zakuro_rs.Base.Sort.{All}
use zakuro_rs.Base.Json.{Json}
use zakuro_rs.Base.Result.{ok, and_then_ok, ok_inj}
use zakuro_rs.Channel.Message.{payload_size_from}
use zakuro_rs.Channel.Config.{
  MessageChannel, ConnectDataChannel, Channels, is_sending, message_channel, push, sending_channel,
  parse_element, parse_elements, parse_data_channels,
}

-- The sizes are in the documented range and in order.
pub record IsFit (m : MessageChannel) : Type 0 where
  pub low : 48 ≤ m.size_min
  pub ordered : m.size_min ≤ m.size_max
  pub high : m.size_max ≤ 256000

message_channel-IsFit :
    (l : String) (i a b : ℕ) (m : MessageChannel)
    → message_channel l i a b ≡ ok m
    → IsFit m × (m.label ≡ l)
unfolding message_channel
message_channel-IsFit l i a b m h =
    (record { low = ground arith; ordered = ground arith; high = ground arith }, ground arith)

abbrev pub sending_labels : List ConnectDataChannel → List String
sending_labels [] = []
sending_labels (c ∷ cs) =
    if is_sending c.direction then c.label ∷ sending_labels cs else sending_labels cs

pub record IsChannels (out : Channels) : Type 0 where
  pub fit : All IsFit out.message
  pub labels : map (λ m. m.label) out.message ≡ sending_labels out.connect

All-append :
    (P : MessageChannel → Type 0) (xs ys : List MessageChannel)
    → All P xs
    → All P ys
    → All P (xs ++ ys)
All-append P [] ys a b = b
All-append P (x ∷ xs) ys (p, a) b = (p, All-append P xs ys a b)

labels-append :
    (xs ys : List MessageChannel)
    → map (λ m. m.label) (xs ++ ys) ≡ map (λ m. m.label) xs ++ map (λ m. m.label) ys
labels-append [] ys = refl
labels-append (x ∷ xs) ys = ap (◌∷◌ x.label) (labels-append xs ys)

sending_labels-append :
    (xs ys : List ConnectDataChannel)
    → sending_labels (xs ++ ys) ≡ sending_labels xs ++ sending_labels ys
sending_labels-append [] ys = refl
sending_labels-append (x ∷ xs) ys = elim (Bool-cases (is_sending x.direction)) [
  | inl e ↦ simp e (ap (◌∷◌ x.label) (sending_labels-append xs ys))
  | inr e ↦ simp e (sending_labels-append xs ys)
]

push-IsChannels :
    (out : Channels) (c : ConnectDataChannel) (ms : List MessageChannel)
    → IsChannels out
    → All IsFit ms
    → map (λ m. m.label) ms ≡ sending_labels (c ∷ [])
    → IsChannels (push out c ms)
push-IsChannels out c ms h f l = record {
  fit = All-append IsFit out.message ms h.fit f;
  labels =
      labels-append out.message ms
      ∙ rw (h.labels, l, sending_labels-append out.connect (c ∷ [])) refl;
}

module _ (j : Json) where
  open j use {Value}

  sending_channel-IsFit :
      (v : Value) (l : String) (m : MessageChannel)
      → sending_channel j v l ≡ ok m
      → IsFit m × (m.label ≡ l)
  unfolding sending_channel
  sending_channel-IsFit v l m h =
      let (i, _, h₁) = and_then_ok _ _ m h in
      let (a, _, h₂) = and_then_ok _ _ m h₁ in
      let (b, _, h₃) = and_then_ok _ _ m h₂ in message_channel-IsFit l _ _ _ m h₃

  parse_element-IsChannels :
      (out : Channels) (v : Value) (out' : Channels)
      → parse_element j out v ≡ ok out'
      → IsChannels out
      → IsChannels out'
  unfolding parse_element
  parse_element-IsChannels out v out' h k =
      let (c, _, h₁) = and_then_ok _ _ out' h in
      elim (Bool-cases (is_sending c.direction)) [
        | inl e ↦
            let (m, s, p) = and_then_ok _ _ out' (rw e at h₁) in
            let (fit, label) = sending_channel-IsFit v c.label m s in
            rw (ok_inj _ _ p) at (push-IsChannels out c (m ∷ []) k (fit, tt) (rw (e, label) refl))
        | inr e ↦ rw (ok_inj _ _ (rw e at h₁)) at (push-IsChannels out c [] k tt (rw e refl))
      ]

  parse_elements-IsChannels :
      (out : Channels) (vs : List Value) (out' : Channels)
      → parse_elements j out vs ≡ ok out'
      → IsChannels out
      → IsChannels out'
  unfolding parse_elements
  parse_elements-IsChannels out [] out' h k = rw (ok_inj _ _ h) at k
  parse_elements-IsChannels out (v ∷ vs) out' h k =
      let (mid, e, h₁) = and_then_ok _ _ out' h in
      parse_elements-IsChannels mid vs out' h₁ (parse_element-IsChannels out v mid e k)

  -- The channels that are accepted: messages go to exactly those with the direction `sendonly` or
  -- `sendrecv`, in their order, and the sizes of each are in the range and in order.
  pub parse_data_channels-IsChannels :
      (text : String) (out : Channels) → parse_data_channels j text ≡ ok out → IsChannels out
  unfolding parse_data_channels
  parse_data_channels-IsChannels text out h = elim (Option-cases (j.parse text)) [
    | inl e ↦ absurd (cc (rw (parse_data_channels, e) at h))
    | inr (json, e) ↦ elim (Option-cases (j.to_array json)) [
      | inl e₂ ↦ absurd (cc (rw (parse_data_channels, e, e₂) at h))
      | inr (vs, e₂) ↦
          parse_elements-IsChannels (record { connect = []; message = [] }) vs out
            (rw (parse_data_channels, e, e₂) at h) (record { fit = tt; labels = refl })
    ]
  ]

-- A payload size exists for sizes in order from 48 on, and keeps the message between them.
pub payload_size_from_between :
    (min_size max_size random : ℕ)
    → 48 ≤ min_size
    → min_size ≤ max_size
    → (n : ℕ) × (payload_size_from min_size max_size random ≡ some n)
      × (min_size ≤ 48 + n)
      × (48 + n ≤ max_size)
unfolding payload_size_from
payload_size_from_between a b r l h =
    let range : ℕ = b - 48 - (a - 48) in
    (
      a - 48 + (if ltb 0 range then r % (range + 1) else 0),
      ground arith,
      ground arith,
      ground arith,
    )
