-- ===== src/Moq/Receive.antt =====
-- What a receiver of the draft makes of the wire, and the order in which objects reach it: a
-- description of its own, for zakuro-moq/src/moq_client/session.rs.
use zakuro_rs.Base.{
  ℕ, ◌+◌, ◌≤◌, ◌<◌, List, [], ◌∷◌, ◌++◌, Option, none, some, ◌≡◌, ◌⊎◌, inr, refl, arith,
  if◌then◌else◌, ◌==◌,
}
use mathlib.Core.List.{append-nil, append_assoc}
use zakuro_rs.Base.Sort.{All}
use zakuro_rs.Moq.Ops.{is_end_of_group}
use zakuro_rs.Moq.Types.{Wire, opening, object, single}

-- The subgroup stream that a receiver reads.
pub record Reader : Type 0 where
  pub stream : ℕ
  pub group : ℕ
  pub prev : Option ℕ

-- The first object of a stream has its own number, each other is counted from the one before.
abbrev pub absolute : Option ℕ → ℕ → ℕ
absolute none delta = delta
absolute (some prev) delta = prev + delta + 1

abbrev pub reads : Reader → Wire → Reader
reads r (opening id h) = record { stream = id; group = h.group_id; prev = none }
reads r (object id delta properties payload) =
    if id == r.stream then record r { prev = some (absolute r.prev delta) } else r
reads r _ = r

-- The group and the number of the object that a receiver sees, if it is one.
abbrev pub seen : Reader → Wire → List (ℕ × ℕ)
seen r (object id delta properties payload) =
    if id == r.stream then (r.group, absolute r.prev delta) ∷ [] else []
seen r (single d payload) = (d.group_id, d.object_id) ∷ []
seen r _ = []

unfoldable pub reader_after : Reader → List Wire → Reader
reader_after r [] = r
reader_after r (w ∷ ws) = reader_after (reads r w) ws

unfoldable pub received : Reader → List Wire → List (ℕ × ℕ)
received r [] = []
received r (w ∷ ws) = seen r w ++ received (reads r w) ws

pub reader_after-snoc :
    (r : Reader) (ws : List Wire) (w : Wire)
    → reader_after r (ws ++ w ∷ []) ≡ reads (reader_after r ws) w
unfolding reader_after
reader_after-snoc r [] w = refl
reader_after-snoc r (v ∷ ws) w = reader_after-snoc (reads r v) ws w

pub received-snoc :
    (r : Reader) (ws : List Wire) (w : Wire)
    → received r (ws ++ w ∷ []) ≡ received r ws ++ seen (reader_after r ws) w
unfolding reader_after received
received-snoc r [] w = append-nil (seen r w)
received-snoc r (v ∷ ws) w = rw (received-snoc (reads r v) ws w, append_assoc)

-- A place comes no later than another: by the group, then by the object.
abbrev pub NotAfter : ℕ → ℕ → ℕ → ℕ → Type 0
NotAfter g o a b = (g < a) ⊎ ((g ≡ a) × (o ≤ b))

-- The places go up from the first place to before the last, and no object's number reaches `size`.
abbrev pub Climbs : ℕ → ℕ → ℕ → List (ℕ × ℕ) → ℕ → ℕ → Type 0
Climbs size g o [] a b = NotAfter g o a b
Climbs size g o ((c, d) ∷ rest) a b = NotAfter g o c d × (d < size) × Climbs size c (d + 1) rest a b

pub Climbs-later :
    (size g o : ℕ) (xs : List (ℕ × ℕ)) (a b c d : ℕ)
    → Climbs size g o xs a b
    → NotAfter a b c d
    → Climbs size g o xs c d
Climbs-later size g o [] a b c d h k = ground arith
Climbs-later size g o ((u, v) ∷ xs) a b c d h k =
    (h.0, h.1, Climbs-later size u (v + 1) xs a b c d h.2 k)

pub Climbs-snoc :
    (size g o : ℕ) (xs : List (ℕ × ℕ)) (a b : ℕ)
    → Climbs size g o xs a b
    → b < size
    → Climbs size g o (xs ++ (a, b) ∷ []) a (b + 1)
Climbs-snoc size g o [] a b h k = (h, k, inr (refl, omega arith))
Climbs-snoc size g o ((u, v) ∷ xs) a b h k = (h.0, h.1, Climbs-snoc size u (v + 1) xs a b h.2 k)

-- A datagram says that its group ends exactly if its object is the last of the group.
abbrev pub EndsRight : ℕ → Wire → Type 0
EndsRight size (single d payload) = d.end_of_group ≡ is_end_of_group d.object_id size
EndsRight size w = Unit {0}

pub All-snoc {ℓ} :
    {A : Type 0} (P : A → Type ℓ) (xs : List A) (x : A) → All P xs → P x → All P (xs ++ x ∷ [])
All-snoc P [] x h k = (k, tt)
All-snoc P (y ∷ ys) x h k = (h.0, All-snoc P ys x h.1 k)
