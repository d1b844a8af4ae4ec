-- ===== src/Base/Json.antt =====
-- JSON values of the crate nojson, as the program reads them.
use Prim.Native.String.{String}
use Prim.Native.Nat.{ℕ}
use mathlib.Core.Bool.{Bool}
use mathlib.Core.Option.{Option, none, some}
use mathlib.Core.List.{List}
use zakuro_rs.Base.Int.{ℤ}

pub record Json : Type 1 where
  -- `RawJsonValue`
  pub Value : Type 0
  -- `RawJsonOwned::parse(text).ok()`, with `value()` taken
  pub parse : String → Option Value
  -- `to_array().ok()`, collected
  pub to_array : Value → Option (List Value)
  -- `to_member(key).ok()`, with `optional()` taken of it
  pub to_member : Value → String → Option (Option Value)
  -- `try_into().ok()` at each type; a `usize` has 64 bits
  pub as_string : Value → Option String
  pub as_bool : Value → Option Bool
  pub as_i64 : Value → Option ℤ
  pub as_i32 : Value → Option ℤ
  pub as_u32 : Value → Option ℕ
  pub as_usize : Value → Option ℕ

-- `to_member(key).ok().and_then(|m| m.optional())`
abbrev pub member : (j : Json) → j.Value → String → Option j.Value
member j v key = elim (j.to_member v key) [ none ↦ none | some m ↦ m ]
