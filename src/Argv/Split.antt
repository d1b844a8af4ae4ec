-- ===== src/Argv/Split.antt =====
-- How `split_cli_argv` of zakuro/src/args.rs deals out the command line.
use zakuro_rs.Base.{
  ℕ, Bool, true, false, List, [], ◌∷◌, ◌++◌, Option, none, some, ◌≡◌, ◌∙◌, refl, sym, ap, arith,
  if◌then◌else◌, Bool-cases, Option-cases, inl, inr,
}
use zakuro_rs.Base.Result.{Result, ok, err}
use zakuro_rs.Base.Text.{Text, has_char, before_char, strip_dashes}
use zakuro_rs.Argv.Ops
use zakuro_rs.Argv.Ops.{
  ArgUnit, alone, valued, tokens, first, is_option, units, is_flag, is_common_key, SplitError,
  value_is_option, split_cli_argv, takes_value,
}

-- The key of an option, without its dashes and its value, is one of the common options.
abbrev pub is_common : Option Text → Bool
is_common none = false
is_common (some key) = is_common_key (before_char b'=' key)

abbrev pub is_common_unit : ArgUnit → Bool
is_common_unit u = is_common (strip_dashes (first u))

abbrev pub tokens_where : Bool → List ArgUnit → List Text
tokens_where common [] = []
tokens_where true (u ∷ us) =
    if is_common_unit u then tokens u ++ tokens_where true us else tokens_where true us
tokens_where false (u ∷ us) =
    if is_common_unit u then tokens_where false us else tokens u ++ tokens_where false us

-- The first option whose value looks like an option.
abbrev pub misuse : List ArgUnit → Option (Text × Text)
misuse [] = none
misuse (alone t ∷ us) = misuse us
misuse (valued t v ∷ us) = if is_option v then some (t, v) else misuse us

abbrev pub dealt : List ArgUnit → Option (Text × Text) → Result SplitError (List Text × List Text)
dealt us none = ok (tokens_where true us, tokens_where false us)
dealt us (some (t, v)) = err (value_is_option t v)

before_char-none : (c : ℕ) (t : Text) → has_char c t ≡ false → before_char c t ≡ t
unfolding has_char before_char
before_char-none c [] h = refl
before_char-none c (a ∷ t) h = ground (arith, before_char-none c t)

has_char-strip_dashes : (t k : Text) → strip_dashes t ≡ some k → has_char b'=' t ≡ has_char b'=' k
unfolding has_char strip_dashes
has_char-strip_dashes [] k h = absurd (cc h)
has_char-strip_dashes (a ∷ []) k h = absurd (cc h)
has_char-strip_dashes (a ∷ b ∷ s) k h = ground arith

push_alone :
    (t : Text) (us : List ArgUnit)
    → Ops.push_result (is_common (strip_dashes t)) (t ∷ []) (dealt us (misuse us))
      ≡ dealt (alone t ∷ us) (misuse (alone t ∷ us))
unfolding Ops.push_result
push_alone t us = elim (Option-cases (misuse us)) [
  | inl e ↦ rw e (ground arith)
  | inr (p, e) ↦ rw e (ground arith)
]

push_valued :
    (t v : Text) (us : List ArgUnit)
    → Ops.push_result (is_common (strip_dashes t)) (t ∷ v ∷ []) (dealt us (misuse us))
      ≡ dealt (valued t v ∷ us) (misuse us)
unfolding Ops.push_result
push_valued t v us = elim (Option-cases (misuse us)) [
  | inl e ↦ rw e (ground arith)
  | inr (p, e) ↦ rw e (ground arith)
]

abbrev KindOf : Text → Option Text → Ops.TokenKind → Type 0
KindOf t o (Ops.assignment key) =
    (is_common o ≡ is_common_key key) × (takes_value is_flag o t ≡ false)
KindOf t o (Ops.flag key) = (is_common o ≡ is_common_key key) × (takes_value is_flag o t ≡ false)
KindOf t o (Ops.option key) = (is_common o ≡ is_common_key key) × (takes_value is_flag o t ≡ true)
KindOf t o Ops.positional = (is_common o ≡ false) × (takes_value is_flag o t ≡ false)

-- The kind of a token has the key of its unit, and takes a value where the unit does.
token_kind_lem : (t : Text) (o : Option Text) → strip_dashes t ≡ o → KindOf t o (Ops.token_kind o t)
unfolding Ops.token_kind takes_value
token_kind_lem t none h = (refl, refl)
token_kind_lem t (some k) h = elim (Bool-cases (has_char b'=' t)) [
  | inl e ↦ rw e (refl, ground (arith, e))
  | inr e ↦ rw e (elim (Bool-cases (is_flag k)) [
    | inl d ↦ rw d (whole e, ground (arith, d, e))
    | inr d ↦ rw d (whole e, ground (arith, d, e))
  ])
]
  where
    whole : has_char b'=' t ≡ false → is_common_key (before_char b'=' k) ≡ is_common_key k
    whole e = ap is_common_key (before_char-none b'=' k (sym (has_char-strip_dashes t k h) ∙ e))

-- The whole command line is dealt out by the keys of its units, each option with its value: the
-- common options on one side, all else on the other, both in their order. The first option whose
-- value looks like an option is an error.
pub split_cli_argv-dealt :
    (argv : List Text)
    → split_cli_argv argv ≡ dealt (units is_flag argv) (misuse (units is_flag argv))
unfolding split_cli_argv units
split_cli_argv-dealt [] = refl
split_cli_argv-dealt (t ∷ []) =
    go (Ops.token_kind (strip_dashes t) t) refl (token_kind_lem t _ refl)
  where
    go :
        (kind : Ops.TokenKind)
        → Ops.token_kind (strip_dashes t) t ≡ kind
        → KindOf t (strip_dashes t) kind
        → split_cli_argv (t ∷ []) ≡ dealt (alone t ∷ []) none
    go (Ops.assignment key) e h = rw (e, split_cli_argv) (ground (arith, h.0))
    go (Ops.flag key) e h = rw (e, split_cli_argv) (ground (arith, h.0))
    go (Ops.option key) e h = rw (e, split_cli_argv) (ground (arith, h.0))
    go Ops.positional e h = rw (e, split_cli_argv) (ground (arith, h.0))
split_cli_argv-dealt (t ∷ v ∷ rest) =
    go (Ops.token_kind (strip_dashes t) t) refl (token_kind_lem t _ refl)
      (split_cli_argv-dealt (v ∷ rest)) (split_cli_argv-dealt rest)
  where
    go :
        (kind : Ops.TokenKind)
        → Ops.token_kind (strip_dashes t) t ≡ kind
        → KindOf t (strip_dashes t) kind
        → split_cli_argv (v ∷ rest)
          ≡ dealt (units is_flag (v ∷ rest)) (misuse (units is_flag (v ∷ rest)))
        → split_cli_argv rest ≡ dealt (units is_flag rest) (misuse (units is_flag rest))
        → split_cli_argv (t ∷ v ∷ rest)
          ≡ dealt (units is_flag (t ∷ v ∷ rest)) (misuse (units is_flag (t ∷ v ∷ rest)))
    go (Ops.assignment key) e h ih ih' =
        rw (e, split_cli_argv, h.1, units, ih, ← h.0) (push_alone t (units is_flag (v ∷ rest)))
    go (Ops.flag key) e h ih ih' =
        rw (e, split_cli_argv, h.1, units, ih, ← h.0) (push_alone t (units is_flag (v ∷ rest)))
    go (Ops.option key) e h ih ih' = elim (Bool-cases (is_option v)) [
      | inl k ↦ rw (e, split_cli_argv, h.1, units, k) refl
      | inr k ↦
          rw (e, split_cli_argv, h.1, units, k, ih', ← h.0) (push_valued t v (units is_flag rest))
    ]
    go Ops.positional e h ih ih' =
        rw (e, split_cli_argv, h.1, units, ih, ← h.0) (push_alone t (units is_flag (v ∷ rest)))
