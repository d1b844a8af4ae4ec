-- ===== src/Argv/Ops.antt =====
-- `is_flag`, `is_common_key`, `split_cli_argv` and `dedupe_argv_last_wins` of zakuro/src/args.rs,
-- the same tables of zakuro-moq/src/args.rs, and its `merge_argv`.
use mathlib.Core.List.{reverse, flatten}
use zakuro_rs.Base.{
  Bool, true, false, not, ◌||◌, List, [], ◌∷◌, ◌++◌, map, Option, none, some, if◌then◌else◌,
  is_some,
}
use zakuro_rs.Base.Result.{Result, ok, err}
use zakuro_rs.Base.Text.{Text, text_eq, has_char, before_char, strip_dashes, one_of}

unfoldable pub is_common_key : Text → Bool
unfolding one_of
is_common_key key =
    one_of
      ("instance-hatch-rate" ∷ "http-host" ∷ "http-port" ∷ "openh264" ∷ "insecure" ∷ "client-cert"
        ∷ "client-key" ∷ "duckdb-output-dir" ∷ "duckdb-interval" ∷ "no-duckdb-output"
        ∷ "summary-json" ∷ "threshold-success-rate" ∷ "threshold-connect-time-p95-ms"
        ∷ "threshold-stalled" ∷ "threshold-warmup" ∷ "log-level" ∷ "log-suppress" ∷ "fdk-aac-lib"
        ∷ "show-video-codec-capability" ∷ [])
      key

unfoldable pub is_flag : Text → Bool
unfolding one_of
is_flag key =
    one_of
      ("insecure" ∷ "no-duckdb-output" ∷ "show-video-codec-capability" ∷ "no-video-device"
        ∷ "no-audio-device" ∷ "sandstorm" ∷ [])
      key

-- The flags of zakuro-moq.
unfoldable pub is_moq_flag : Text → Bool
unfolding one_of
is_moq_flag key = one_of ("insecure" ∷ "verify-payload" ∷ []) key

-- A unit of the command line: a token of its own, or an option with its value.
pub data ArgUnit : Type 0 where
  alone : Text → ArgUnit
  valued : Text → Text → ArgUnit

abbrev pub first : ArgUnit → Text
first (alone t) = t
first (valued t v) = t

abbrev pub tokens : ArgUnit → List Text
tokens (alone t) = t ∷ []
tokens (valued t v) = t ∷ v ∷ []

-- `starts_with("--")`
abbrev pub is_option : Text → Bool
is_option t = is_some (strip_dashes t)

-- The part before `=` where there is one.
abbrev pub key_of : ArgUnit → Text
key_of u = before_char b'=' (first u)

unfoldable pub seen_in : Text → List Text → Bool
seen_in key [] = false
seen_in key (k ∷ ks) = text_eq k key || seen_in key ks

-- The loop over the units from the last to the first. `seen` holds the keys that were taken.
unfoldable pub keep_unseen : List Text → List ArgUnit → List ArgUnit
keep_unseen seen [] = []
keep_unseen seen (u ∷ us) =
    let new = u ∷ keep_unseen (key_of u ∷ seen) us in
    let old = keep_unseen seen us in
    let positional = u ∷ keep_unseen seen us in
    if is_option (key_of u) then (if seen_in (key_of u) seen then old else new) else positional

module _ (is_flag : Text → Bool) where
  -- Whether the token takes the next one as its value.
  unfoldable pub takes_value : Option Text → Text → Bool
  takes_value none token = false
  takes_value (some key) token = if has_char b'=' token then false else not (is_flag key)

  unfoldable pub units : List Text → List ArgUnit
  unfolding takes_value
  units [] = []
  units (t ∷ []) = alone t ∷ []
  units (t ∷ v ∷ rest) = elim (takes_value (strip_dashes t) t) [
    | true ↦ valued t v ∷ units rest
    | false ↦ alone t ∷ units (v ∷ rest)
  ]

  unfoldable pub dedupe_argv_last_wins : List Text → List Text
  dedupe_argv_last_wins argv =
      flatten (map tokens (reverse (keep_unseen [] (reverse (units argv)))))

  unfoldable pub merge_argv : List Text → List Text → List Text
  merge_argv template cli = dedupe_argv_last_wins (template ++ cli)

-- The loop of `split_cli_argv`: the common tokens and the others, or the option whose value looks
-- like an option.
pub data SplitError : Type 0 where
  value_is_option : Text → Text → SplitError

abbrev pub push_to : Bool → List Text → List Text × List Text → List Text × List Text
push_to true ts (common, instance_args) = (ts ++ common, instance_args)
push_to false ts (common, instance_args) = (common, ts ++ instance_args)

unfoldable pub push_result :
    Bool
    → List Text
    → Result SplitError (List Text × List Text)
    → Result SplitError (List Text × List Text)
push_result common ts (ok r) = ok (push_to common ts r)
push_result common ts (err e) = err e

-- The key of a token with `=`, of one without, or none.
pub data TokenKind : Type 0 where
  assignment : Text → TokenKind
  flag : Text → TokenKind
  option : Text → TokenKind
  positional : TokenKind

unfoldable pub token_kind : Option Text → Text → TokenKind
token_kind none token = positional
token_kind (some key) token =
    if has_char b'=' token
    then assignment (before_char b'=' key)
    else if is_flag key
    then flag key
    else option key

unfoldable pub split_cli_argv : List Text → Result SplitError (List Text × List Text)
unfolding push_result token_kind is_common_key is_flag
split_cli_argv [] = ok ([], [])
split_cli_argv (t ∷ []) = elim (token_kind (strip_dashes t) t) [
  | assignment key ↦ ok (push_to (is_common_key key) (t ∷ []) ([], []))
  | flag key ↦ ok (push_to (is_common_key key) (t ∷ []) ([], []))
  | option key ↦ ok (push_to (is_common_key key) (t ∷ []) ([], []))
  | positional ↦ ok (push_to false (t ∷ []) ([], []))
]
split_cli_argv (t ∷ v ∷ rest) = elim (token_kind (strip_dashes t) t) [
  | assignment key ↦ push_result (is_common_key key) (t ∷ []) (split_cli_argv (v ∷ rest))
  | flag key ↦ push_result (is_common_key key) (t ∷ []) (split_cli_argv (v ∷ rest))
  | option key ↦
      if is_option v
      then err (value_is_option t v)
      else push_result (is_common_key key) (t ∷ v ∷ []) (split_cli_argv rest)
  | positional ↦ push_result false (t ∷ []) (split_cli_argv (v ∷ rest))
]
