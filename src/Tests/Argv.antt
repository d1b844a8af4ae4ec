-- ===== src/Tests/Argv.antt =====
-- Command lines of zakuro and zakuro-moq.
use mathlib.Core.List.{flatten}
use zakuro_rs.Base.{◌≡◌, refl, List, [], ◌∷◌, ◌++◌, map}
use zakuro_rs.Base.Result.{err}
use zakuro_rs.Base.Text.{Text, codes, has_char, before_char, strip_dashes, text_eq}
use zakuro_rs.Argv.Ops.{
  units, tokens, is_flag, is_moq_flag, merge_argv, dedupe_argv_last_wins, keep_unseen, seen_in,
  takes_value, split_cli_argv, value_is_option,
}
use zakuro_rs.Argv.LastWins.{last_only, without, is_complete, merge_argv-last_only}
use zakuro_rs.Argv.Split.{dealt, misuse, split_cli_argv-dealt}

-- --url a --insecure --vcs 2
abbrev template : List Text
template = codes "--url" ∷ codes "a" ∷ codes "--insecure" ∷ codes "--vcs" ∷ codes "2" ∷ []

-- --vcs=3 x --vcs 4
abbrev cli : List Text
cli = codes "--vcs=3" ∷ codes "x" ∷ codes "--vcs" ∷ codes "4" ∷ []

merged :
    merge_argv is_moq_flag template cli
    ≡ codes "--url" ∷ codes "a" ∷ codes "--insecure" ∷ codes "x" ∷ codes "--vcs" ∷ codes "4" ∷ []
unfolding merge_argv dedupe_argv_last_wins units takes_value is_moq_flag keep_unseen seen_in text_eq
    has_char before_char strip_dashes flatten
merged = refl

merge_argv-last_only_example :
    merge_argv is_moq_flag template cli
    ≡ flatten (
        map tokens (
          without (units is_moq_flag cli) (last_only (units is_moq_flag template))
          ++ last_only (units is_moq_flag cli)))
unfolding is_complete takes_value is_moq_flag has_char strip_dashes
merge_argv-last_only_example = merge_argv-last_only is_moq_flag template cli refl

-- --http-port --vcs 2 is refused.
abbrev wrong : List Text
wrong = codes "--http-port" ∷ codes "--vcs" ∷ codes "2" ∷ []

split_wrong : split_cli_argv wrong ≡ err (value_is_option (codes "--http-port") (codes "--vcs"))
unfolding split_cli_argv has_char strip_dashes
split_wrong = refl

split_cli_argv-dealt_example :
    split_cli_argv wrong ≡ dealt (units is_flag wrong) (misuse (units is_flag wrong))
split_cli_argv-dealt_example = split_cli_argv-dealt wrong
