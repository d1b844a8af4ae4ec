-- ===== src/Argv/LastWins.antt =====
-- Which options `dedupe_argv_last_wins` and `merge_argv` of zakuro-moq/src/args.rs keep.
use mathlib.Core.List.{reverse, flatten, reverse-cons, reverse-append}
use zakuro_rs.Base.{
  Bool, true, false, not, ◌&&◌, ◌||◌, List, [], ◌∷◌, ◌++◌, map, ◌≡◌, ◌∙◌, refl, ap, arith,
  if◌then◌else◌, Bool-cases, inl, inr,
}
use zakuro_rs.Base.Text.{Text, text_eq, strip_dashes}
use zakuro_rs.Argv.Ops
use zakuro_rs.Argv.Ops.{
  ArgUnit, alone, valued, tokens, is_option, key_of, seen_in, keep_unseen, units,
  dedupe_argv_last_wins, merge_argv,
}

-- Whether one of the units gives the option.
abbrev pub given_in : Text → List ArgUnit → Bool
given_in key [] = false
given_in key (w ∷ ws) = (is_option (key_of w) && text_eq (key_of w) key) || given_in key ws

abbrev pub is_given : ArgUnit → List ArgUnit → Bool
is_given u us = is_option (key_of u) && given_in (key_of u) us

-- The options that no later unit gives again, and all that is no option, in their order.
abbrev pub last_only : List ArgUnit → List ArgUnit
last_only [] = []
last_only (u ∷ us) = if is_given u us then last_only us else u ∷ last_only us

-- The units that `others` do not give.
abbrev pub without : List ArgUnit → List ArgUnit → List ArgUnit
without others [] = []
without others (u ∷ us) = if is_given u others then without others us else u ∷ without others us

text_eq_sound : (s t : Text) → text_eq s t ≡ true → s ≡ t
unfolding text_eq
text_eq_sound [] [] h = refl
text_eq_sound [] (b ∷ t) h = absurd (cc h)
text_eq_sound (a ∷ s) [] h = absurd (cc h)
text_eq_sound (a ∷ s) (b ∷ t) h = ground (arith, text_eq_sound s t)

given_in-append :
    (key : Text) (xs ys : List ArgUnit)
    → given_in key (xs ++ ys) ≡ (given_in key xs || given_in key ys)
given_in-append key [] ys = refl
given_in-append key (x ∷ xs) ys = ground (arith, given_in-append key xs ys)

given_in-reverse : (key : Text) (xs : List ArgUnit) → given_in key (reverse xs) ≡ given_in key xs
given_in-reverse key [] = refl
given_in-reverse key (x ∷ xs) =
    rw (reverse-cons x xs)
      (ground (arith, given_in-append key (reverse xs) (x ∷ []), given_in-reverse key xs))

-- The keys that the loop has taken after some units.
abbrev seen_after : List Text → List ArgUnit → List Text
seen_after seen [] = seen
seen_after seen (u ∷ us) =
    seen_after
      (if is_option (key_of u) && not (seen_in (key_of u) seen) then key_of u ∷ seen else seen) us

seen_in-text_eq :
    (k key : Text) (seen : List Text)
    → seen_in k seen ≡ true
    → text_eq k key ≡ true
    → seen_in key seen ≡ true
seen_in-text_eq k key seen h e = rw (← text_eq_sound k key e) h

seen_in-seen_after :
    (key : Text) (seen : List Text) (us : List ArgUnit)
    → seen_in key (seen_after seen us) ≡ (seen_in key seen || given_in key us)
unfolding seen_in
seen_in-seen_after key seen [] = ground arith
seen_in-seen_after key seen (u ∷ us) = ground (
  arith,
  seen_in-seen_after key (key_of u ∷ seen) us,
  seen_in-seen_after key seen us,
  seen_in-text_eq (key_of u) key seen,
)

last_unit : List Text → ArgUnit → List ArgUnit
last_unit seen u = if is_option (key_of u) && seen_in (key_of u) seen then [] else u ∷ []

keep_unseen-snoc :
    (seen : List Text) (us : List ArgUnit) (u : ArgUnit)
    → keep_unseen seen (us ++ u ∷ []) ≡ keep_unseen seen us ++ last_unit (seen_after seen us) u
unfolding keep_unseen last_unit
keep_unseen-snoc seen [] u = ground arith
keep_unseen-snoc seen (x ∷ us) u =
    ground (arith, keep_unseen-snoc seen us u, keep_unseen-snoc (key_of x ∷ seen) us u)

reverse-keep_unseen : (us : List ArgUnit) → reverse (keep_unseen [] (reverse us)) ≡ last_only us
unfolding keep_unseen last_unit seen_in
reverse-keep_unseen [] = refl
reverse-keep_unseen (u ∷ us) =
    ap (λ (xs : List ArgUnit). reverse (keep_unseen [] xs)) (reverse-cons u us)
    ∙ ap reverse (keep_unseen-snoc [] (reverse us) u)
    ∙ reverse-append (keep_unseen [] (reverse us)) (last_unit (seen_after [] (reverse us)) u)
    ∙ ap (λ (xs : List ArgUnit). reverse (last_unit (seen_after [] (reverse us)) u) ++ xs)
        (reverse-keep_unseen us)
    ∙ last
  where
    seen : seen_in (key_of u) (seen_after [] (reverse us)) ≡ given_in (key_of u) us
    seen = seen_in-seen_after (key_of u) [] (reverse us) ∙ given_in-reverse (key_of u) us

    last : reverse (last_unit (seen_after [] (reverse us)) u) ++ last_only us ≡ last_only (u ∷ us)
    last = elim (Bool-cases (is_given u us)) [
      | inl e ↦ rw (seen, e) refl
      | inr e ↦ rw (seen, e) refl
    ]

-- The program keeps each option where it is given last.
dedupe-last_only :
    (is_flag : Text → Bool) (argv : List Text)
    → dedupe_argv_last_wins is_flag argv ≡ flatten (map tokens (last_only (units is_flag argv)))
unfolding dedupe_argv_last_wins
dedupe-last_only is_flag argv = rw (reverse-keep_unseen (units is_flag argv)) refl

last_only-append :
    (xs ys : List ArgUnit) → last_only (xs ++ ys) ≡ without ys (last_only xs) ++ last_only ys
last_only-append [] ys = refl
last_only-append (x ∷ xs) ys =
    ground (arith, given_in-append (key_of x) xs ys, last_only-append xs ys)

-- Whether a command line does not end with an option that waits for its value.
unfoldable pub is_complete : (Text → Bool) → List Text → Bool
is_complete is_flag [] = true
is_complete is_flag (t ∷ []) = not (Ops.takes_value is_flag (strip_dashes t) t)
is_complete is_flag (t ∷ v ∷ rest) = elim (Ops.takes_value is_flag (strip_dashes t) t) [
  | true ↦ is_complete is_flag rest
  | false ↦ is_complete is_flag (v ∷ rest)
]

units-append :
    (is_flag : Text → Bool) (xs ys : List Text)
    → is_complete is_flag xs ≡ true
    → units is_flag (xs ++ ys) ≡ units is_flag xs ++ units is_flag ys
unfolding units is_complete
units-append is_flag [] ys h = refl
units-append is_flag (t ∷ []) [] h = refl
units-append is_flag (t ∷ []) (y ∷ ys) h = ground arith
units-append is_flag (t ∷ v ∷ rest) ys h =
    elim (Bool-cases (Ops.takes_value is_flag (strip_dashes t) t)) [
      | inl e ↦
          rw (e, units)
            (ap (λ (us : List ArgUnit). valued t v ∷ us)
              (units-append is_flag rest ys (rw (e, is_complete) at h)))
      | inr e ↦
          rw (e, units)
            (ap (λ (us : List ArgUnit). alone t ∷ us)
              (units-append is_flag (v ∷ rest) ys (rw (e, is_complete) at h)))
    ]

-- Where the template does not end with an option that waits for its value: the merged command line
-- has the template's units that the command line does not give, each option where the template
-- gives it last, and after them the units of the command line, each option where it is given last.
-- What is no option is all kept.
pub merge_argv-last_only :
    (is_flag : Text → Bool) (template cli : List Text)
    → is_complete is_flag template ≡ true
    → merge_argv is_flag template cli
      ≡ flatten (
          map tokens (
            without (units is_flag cli) (last_only (units is_flag template))
            ++ last_only (units is_flag cli)))
unfolding merge_argv
merge_argv-last_only is_flag template cli h =
    dedupe-last_only is_flag (template ++ cli)
    ∙ ap (λ (us : List ArgUnit). flatten (map tokens (last_only us)))
        (units-append is_flag template cli h)
    ∙ ap (λ (us : List ArgUnit). flatten (map tokens us))
        (last_only-append (units is_flag template) (units is_flag cli))
