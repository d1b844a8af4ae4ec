-- ===== src/Ice/Literal.antt =====
-- What the URLs are that zakuro/src/ice_server.rs selects.
use mathlib.Core.List.{append_assoc}
use zakuro_rs.Base.{
  ℕ, Bool, true, false, ◌||◌, List, [], ◌∷◌, ◌++◌, Option, none, some, ◌≡◌, ◌⊎◌, inl, inr, refl, ap,
  arith, ◌==◌, ==_iff, Bool-cases, Option-cases,
}
use zakuro_rs.Base.Sort.{All}
use zakuro_rs.Base.Text.{Text, has_char}
use zakuro_rs.Ice.Ops
use zakuro_rs.Ice.Ops.{
  Ip, IceAddressFamily, IceServerUrl, split_once, split_at_any, take_slashes, take_host, take_port,
  is_valid_port, is_valid_host, is_valid_params, is_scheme, is_tls, check_url, parse_rest,
  parse_scheme, parse_url, port_text, accepts, host_text, with_host, select_url,
}

-- What the standard library documents of the texts of addresses: digits and dots, or digits,
-- letters, colons and dots.
pub record IsIp (ip : Ip) : Type 0 where
  pub v4_host : (a : ip.V4) → is_valid_host (ip.show_v4 a) ≡ true
  pub v4_colon : (a : ip.V4) → has_char b':' (ip.show_v4 a) ≡ false
  pub v4_question : (a : ip.V4) → has_char b'?' (ip.show_v4 a) ≡ false
  pub v4_bracket : (a : ip.V4) → has_char b'[' (ip.show_v4 a) ≡ false
  pub v6_host : (a : ip.V6) → is_valid_host (ip.show_v6 a) ≡ true
  pub v6_bracket : (a : ip.V6) → has_char b']' (ip.show_v6 a) ≡ false

split_once-append :
    (c : ℕ) (s t : Text) → has_char c s ≡ false → split_once c (s ++ c ∷ t) ≡ some (s, t)
unfolding split_once has_char
split_once-append c [] t h = ground (arith, ==_iff c c)
split_once-append c (a ∷ s) t h = ground (arith, split_once-append c s t)

split_once_lacks :
    (c : ℕ) (s : Text) (p : Text × Text) → split_once c s ≡ some p → has_char c (p.0) ≡ false
unfolding split_once has_char
split_once_lacks c [] p h = absurd (cc h)
split_once_lacks c (a ∷ s) p h = elim (Option-cases (split_once c s)) [
  | inl e ↦ ground (arith, e)
  | inr (q, e) ↦ ground (arith, e, split_once_lacks c s q e)
]

-- A text that is empty or begins with one of two characters.
abbrev stops : ℕ → ℕ → Text → Bool
stops c d [] = true
stops c d (a ∷ s) = a == c || a == d

split_at_any-append :
    (c d : ℕ) (s t : Text)
    → has_char c s ≡ false
    → has_char d s ≡ false
    → stops c d t ≡ true
    → split_at_any c d (s ++ t) ≡ (s, t)
unfolding split_at_any has_char
split_at_any-append c d [] [] h k e = refl
split_at_any-append c d [] (a ∷ t) h k e = ground arith
split_at_any-append c d (a ∷ s) t h k e = ground (arith, split_at_any-append c d s t)

split_at_any_lacks : (c d : ℕ) (s : Text) → has_char d ((split_at_any c d s).0) ≡ false
unfolding split_at_any has_char
split_at_any_lacks c d [] = refl
split_at_any_lacks c d (a ∷ s) = ground (arith, split_at_any_lacks c d s)

abbrev PortLacks : ℕ → Option Text → Type 0
PortLacks c none = Unit {0}
PortLacks c (some port) = has_char c port ≡ false

-- What parsing says of the parts of a URL.
record IsUrl (u : IceServerUrl) : Type 0 where
  scheme_known : is_scheme u.scheme ≡ true
  scheme_end : has_char b':' u.scheme ≡ false
  slashes : (u.prefix ≡ []) ⊎ (u.prefix ≡ b'/' ∷ b'/' ∷ [])
  port_valid : is_valid_port u.port ≡ true
  port_end : PortLacks b'?' u.port
  params_valid : is_valid_params u.params ≡ true

take_slashes_cases :
    (s : Text) → ((take_slashes s).0 ≡ []) ⊎ ((take_slashes s).0 ≡ b'/' ∷ b'/' ∷ [])
unfolding take_slashes
take_slashes_cases [] = inl refl
take_slashes_cases (a ∷ []) = inl refl
take_slashes_cases (a ∷ b ∷ s) = ground arith

take_port_lacks : (s : Text) → PortLacks b'?' ((take_port s).0)
unfolding take_port
take_port_lacks [] = tt
take_port_lacks (a ∷ s) = elim (Bool-cases (a == b':')) [
  | inl e ↦ rw e (split_at_any_lacks b'?' b'?' s)
  | inr e ↦ rw e tt
]

check_url_parts :
    (scheme prefix host : Text) (p : Option Text × Text) (u : IceServerUrl)
    → check_url scheme prefix host p ≡ some u
    → (is_valid_port (p.0) ≡ true)
      × (is_valid_params (p.1) ≡ true)
      × (u ≡ record { scheme = scheme; prefix = prefix; host = host; port = p.0; params = p.1 })
check_url_parts scheme prefix host (port, params) u h = ground arith

parse_url-IsUrl : (url : Text) (u : IceServerUrl) → parse_url url ≡ some u → IsUrl u
unfolding parse_url
parse_url-IsUrl url u h = elim (Option-cases (split_once b':' url)) [
  | inl e ↦ absurd (cc (rw e at h))
  | inr (p, e) ↦ known p e (rw e at h)
]
  where
    built :
        (p : Text × Text) (q : Text × Text)
        → split_once b':' url ≡ some p
        → is_scheme (p.0) ≡ true
        → check_url (p.0) ((take_slashes (p.1)).0) (q.0) (take_port (q.1)) ≡ some u
        → IsUrl u
    built p q e k c =
        let parts = check_url_parts (p.0) ((take_slashes (p.1)).0) (q.0) (take_port (q.1)) u c in
        rw (parts.2) record {
          scheme_known = k;
          scheme_end = split_once_lacks b':' url p e;
          slashes = take_slashes_cases (p.1);
          port_valid = parts.0;
          port_end = take_port_lacks (q.1);
          params_valid = parts.1;
        }

    hosted :
        (p : Text × Text)
        → split_once b':' url ≡ some p
        → is_scheme (p.0) ≡ true
        → parse_rest (p.0) (take_slashes (p.1)) ≡ some u
        → IsUrl u
    hosted p e k c = elim (Option-cases (take_host ((take_slashes (p.1)).1))) [
      | inl n ↦ absurd (cc (rw n at c))
      | inr (q, n) ↦ built p q e k (rw n at c)
    ]

    known : (p : Text × Text) → split_once b':' url ≡ some p → parse_scheme p ≡ some u → IsUrl u
    known p e c = elim (Bool-cases (is_scheme (p.0))) [
      | inl k ↦ hosted p e k (rw k at c)
      | inr k ↦ absurd (cc (rw k at c))
    ]

-- The address in the text of a host, without the brackets.
abbrev pub shown : (ip : Ip) → ip.V4 ⊎ ip.V6 → Text
shown ip (inl a) = ip.show_v4 a
shown ip (inr a) = ip.show_v6 a

take_port_lem :
    (port : Option Text) (params : Text)
    → PortLacks b'?' port
    → is_valid_params params ≡ true
    → take_port (port_text port ++ params) ≡ (port, params)
unfolding take_port is_valid_params
take_port_lem none [] h k = refl
take_port_lem none (a ∷ s) h k = ground arith
take_port_lem (some port) params h k =
    rw (split_at_any-append b'?' b'?' port params h h (stopping params k)) refl
  where
    stopping : (t : Text) → is_valid_params t ≡ true → stops b'?' b'?' t ≡ true
    stopping [] e = refl
    stopping (a ∷ s) e = ground arith

port_stops :
    (port : Option Text) (params : Text)
    → is_valid_params params ≡ true
    → stops b':' b'?' (port_text port ++ params) ≡ true
unfolding is_valid_params
port_stops none [] h = refl
port_stops none (a ∷ s) h = ground arith
port_stops (some port) params h = refl

take_host_plain :
    (s rest : Text)
    → is_valid_host s ≡ true
    → has_char b'[' s ≡ false
    → has_char b':' s ≡ false
    → has_char b'?' s ≡ false
    → stops b':' b'?' rest ≡ true
    → take_host (s ++ rest) ≡ some (s, rest)
unfolding take_host is_valid_host
take_host_plain [] rest v b c q e = absurd (cc v)
take_host_plain (a ∷ s) rest v b c q e =
    rw (not_bracket a s b) (ap some (split_at_any-append b':' b'?' (a ∷ s) rest c q e))
  where
    not_bracket : (a : ℕ) (s : Text) → has_char b'[' (a ∷ s) ≡ false → (a == b'[') ≡ false
    not_bracket a s h = unfold has_char in ground arith

-- No host begins with a slash.
take_slashes_none :
    (s rest : Text) → is_valid_host s ≡ true → take_slashes (s ++ rest) ≡ ([], s ++ rest)
unfolding take_slashes is_valid_host has_char
take_slashes_none [] rest v = absurd (cc v)
take_slashes_none (a ∷ []) [] v = refl
take_slashes_none (a ∷ []) (b ∷ rest) v = ground arith
take_slashes_none (a ∷ b ∷ s) rest v = ground arith

take_slashes_lem :
    (prefix t : Text)
    → (prefix ≡ []) ⊎ (prefix ≡ b'/' ∷ b'/' ∷ [])
    → take_slashes t ≡ ([], t)
    → take_slashes (prefix ++ t) ≡ (prefix, t)
unfolding take_slashes
take_slashes_lem prefix t (inl e) h = rw e h
take_slashes_lem prefix t (inr e) h = rw e refl

bracket_first : (t : Text) → take_slashes (b'[' ∷ t) ≡ ([], b'[' ∷ t)
unfolding take_slashes
bracket_first [] = refl
bracket_first (b ∷ t) = refl

module _ (ip : Ip) (is_ip : IsIp ip) where
  take_host_lem :
      (a : ip.V4 ⊎ ip.V6) (rest : Text)
      → stops b':' b'?' rest ≡ true
      → take_host (host_text ip a ++ rest) ≡ some (shown ip a, rest)
  unfolding take_host
  take_host_lem (inl a) rest e =
      take_host_plain (ip.show_v4 a) rest (is_ip.v4_host a) (is_ip.v4_bracket a) (is_ip.v4_colon a)
        (is_ip.v4_question a) e
  take_host_lem (inr a) rest e =
      rw append_assoc (split_once-append b']' (ip.show_v6 a) rest (is_ip.v6_bracket a))

  no_slash :
      (a : ip.V4 ⊎ ip.V6) (rest : Text)
      → take_slashes (host_text ip a ++ rest) ≡ ([], host_text ip a ++ rest)
  unfolding take_slashes
  no_slash (inl a) rest = take_slashes_none (ip.show_v4 a) rest (is_ip.v4_host a)
  no_slash (inr a) rest = bracket_first (ip.show_v6 a ++ b']' ∷ [] ++ rest)

  shown-valid : (a : ip.V4 ⊎ ip.V6) → is_valid_host (shown ip a) ≡ true
  shown-valid (inl a) = is_ip.v4_host a
  shown-valid (inr a) = is_ip.v6_host a

  IsUrl-with_host :
      (u : IceServerUrl) (a : ip.V4 ⊎ ip.V6)
      → IsUrl u
      → parse_url (with_host ip u a) ≡ some (record u { host = shown ip a })
  unfolding parse_url with_host
  IsUrl-with_host u a h =
      rw
        (
          split_once-append b':' u.scheme (u.prefix ++ rest) h.scheme_end,
          h.scheme_known,
          take_slashes_lem u.prefix rest h.slashes (no_slash a (port_text u.port ++ u.params)),
          take_host_lem a (port_text u.port ++ u.params)
              (port_stops u.port u.params h.params_valid),
          take_port_lem u.port u.params h.port_end h.params_valid,
          shown-valid a,
          h.port_valid,
          h.params_valid,
        )
        refl
    where
      rest : Text
      rest = host_text ip a ++ (port_text u.port ++ u.params)

  -- The first address of the family.
  abbrev pub IsFirstOf : IceAddressFamily → List (ip.V4 ⊎ ip.V6) → ip.V4 ⊎ ip.V6 → Type 0
  IsFirstOf family [] a = ⊥
  IsFirstOf family (b ∷ bs) a =
      ((accepts ip family b ≡ true) × (b ≡ a))
      ⊎ ((accepts ip family b ≡ false) × IsFirstOf family bs a)

  -- What the choice for a URL says: with a URL, the one that was notified was understood, it is not
  -- one of TLS, and the choice is understood as the same URL, its host an address of the family,
  -- the first that was resolved; without one, the URL was not understood, or it is one of TLS, or
  -- no address of the family was resolved.
  abbrev pub IsChoice : Text → IceAddressFamily → List (ip.V4 ⊎ ip.V6) → Option Text → Type 0
  IsChoice url family resolved none =
      (parse_url url ≡ none)
      ⊎ ((u : IceServerUrl) × (parse_url url ≡ some u)
          × ((is_tls u.scheme ≡ true)
              ⊎ All (λ (a : ip.V4 ⊎ ip.V6). accepts ip family a ≡ false) resolved))
  IsChoice url family resolved (some choice) =
      (u : IceServerUrl) × (a : ip.V4 ⊎ ip.V6) × (parse_url url ≡ some u)
      × (is_tls u.scheme ≡ false)
      × IsFirstOf family resolved a
      × (parse_url choice ≡ some (record u { host = shown ip a }))

  find_cases :
      (family : IceAddressFamily) (resolved : List (ip.V4 ⊎ ip.V6))
      → ((Ops.find_accepted ip family resolved ≡ none)
          × All (λ (a : ip.V4 ⊎ ip.V6). accepts ip family a ≡ false) resolved)
        ⊎ ((a : ip.V4 ⊎ ip.V6) × (Ops.find_accepted ip family resolved ≡ some a)
            × IsFirstOf family resolved a)
  unfolding Ops.find_accepted
  find_cases family [] = inl (refl, tt)
  find_cases family (b ∷ bs) = elim (Bool-cases (accepts ip family b)) [
    | inl e ↦ inr (b, rw e refl, inl (e, refl))
    | inr e ↦ elim (find_cases family bs) [
      | inl (n, r) ↦ inl (rw e n, (e, r))
      | inr (a, n, r) ↦ inr (a, rw e n, inr (e, r))
    ]
  ]

  -- For any URL, family and addresses: a URL that is chosen is understood as the one that was
  -- notified, which is not one of TLS, with its host replaced by the first resolved address of the
  -- family; none is chosen only where the URL is not understood, or is one of TLS, or no address of
  -- the family was resolved. The texts of addresses are as the standard library documents.
  pub select_url-IsChoice :
      (url : Text) (family : IceAddressFamily) (resolved : List (ip.V4 ⊎ ip.V6))
      → IsChoice url family resolved (select_url ip url family resolved)
  unfolding select_url
  select_url-IsChoice url family resolved = elim (Option-cases (parse_url url)) [
    | inl e ↦ rw e (inl e)
    | inr (u, e) ↦ elim (Bool-cases (is_tls u.scheme)) [
      | inl t ↦ rw (e, t) (inr (u, e, inl t))
      | inr t ↦ elim (find_cases family resolved) [
        | inl (n, r) ↦ rw (e, t, n) (inr (u, e, inr r))
        | inr (a, n, r) ↦
            rw (e, t, n) (u, a, e, t, r, IsUrl-with_host u a (parse_url-IsUrl url u e))
      ]
    ]
  ]
