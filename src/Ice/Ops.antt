-- ===== src/Ice/Ops.antt =====
-- `IceServerUrl`, `select_url` and its callers of zakuro/src/ice_server.rs. Log lines, and the lists
-- that only they use, are left out.
use zakuro_rs.Base.{
  ℕ, ◌+◌, ◌-◌, ◌*◌, Bool, true, false, not, ◌&&◌, ◌||◌, List, [], ◌∷◌, ◌++◌, Option, none, some,
  if◌then◌else◌, leb, ◌==◌, is_none, ◌>>=◌, ◌⊎◌, inl, inr,
}
use zakuro_rs.Base.Text.{Text, codes, text_eq, has_char, one_of}

-- Addresses with the texts that the standard library writes for them and reads.
pub record Ip : Type 1 where
  pub V4 : Type 0
  pub V6 : Type 0
  pub show_v4 : V4 → Text
  pub show_v6 : V6 → Text
  -- `host.parse::<IpAddr>()`
  pub parse_ip : Text → Option (V4 ⊎ V6)

pub data IceAddressFamily : Type 0 where
  ipv4 ipv6 : IceAddressFamily

unfoldable pub parse_family : Text → Option IceAddressFamily
parse_family value =
    if text_eq value (codes "ipv4")
    then some ipv4
    else if text_eq value (codes "ipv6")
    then some ipv6
    else none

pub record IceServerUrl : Type 0 where
  pub scheme : Text
  pub prefix : Text
  pub host : Text
  pub port : Option Text
  pub params : Text

-- `split_once` at a character.
unfoldable pub split_once : ℕ → Text → Option (Text × Text)
split_once c [] = none
split_once c (a ∷ s) =
    let rest = split_once c s in if a == c then some ([], s) else rest >>= λ p. some (a ∷ p.0, p.1)

-- The text before the first of two characters, and the text from there on.
unfoldable pub split_at_any : ℕ → ℕ → Text → Text × Text
split_at_any c d [] = ([], [])
split_at_any c d (a ∷ s) =
    let rest = split_at_any c d s in if a == c || a == d then ([], a ∷ s) else (a ∷ rest.0, rest.1)

-- `parse::<u16>()`: digits, with at most one plus sign before them.
unfoldable pub digits_value : ℕ → Text → Option ℕ
digits_value n [] = some n
digits_value n (a ∷ s) =
    if leb b'0' a && leb a b'9' && leb (n * 10 + (a - b'0')) 65535
    then digits_value (n * 10 + (a - b'0')) s
    else none

unfoldable pub parse_u16 : Text → Option ℕ
unfolding digits_value
parse_u16 [] = none
parse_u16 (a ∷ []) = if a == b'+' then none else digits_value 0 (a ∷ [])
parse_u16 (a ∷ b ∷ s) = if a == b'+' then digits_value 0 (b ∷ s) else digits_value 0 (a ∷ b ∷ s)

-- `strip_prefix("//")`, with the prefix that was there.
unfoldable pub take_slashes : Text → Text × Text
take_slashes (a ∷ b ∷ s) = if a == b'/' && b == b'/' then (a ∷ b ∷ [], s) else ([], a ∷ b ∷ s)
take_slashes s = ([], s)

-- The host, in brackets or up to the port or the parameters, and the text after it.
unfoldable pub take_host : Text → Option (Text × Text)
take_host [] = some ([], [])
take_host (a ∷ s) = if a == b'[' then split_once b']' s else some (split_at_any b':' b'?' (a ∷ s))

unfoldable pub take_port : Text → Option Text × Text
take_port [] = (none, [])
take_port (a ∷ s) =
    if a == b':'
    then (let split = split_at_any b'?' b'?' s in (some (split.0), split.1))
    else (none, a ∷ s)

unfoldable pub is_valid_port : Option Text → Bool
is_valid_port none = true
is_valid_port (some port) = not (is_none (parse_u16 port))

unfoldable pub is_valid_host : Text → Bool
is_valid_host [] = false
is_valid_host (a ∷ s) = not (has_char b'/' (a ∷ s))

unfoldable pub is_valid_params : Text → Bool
is_valid_params [] = true
is_valid_params (a ∷ s) = a == b'?'

unfoldable pub is_scheme : Text → Bool
unfolding one_of
is_scheme scheme = one_of ("turn" ∷ "turns" ∷ "stun" ∷ "stuns" ∷ []) scheme

unfoldable pub is_tls : Text → Bool
unfolding one_of
is_tls scheme = one_of ("turns" ∷ "stuns" ∷ []) scheme

abbrev pub check_url : Text → Text → Text → Option Text × Text → Option IceServerUrl
check_url scheme prefix host (port, params) =
    if not (is_valid_host host)
    then none
    else if not (is_valid_port port)
    then none
    else if not (is_valid_params params)
    then none
    else some
        (record { scheme = scheme; prefix = prefix; host = host; port = port; params = params })

abbrev pub parse_rest : Text → Text × Text → Option IceServerUrl
parse_rest scheme (prefix, rest) =
    take_host rest >>= λ h. check_url scheme prefix (h.0) (take_port (h.1))

abbrev pub parse_scheme : Text × Text → Option IceServerUrl
parse_scheme (scheme, rest) =
    if is_scheme scheme then parse_rest scheme (take_slashes rest) else none

unfoldable pub parse_url : Text → Option IceServerUrl
parse_url url = split_once b':' url >>= parse_scheme

abbrev scheme_port : Text → ℕ
scheme_port scheme = if is_tls scheme then 5349 else 3478

abbrev port_number : Option ℕ → Text → ℕ
port_number none scheme = scheme_port scheme
port_number (some n) scheme = n

unfoldable pub port_or_default : IceServerUrl → ℕ
port_or_default u = port_number (u.port >>= parse_u16) u.scheme

abbrev pub port_text : Option Text → Text
port_text none = []
port_text (some port) = b':' ∷ port

module _ (ip : Ip) where
  open ip use {V4, V6, show_v4, show_v6, parse_ip}

  unfoldable pub accepts : IceAddressFamily → V4 ⊎ V6 → Bool
  accepts ipv4 (inl a) = true
  accepts ipv6 (inr a) = true
  accepts _ _ = false

  abbrev pub host_text : V4 ⊎ V6 → Text
  host_text (inl a) = show_v4 a
  host_text (inr a) = b'[' ∷ (show_v6 a ++ b']' ∷ [])

  unfoldable pub with_host : IceServerUrl → V4 ⊎ V6 → Text
  with_host u a = u.scheme ++ b':' ∷ (u.prefix ++ (host_text a ++ (port_text u.port ++ u.params)))

  -- `resolved.iter().copied().find(…)`
  unfoldable pub find_accepted : IceAddressFamily → List (V4 ⊎ V6) → Option (V4 ⊎ V6)
  find_accepted family [] = none
  find_accepted family (a ∷ as') = if accepts family a then some a else find_accepted family as'

  unfoldable pub select_url : Text → IceAddressFamily → List (V4 ⊎ V6) → Option Text
  unfolding find_accepted
  select_url url family resolved = parse_url url >>= λ u.
      if is_tls u.scheme then none else find_accepted family resolved >>= λ a. some (with_host u a)

  -- The cache of the process, and what the resolver of the system answers.
  abbrev Cache : Type 0
  Cache = List ((Text × ℕ) × List (V4 ⊎ V6))

  cached : Text → ℕ → Cache → Option (List (V4 ⊎ V6))
  cached host port [] = none
  cached host port ((key, addrs) ∷ cache) =
      if text_eq (key.0) host && key.1 == port then some addrs else cached host port cache

  store : Text → ℕ → List (V4 ⊎ V6) → Cache → Cache
  store host port [] cache = cache
  store host port (a ∷ as') cache = ((host, port), a ∷ as') ∷ cache

  unfoldable pub resolve_host :
      (Text → ℕ → List (V4 ⊎ V6)) → Text → ℕ → Cache → List (V4 ⊎ V6) × Cache
  unfolding cached store
  resolve_host dns host port cache = elim (parse_ip host) [
    | some a ↦ (a ∷ [], cache)
    | none ↦ elim (cached host port cache) [
      | some addrs ↦ (addrs, cache)
      | none ↦ (dns host port, store host port (dns host port) cache)
    ]
  ]

  unfoldable pub select_url_with_resolve :
      (Text → ℕ → List (V4 ⊎ V6)) → Text → IceAddressFamily → Cache → Option Text × Cache
  select_url_with_resolve dns url family cache = elim (parse_url url) [
    | none ↦ (none, cache)
    | some u ↦
        let (resolved, cache') = resolve_host dns u.host (port_or_default u) cache in
        (select_url url family resolved, cache')
  ]

  abbrev push_url : Option Text → List Text → List Text
  push_url none urls = urls
  push_url (some url) urls = url ∷ urls

  -- The URLs that are added to the server's entry, in order.
  unfoldable pub configure_ice_server_urls :
      (Text → ℕ → List (V4 ⊎ V6)) → List Text → IceAddressFamily → Cache → List Text
  configure_ice_server_urls dns [] family cache = []
  configure_ice_server_urls dns (url ∷ urls) family cache =
      let (selected, cache') = select_url_with_resolve dns url family cache in
      push_url selected (configure_ice_server_urls dns urls family cache')
