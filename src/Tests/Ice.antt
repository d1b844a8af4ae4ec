-- ===== src/Tests/Ice.antt =====
-- The choice between the addresses of a TURN server.
use zakuro_rs.Base.{List, [], ◌∷◌, none, some, ◌≡◌, ◌⊎◌, inl, inr, refl}
use zakuro_rs.Base.Text.{Text, codes, has_char, text_eq}
use zakuro_rs.Ice.Ops.{
  Ip, ipv4, ipv6, parse_url, split_once, split_at_any, take_slashes, take_host, take_port,
  is_valid_host, is_valid_port, is_valid_params, parse_u16, is_scheme, is_tls, accepts,
  find_accepted, with_host, select_url,
}
use zakuro_rs.Ice.Literal.{IsIp, IsChoice, select_url-IsChoice}

-- One address of each family.
abbrev net : Ip
net = record {
  V4 = Unit {0};
  V6 = Unit {0};
  show_v4 = λ a. codes "203.0.113.5";
  show_v6 = λ a. codes "2001:db8::1";
  parse_ip = λ host. none;
}

net-IsIp : IsIp net
unfolding is_valid_host has_char
net-IsIp = record {
  v4_host = λ a. refl;
  v4_colon = λ a. refl;
  v4_question = λ a. refl;
  v4_bracket = λ a. refl;
  v6_host = λ a. refl;
  v6_bracket = λ a. refl;
}

abbrev turn : Text
turn = codes "turn:example.com:3478?transport=udp"

abbrev resolved : List (net.V4 ⊎ net.V6)
resolved = inl tt ∷ inr tt ∷ []

chosen : select_url net turn ipv6 resolved ≡ some (codes "turn:[2001:db8::1]:3478?transport=udp")
unfolding select_url find_accepted accepts with_host parse_url split_once split_at_any take_slashes
    take_host take_port is_valid_host is_valid_port is_valid_params parse_u16 is_scheme is_tls
    has_char text_eq
chosen = refl

tls_dropped : select_url net (codes "turns:example.com") ipv4 resolved ≡ none
unfolding select_url find_accepted accepts with_host parse_url split_once split_at_any take_slashes
    take_host take_port is_valid_host is_valid_port is_valid_params parse_u16 is_scheme is_tls
    has_char text_eq
tls_dropped = refl

select_url-IsChoice_example :
    IsChoice net net-IsIp turn ipv6 resolved (select_url net turn ipv6 resolved)
select_url-IsChoice_example = select_url-IsChoice net net-IsIp turn ipv6 resolved
