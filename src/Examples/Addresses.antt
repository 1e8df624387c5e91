-- ===== src/Examples/Addresses.antt =====
-- Hosts that spell an address as one number.
use minecraft_operator.Address.{
  is_blocked_name, looks_like_non_standard_ip, Net, integer_value, is_blocked_host, is_restricted,
  parse_integer_ip, in_range,
}
use minecraft_operator.Address.Integers.{
  number_of, parse_integer_ip_bounds, is_blocked_host-decimal,
}
use minecraft_operator.Text.{
  is_digit_byte, digits_from, has_suffix, split_at, trim_prefix, trim_suffix,
}
use minecraft_operator.Prelude.{
  ℕ, ◌<◌, Bool, false, List, [], ◌∷◌, none, some, eqb, drop, ◌≡◌, refl, arith,
}
use minecraft_operator.Prelude.Bytes.{bytes, ◌==◌, decimal, has_prefix}
use minecraft_operator.Prelude.Int.{pos}

abbrev Octets : Type 0
Octets = List ℕ

abbrev begins_with_127 : Octets → Bool
begins_with_127 [] = false
begins_with_127 (a ∷ octets) = eqb a 127

-- Hosts without ports, none of them an address in four parts.
abbrev net : Net Octets
net = record {
  parse_url = λ url. some (record { scheme = bytes "https"; host = drop 8 url });
  split_host_port = λ host. none;
  parse_ip = λ host. none;
  ipv4 = λ a b c d. a ∷ b ∷ c ∷ d ∷ [];
  is_loopback = begins_with_127;
  is_private = λ ip. false;
  is_link_local_unicast = λ ip. false;
  is_link_local_multicast = λ ip. false;
  is_unspecified = λ ip. false;
}

read_hex : parse_integer_ip net (bytes "0x7f000001") ≡ some (127 ∷ 0 ∷ 0 ∷ 1 ∷ [])
unfolding parse_integer_ip in_range integer_value is_digit_byte has_prefix ◌==◌
read_hex = refl

parse_integer_ip_bounds_example :
    (a : ℕ) × (b : ℕ) × (c : ℕ) × (d : ℕ) × (a < 256)
    × (b < 256)
    × (c < 256)
    × (d < 256)
    × ((127 ∷ 0 ∷ 0 ∷ 1 ∷ []) ≡ net.ipv4 a b c d)
    × (integer_value (bytes "0x7f000001") ≡ some (pos (number_of a b c d)))
parse_integer_ip_bounds_example =
    parse_integer_ip_bounds net (bytes "0x7f000001") (127 ∷ 0 ∷ 0 ∷ 1 ∷ []) read_hex

is_blocked_host-decimal_example :
    is_blocked_host net (decimal (number_of 127 0 0 1)) ≡ is_restricted net (127 ∷ 0 ∷ 0 ∷ 1 ∷ [])
is_blocked_host-decimal_example =
    is_blocked_host-decimal net 127 0 0 1 (omega arith) (omega arith) (omega arith) (omega arith)
      refl refl

-- The loopback address in two parts, and its octal spelling, are not blocked.
short_spelling_passes : is_blocked_host net (bytes "127.1") ≡ false
unfolding is_blocked_host in_range integer_value digits_from is_digit_byte trim_prefix trim_suffix
    has_suffix has_prefix split_at ◌==◌ looks_like_non_standard_ip is_blocked_name
short_spelling_passes = refl

octal_spelling_passes : is_blocked_host net (bytes "017700000001") ≡ false
unfolding is_blocked_host in_range integer_value digits_from is_digit_byte trim_prefix trim_suffix
    has_suffix has_prefix split_at ◌==◌ looks_like_non_standard_ip is_blocked_name
octal_spelling_passes = refl
