-- ===== src/Address.antt =====
-- pkg/plugins/url.go: which download addresses are accepted. The packages net and net/url are a parameter.
pub mod Integers
use minecraft_operator.Prelude.{
  ℕ, ◌+◌, ◌-◌, ◌*◌, ◌/◌, ◌%◌, Bool, true, false, not, ◌&&◌, ◌||◌, List, [], ◌∷◌, Option, none, some,
  if◌then◌else◌, is_empty, eqb, leb, ltb, length, drop, all, Result, ok, err,
}
use minecraft_operator.Prelude.Bytes.{Bytes, bytes, ◌==◌, has_prefix}
use minecraft_operator.Prelude.Int.{ℤ, pos, negsuc, ltb_ℤ, pos_part}
use minecraft_operator.Text.{
  is_digit_byte, digits_from, split_at, to_lower, has_suffix, trim_prefix, trim_suffix,
}

-- A URL's scheme and host, as `url.Parse` reads them.
pub record Url : Type 0 where
  pub scheme : Bytes
  pub host : Bytes

-- `url.Parse`, the host of `net.SplitHostPort` and `net.ParseIP`, each `none` on failure, `net.IPv4`, and
-- the five tests of an address.
pub record Net (Ip : Type 0) : Type 0 where
  pub parse_url : Bytes → Option Url
  pub split_host_port : Bytes → Option Bytes
  pub parse_ip : Bytes → Option Ip
  pub ipv4 : ℕ → ℕ → ℕ → ℕ → Ip
  pub is_loopback : Ip → Bool
  pub is_private : Ip → Bool
  pub is_link_local_unicast : Ip → Bool
  pub is_link_local_multicast : Ip → Bool
  pub is_unspecified : Ip → Bool

pub data UrlError : Type 0 where
  url_required parse_failed not_https no_host host_blocked : UrlError

abbrev has_hex_prefix : Bytes → Bool
has_hex_prefix s = has_prefix s (bytes "0x") || has_prefix s (bytes "0X")

-- An octet with a leading zero.
abbrev is_octal : Bytes → Bool
is_octal part = ltb 1 (length part) && has_prefix part (bytes "0") && all is_digit_byte part

-- The loop of `looksLikeNonStandardIP`.
unfoldable pub has_odd_part : List Bytes → Bool
has_odd_part [] = false
has_odd_part (part ∷ parts) =
    let rest = has_odd_part parts in
    if is_empty part
    then false
    else if has_hex_prefix part
    then true
    else if is_octal part
    then true
    else rest

unfoldable pub looks_like_non_standard_ip : Bytes → Bool
unfolding has_odd_part
looks_like_non_standard_ip hostname =
    if eqb (length (split_at b'.' hostname)) 4 then has_odd_part (split_at b'.' hostname) else false

abbrev hex_digit : ℕ → Option ℕ
hex_digit c =
    if is_digit_byte c
    then some (c - b'0')
    else if leb b'a' c && leb c b'f'
    then some (c - b'a' + 10)
    else if leb b'A' c && leb c b'F'
    then some (c - b'A' + 10)
    else none

unfoldable pub hex_from : ℕ → Bytes → Option ℕ
hex_from acc [] = some acc
hex_from acc (c ∷ s) = elim (hex_digit c) [ none ↦ none | some d ↦ hex_from (acc * 16 + d) s ]

abbrev negated : ℕ → ℤ
negated n = if eqb n 0 then pos 0 else negsuc (n - 1)

abbrev positive : Option ℕ → Option ℤ
positive none = none
positive (some n) = some (pos n)

abbrev negative : Option ℕ → Option ℤ
negative none = none
negative (some n) = some (negated n)

unfoldable pub hex_digits : Bytes → Option ℕ
unfolding hex_from
hex_digits s = if is_empty s then none else hex_from 0 s

-- `SetString(s, 16)` of math/big: hexadecimal digits behind a sign or none.
unfoldable pub set_string_16 : Bytes → Option ℤ
unfolding hex_digits
set_string_16 s =
    if has_prefix s (bytes "-")
    then negative (hex_digits (drop 1 s))
    else if has_prefix s (bytes "+")
    then positive (hex_digits (drop 1 s))
    else positive (hex_digits s)

unfoldable pub integer_value : Bytes → Option ℤ
unfolding set_string_16
integer_value hostname =
    if has_hex_prefix hostname
    then (if is_empty (drop 2 hostname) then none else set_string_16 (drop 2 hostname))
    else if all is_digit_byte hostname
    then some (pos (digits_from 0 hostname))
    else none

-- Of a number that fits 32 bits.
unfoldable pub in_range : Option ℤ → Option ℕ
in_range none = none
in_range (some n) = if ltb_ℤ n (pos 0) || ltb_ℤ (pos 4294967295) n then none else some (pos_part n)

module _ {Ip : Type 0} (net : Net Ip) where
  unfoldable pub address_of : ℕ → Ip
  address_of v = net.ipv4 (v / 16777216 % 256) (v / 65536 % 256) (v / 256 % 256) (v % 256)

  unfoldable pub address_of_value : Option ℕ → Option Ip
  unfolding address_of
  address_of_value none = none
  address_of_value (some v) = some (address_of v)

  unfoldable pub parse_integer_ip : Bytes → Option Ip
  unfolding address_of_value
  parse_integer_ip hostname =
      if is_empty hostname then none else address_of_value (in_range (integer_value hostname))

  unfoldable pub is_restricted : Ip → Bool
  is_restricted ip =
      net.is_loopback ip
      || net.is_private ip
      || net.is_link_local_unicast ip
      || net.is_link_local_multicast ip
      || net.is_unspecified ip

  -- The names that are blocked.
  unfoldable pub is_blocked_name : Bytes → Bool
  is_blocked_name lower =
      lower == bytes "localhost"
      || has_suffix lower (bytes ".svc")
      || has_suffix lower (bytes ".cluster.local")
      || lower == bytes "metadata.google.internal"
      || lower == bytes "instance-data.ec2.internal"
      || has_suffix lower (bytes ".local")
      || has_suffix lower (bytes ".internal")

  unfoldable pub is_blocked_hostname : Bytes → Option Ip → Option Ip → Bool
  is_blocked_hostname hostname (some ip) integer = is_restricted ip
  is_blocked_hostname hostname none (some ip) = is_restricted ip
  is_blocked_hostname hostname none none =
      looks_like_non_standard_ip hostname || is_blocked_name (to_lower hostname)

  abbrev or_else : Bytes → Option Bytes → Bytes
  or_else host none = host
  or_else host (some h) = h

  -- The host without its port and its brackets.
  unfoldable pub hostname_of : Bytes → Bytes
  hostname_of host =
      trim_suffix (trim_prefix (or_else host (net.split_host_port host)) (bytes "[")) (bytes "]")

  unfoldable pub is_blocked_host : Bytes → Bool
  unfolding is_blocked_hostname parse_integer_ip hostname_of
  is_blocked_host host =
      let hostname = hostname_of host in
      is_blocked_hostname hostname (net.parse_ip hostname) (parse_integer_ip hostname)

  unfoldable pub validate_parsed : Option Url → Result UrlError (Unit {0})
  unfolding is_blocked_host
  validate_parsed none = err parse_failed
  validate_parsed (some url) =
      if not (url.scheme == bytes "https")
      then err not_https
      else if is_empty url.host
      then err no_host
      else if is_blocked_host url.host
      then err host_blocked
      else ok tt

  unfoldable pub validate_download_url : Bytes → Result UrlError (Unit {0})
  unfolding validate_parsed
  validate_download_url raw_url =
      if is_empty raw_url then err url_required else validate_parsed (net.parse_url raw_url)
