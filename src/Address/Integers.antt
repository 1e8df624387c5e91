-- ===== src/Address/Integers.antt =====
-- Addresses that are spelt as one number.
use minecraft_operator.Address.{
  Net, integer_value, in_range, address_of, address_of_value, parse_integer_ip, is_restricted,
  is_blocked_hostname, hostname_of, is_blocked_host,
}
use minecraft_operator.Text.{is_digit_byte, digits_from, has_suffix, trim_prefix, trim_suffix}
use minecraft_operator.Text.Numbers.{all-decimal, is_empty-decimal, digits_from-decimal}
use minecraft_operator.Prelude.{
  ℕ, zero, suc, ◌+◌, ◌-◌, ◌*◌, ◌/◌, ◌%◌, ◌<◌, Bool, true, false, ◌||◌, [], ◌∷◌, Option, none, some,
  if◌then◌else◌, is_empty, length, take, drop, all, ◌≡◌, refl, sym, ap, ◌∙◌, inl, inr, Bool-cases,
  arith, false≢true,
}
use minecraft_operator.Prelude.Bytes.{Bytes, bytes, ◌==◌, has_prefix, eq→≡, decimal}
use minecraft_operator.Prelude.Int.{ℤ, pos, negsuc, ltb_ℤ}

-- A number of four octets.
abbrev pub number_of : ℕ → ℕ → ℕ → ℕ → ℕ
number_of a b c d = ((a * 256 + b) * 256 + c) * 256 + d

in_range_sound :
    (o : Option ℤ) (v : ℕ) → in_range o ≡ some v → (o ≡ some (pos v)) × (v < 4294967296)
unfolding in_range
in_range_sound none v h = cc
in_range_sound (some (pos n)) v h =
    elim (Bool-cases (ltb_ℤ (pos n) (pos 0) || ltb_ℤ (pos 4294967295) (pos n))) [
      | inl t ↦ let g : ◌≡◌ {A = Option ℕ} none (some v) = rw t at h in cc
      | inr t ↦
          let g : ◌≡◌ {A = Option ℕ} (some n) (some v) = rw t at h in
          (cc, let e : n ≡ v = cc in ground (arith, e))
    ]
in_range_sound (some (negsuc n)) v h = ground arith

recombined :
    (v : ℕ)
    → v < 4294967296
    → number_of (v / 16777216 % 256) (v / 65536 % 256) (v / 256 % 256) (v % 256) ≡ v
recombined v h = omega arith

all-take : (p : ℕ → Bool) (n : ℕ) (s : Bytes) → all p s ≡ true → all p (take n s) ≡ true
all-take p zero s h = refl
all-take p (suc n) [] h = refl
all-take p (suc n) (c ∷ s) h = ground (arith, all-take p n s (ground arith))

all-drop : (p : ℕ → Bool) (n : ℕ) (s : Bytes) → all p s ≡ true → all p (drop n s) ≡ true
all-drop p zero s h = h
all-drop p (suc n) [] h = refl
all-drop p (suc n) (c ∷ s) h = all-drop p n s (ground arith)

-- A text of digits begins and ends with digits.
digits_prefix :
    (s p : Bytes)
    → all is_digit_byte s ≡ true
    → all is_digit_byte p ≡ false
    → has_prefix s p ≡ false
unfolding has_prefix
digits_prefix s p h k = elim (Bool-cases (take (length p) s == p)) [
  | inl e ↦ absurd (
      false≢true
        (sym k ∙ ap (all is_digit_byte) (sym (eq→≡ _ _ e)) ∙ all-take is_digit_byte (length p) s h))
  | inr e ↦ ground arith
]

digits_suffix :
    (s p : Bytes)
    → all is_digit_byte s ≡ true
    → all is_digit_byte p ≡ false
    → has_suffix s p ≡ false
unfolding has_suffix
digits_suffix s p h k = elim (Bool-cases (drop (length s - length p) s == p)) [
  | inl e ↦ absurd (
      false≢true (
        sym k
        ∙ ap (all is_digit_byte) (sym (eq→≡ _ _ e))
        ∙ all-drop is_digit_byte (length s - length p) s h))
  | inr e ↦ ground arith
]

integer_value-digits :
    (s : Bytes) → all is_digit_byte s ≡ true → integer_value s ≡ some (pos (digits_from 0 s))
unfolding integer_value is_digit_byte
integer_value-digits s h =
    rw (digits_prefix s (bytes "0x") h refl, digits_prefix s (bytes "0X") h refl, h) refl

module _ {Ip : Type 0} (net : Net Ip) where
  -- An address that is read of a number has four octets below 256, whose number, below 2 ^ 32, the text
  -- stands for; a number with more bits or below 0 is no address.
  pub parse_integer_ip_bounds :
      (hostname : Bytes) (ip : Ip)
      → parse_integer_ip net hostname ≡ some ip
      → (a : ℕ) × (b : ℕ) × (c : ℕ) × (d : ℕ) × (a < 256)
        × (b < 256)
        × (c < 256)
        × (d < 256)
        × (ip ≡ net.ipv4 a b c d)
        × (integer_value hostname ≡ some (pos (number_of a b c d)))
  unfolding parse_integer_ip address_of_value address_of
  parse_integer_ip_bounds hostname ip h =
      found (is_empty hostname) (in_range (integer_value hostname)) refl h
    where
      read :
          (v : ℕ)
          → in_range (integer_value hostname) ≡ some v
          → integer_value hostname
            ≡ some
                (pos (number_of (v / 16777216 % 256) (v / 65536 % 256) (v / 256 % 256) (v % 256)))
      read v e =
          let (g, l) = in_range_sound (integer_value hostname) v e in
          g ∙ ap (λ n. some (pos n)) (sym (recombined v l))

      found :
          (b : Bool) (o : Option ℕ)
          → in_range (integer_value hostname) ≡ o
          → (if b then none else address_of_value net o) ≡ some ip
          → (a : ℕ) × (b : ℕ) × (c : ℕ) × (d : ℕ) × (a < 256)
            × (b < 256)
            × (c < 256)
            × (d < 256)
            × (ip ≡ net.ipv4 a b c d)
            × (integer_value hostname ≡ some (pos (number_of a b c d)))
      found true o e k = cc
      found false none e k = cc
      found false (some v) e k = (
        v / 16777216 % 256,
        v / 65536 % 256,
        v / 256 % 256,
        v % 256,
        omega arith,
        omega arith,
        omega arith,
        omega arith,
        cc,
        read v e,
      )

  hostname_of-digits :
      (s : Bytes)
      → all is_digit_byte s ≡ true
      → net.split_host_port s ≡ none
      → hostname_of net s ≡ s
  unfolding hostname_of trim_prefix trim_suffix is_digit_byte
  hostname_of-digits s h k =
      rw (k, digits_prefix s (bytes "[") h refl, digits_suffix s (bytes "]") h refl) refl

  parse_integer_ip-digits :
      (s : Bytes) (v : ℕ)
      → all is_digit_byte s ≡ true
      → is_empty s ≡ false
      → digits_from 0 s ≡ v
      → v < 4294967296
      → parse_integer_ip net s ≡ some (address_of net v)
  unfolding parse_integer_ip address_of_value in_range
  parse_integer_ip-digits s v h n e l = rw (n, integer_value-digits s h, e) (ground (arith, l))

  spelt :
      (s : Bytes) (v : ℕ)
      → all is_digit_byte s ≡ true
      → is_empty s ≡ false
      → digits_from 0 s ≡ v
      → v < 4294967296
      → net.split_host_port s ≡ none
      → net.parse_ip s ≡ none
      → is_blocked_host net s ≡ is_restricted net (address_of net v)
  unfolding is_blocked_host is_blocked_hostname
  spelt s v h n e l split parse =
      rw (hostname_of-digits s h split, parse, parse_integer_ip-digits s v h n e l) refl

  same_octets :
      {x y z w a b c d : ℕ} → x ≡ a → y ≡ b → z ≡ c → w ≡ d → net.ipv4 x y z w ≡ net.ipv4 a b c d
  same_octets e f g h = cc

  -- A host that spells the address of four octets as one decimal number is blocked exactly if the address is
  -- restricted, where it has no port and the network library reads it as no address.
  pub is_blocked_host-decimal :
      (a b c d : ℕ)
      → a < 256
      → b < 256
      → c < 256
      → d < 256
      → let host = decimal (number_of a b c d) in
        net.split_host_port host ≡ none
        → net.parse_ip host ≡ none
        → is_blocked_host net host ≡ is_restricted net (net.ipv4 a b c d)
  unfolding address_of
  is_blocked_host-decimal a b c d ha hb hc hd split parse =
      spelt (decimal (number_of a b c d)) (number_of a b c d) (all-decimal (number_of a b c d))
        (is_empty-decimal (number_of a b c d))
        (digits_from-decimal (number_of a b c d) (omega arith)) (omega arith) split parse
      ∙ ap (is_restricted net) (octets (number_of a b c d) refl)
    where
      octets : (v : ℕ) → v ≡ number_of a b c d → address_of net v ≡ net.ipv4 a b c d
      octets v e =
          let first : v / 16777216 % 256 ≡ a = omega (arith, e) in
          let second : v / 65536 % 256 ≡ b = omega (arith, e) in
          let third : v / 256 % 256 ≡ c = omega (arith, e) in
          let fourth : v % 256 ≡ d = omega (arith, e) in same_octets first second third fourth
