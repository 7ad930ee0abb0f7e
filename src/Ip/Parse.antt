-- ===== src/Ip/Parse.antt =====
-- `str::parse` at `Ipv4Addr`, `Ipv6Addr` and `IpAddr`, as `core::net::parser` reads an address. A
-- reader returns what it read and the rest of the text; where it fails, its caller goes on with the
-- text that it was given (`read_atomically`).
use rust_whois.Prelude.{
  ℕ, zero, suc, ◌+◌, ◌-◌, ◌*◌, Bool, true, false, not, ◌&&◌, List, [], ◌∷◌, ◌++◌, Option, none,
  some, ltb, leb, ◌==◌, if◌then◌else◌, length, ◌≡◌, refl,
}
use mathlib.Core.Option
use rust_whois.Text.{Str}
use rust_whois.Ip.Addr.{Ipv4, Ipv6, IpAddr, v4, v6}

-- `char::to_digit`; 99 for no digit
unfoldable pub digit_value : ℕ → ℕ
digit_value c =
    if leb b'0' c && leb c b'9'
    then c - b'0'
    else if leb b'a' c && leb c b'f'
    then c - b'a' + 10
    else if leb b'A' c && leb c b'F'
    then c - b'A' + 10
    else 99

pub record Number : Type 0 where
  pub value : ℕ
  pub digit_count : ℕ
  pub rest : Str

-- All digits at the head of the text. The source gives up as soon as there are too many, which
-- `read_number` tests behind the loop.
unfoldable pub read_digits : ℕ → ℕ → ℕ → Str → Number
unfolding digit_value
read_digits radix acc n [] = record { value = acc; digit_count = n; rest = [] }
read_digits radix acc n (c ∷ s) =
    let d = digit_value c in
    let more = read_digits radix (acc * radix + d) (n + 1) s in
    if ltb d radix then more else record { value = acc; digit_count = n; rest = c ∷ s }

unfoldable pub starts_with_zero : Str → Bool
starts_with_zero [] = false
starts_with_zero (c ∷ s) = c == b'0'

-- `read_number(radix, Some(max_digits), allow_zero_prefix)`, into a type of the values below `limit`
unfoldable pub read_number : ℕ → ℕ → Bool → ℕ → Str → Option (ℕ × Str)
unfolding read_digits starts_with_zero
read_number radix max_digits allow_zero_prefix limit s =
    let n = read_digits radix 0 0 s in
    if ltb max_digits n.digit_count
    then none
    else if n.digit_count == 0
    then none
    else if not allow_zero_prefix && starts_with_zero s && ltb 1 n.digit_count
    then none
    else if ltb n.value limit
    then some (n.value, n.rest)
    else none

unfoldable pub read_given_char : ℕ → Str → Option Str
read_given_char c [] = none
read_given_char c (x ∷ s) = if x == c then some s else none

infixl 5 ◌>>=◌
abbrev pub ◌>>=◌ {ℓ κ} : {A : Type ℓ} {B : Type κ} → Option A → (A → Option B) → Option B
none >>= f = none
some a >>= f = f a

-- Inversion of a successful bind.
pub >>=-eq-some {ℓ κ} :
    {A : Type ℓ} {B : Type κ} (m : Option A) (f : A → Option B) {b : B}
    → (m >>= f) ≡ some b
    → (a : A) × (m ≡ some a) × (f a ≡ some b)
>>=-eq-some none f h = cc
>>=-eq-some (some a) f h = (a, refl, h)

abbrev pub read_octet : Str → Option (ℕ × Str)
read_octet = read_number 10 3 false 256

unfoldable pub read_ipv4 : Str → Option (Ipv4 × Str)
unfolding read_number read_given_char
read_ipv4 s = do
  (a, s1) ← read_octet s
  s2 ← read_given_char b'.' s1
  (b, s3) ← read_octet s2
  s4 ← read_given_char b'.' s3
  (c, s5) ← read_octet s4
  s6 ← read_given_char b'.' s5
  (d, s7) ← read_octet s6
  some (record { o0 = a; o1 = b; o2 = c; o3 = d }, s7)

-- `parse_with`: the whole text is read
abbrev pub whole {ℓ} : {A : Type ℓ} → Option (A × Str) → Option A
whole none = none
whole (some (a, [])) = some a
whole (some (a, c ∷ s)) = none

unfoldable pub parse_ipv4 : Str → Option Ipv4
unfolding read_ipv4
parse_ipv4 s = whole (read_ipv4 s)

-- `read_separator(':', index, inner)`
abbrev pub separated {ℓ} : {A : Type ℓ} → ℕ → (Str → Option (A × Str)) → Str → Option (A × Str)
separated zero inner s = inner s
separated (suc i) inner s = read_given_char b':' s >>= inner

pub record Groups : Type 0 where
  pub groups : List ℕ
  pub ends_in_ipv4 : Bool
  pub rest : Str

-- `read_groups`, with `slots` slots left of which this is the one at `i`
unfoldable pub read_groups : ℕ → ℕ → Str → Groups
unfolding read_ipv4
read_groups zero i s = record { groups = []; ends_in_ipv4 = false; rest = s }
read_groups (suc slots) i s =
    let embedded = if ltb 0 slots then separated i read_ipv4 s else none in
    elim embedded [
      | some (a, s') ↦ record {
        groups = (a.o0 * 256 + a.o1) ∷ (a.o2 * 256 + a.o3) ∷ [];
        ends_in_ipv4 = true;
        rest = s';
      }
      | none ↦ elim (separated i (read_number 16 4 true 65536) s) [
        | none ↦ record { groups = []; ends_in_ipv4 = false; rest = s }
        | some (g, s') ↦
            let later = read_groups slots (suc i) s' in record later { groups = g ∷ later.groups }
      ]
    ]

abbrev pub zeros : ℕ → List ℕ
zeros zero = []
zeros (suc n) = 0 ∷ zeros n

abbrev pub of_segments : List ℕ → Option Ipv6
of_segments (a ∷ b ∷ c ∷ d ∷ e ∷ f ∷ g ∷ h ∷ []) =
    some (record { s0 = a; s1 = b; s2 = c; s3 = d; s4 = e; s5 = f; s6 = g; s7 = h })
of_segments _ = none

-- the part behind the groups at the head, from `::` on
unfoldable pub read_compressed : Groups → Option (Ipv6 × Str)
unfolding read_groups
read_compressed head = do
  s1 ← read_given_char b':' head.rest
  s2 ← read_given_char b':' s1
  let head_size = length head.groups
  let tail = read_groups (8 - (head_size + 1)) 0 s2
  let gap = zeros (8 - head_size - length tail.groups)
  a ← of_segments (head.groups ++ (gap ++ tail.groups))
  some (a, tail.rest)

unfoldable pub read_ipv6 : Str → Option (Ipv6 × Str)
unfolding read_groups read_compressed
read_ipv6 s =
    let head = read_groups 8 0 s in
    if length head.groups == 8
    then Option.map (λ (a : Ipv6). (a, head.rest)) (of_segments head.groups)
    else if head.ends_in_ipv4
    then none
    else read_compressed head

unfoldable pub parse_ipv6 : Str → Option Ipv6
unfolding read_ipv6
parse_ipv6 s = whole (read_ipv6 s)

-- the first that succeeds, of an IPv4 and an IPv6 address
abbrev pub either_ip : Option (Ipv4 × Str) → Option (Ipv6 × Str) → Option (IpAddr × Str)
either_ip (some (a, r)) o = some (v4 a, r)
either_ip none (some (a, r)) = some (v6 a, r)
either_ip none none = none

unfoldable pub parse_ip : Str → Option IpAddr
unfolding read_ipv4 read_ipv6
parse_ip s = whole (either_ip (read_ipv4 s) (read_ipv6 s))
