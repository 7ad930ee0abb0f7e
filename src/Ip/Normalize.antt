-- ===== src/Ip/Normalize.antt =====
-- src/ip.rs: `ValidatedIpAddress::new` on a text that it has normalized.
use rust_whois.Prelude.{
  ℕ, zero, suc, ◌+◌, ◌≤◌, ◌<◌, All, ◌≡◌, refl, false, List, [], ◌∷◌, some, arith, All-append,
  Option-cases, inl, inr, ltb, if_rule,
}
use rust_whois.Text.{Str, is_whitespace, NoSpace, trim, trim_of_NoSpace}
use rust_whois.Error.{ok}
use rust_whois.Ip.Addr.{IpAddr, v4, v6, Ipv4, Ipv6, IsBytes, IsWords}
use rust_whois.Ip.Parse.{parse_ip}
use rust_whois.Ip.Show.{
  show_byte, show_hex, join_hex, take, drop, segments, is_ipv4_mapped, show_ipv4, show_ipv6,
  show_ip,
}
use rust_whois.Ip.Validated.{ValidatedIpAddress, new, as_str}
use rust_whois.Ip.RoundTrip.{parse_ip-show_ip}
use rust_whois.Ip.RoundTrip.Groups.{Words}
use rust_whois.Ip.RoundTrip.Six.{segments-Words, low_half, longest, parse_ip-show_ipv6}
use rust_whois.Ip.RoundTrip.Bounds.{Fits, parse_ip-Fits}

show_byte-NoSpace : (n : ℕ) → n < 256 → NoSpace (show_byte n)
unfolding show_byte is_whitespace
show_byte-NoSpace n h = ground arith

show_ipv4-NoSpace : (a : Ipv4) → IsBytes a → NoSpace (show_ipv4 a)
unfolding show_ipv4 is_whitespace
show_ipv4-NoSpace a h = All-append _ (show_byte a.o0) _ (show_byte-NoSpace a.o0 h.b0) (
  refl,
  All-append _ (show_byte a.o1) _ (show_byte-NoSpace a.o1 h.b1) (
    refl,
    All-append _ (show_byte a.o2) _ (show_byte-NoSpace a.o2 h.b2)
        (refl, show_byte-NoSpace a.o3 h.b3),
  ),
)

-- Text in hexadecimal, and its parts.
abbrev Visible : Str → Type 0
Visible = All (λ c. (33 ≤ c) × (c ≤ 126))

show_hex-Visible : (n : ℕ) → n < 65536 → Visible (show_hex n)
unfolding show_hex
show_hex-Visible n h = ground arith

visible-is_whitespace : (c : ℕ) → 33 ≤ c → c ≤ 126 → is_whitespace c ≡ false
unfolding is_whitespace
visible-is_whitespace c low high = ground arith

Visible-NoSpace : (s : Str) → Visible s → NoSpace s
Visible-NoSpace [] h = tt
Visible-NoSpace (c ∷ s) ((low, high), h) = (visible-is_whitespace c low high, Visible-NoSpace s h)

show_hex-NoSpace : (n : ℕ) → n < 65536 → NoSpace (show_hex n)
show_hex-NoSpace n h = Visible-NoSpace (show_hex n) (show_hex-Visible n h)

join_hex-NoSpace : (gs : List ℕ) → Words gs → NoSpace (join_hex gs)
unfolding join_hex is_whitespace
join_hex-NoSpace [] words = tt
join_hex-NoSpace (g ∷ []) (word, words) = show_hex-NoSpace g word
join_hex-NoSpace (g ∷ h ∷ gs) (word, words) =
    All-append _ (show_hex g) _ (show_hex-NoSpace g word) (refl, join_hex-NoSpace (h ∷ gs) words)

take-Words : (n : ℕ) (gs : List ℕ) → Words gs → Words (take n gs)
unfolding take
take-Words zero gs words = tt
take-Words (suc n) [] words = tt
take-Words (suc n) (g ∷ gs) (word, words) = (word, take-Words n gs words)

drop-Words : (n : ℕ) (gs : List ℕ) → Words gs → Words (drop n gs)
unfolding drop
drop-Words zero gs words = words
drop-Words (suc n) [] words = tt
drop-Words (suc n) (g ∷ gs) (word, words) = drop-Words n gs words

show_ipv6-NoSpace : (a : Ipv6) → IsWords a → NoSpace (show_ipv6 a)
unfolding show_ipv6 is_whitespace
show_ipv6-NoSpace a h =
    let words = segments-Words a h in
    let w6 = h.w6 in
    let w7 = h.w7 in
    if_rule NoSpace (is_ipv4_mapped a) _ _
      (λ _. (
        refl,
        (
          refl,
          (
            refl,
            (
              refl,
              (
                refl,
                (
                  refl,
                  (
                    refl,
                    show_ipv4-NoSpace (low_half a) (record {
                      b0 = omega arith;
                      b1 = omega arith;
                      b2 = omega arith;
                      b3 = omega arith;
                    }),
                  ),
                ),
              ),
            ),
          ),
        ),
      ))
      (λ _.
        if_rule NoSpace (ltb 1 (longest a).size) _ _
          (λ _.
            All-append _ (join_hex (take (longest a).start (segments a))) _
              (join_hex-NoSpace _ (take-Words (longest a).start (segments a) words))
              (
                refl,
                (
                  refl,
                  join_hex-NoSpace _
                      (drop-Words ((longest a).start + (longest a).size) (segments a) words),
                ),
              ))
          (λ _. join_hex-NoSpace (segments a) words))

shown-NoSpace : (addr : IpAddr) → Fits addr → NoSpace (show_ip addr)
unfolding show_ip
shown-NoSpace (v4 a) h = show_ipv4-NoSpace a h
shown-NoSpace (v6 a) h = show_ipv6-NoSpace a h

read_back : (addr : IpAddr) → Fits addr → parse_ip (show_ip addr) ≡ some addr
read_back (v4 a) h = parse_ip-show_ip a h
read_back (v6 a) h = parse_ip-show_ipv6 a h

-- What an accepted text was parsed to.
new-eq-ok :
    (ip : Str) {v : ValidatedIpAddress}
    → new ip ≡ ok v
    → (addr : IpAddr) × (parse_ip (trim ip) ≡ some addr)
      × (v ≡ record { addr = addr; normalized = show_ip addr })
unfolding new
new-eq-ok ip h = elim (Option-cases (parse_ip (trim ip))) [
  | inl refused ↦ ground arith
  | inr (addr, parsed) ↦ (addr, parsed, ground arith)
]

again :
    (addr : IpAddr)
    → Fits addr
    → new (show_ip addr) ≡ ok (record { addr = addr; normalized = show_ip addr })
unfolding new
again addr h = rw (trim_of_NoSpace (show_ip addr) (shown-NoSpace addr h), read_back addr h) refl

-- The text of an accepted address is accepted in turn, and gives the same validated address.
pub new-as_str : (ip : Str) (v : ValidatedIpAddress) → new ip ≡ ok v → new (as_str v) ≡ ok v
new-as_str ip v h =
    let (addr, parsed, made) = new-eq-ok ip h in
    rw made (again addr (parse_ip-Fits (trim ip) addr parsed))

-- The text of an accepted address has no white space around it.
pub trim-as_str : (ip : Str) (v : ValidatedIpAddress) → new ip ≡ ok v → trim (as_str v) ≡ as_str v
trim-as_str ip v h =
    let (addr, parsed, made) = new-eq-ok ip h in
    rw made
      (trim_of_NoSpace (show_ip addr) (shown-NoSpace addr (parse_ip-Fits (trim ip) addr parsed)))
