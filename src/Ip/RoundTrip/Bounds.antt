-- ===== src/Ip/RoundTrip/Bounds.antt =====
-- The numbers of an address that is read fit their widths.
use mathlib.Core.Option
use mathlib.Core.Option.{some-injective}
use rust_whois.Prelude.{
  ℕ, zero, suc, ◌+◌, ◌-◌, ◌<◌, ◌≡◌, refl, subst, Bool, true, false, List, [], ◌∷◌, ◌++◌, Option,
  none, some, arith, All-append, Option-cases, inl, inr, ltb, if_rule, if◌then◌else◌, ◌==◌, length,
}
use rust_whois.Text.{Str}
use rust_whois.Ip.Addr.{IpAddr, v4, v6, Ipv4, Ipv6, IsBytes, IsWords}
use rust_whois.Ip.Parse.{
  whole, either_ip, read_number, read_given_char, read_octet, >>=-eq-some, read_ipv4, read_ipv6,
  read_groups, separated, zeros, of_segments, read_compressed, Groups, parse_ip,
}
use rust_whois.Ip.RoundTrip.Groups.{Words, embedded_or, group_or}

read_number-lt :
    (radix most : ℕ) (zeros : Bool) (limit : ℕ) (s : Str) {n : ℕ} {r : Str}
    → read_number radix most zeros limit s ≡ some (n, r)
    → n < limit
unfolding read_number
read_number-lt radix most zeros limit s h = ground arith

octets-IsBytes :
    (s r0 r1 r2 : Str) (x0 x1 x2 x3 : ℕ × Str) {a : Ipv4} {r : Str}
    → read_octet s ≡ some x0
    → read_octet r0 ≡ some x1
    → read_octet r1 ≡ some x2
    → read_octet r2 ≡ some x3
    → ◌≡◌ {A = Ipv4 × Str} (record { o0 = x0.0; o1 = x1.0; o2 = x2.0; o3 = x3.0 }, x3.1) (a, r)
    → IsBytes a
octets-IsBytes s r0 r1 r2 x0 x1 x2 x3 e0 e1 e2 e3 same =
    subst (λ (p : Ipv4 × Str). IsBytes p.0) same
      (record {
        b0 = read_number-lt 10 3 false 256 s e0;
        b1 = read_number-lt 10 3 false 256 r0 e1;
        b2 = read_number-lt 10 3 false 256 r1 e2;
        b3 = read_number-lt 10 3 false 256 r2 e3;
      })

pub read_ipv4-IsBytes : (s : Str) {a : Ipv4} {r : Str} → read_ipv4 s ≡ some (a, r) → IsBytes a
unfolding read_ipv4
read_ipv4-IsBytes s {a} {r} h =
    let (x0, e0, h0) = >>=-eq-some (read_octet s) _ h in
    let (r0, d0, k0) = >>=-eq-some (read_given_char b'.' x0.1) _ h0 in
    let (x1, e1, h1) = >>=-eq-some (read_octet r0) _ k0 in
    let (r1, d1, k1) = >>=-eq-some (read_given_char b'.' x1.1) _ h1 in
    let (x2, e2, h2) = >>=-eq-some (read_octet r1) _ k1 in
    let (r2, d2, k2) = >>=-eq-some (read_given_char b'.' x2.1) _ h2 in
    let (x3, e3, h3) = >>=-eq-some (read_octet r2) _ k2 in
    octets-IsBytes s r0 r1 r2 x0 x1 x2 x3 e0 e1 e2 e3 (some-injective _ _ h3)

either-v4 :
    (o4 : Option (Ipv4 × Str)) (o6 : Option (Ipv6 × Str)) {a : Ipv4}
    → whole (either_ip o4 o6) ≡ some (v4 a)
    → (r : Str) × (o4 ≡ some (a, r))
either-v4 (some (b, [])) o6 h = ([], cc)
either-v4 (some (b, c ∷ s)) o6 h = cc
either-v4 none none h = cc
either-v4 none (some (b, [])) h = cc
either-v4 none (some (b, c ∷ s)) h = cc

-- Only the IPv4 reader gives an IPv4 address.
parse_ip-v4 :
    (s : Str) {a : Ipv4} → parse_ip s ≡ some (v4 a) → (r : Str) × (read_ipv4 s ≡ some (a, r))
unfolding parse_ip
parse_ip-v4 s h = either-v4 (read_ipv4 s) (read_ipv6 s) h

either-v6 :
    (o4 : Option (Ipv4 × Str)) (o6 : Option (Ipv6 × Str)) {a : Ipv6}
    → whole (either_ip o4 o6) ≡ some (v6 a)
    → (r : Str) × (o6 ≡ some (a, r))
either-v6 (some (b, [])) o6 h = cc
either-v6 (some (b, c ∷ s)) o6 h = cc
either-v6 none none h = cc
either-v6 none (some (b, [])) h = ([], cc)
either-v6 none (some (b, c ∷ s)) h = cc

separated-eq-some :
    {A : Type 0} (i : ℕ) (inner : Str → Option (A × Str)) (s : Str) {x : A × Str}
    → separated i inner s ≡ some x
    → (t : Str) × (inner t ≡ some x)
separated-eq-some zero inner s h = (s, h)
separated-eq-some (suc i) inner s h =
    let (t, read, e) = >>=-eq-some (read_given_char b':' s) inner h in (t, e)

embedded_or-Words :
    (otherwise : Groups) (o : Option (Ipv4 × Str))
    → Words otherwise.groups
    → ((a : Ipv4) (s : Str) → o ≡ some (a, s) → IsBytes a)
    → Words (embedded_or otherwise o).groups
embedded_or-Words otherwise none h bytes = h
embedded_or-Words otherwise (some (a, s)) h bytes =
    let b = bytes a s refl in
    let b0 = b.b0 in
    let b1 = b.b1 in let b2 = b.b2 in let b3 = b.b3 in (omega arith, (omega arith, tt))

group_or-Words :
    (slots i : ℕ) (s : Str) (o : Option (ℕ × Str))
    → ((g : ℕ) (t : Str) → o ≡ some (g, t) → g < 65536)
    → ((t : Str) → Words (read_groups slots (suc i) t).groups)
    → Words (group_or slots i s o).groups
group_or-Words slots i s none word later = tt
group_or-Words slots i s (some (g, t)) word later = (word g t refl, later t)

embedded-IsBytes :
    (slots i : ℕ) (s : Str) (a : Ipv4) (t : Str)
    → (if ltb 0 slots then separated i read_ipv4 s else none) ≡ some (a, t)
    → IsBytes a
embedded-IsBytes slots i s a t =
    if_rule (λ o. o ≡ some (a, t) → IsBytes a) (ltb 0 slots) _ _
      (λ _ h. let (t', e) = separated-eq-some i read_ipv4 s h in read_ipv4-IsBytes t' e) (λ _ h. cc)

group-lt :
    (i : ℕ) (s : Str) (g : ℕ) (t : Str)
    → separated i (read_number 16 4 true 65536) s ≡ some (g, t)
    → g < 65536
group-lt i s g t h =
    let (t', e) = separated-eq-some i (read_number 16 4 true 65536) s h in
    read_number-lt 16 4 true 65536 t' e

read_groups-Words : (slots i : ℕ) (s : Str) → Words (read_groups slots i s).groups
unfolding read_groups
read_groups-Words zero i s = tt
read_groups-Words (suc slots) i s =
    embedded_or-Words (group_or slots i s (separated i (read_number 16 4 true 65536) s))
      (if ltb 0 slots then separated i read_ipv4 s else none)
      (group_or-Words slots i s (separated i (read_number 16 4 true 65536) s) (group-lt i s)
        (read_groups-Words slots (suc i)))
      (embedded-IsBytes slots i s)

of_segments-IsWords : (gs : List ℕ) {a : Ipv6} → Words gs → of_segments gs ≡ some a → IsWords a
of_segments-IsWords (a ∷ b ∷ c ∷ d ∷ e ∷ f ∷ g ∷ h ∷ [])
      (wa, (wb, (wc, (wd, (we, (wf, (wg, (wh, end)))))))) made =
    subst IsWords (some-injective _ _ made)
      (record { w0 = wa; w1 = wb; w2 = wc; w3 = wd; w4 = we; w5 = wf; w6 = wg; w7 = wh })
of_segments-IsWords _ words made = cc

zeros-Words : (n : ℕ) → Words (zeros n)
zeros-Words zero = tt
zeros-Words (suc n) = (omega arith, zeros-Words n)

read_compressed-IsWords :
    (head : Groups) {a : Ipv6} {r : Str}
    → Words head.groups
    → read_compressed head ≡ some (a, r)
    → IsWords a
unfolding read_compressed
read_compressed-IsWords head {a} {r} words h =
    let (s1, e1, h1) = >>=-eq-some (read_given_char b':' head.rest) _ h in
    let (s2, e2, h2) = >>=-eq-some (read_given_char b':' s1) _ h1 in
    let tail = read_groups (8 - (length head.groups + 1)) 0 s2 in
    let gap = 8 - length head.groups - length tail.groups in
    let (b, made, h3) =
      >>=-eq-some (of_segments (head.groups ++ (zeros gap ++ tail.groups))) _ h2 in
    let all =
      All-append (λ g. g < 65536) head.groups (zeros gap ++ tail.groups) words
        (All-append (λ g. g < 65536) (zeros gap) tail.groups (zeros-Words gap)
          (read_groups-Words (8 - (length head.groups + 1)) 0 s2)) in
    subst (λ (x : Ipv6 × Str). IsWords x.0) (some-injective _ _ h3)
      (of_segments-IsWords (head.groups ++ (zeros gap ++ tail.groups)) all made)

whole_head-IsWords :
    (head : Groups) {a : Ipv6} {r : Str}
    → Words head.groups
    → Option.map {B = Ipv6 × Str} (λ (b : Ipv6). (b, head.rest)) (of_segments head.groups)
      ≡ some (a, r)
    → IsWords a
whole_head-IsWords head {a} {r} words h = elim (Option-cases (of_segments head.groups)) [
  | inl failed ↦ ground arith
  | inr (b, made) ↦
      let same : b ≡ a = ground arith in
      subst IsWords same (of_segments-IsWords head.groups words made)
]

read_ipv6-IsWords : (s : Str) {a : Ipv6} {r : Str} → read_ipv6 s ≡ some (a, r) → IsWords a
unfolding read_ipv6
read_ipv6-IsWords s {a} {r} =
    let head = read_groups 8 0 s in
    let words = read_groups-Words 8 0 s in
    if_rule (λ o. o ≡ some (a, r) → IsWords a) (length head.groups == 8) _ _
      (λ _. whole_head-IsWords head words)
      (λ _.
        if_rule (λ o. o ≡ some (a, r) → IsWords a) head.ends_in_ipv4 _ _ (λ _ h. cc)
          (λ _. read_compressed-IsWords head words))

-- An address whose numbers fit.
abbrev pub Fits : IpAddr → Type 0
Fits (v4 a) = IsBytes a
Fits (v6 a) = IsWords a

pub parse_ip-Fits : (s : Str) (addr : IpAddr) → parse_ip s ≡ some addr → Fits addr
unfolding parse_ip
parse_ip-Fits s (v4 a) h = let (r, read) = parse_ip-v4 s h in read_ipv4-IsBytes s read
parse_ip-Fits s (v6 a) h =
    let (r, read) = either-v6 (read_ipv4 s) (read_ipv6 s) h in read_ipv6-IsWords s read
