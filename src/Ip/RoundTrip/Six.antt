-- ===== src/Ip/RoundTrip/Six.antt =====
-- Printing an IPv6 address and reading it back.
use mathlib.Core.List.{append_assoc, append-nil}
use rust_whois.Prelude.{
  ℕ, ◌+◌, ◌-◌, ◌/◌, ◌%◌, ◌≤◌, ◌<◌, ◌≡◌, refl, sym, subst, ap, ◌∙◌, Bool, true, false, List, [], ◌∷◌,
  ◌++◌, arith, ltb, ltb→lt, ◌==◌, some, length, length-append, if_rule,
}
use rust_whois.Text.{Str, codes}
use rust_whois.Ip.Addr.{Ipv4, Ipv6, v6, IsBytes, IsWords}
use rust_whois.Ip.Parse.{
  zeros, of_segments, read_groups, read_given_char, read_compressed, read_ipv6, parse_ip,
}
use rust_whois.Ip.Show.{
  Span, longest_zeros, take, drop, join_hex, segments, is_ipv4_mapped, show_hex, show_ipv4,
  show_ipv6, show_ip,
}
use rust_whois.Ip.RoundTrip.Mapped.{read_groups-mapped, mapped_segments}
use rust_whois.Ip.RoundTrip.NoQuad.{NoQuad, NoQuad-show_hex, NoQuad-colon, read_ipv4-NoQuad}
use rust_whois.Ip.RoundTrip.Groups.{
  Words, groups_text, groups_text-shift, NoQuad-groups_text, Ends, Ends-[], Ends-colons,
  read_groups-groups_text,
}
use rust_whois.Ip.RoundTrip.Runs.{length-zeros, Compressed, longest_zeros-Compressed}

pub segments-Words : (a : Ipv6) → IsWords a → Words (segments a)
segments-Words a h = (h.w0, (h.w1, (h.w2, (h.w3, (h.w4, (h.w5, (h.w6, (h.w7, tt))))))))

join_hex-groups_text : (gs : List ℕ) (r : Str) → join_hex gs ++ r ≡ groups_text 0 gs r
unfolding join_hex
join_hex-groups_text [] r = refl
join_hex-groups_text (g ∷ []) r = refl
join_hex-groups_text (g ∷ h ∷ gs) r =
    append_assoc (show_hex g) (b':' ∷ join_hex (h ∷ gs)) r
    ∙ ap (λ s. show_hex g ++ (b':' ∷ s))
        (join_hex-groups_text (h ∷ gs) r ∙ ap (λ s. show_hex h ++ s) (groups_text-shift 0 1 gs r))

read_groups-join_hex :
    (slots : ℕ) (gs : List ℕ) (r : Str)
    → Words gs
    → length gs ≤ slots
    → Ends r
    → read_groups slots 0 (join_hex gs ++ r)
      ≡ record { groups = gs; ends_in_ipv4 = false; rest = r }
read_groups-join_hex slots gs r words fits ends =
    ap (read_groups slots 0) (join_hex-groups_text gs r)
    ∙ read_groups-groups_text slots 0 gs r words fits ends

-- All eight segments.
read_ipv6-join_hex : (a : Ipv6) → IsWords a → read_ipv6 (join_hex (segments a) ++ []) ≡ some (a, [])
unfolding read_ipv6
read_ipv6-join_hex a h =
    rw (read_groups-join_hex 8 (segments a) [] (segments-Words a h) (omega arith) Ends-[]) refl

-- A head that is not the whole address.
read_ipv6-head :
    (s : Str) (front : List ℕ) (rest : Str)
    → read_groups 8 0 s ≡ record { groups = front; ends_in_ipv4 = false; rest = rest }
    → length front < 8
    → read_ipv6 s ≡ read_compressed (record { groups = front; ends_in_ipv4 = false; rest = rest })
unfolding read_ipv6
read_ipv6-head s front rest e short =
    let not_all : (length front == 8) ≡ false = ground arith in rw (e, not_all) refl

-- `::`, and the tail.
read_compressed-tail :
    (front back : List ℕ) (t : Str) (a : Ipv6) (ends_in_ipv4 : Bool)
    → read_groups (8 - (length front + 1)) 0 t
      ≡ record { groups = back; ends_in_ipv4 = ends_in_ipv4; rest = [] }
    → of_segments (front ++ (zeros (8 - length front - length back) ++ back)) ≡ some a
    → read_compressed (record { groups = front; ends_in_ipv4 = false; rest = codes "::" ++ t })
      ≡ some (a, [])
unfolding read_compressed read_given_char
read_compressed-tail front back t a ends_in_ipv4 e whole_ = rw (e, whole_) refl

-- Those before and behind `::`.
read_ipv6-compressed :
    (a : Ipv6) (front back : List ℕ) (gap : ℕ)
    → Words front
    → Words back
    → 1 < gap
    → segments a ≡ front ++ (zeros gap ++ back)
    → read_ipv6 (join_hex front ++ (codes "::" ++ (join_hex back ++ []))) ≡ some (a, [])
read_ipv6-compressed a front back gap words words' long parts =
    let eight : 8 ≡ length front + (gap + length back) =
      ap length parts
      ∙ length-append front (zeros gap ++ back)
      ∙ ap (λ n. length front + n)
          (length-append (zeros gap) back ∙ ap (λ n. n + length back) (length-zeros gap)) in
    let same_gap : gap ≡ 8 - length front - length back = omega arith in
    read_ipv6-head _ front _
      (read_groups-join_hex 8 front _ words (omega arith) (Ends-colons (join_hex back ++ [])))
      (omega arith)
    ∙ read_compressed-tail front back (join_hex back ++ []) a false
        (read_groups-join_hex (8 - (length front + 1)) back [] words' (omega arith) Ends-[])
        (ap of_segments (ap (λ n. front ++ (zeros n ++ back)) (sym same_gap) ∙ sym parts))

abbrev pub low_half : Ipv6 → Ipv4
low_half a = record { o0 = a.s6 / 256; o1 = a.s6 % 256; o2 = a.s7 / 256; o3 = a.s7 % 256 }

read_ipv6-mapped :
    (a : Ipv6)
    → IsWords a
    → is_ipv4_mapped a ≡ true
    → read_ipv6 (codes "::ffff:" ++ show_ipv4 (low_half a)) ≡ some (a, [])
read_ipv6-mapped a h mapped =
    let w6 = h.w6 in
    let w7 = h.w7 in
    let bytes : IsBytes (low_half a) = record {
      b0 = omega arith;
      b1 = omega arith;
      b2 = omega arith;
      b3 = omega arith;
    } in
    let tail = codes "ffff:" ++ show_ipv4 (low_half a) in
    read_ipv6-head _ [] _ ((Ends-colons tail).stops 8 0) (omega arith)
    ∙ read_compressed-tail [] _ tail a true (read_groups-mapped (low_half a) bytes)
        (ap of_segments (mapped_segments a mapped))

All-front : (xs ys : List ℕ) → Words (xs ++ ys) → Words xs
All-front [] ys h = tt
All-front (x ∷ xs) ys (w, h) = (w, All-front xs ys h)

All-back : (xs ys : List ℕ) → Words (xs ++ ys) → Words ys
All-back [] ys h = h
All-back (x ∷ xs) ys (w, h) = All-back xs ys h

NoQuad-join_hex : (gs : List ℕ) (r : Str) → Words gs → NoQuad r → NoQuad (join_hex gs ++ r)
NoQuad-join_hex gs r words h = subst NoQuad (sym (join_hex-groups_text gs r)) (go gs words)
  where
    go : (gs : List ℕ) → Words gs → NoQuad (groups_text 0 gs r)
    go [] words = h
    go (g ∷ gs) (word, words) =
        NoQuad-show_hex g (groups_text 1 gs r) word (NoQuad-groups_text 0 gs r h)

-- A text that is read as this IPv6 address, and as no IPv4 address.
abbrev Reads : Ipv6 → Str → Type 0
Reads a s = NoQuad s × (read_ipv6 s ≡ some (a, []))

Compressed-Reads :
    (a : Ipv6) (span : Span)
    → IsWords a
    → 1 < span.size
    → Compressed (segments a) span
    → Reads a (
        join_hex (take span.start (segments a))
        ++ (codes "::" ++ join_hex (drop (span.start + span.size) (segments a))))
Compressed-Reads a span h long c =
    let words : Words (c.front ++ (zeros span.size ++ c.back)) =
      subst Words c.parts (segments-Words a h) in
    let front = All-front c.front _ words in
    let back = All-back (zeros span.size) c.back (All-back c.front _ words) in
    rw (c.take_front, c.drop_back)
      (
        NoQuad-join_hex c.front (codes "::" ++ join_hex c.back) front
            (NoQuad-colon (b':' ∷ join_hex c.back)),
        subst (λ t. read_ipv6 (join_hex c.front ++ (codes "::" ++ t)) ≡ some (a, []))
            (append-nil (join_hex c.back))
            (read_ipv6-compressed a c.front c.back span.size front back long c.parts),
      )

abbrev pub longest : Ipv6 → Span
longest a =
    longest_zeros 0 (record { start = 0; size = 0 }) (record { start = 0; size = 0 }) (segments a)

show_ipv6-Reads : (a : Ipv6) → IsWords a → Reads a (show_ipv6 a)
unfolding show_ipv6
show_ipv6-Reads a h =
    let found = longest a in
    let all = join_hex (segments a) in
    if_rule (Reads a) (is_ipv4_mapped a) _ _
      (λ mapped. (
        NoQuad-colon (b':' ∷ (codes "ffff:" ++ show_ipv4 (low_half a))),
        read_ipv6-mapped a h mapped,
      ))
      (λ _.
        if_rule (Reads a) (ltb 1 found.size) _ _
          (λ some_zeros.
            let long = ltb→lt 1 found.size some_zeros in
            Compressed-Reads a found h long (longest_zeros-Compressed (segments a) long))
          (λ _.
            subst (Reads a) (append-nil all)
              (NoQuad-join_hex (segments a) [] (segments-Words a h) tt, read_ipv6-join_hex a h)))

-- An IPv6 address survives printing and parsing.
pub parse_ip-show_ipv6 : (a : Ipv6) → IsWords a → parse_ip (show_ip (v6 a)) ≡ some (v6 a)
unfolding parse_ip show_ip
parse_ip-show_ipv6 a h =
    let (no_quad, read) = show_ipv6-Reads a h in
    rw (read_ipv4-NoQuad (show_ipv6 a) no_quad, read) refl
