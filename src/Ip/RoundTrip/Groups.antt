-- ===== src/Ip/RoundTrip/Groups.antt =====
-- Groups of an IPv6 address, read back.
use rust_whois.Prelude.{
  ℕ, zero, suc, ◌+◌, ◌≤◌, ◌<◌, ◌≡◌, refl, ap, ◌∙◌, true, false, List, [], ◌∷◌, ◌++◌, Option, none,
  some, arith, ltb, All, length, if_rule, ◌*◌,
}
use rust_whois.Text.{Str}
use rust_whois.Ip.Addr.{Ipv4}
use rust_whois.Ip.Parse.{
  digit_value, read_digits, read_number, read_given_char, read_ipv4, separated, Groups, read_groups,
}
use rust_whois.Ip.Show.{show_hex}
use rust_whois.Ip.RoundTrip.Hex.{NoHex, read_number-show_hex}
use rust_whois.Ip.RoundTrip.NoQuad.{NoQuad, NoQuad-show_hex, NoQuad-colon, read_ipv4-NoQuad}

abbrev pub Words : List ℕ → Type 0
Words = All (λ g. g < 65536)

-- A group at a slot has a colon before it, but for the first one.
abbrev pub at_slot : ℕ → Str → Str
at_slot zero s = s
at_slot (suc i) s = b':' ∷ s

abbrev pub groups_text : ℕ → List ℕ → Str → Str
groups_text i [] r = r
groups_text i (g ∷ gs) r = at_slot i (show_hex g ++ groups_text (suc i) gs r)

separated-at_slot :
    {A : Type 0} (i : ℕ) (inner : Str → Option (A × Str)) (s : Str)
    → separated i inner (at_slot i s) ≡ inner s
unfolding read_given_char
separated-at_slot zero inner s = refl
separated-at_slot (suc i) inner s = refl

-- No group.
abbrev pub no_groups : Str → Groups
no_groups r = record { groups = []; ends_in_ipv4 = false; rest = r }

-- The index of the slot matters only for whether it is the first one.
pub groups_text-shift :
    (i j : ℕ) (gs : List ℕ) (r : Str) → groups_text (suc i) gs r ≡ groups_text (suc j) gs r
groups_text-shift i j [] r = refl
groups_text-shift i j (g ∷ gs) r =
    ap (λ s. b':' ∷ (show_hex g ++ s)) (groups_text-shift (suc i) (suc j) gs r)

-- A rest that ends the groups: no group of either kind can be read on it.
pub record Ends (r : Str) : Type 0 where
  pub no_hex : NoHex r
  pub no_quad : NoQuad r
  pub stops : (slots i : ℕ) → read_groups slots i r ≡ no_groups r

pub NoHex-colon : (s : Str) → NoHex (b':' ∷ s)
unfolding digit_value
NoHex-colon s = omega arith

read_number-NoHex : (s : Str) → NoHex s → read_number 16 4 true 65536 s ≡ none
unfolding read_number read_digits
read_number-NoHex [] h = refl
read_number-NoHex (c ∷ s) h = ground arith

NoHex-groups_text : (i : ℕ) (gs : List ℕ) (r : Str) → NoHex r → NoHex (groups_text (suc i) gs r)
NoHex-groups_text i [] r h = h
NoHex-groups_text i (g ∷ gs) r h = NoHex-colon (show_hex g ++ groups_text (suc (suc i)) gs r)

pub NoQuad-groups_text :
    (i : ℕ) (gs : List ℕ) (r : Str) → NoQuad r → NoQuad (groups_text (suc i) gs r)
NoQuad-groups_text i [] r h = h
NoQuad-groups_text i (g ∷ gs) r h = NoQuad-colon (show_hex g ++ groups_text (suc (suc i)) gs r)

-- A slot: the two groups of an embedded address, or else what there is without one.
abbrev pub embedded_or : Groups → Option (Ipv4 × Str) → Groups
embedded_or otherwise (some (a, s)) = record {
  groups = (a.o0 * 256 + a.o1) ∷ (a.o2 * 256 + a.o3) ∷ [];
  ends_in_ipv4 = true;
  rest = s;
}
embedded_or otherwise none = otherwise

abbrev pub group_or : ℕ → ℕ → Str → Option (ℕ × Str) → Groups
group_or slots i s none = no_groups s
group_or slots i s (some (g, s')) =
    let later = read_groups slots (suc i) s' in record later { groups = g ∷ later.groups }

read_groups-no_quad :
    (slots i : ℕ) (s : Str)
    → separated i read_ipv4 s ≡ none
    → read_groups (suc slots) i s ≡ group_or slots i s (separated i (read_number 16 4 true 65536) s)
unfolding read_groups
read_groups-no_quad slots i s h =
    let otherwise = group_or slots i s (separated i (read_number 16 4 true 65536) s) in
    if_rule (λ o. embedded_or otherwise o ≡ otherwise) (ltb 0 slots) (separated i read_ipv4 s) none
      (λ _. rw h refl) (λ _. refl)

-- One group in hexadecimal, and those behind it.
pub read_groups-∷ :
    (slots i g : ℕ) (s : Str) (later : Groups)
    → g < 65536
    → NoHex s
    → NoQuad s
    → read_groups slots (suc i) s ≡ later
    → read_groups (suc slots) i (at_slot i (show_hex g ++ s))
      ≡ record later { groups = g ∷ later.groups }
read_groups-∷ slots i g s later fits no_hex no_quad e =
    let none_embedded =
      separated-at_slot i read_ipv4 (show_hex g ++ s)
      ∙ read_ipv4-NoQuad (show_hex g ++ s) (NoQuad-show_hex g s fits no_quad) in
    let group =
      separated-at_slot i (read_number 16 4 true 65536) (show_hex g ++ s)
      ∙ read_number-show_hex s no_hex g fits in
    read_groups-no_quad slots i _ none_embedded
    ∙ ap (group_or slots i (at_slot i (show_hex g ++ s))) group
    ∙ ap (λ (l : Groups). record l { groups = g ∷ l.groups }) e

pub read_groups-groups_text :
    (slots i : ℕ) (gs : List ℕ) (r : Str)
    → Words gs
    → length gs ≤ slots
    → Ends r
    → read_groups slots i (groups_text i gs r)
      ≡ record { groups = gs; ends_in_ipv4 = false; rest = r }
read_groups-groups_text slots i [] r words fits ends = ends.stops slots i
read_groups-groups_text zero i (g ∷ gs) r words fits ends = absurd (omega arith)
read_groups-groups_text (suc slots) i (g ∷ gs) r (word, words) fits ends =
    read_groups-∷ slots i g (groups_text (suc i) gs r) _ word (NoHex-groups_text i gs r ends.no_hex)
      (NoQuad-groups_text i gs r ends.no_quad)
      (read_groups-groups_text slots (suc i) gs r words (omega arith) ends)

-- The two rests that a printed address has.
none-no_groups :
    (slots i : ℕ) (s : Str)
    → separated i read_ipv4 s ≡ none
    → separated i (read_number 16 4 true 65536) s ≡ none
    → read_groups slots i s ≡ no_groups s
unfolding read_groups
none-no_groups zero i s h k = refl
none-no_groups (suc slots) i s h k = read_groups-no_quad slots i s h ∙ ap (group_or slots i s) k

pub Ends-[] : Ends []
unfolding read_given_char read_ipv4 read_number
Ends-[] = record { no_hex = tt; no_quad = tt; stops = go }
  where
    go : (slots i : ℕ) → read_groups slots i [] ≡ no_groups []
    go slots zero = none-no_groups slots zero [] refl refl
    go slots (suc i) = none-no_groups slots (suc i) [] refl refl

pub Ends-colons : (s : Str) → Ends (b':' ∷ b':' ∷ s)
unfolding read_given_char
Ends-colons s = record {
  no_hex = NoHex-colon (b':' ∷ s);
  no_quad = NoQuad-colon (b':' ∷ s);
  stops = go;
}
  where
    go : (slots i : ℕ) → read_groups slots i (b':' ∷ b':' ∷ s) ≡ no_groups (b':' ∷ b':' ∷ s)
    go slots zero =
        none-no_groups slots zero (b':' ∷ b':' ∷ s) (read_ipv4-NoQuad _ (NoQuad-colon (b':' ∷ s)))
          (read_number-NoHex (b':' ∷ b':' ∷ s) (NoHex-colon (b':' ∷ s)))
    go slots (suc i) =
        none-no_groups slots (suc i) (b':' ∷ b':' ∷ s)
          (read_ipv4-NoQuad (b':' ∷ s) (NoQuad-colon s))
          (read_number-NoHex (b':' ∷ s) (NoHex-colon s))
