-- ===== src/Rdap/Vcard/Trimmed.antt =====
-- src/rdap.rs: the form of the text of a vCard property.
use rust_whois.Prelude.{
  ◌≡◌, ◌≢◌, refl, subst, List, [], ◌∷◌, ◌++◌, Option, none, some, or_else, All, if_rule,
}
use rust_whois.Text.{Str, is_whitespace, trim, NoEdge, EndsNot, trim-NoEdge}
use rust_whois.Rdap.Json.{
  Value, null, bool, number, string, array, object, as_array, nth, and_then, strings, to_list,
}
use rust_whois.Rdap.Vcard.{
  trimmed, join, unless_empty, text_of, named, first_property, entries_of, extract_vcard_property,
  eq_ignore_ascii_case,
}

-- Not empty, and with no white space at either end.
abbrev pub IsTrimmed : Str → Type 0
IsTrimmed s = (s ≢ []) × NoEdge s

abbrev TrimmedOrNone : Option Str → Type 0
TrimmedOrNone none = Unit
TrimmedOrNone (some s) = IsTrimmed s

EndsNot-append : (b : _) (s : Str) (c : _) (t : Str) → EndsNot b (c ∷ t) → EndsNot b (s ++ (c ∷ t))
EndsNot-append b [] c t h = h
EndsNot-append b (x ∷ []) c t h = h
EndsNot-append b (x ∷ y ∷ s) c t h = EndsNot-append b (y ∷ s) c t h

trimmed-IsTrimmed : (ss : List Str) → All IsTrimmed (trimmed ss)
unfolding trimmed
trimmed-IsTrimmed [] = tt
trimmed-IsTrimmed (s ∷ ss) = go (trim s) (trim-NoEdge s) (trimmed-IsTrimmed ss)
  where
    go :
        (t : Str)
        → NoEdge t
        → All IsTrimmed (trimmed ss)
        → All IsTrimmed (elim t [ [] ↦ trimmed ss | c ∷ u ↦ (c ∷ u) ∷ trimmed ss ])
    go [] h rest = rest
    go (c ∷ u) h rest = ((λ e. cc, h), rest)

spaced-IsTrimmed : (s t : Str) → IsTrimmed s → IsTrimmed t → IsTrimmed (s ++ (b' ' ∷ t))
spaced-IsTrimmed [] t (ne, _) ht = absurd (ne refl)
spaced-IsTrimmed (c ∷ s) [] hs (ne, _) = absurd (ne refl)
spaced-IsTrimmed (c ∷ s) (d ∷ t) (_, (starts, _)) (_, (_, ends)) =
    (λ e. cc, (starts, EndsNot-append is_whitespace (c ∷ s) b' ' (d ∷ t) ends))

join-IsTrimmed :
    (s : Str) (ss : List Str) → IsTrimmed s → All IsTrimmed ss → IsTrimmed (join (s ∷ ss))
unfolding join
join-IsTrimmed s [] h hs = h
join-IsTrimmed s (t ∷ ss) h (ht, hs) =
    spaced-IsTrimmed s (join (t ∷ ss)) h (join-IsTrimmed t ss ht hs)

unless_empty-trimmed : (s : Str) → NoEdge s → TrimmedOrNone (unless_empty s)
unless_empty-trimmed [] h = tt
unless_empty-trimmed (c ∷ s) h = (λ e. cc, h)

unless_empty-join : (ss : List Str) → All IsTrimmed ss → TrimmedOrNone (unless_empty (join ss))
unfolding join
unless_empty-join [] h = tt
unless_empty-join (s ∷ ss) (h, hs) =
    let (ne, edges) = join-IsTrimmed s ss h hs in unless_empty-trimmed (join (s ∷ ss)) edges

text_of-trimmed : (v : Option Value) → TrimmedOrNone (text_of v)
unfolding text_of
text_of-trimmed (some (string s)) = unless_empty-trimmed (trim s) (trim-NoEdge s)
text_of-trimmed (some (array parts)) =
    let texts = strings (to_list parts) in
    unless_empty-join (trimmed texts) (trimmed-IsTrimmed texts)
text_of-trimmed (some null) = tt
text_of-trimmed (some (bool b)) = tt
text_of-trimmed (some (number n)) = tt
text_of-trimmed (some (object fs)) = tt
text_of-trimmed none = tt

and_then-trimmed :
    {A : Type 0} (o : Option A) (f : A → Option Str)
    → ((a : A) → TrimmedOrNone (f a))
    → TrimmedOrNone (and_then o f)
and_then-trimmed none f h = tt
and_then-trimmed (some a) f h = h a

or_else-trimmed :
    (a b : Option Str) → TrimmedOrNone a → TrimmedOrNone b → TrimmedOrNone (or_else a b)
or_else-trimmed none b ha hb = hb
or_else-trimmed (some s) b ha hb = ha

named-trimmed : (property : Str) (fields : List Value) → TrimmedOrNone (named property fields)
named-trimmed property fields = and_then-trimmed _ _ (λ name.
    if_rule TrimmedOrNone (eq_ignore_ascii_case name property) _ _
      (λ _. text_of-trimmed (nth fields 3)) (λ _. tt))

first_property-trimmed :
    (property : Str) (entries : List Value) → TrimmedOrNone (first_property property entries)
unfolding first_property
first_property-trimmed property [] = tt
first_property-trimmed property (entry ∷ entries) =
    or_else-trimmed (and_then (as_array entry) (named property)) (first_property property entries)
      (and_then-trimmed _ _ (named-trimmed property)) (first_property-trimmed property entries)

property-trimmed :
    (vcard : Value) (property : Str) → TrimmedOrNone (extract_vcard_property vcard property)
unfolding extract_vcard_property
property-trimmed vcard property =
    and_then-trimmed (entries_of vcard) (first_property property) (first_property-trimmed property)

-- Whatever the vCard holds, the text of a property is never empty and has no white space at
-- either end, also where it is joined from the parts of a structured value.
pub extract_vcard_property-IsTrimmed :
    (vcard : Value) (property text : Str)
    → extract_vcard_property vcard property ≡ some text
    → IsTrimmed text
extract_vcard_property-IsTrimmed vcard property text e =
    subst TrimmedOrNone e (property-trimmed vcard property)
