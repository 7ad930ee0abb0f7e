-- ===== src/Ip/RoundTrip/Runs.antt =====
-- The run of zero segments that is left out of a printed IPv6 address.
use mathlib.Core.List.{append_assoc, append-nil}
use rust_whois.Prelude.{
  ℕ, zero, suc, ◌+◌, ◌<◌, ◌≡◌, refl, sym, subst, ap, ◌∙◌, true, List, [], ◌∷◌, ◌++◌, arith, ltb,
  ◌==◌, Bool-cases, inl, inr, length, length-append, if◌then◌else◌, if_rule,
}
use rust_whois.Ip.Parse.{zeros}
use rust_whois.Ip.Show.{Span, longest_zeros, take, drop}

zeros-snoc : (n : ℕ) → zeros n ++ (0 ∷ []) ≡ zeros (suc n)
zeros-snoc zero = refl
zeros-snoc (suc n) = ap (λ xs. 0 ∷ xs) (zeros-snoc n)

length-snoc : (xs : List ℕ) (x : ℕ) → length (xs ++ (x ∷ [])) ≡ length xs + 1
length-snoc [] x = refl
length-snoc (y ∷ xs) x = let ih = length-snoc xs x in omega arith

-- A run of zeros in a list, where it starts, and what is before and behind it.
pub record IsRun (whole : List ℕ) (span : Span) : Type 0 where
  pub front : List ℕ
  pub back : List ℕ
  pub parts : whole ≡ front ++ (zeros span.size ++ back)
  pub starts : 0 < span.size → span.start ≡ length front

-- The run that ends where the loop is.
record IsCurrent (pre : List ℕ) (span : Span) : Type 0 where
  front : List ℕ
  parts : pre ≡ front ++ zeros span.size
  starts : 0 < span.size → span.start ≡ length front

abbrev extended : ℕ → Span → Span
extended i current = record {
  start = if current.size == 0 then i else current.start;
  size = current.size + 1;
}

pub length-zeros : (n : ℕ) → length (zeros n) ≡ n
length-zeros zero = refl
length-zeros (suc n) = let ih = length-zeros n in omega arith

extended-IsCurrent :
    (pre : List ℕ) (current : Span)
    → IsCurrent pre current
    → IsCurrent (pre ++ (0 ∷ [])) (extended (length pre) current)
extended-IsCurrent pre current h =
    let total : length pre ≡ length h.front + current.size =
      ap length h.parts
      ∙ length-append h.front (zeros current.size)
      ∙ ap (λ n. length h.front + n) (length-zeros current.size) in
    let one_more : suc current.size ≡ current.size + 1 = omega arith in
    record {
      front = h.front;
      parts =
          ap (λ xs. xs ++ (0 ∷ [])) h.parts
          ∙ append_assoc h.front (zeros current.size) (0 ∷ [])
          ∙ ap (λ xs. h.front ++ xs) (zeros-snoc current.size ∙ ap zeros one_more);
      starts = λ some_zeros. elim (Bool-cases (current.size == 0)) [
        | inl first ↦ rw first (ground arith)
        | inr later ↦ rw later (h.starts (ground arith))
      ];
    }

IsCurrent-IsRun :
    (pre ss : List ℕ) (current : Span) → IsCurrent pre current → IsRun (pre ++ ss) current
IsCurrent-IsRun pre ss current h = record {
  front = h.front;
  back = ss;
  parts = ap (λ xs. xs ++ ss) h.parts ∙ append_assoc h.front (zeros current.size) ss;
  starts = h.starts;
}

no-IsCurrent : (pre : List ℕ) → IsCurrent pre (record { start = 0; size = 0 })
no-IsCurrent pre = record {
  front = pre;
  parts = sym (append-nil pre);
  starts = λ h. absurd (omega arith);
}

abbrev current_after : ℕ → ℕ → Span → Span
current_after i s current = if s == 0 then extended i current else record { start = 0; size = 0 }

abbrev longest_after : ℕ → ℕ → Span → Span → Span
longest_after i s longest current =
    if s == 0
    then if ltb longest.size (extended i current).size then extended i current else longest
    else longest

module _ (pre ss : List ℕ) (s : ℕ) (longest current : Span) (now : IsCurrent pre current) where
  whole : (pre ++ (s ∷ [])) ++ ss ≡ pre ++ (s ∷ ss)
  whole = append_assoc pre (s ∷ []) ss

  zero-IsCurrent : (s == 0) ≡ true → IsCurrent (pre ++ (s ∷ [])) (extended (length pre) current)
  zero-IsCurrent is_zero =
      let nought : 0 ≡ s = ground arith in
      subst (λ x. IsCurrent (pre ++ (x ∷ [])) (extended (length pre) current)) nought
        (extended-IsCurrent pre current now)

  current_after-IsCurrent : IsCurrent (pre ++ (s ∷ [])) (current_after (length pre) s current)
  current_after-IsCurrent =
      if_rule (IsCurrent (pre ++ (s ∷ []))) (s == 0) _ _ zero-IsCurrent
        (λ _. no-IsCurrent (pre ++ (s ∷ [])))

  longest_after-IsRun :
      IsRun (pre ++ (s ∷ ss)) longest
      → IsRun ((pre ++ (s ∷ [])) ++ ss) (longest_after (length pre) s longest current)
  longest_after-IsRun run =
      let kept = subst (λ w. IsRun w longest) (sym whole) run in
      if_rule (IsRun ((pre ++ (s ∷ [])) ++ ss)) (s == 0) _ _
        (λ is_zero.
          if_rule (IsRun ((pre ++ (s ∷ [])) ++ ss))
            (ltb longest.size (extended (length pre) current).size) _ _
            (λ _. IsCurrent-IsRun (pre ++ (s ∷ [])) ss _ (zero-IsCurrent is_zero)) (λ _. kept))
        (λ _. kept)

-- What the loop finds is a run.
longest_zeros-IsRun :
    (pre ss : List ℕ) (longest current : Span)
    → IsRun (pre ++ ss) longest
    → IsCurrent pre current
    → IsRun (pre ++ ss) (longest_zeros (length pre) longest current ss)
unfolding longest_zeros
longest_zeros-IsRun pre [] longest current run now = run
longest_zeros-IsRun pre (s ∷ ss) longest current run now =
    let l = longest_after (length pre) s longest current in
    let c = current_after (length pre) s current in
    let later =
      longest_zeros-IsRun (pre ++ (s ∷ [])) ss l c
        (longest_after-IsRun pre ss s longest current now run)
        (current_after-IsCurrent pre ss s longest current now) in
    subst (λ w. IsRun w (longest_zeros (length pre + 1) l c ss)) (append_assoc pre (s ∷ []) ss)
      (subst (λ n. IsRun ((pre ++ (s ∷ [])) ++ ss) (longest_zeros n l c ss)) (length-snoc pre s)
        later)

take-front : (xs ys : List ℕ) → take (length xs) (xs ++ ys) ≡ xs
unfolding take
take-front [] ys = refl
take-front (x ∷ xs) ys = ap (λ zs. x ∷ zs) (take-front xs ys)

drop-front : (xs ys : List ℕ) → drop (length xs) (xs ++ ys) ≡ ys
unfolding drop
drop-front [] ys = refl
drop-front (x ∷ xs) ys = drop-front xs ys

-- A list with a run of zeros, and what is printed of it before and behind the run.
pub record Compressed (whole : List ℕ) (span : Span) : Type 0 where
  pub front : List ℕ
  pub back : List ℕ
  pub parts : whole ≡ front ++ (zeros span.size ++ back)
  pub take_front : take span.start whole ≡ front
  pub drop_back : drop (span.start + span.size) whole ≡ back

IsRun-Compressed : (xs : List ℕ) (span : Span) → 1 < span.size → IsRun xs span → Compressed xs span
IsRun-Compressed xs span long run =
    let starts = run.starts (omega arith) in
    let behind : span.start + span.size ≡ length (run.front ++ zeros span.size) = sym (
      length-append run.front (zeros span.size)
      ∙ ap (λ n. length run.front + n) (length-zeros span.size)
      ∙ ap (λ n. n + span.size) (sym starts)) in
    record {
      front = run.front;
      back = run.back;
      parts = run.parts;
      take_front = rw (run.parts, starts) (take-front run.front _);
      drop_back =
          rw (run.parts, behind, ← append_assoc run.front (zeros span.size) run.back)
            (drop-front (run.front ++ zeros span.size) run.back);
    }

pub longest_zeros-Compressed :
    (xs : List ℕ)
    → let found =
        longest_zeros 0 (record { start = 0; size = 0 }) (record { start = 0; size = 0 }) xs in
      1 < found.size → Compressed xs found
longest_zeros-Compressed xs long = IsRun-Compressed xs _ long (
    longest_zeros-IsRun [] xs _ _
      (record {
        front = xs;
        back = [];
        parts = sym (append-nil xs);
        starts = λ h. absurd (omega arith);
      })
      (no-IsCurrent []))
