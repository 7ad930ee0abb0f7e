-- ===== src/Text/Lines.antt =====
-- `str::lines`.
use rust_whois.Prelude.{ℕ, Bool, false, ◌&&◌, List, [], ◌∷◌, ◌==◌, if◌then◌else◌}
use rust_whois.Text.Compare.{Str}

abbrev before_line : ℕ → List Str → List Str
before_line c [] = (c ∷ []) ∷ []
before_line c (l ∷ ls) = (c ∷ l) ∷ ls

abbrev at_newline : Str → Bool
at_newline [] = false
at_newline (c ∷ s) = c == b'\n'

-- `s.lines()`: a line ends at "\n" or "\r\n", and the last one may lack its end.
unfoldable pub lines : Str → List Str
lines [] = []
lines (c ∷ s) =
    let rest = lines s in
    if c == b'\n'
    then [] ∷ rest
    else if c == b'\r' && at_newline s
    then rest
    else before_line c rest
