-- ===== src/Db/Laws.antt =====
-- The placeholders of the queries of internal/db/db.go, and which databases are opened.
use Prim.Native.Char.{Char, code}
use Prim.Native.String.{◌++◌}
use text.Mathlib.TextLemmas.{nil-append, cons-append}
use tinydm.Prelude.{ℕ, ◌+◌, ◌≡◌, ◌≢◌, refl, ◌∙◌, ap, sym, String, false, List, [], ◌∷◌, eqb, arith}
use tinydm.Prelude.Int.{pos}
use tinydm.Strconv.{itoa}
use tinydm.Db.{numbered, rebind}

-- A text without placeholders
abbrev NoMark : String → Type 0
NoMark String.[] = Unit
NoMark (String.◌∷◌ c s) = (code c ≢ b'?') × NoMark s

abbrev AllNoMark : List String → Type 0
AllNoMark [] = Unit
AllNoMark (s ∷ ss) = NoMark s × AllNoMark ss

-- The parts of a query, with a placeholder before each, and with the numbers from `n` + 1 on.
unfoldable pub with_marks : List String → String
with_marks [] = ""
with_marks (s ∷ ss) = "?" ++ (s ++ with_marks ss)

unfoldable pub with_numbers : ℕ → List String → String
with_numbers n [] = ""
with_numbers n (s ∷ ss) = "$" ++ (itoa (pos (n + 1)) ++ (s ++ with_numbers (n + 1) ss))

not_mark : (n : ℕ) → n ≢ b'?' → eqb n b'?' ≡ false
not_mark n h = ground arith

other_char :
    (n : ℕ) (c : Char) (s : String)
    → code c ≢ b'?'
    → numbered n (String.◌∷◌ c s) ≡ String.◌∷◌ c (numbered n s)
unfolding numbered
other_char n c s h = rw (not_mark (code c) h) refl

mark-append : (s : String) → "?" ++ s ≡ String.◌∷◌ "?" s
mark-append s = cons-append "?" String.[] s ∙ ap (λ r. String.◌∷◌ "?" r) (nil-append s)

numbered-append : (n : ℕ) (s t : String) → NoMark s → numbered n (s ++ t) ≡ s ++ numbered n t
unfolding numbered
numbered-append n String.[] t h = ap (numbered n) (nil-append t) ∙ sym (nil-append (numbered n t))
numbered-append n (String.◌∷◌ c s) t (hc, h) =
    ap (numbered n) (cons-append c s t)
    ∙ other_char n c (s ++ t) hc
    ∙ ap (λ r. String.◌∷◌ c r) (numbered-append n s t h)
    ∙ sym (cons-append c s (numbered n t))

numbered-marks :
    (n : ℕ) (ss : List String) → AllNoMark ss → numbered n (with_marks ss) ≡ with_numbers n ss
unfolding numbered with_marks with_numbers
numbered-marks n [] h = refl
numbered-marks n (s ∷ ss) (hs, h) =
    ap (numbered n) (mark-append (s ++ with_marks ss))
    ∙ ap (λ r. "$" ++ (itoa (pos (n + 1)) ++ r))
        (numbered-append (n + 1) s (with_marks ss) hs
          ∙ ap (λ r. s ++ r) (numbered-marks (n + 1) ss h))

-- For PostgreSQL the placeholders of a query, between parts that have no question mark, become $1, $2
-- and so on, in their order; the parts stay.
pub rebind_postgres :
    (s : String) (ss : List String)
    → NoMark s
    → AllNoMark ss
    → rebind "postgres" (s ++ with_marks ss) ≡ s ++ with_numbers 0 ss
unfolding rebind
rebind_postgres s ss hs h =
    numbered-append 0 s (with_marks ss) hs ∙ ap (λ r. s ++ r) (numbered-marks 0 ss h)
