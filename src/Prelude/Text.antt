-- ===== src/Prelude/Text.antt =====
-- The text operations that the program uses of Python's `str`: `lower` (letters A to Z; a text with
-- cased letters beyond ASCII is out of the model), `strip` (the white space of `str.isspace`) and
-- `in` on texts.
use Prim.Native.Nat.{ℕ, ◌-◌}
use Prim.Native.Char.{Char, code}
use Prim.Native.String
use Prim.Native.String.{String, [], ◌∷◌, char_at}
use mathlib.Core.Bool.{Bool, true, false, ◌&&◌, ◌||◌}
use mathlib.Core.List.{List}
use text.Mathlib.Text.{find?}
use ai_assisted_aws_incident.Prelude.Tests.{leb, eqb, if◌then◌else◌, is_some}

-- The code points of a text.
abbrev pub codes : String → List ℕ
codes [] = List.[]
codes (c ∷ s) = List.◌∷◌ (code c) (codes s)

unfoldable pub lower_char : Char → Char
lower_char c =
    if leb b'A' (code c) && leb (code c) b'Z'
    then char_at "abcdefghijklmnopqrstuvwxyz" (code c - b'A')
    else c

-- `s.lower()`
unfoldable pub lower : String → String
unfolding lower_char
lower [] = []
lower (c ∷ s) = lower_char c ∷ lower s

unfoldable pub is_space : Char → Bool
is_space c =
    let n = code c in
    (leb 9 n && leb n 13)
    || (leb 28 n && leb n 32)
    || eqb n 0x85
    || eqb n 0xa0
    || eqb n 0x1680
    || (leb 0x2000 n && leb n 0x200a)
    || eqb n 0x2028
    || eqb n 0x2029
    || eqb n 0x202f
    || eqb n 0x205f
    || eqb n 0x3000

unfoldable pub strip_left : String → String
unfolding is_space
strip_left [] = []
strip_left (c ∷ s) = if is_space c then strip_left s else c ∷ s

cons_unless_blank : Char → String → String
unfolding is_space
cons_unless_blank c [] = if is_space c then [] else c ∷ []
cons_unless_blank c (d ∷ s) = c ∷ d ∷ s

-- A trailing run of white space is dropped.
unfoldable pub strip_right : String → String
unfolding cons_unless_blank
strip_right [] = []
strip_right (c ∷ s) = cons_unless_blank c (strip_right s)

-- `s.strip()`
unfoldable pub strip : String → String
unfolding strip_left strip_right
strip s = strip_right (strip_left s)

-- `part in s`
abbrev pub has_part : String → String → Bool
has_part part s = is_some (find? s part)

-- An f-string's pieces, joined.
abbrev pub concat : List String → String
concat List.[] = []
concat (List.◌∷◌ s r) = String.◌++◌ s (concat r)

-- `"\n".join(lines)`
abbrev pub join_lines : List String → String
join_lines List.[] = []
join_lines (List.◌∷◌ s List.[]) = s
join_lines (List.◌∷◌ s (List.◌∷◌ t r)) =
    String.◌++◌ s (String.◌++◌ "\n" (join_lines (List.◌∷◌ t r)))

-- A text that is not empty is truthy; `s or d`.
abbrev pub or_text : String → String → String
or_text [] d = d
or_text (c ∷ s) d = c ∷ s

abbrev pub is_blank : String → Bool
is_blank [] = true
is_blank (_ ∷ _) = false
