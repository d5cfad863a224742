-- ===== src/Glob.antt =====
-- `fnmatch.fnmatch` of Python's library on a POSIX system, where it does not fold case: `*`, `?`,
-- `[seq]`, `[!seq]`, over code points. An unclosed bracket stands for itself.
use ai_assisted_aws_incident.Prelude.{
  ℕ, zero, suc, Bool, true, false, not, ◌&&◌, ◌||◌, String, List, [], ◌∷◌, Option, none, some, eqb,
  leb, if◌then◌else◌, any, codes, length,
}

-- One unit of a pattern. `set negated ranges` is a bracket; a single character is a range.
pub data Token : Type 0 where
  star one : Token
  lit : ℕ → Token
  set : Bool → List (ℕ × ℕ) → Token

-- The text up to the closing bracket and the text behind it.
split_bracket : List ℕ → Option (List ℕ × List ℕ)
split_bracket [] = none
split_bracket (c ∷ cs) =
    if eqb c b']'
    then some ([], cs)
    else elim (split_bracket cs) [ none ↦ none | some (inner, rest) ↦ some (c ∷ inner, rest) ]

-- A `]` that stands first is a member.
split_set : List ℕ → Option (List ℕ × List ℕ)
unfolding split_bracket
split_set [] = none
split_set (c ∷ cs) =
    if eqb c b']'
    then elim (split_bracket cs) [ none ↦ none | some (inner, rest) ↦ some (c ∷ inner, rest) ]
    else split_bracket (c ∷ cs)

ranges : List ℕ → List (ℕ × ℕ)
ranges [] = []
ranges (a ∷ []) = (a, a) ∷ []
ranges (a ∷ b ∷ []) = (a, a) ∷ (b, b) ∷ []
ranges (a ∷ b ∷ c ∷ cs) =
    let as_range = (a, c) ∷ ranges cs in
    let as_single = (a, a) ∷ ranges (b ∷ c ∷ cs) in if eqb b b'-' then as_range else as_single

-- A bracket's content behind `[`: the token and what follows it.
read_set : List ℕ → Option (Token × List ℕ)
unfolding split_set ranges
read_set [] = none
read_set (c ∷ cs) =
    if eqb c b'!'
    then elim (split_set cs) [
      | none ↦ none
      | some (inner, rest) ↦ some (set true (ranges inner), rest)
    ]
    else elim (split_set (c ∷ cs)) [
      | none ↦ none
      | some (inner, rest) ↦ some (set false (ranges inner), rest)
    ]

-- The pattern as tokens; the fuel is the pattern's length, and every round reads a character.
tokens_from : ℕ → List ℕ → List Token
unfolding read_set
tokens_from zero cs = []
tokens_from (suc fuel) [] = []
tokens_from (suc fuel) (c ∷ cs) =
    let plain = tokens_from fuel cs in
    if eqb c b'*'
    then star ∷ plain
    else if eqb c b'?'
    then one ∷ plain
    else if eqb c b'['
    then elim (read_set cs) [
      | none ↦ lit c ∷ plain
      | some (token, rest) ↦ token ∷ tokens_from fuel rest
    ]
    else lit c ∷ plain

in_ranges : ℕ → List (ℕ × ℕ) → Bool
in_ranges c rs = any (λ r. leb r.0 c && leb c r.1) rs

matches_one : Token → ℕ → Bool
unfolding in_ranges
matches_one star c = false
matches_one one c = true
matches_one (lit d) c = eqb c d
matches_one (set negated rs) c = if negated then not (in_ranges c rs) else in_ranges c rs

-- Does some suffix of the text match?
some_suffix : (List ℕ → Bool) → List ℕ → Bool
some_suffix m [] = m []
some_suffix m (c ∷ cs) = m (c ∷ cs) || some_suffix m cs

-- The tail of the text behind one character that fits.
after_one : (ℕ → Bool) → (List ℕ → Bool) → List ℕ → Bool
after_one fits m [] = false
after_one fits m (c ∷ cs) = fits c && m cs

nothing_left : List ℕ → Bool
nothing_left [] = true
nothing_left (_ ∷ _) = false

pub glob : List Token → List ℕ → Bool
unfolding matches_one some_suffix after_one nothing_left
glob [] cs = nothing_left cs
glob (star ∷ ts) cs = some_suffix (glob ts) cs
glob (one ∷ ts) cs = after_one (matches_one one) (glob ts) cs
glob (lit d ∷ ts) cs = after_one (matches_one (lit d)) (glob ts) cs
glob (set negated rs ∷ ts) cs = after_one (matches_one (set negated rs)) (glob ts) cs

-- `fnmatch.fnmatch(name, pattern)`
unfoldable pub fnmatch : String → String → Bool
unfolding glob tokens_from
fnmatch name pattern = glob (tokens_from (length (codes pattern)) (codes pattern)) (codes name)
