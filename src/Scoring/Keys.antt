-- ===== src/Scoring/Keys.antt =====
-- The distinct calls of a data set, and the repeated ones: `call_keys_seen` and `duplicate_calls` of
-- src/eval/replay/replay_runner.py.
use mathlib.Core.List.{Memᴰ}
use ai_assisted_aws_incident.Prelude.{
  ℕ, suc, ◌+◌, ◌≡◌, refl, sym, ap, subst, ◌⊎◌, inl, inr, Bool, true, false, String, List, [], ◌∷◌,
  ◌++◌, ◌==◌, length, length-append, map, arith, eq_iff, Bool-cases, if◌then◌else◌,
}
use ai_assisted_aws_incident.Scoring.{Fixture, call_key, is_seen, add_seen, count_if}

-- No text twice.
abbrev pub Unique : List String → Type 0
Unique [] = Unit
Unique (x ∷ xs) = ¬ Memᴰ x xs × Unique xs

is_seen-Memᴰ : (k : String) (seen : List String) → is_seen k seen ≡ true → Memᴰ k seen
is_seen-Memᴰ k [] h = cc
is_seen-Memᴰ k (x ∷ seen) h = elim (Bool-cases (x == k)) [
  | inl same ↦ Memᴰ.head (sym ((eq_iff x k).0 same))
  | inr other ↦ Memᴰ.tail (is_seen-Memᴰ k seen (ground (arith, other, h)))
]

not_seen-Memᴰ : (k : String) (seen : List String) → is_seen k seen ≡ false → ¬ Memᴰ k seen
not_seen-Memᴰ k [] h m = elim m [ ]
not_seen-Memᴰ k (x ∷ seen) h (Memᴰ.head e) =
    let same : (x == k) ≡ true = (eq_iff x k).1 (sym e) in absurd (ground (arith, same, h))
not_seen-Memᴰ k (x ∷ seen) h (Memᴰ.tail m) = not_seen-Memᴰ k seen (ground (arith, h)) m

Memᴰ-front : (x k : String) (seen : List String) → Memᴰ x seen → Memᴰ x (seen ++ k ∷ [])
Memᴰ-front x k [] m = elim m [ ]
Memᴰ-front x k (y ∷ seen) (Memᴰ.head e) = Memᴰ.head e
Memᴰ-front x k (y ∷ seen) (Memᴰ.tail m) = Memᴰ.tail (Memᴰ-front x k seen m)

Memᴰ-back : (k : String) (seen : List String) → Memᴰ k (seen ++ k ∷ [])
Memᴰ-back k [] = Memᴰ.head refl
Memᴰ-back k (y ∷ seen) = Memᴰ.tail (Memᴰ-back k seen)

Memᴰ-split :
    (x k : String) (seen : List String) → Memᴰ x (seen ++ k ∷ []) → Memᴰ x seen ⊎ Memᴰ x (k ∷ [])
Memᴰ-split x k [] m = inr m
Memᴰ-split x k (y ∷ seen) (Memᴰ.head e) = inl (Memᴰ.head e)
Memᴰ-split x k (y ∷ seen) (Memᴰ.tail m) = elim (Memᴰ-split x k seen m) [
  | inl there ↦ inl (Memᴰ.tail there)
  | inr last ↦ inr last
]

Memᴰ-only : (x k : String) → Memᴰ x (k ∷ []) → x ≡ k
Memᴰ-only x k (Memᴰ.head e) = e
Memᴰ-only x k (Memᴰ.tail m) = elim m [ ]

Unique-append :
    (k : String) (seen : List String) → ¬ Memᴰ k seen → Unique seen → Unique (seen ++ k ∷ [])
Unique-append k [] new u = ((λ m. elim m [ ]), tt)
Unique-append k (y ∷ seen) new (first, u) = (
  λ m. elim (Memᴰ-split y k seen m) [
    | inl there ↦ first there
    | inr last ↦ new (Memᴰ.head (sym (Memᴰ-only y k last)))
  ],
  Unique-append k seen (λ m. new (Memᴰ.tail m)) u,
)

-- What counting the keys does to the duplicates and the keys that were seen.
pub record Keyed (keys : List String) (d : ℕ) (seen : List String) (d' : ℕ) (seen' : List String)
    : Type 0 where
  pub total : d' + length seen' ≡ d + length seen + length keys
  pub unique : Unique seen → Unique seen'
  pub kept : (k : String) → Memᴰ k seen → Memᴰ k seen'
  pub added : (k : String) → Memᴰ k keys → Memᴰ k seen'
  pub only : (k : String) → Memᴰ k seen' → Memᴰ k seen ⊎ Memᴰ k keys

pub Keyed-none : (d : ℕ) (seen : List String) → Keyed [] d seen d seen
Keyed-none d seen = record {
  total = omega arith;
  unique = λ u. u;
  kept = λ k m. m;
  added = λ k m. elim m [ ];
  only = λ k m. inl m;
}

Keyed-one_at :
    (key : String) (d : ℕ) (seen : List String) (b : Bool)
    → is_seen key seen ≡ b
    → Keyed (key ∷ []) d seen (count_if b d) (if b then seen else seen ++ key ∷ [])
Keyed-one_at key d seen true h = record {
  total = omega arith;
  unique = λ u. u;
  kept = λ k m. m;
  added = λ k m. subst (λ x. Memᴰ x seen) (sym (Memᴰ-only k key m)) (is_seen-Memᴰ key seen h);
  only = λ k m. inl m;
}
Keyed-one_at key d seen false h = record {
  total = omega (arith, length-append seen (key ∷ []));
  unique = Unique-append key seen (not_seen-Memᴰ key seen h);
  kept = λ k. Memᴰ-front k key seen;
  added =
      λ k m. subst (λ x. Memᴰ x (seen ++ key ∷ [])) (sym (Memᴰ-only k key m)) (Memᴰ-back key seen);
  only = λ k. Memᴰ-split k key seen;
}

pub Keyed-one :
    (key : String) (d : ℕ) (seen : List String)
    → Keyed (key ∷ []) d seen (count_if (is_seen key seen) d) (add_seen key seen)
Keyed-one key d seen = Keyed-one_at key d seen (is_seen key seen) refl

pub Keyed-next :
    {key : String} {keys : List String} {d e f : ℕ} {seen more most : List String}
    → Keyed (key ∷ []) d seen e more
    → Keyed keys e more f most
    → Keyed (key ∷ keys) d seen f most
Keyed-next {key} {keys} {most = most} a b = record {
  total = omega (arith, a.total, b.total);
  unique = λ u. b.unique (a.unique u);
  kept = λ k m. b.kept k (a.kept k m);
  added = λ k m. in_front k m;
  only = λ k m. elim (b.only k m) [
    | inr later ↦ inr (Memᴰ.tail later)
    | inl before ↦ elim (a.only k before) [
      | inl first ↦ inl first
      | inr here ↦ inr (Memᴰ.head (Memᴰ-only k key here))
    ]
  ];
}
  where
    in_front : (k : String) → Memᴰ k (key ∷ keys) → Memᴰ k most
    in_front k (Memᴰ.head e) = b.kept k (a.added k (Memᴰ.head e))
    in_front k (Memᴰ.tail m) = b.added k m

pub length-keys : (fs : List Fixture) → length (map call_key fs) ≡ length fs
length-keys [] = refl
length-keys (f ∷ fs) = ap suc (length-keys fs)

-- The calls of a data set, each once.
pub record Distinct (fs : List Fixture) (keys : List String) : Type 0 where
  pub unique : Unique keys
  pub complete : (k : String) → Memᴰ k (map call_key fs) → Memᴰ k keys
  pub only : (k : String) → Memᴰ k keys → Memᴰ k (map call_key fs)

pub Keyed-Distinct :
    (fs : List Fixture) {d : ℕ} {keys : List String}
    → Keyed (map call_key fs) 0 [] d keys
    → Distinct fs keys
Keyed-Distinct fs h = record {
  unique = h.unique tt;
  complete = h.added;
  only = λ k m. elim (h.only k m) [ inl never ↦ elim never [ ] | inr there ↦ there ];
}
