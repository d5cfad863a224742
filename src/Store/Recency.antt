-- ===== src/Store/Recency.antt =====
-- The newest of the rows of a dedupe key: `get_by_dedupe_key` of
-- apps/api/routers/incident_store/repository.py.
use mathlib.Core.List.{Memᴰ}
use ai_assisted_aws_incident.Prelude.{
  ◌≡◌, ◌≢◌, ◌≤◌, refl, sym, ap, ◌∙◌, subst, inl, inr, Bool, true, String, Option, none, some, List,
  [], ◌∷◌, ◌==◌, arith, Bool-cases, Option-cases, eq_iff, select, All, if◌then◌else◌, leb,
}
use ai_assisted_aws_incident.Contracts.{IncidentRecord}
use ai_assisted_aws_incident.Store.{by_recency, insert_recent, first}

-- A row that no other one is newer than.
record IsNewest (r : IncidentRecord) (rs : List IncidentRecord) : Type 0 where
  member : Memᴰ r rs
  newest : All (λ s. s.updated_at ≤ r.updated_at) rs

abbrev later : IncidentRecord → Option IncidentRecord → IncidentRecord
later x none = x
later x (some s) = if leb s.updated_at x.updated_at then x else s

first-insert_recent :
    (x : IncidentRecord) (rs : List IncidentRecord)
    → first (insert_recent x rs) ≡ some (later x (first rs))
unfolding insert_recent
first-insert_recent x [] = refl
first-insert_recent x (s ∷ rs) = ground arith

by_recency-none : (rs : List IncidentRecord) → first (by_recency rs) ≡ none → rs ≡ []
unfolding by_recency
by_recency-none [] h = refl
by_recency-none (x ∷ rs) h =
    let e = first-insert_recent x (by_recency rs) in absurd (ground (arith, e, h))

module _ {P Q : IncidentRecord → Type 0} (f : (r : IncidentRecord) → P r → Q r) where
  All-weaken : (rs : List IncidentRecord) → All P rs → All Q rs
  All-weaken [] hs = tt
  All-weaken (r ∷ rs) (p, hs) = (f r p, All-weaken rs hs)

later-IsNewest :
    (x s : IncidentRecord) (rs : List IncidentRecord)
    → IsNewest s rs
    → IsNewest (later x (some s)) (x ∷ rs)
later-IsNewest x s rs n = elim (Bool-cases (leb s.updated_at x.updated_at)) [
  | inl newer ↦
      subst (λ r. IsNewest r (x ∷ rs)) (sym (rw newer refl))
        (record {
          member = Memᴰ.head refl;
          newest = (omega arith, All-weaken (λ r p. ground (arith, newer)) rs n.newest);
        })
  | inr older ↦
      subst (λ r. IsNewest r (x ∷ rs)) (sym (rw older refl))
        (record { member = Memᴰ.tail n.member; newest = (ground (arith, older), n.newest) })
]

by_recency-IsNewest :
    (rs : List IncidentRecord) (r : IncidentRecord) → first (by_recency rs) ≡ some r → IsNewest r rs
unfolding by_recency
by_recency-IsNewest [] r h = absurd (ground arith)
by_recency-IsNewest (x ∷ rs) r h =
    let e : later x (first (by_recency rs)) ≡ r =
      ground (arith, first-insert_recent x (by_recency rs), h) in
    elim (Option-cases (first (by_recency rs))) [
      | inl alone ↦
          let empty = by_recency-none rs alone in
          let x_r : x ≡ r = ap (later x) (sym alone) ∙ e in
          subst (λ y. IsNewest y (x ∷ rs)) x_r
            (subst (λ ys. IsNewest x (x ∷ ys)) (sym empty)
              (record { member = Memᴰ.head refl; newest = (omega arith, tt) }))
      | inr (s, there) ↦
          subst (λ y. IsNewest y (x ∷ rs)) (ap (later x) (sym there) ∙ e)
            (later-IsNewest x s rs (by_recency-IsNewest rs s there))
    ]

Memᴰ-kept :
    (p : IncidentRecord → Bool) (r x : IncidentRecord) (rs kept : List IncidentRecord)
    → p x ≡ true
    → (Memᴰ r kept → Memᴰ r rs × (p r ≡ true))
    → Memᴰ r (x ∷ kept)
    → Memᴰ r (x ∷ rs) × (p r ≡ true)
Memᴰ-kept p r x rs kept h more (Memᴰ.head e) = (Memᴰ.head e, ap p e ∙ h)
Memᴰ-kept p r x rs kept h more (Memᴰ.tail t) =
    let (there, holds) = more t in (Memᴰ.tail there, holds)

Memᴰ-selected :
    (p : IncidentRecord → Bool) (r : IncidentRecord) (rs : List IncidentRecord)
    → Memᴰ r (select p rs)
    → Memᴰ r rs × (p r ≡ true)
Memᴰ-selected p r [] m = elim m [ ]
Memᴰ-selected p r (x ∷ rs) m = elim (Bool-cases (p x)) [
  | inl kept ↦ Memᴰ-kept p r x rs (select p rs) kept (Memᴰ-selected p r rs) (rw kept at m)
  | inr dropped ↦
      let (there, holds) = Memᴰ-selected p r rs (rw dropped at m) in (Memᴰ.tail there, holds)
]

module _ (p : IncidentRecord → Bool) (Q : IncidentRecord → Type 0) where
  All-selected : (rs : List IncidentRecord) → All Q (select p rs) → All (λ s. p s ≡ true → Q s) rs
  All-selected [] hs = tt
  All-selected (x ∷ rs) hs = elim (Bool-cases (p x)) [
    | inl kept ↦
        let (q, more) : Q x × All Q (select p rs) = rw kept at hs in
        ((λ _. q), All-selected rs more)
    | inr dropped ↦ ((λ h. absurd (ground (arith, dropped))), All-selected rs (rw dropped at hs))
  ]

-- The newest row of a key.
pub record Newest (key : String) (table : List IncidentRecord) (found : IncidentRecord)
    : Type 0 where
  pub stored : Memᴰ found table
  pub own : found.metadata.dedupe_key ≡ key
  pub newest : All (λ s. s.metadata.dedupe_key ≡ key → s.updated_at ≤ found.updated_at) table

module _ (key : String) (table : List IncidentRecord) where
  abbrev has : IncidentRecord → Bool
  has s = s.metadata.dedupe_key == key

  pub first-Newest :
      (found : IncidentRecord)
      → first (by_recency (select has table)) ≡ some found
      → Newest key table found
  first-Newest found h =
      let n = by_recency-IsNewest (select has table) found h in
      let (stored, own) = Memᴰ-selected has found table n.member in
      record {
        stored = stored;
        own = (eq_iff found.metadata.dedupe_key key).0 own;
        newest =
            All-weaken (λ s q e. q ((eq_iff s.metadata.dedupe_key key).1 e)) table
              (All-selected has (λ s. s.updated_at ≤ found.updated_at) table n.newest);
      }

  pub first-missing :
      first (by_recency (select has table)) ≡ none → All (λ s. s.metadata.dedupe_key ≢ key) table
  first-missing h =
      All-weaken (λ s q e. q ((eq_iff s.metadata.dedupe_key key).1 e)) table
        (All-selected has (λ _. ⊥) table (subst (All (λ _. ⊥)) (sym (by_recency-none _ h)) tt))
