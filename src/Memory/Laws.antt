-- ===== src/Memory/Laws.antt =====
-- Whose snippets a search finds.
use mathlib.Core.List.{Memᴰ}
use ai_assisted_aws_incident.Prelude.{
  none, ◌≡◌, refl, ap, sym, ◌∙◌, subst, ℕ, zero, suc, ◌+◌, ◌≤◌, Bool, true, false, not, String,
  some, List, [], ◌∷◌, ◌++◌, select, take, length, arith, Bool-cases, inl, inr, strip, is_blank,
  concat, ◌==◌, length-append,
}
use ai_assisted_aws_incident.Dict.{Dict, lookup, insert, lookup-insert_self}
use ai_assisted_aws_incident.Environ.{Environ, env_flag}
use ai_assisted_aws_incident.HotState
use ai_assisted_aws_incident.HotState.{HotState, active, with_active, set_text}
use ai_assisted_aws_incident.Value.{Fields, dict}
use ai_assisted_aws_incident.World.{World, fresh_id, ok}
use ai_assisted_aws_incident.Workflow.Loop.{index_incident_snippet, namespace_of}
use ai_assisted_aws_incident.Memory.{
  Option, contents, hits, rank, search, search_incident_memory, get_json, set_json,
}

Memᴰ-left : {A : Type 0} (x : A) (xs ys : List A) → Memᴰ x xs → Memᴰ x (xs ++ ys)
Memᴰ-left x [] ys m = elim m [ ]
Memᴰ-left x (y ∷ xs) ys (Memᴰ.head e) = Memᴰ.head e
Memᴰ-left x (y ∷ xs) ys (Memᴰ.tail m) = Memᴰ.tail (Memᴰ-left x xs ys m)

Memᴰ-right : {A : Type 0} (x : A) (xs ys : List A) → Memᴰ x ys → Memᴰ x (xs ++ ys)
Memᴰ-right x [] ys m = m
Memᴰ-right x (y ∷ xs) ys m = Memᴰ.tail (Memᴰ-right x xs ys m)

Memᴰ-select :
    {A : Type 0} (p : A → Bool) (x : A) (xs : List A)
    → p x ≡ true
    → Memᴰ x xs
    → Memᴰ x (select p xs)
Memᴰ-select p x [] h m = elim m [ ]
Memᴰ-select p x (y ∷ xs) h (Memᴰ.head e) = rw (ap p (sym e) ∙ h) (Memᴰ.head e)
Memᴰ-select p x (y ∷ xs) h (Memᴰ.tail m) = elim (Bool-cases (p y)) [
  | inl kept ↦ rw kept (Memᴰ.tail (Memᴰ-select p x xs h m))
  | inr dropped ↦ rw dropped (Memᴰ-select p x xs h m)
]

length-select :
    {A : Type 0} (p : A → Bool) (xs : List A)
    → length (select p xs) + length (select (λ x. not (p x)) xs) ≡ length xs
length-select p [] = refl
length-select p (x ∷ xs) = ground (arith, length-select p xs)

take-all : {A : Type 0} (n : ℕ) (xs : List A) → length xs ≤ n → take n xs ≡ xs
take-all zero [] h = refl
take-all (suc n) [] h = refl
take-all zero (x ∷ xs) h = absurd (omega (arith, h))
take-all (suc n) (x ∷ xs) h = ap (λ ys. x ∷ ys) (take-all n xs (omega (arith, h)))

rank-Memᴰ : (query x : String) (xs : List String) → Memᴰ x xs → Memᴰ x (rank query xs)
rank-Memᴰ query x xs m = elim (Bool-cases (hits query x)) [
  | inl hit ↦ Memᴰ-left x (select (hits query) xs) _ (Memᴰ-select (hits query) x xs hit m)
  | inr miss ↦
      Memᴰ-right x (select (hits query) xs) _
        (Memᴰ-select (λ c. not (hits query c)) x xs (ap not miss) m)
]

contents-insert :
    (k v : String) (d : Dict String)
    → Memᴰ v (contents (some (insert k v d)))
      × (length (contents (some (insert k v d))) ≤ suc (length (contents (some d))))
unfolding insert
contents-insert k v [] = (Memᴰ.head refl, omega arith)
contents-insert k v ((i, u) ∷ d) = elim (Bool-cases (i == k)) [
  | inl same ↦ rw same (Memᴰ.head refl, omega arith)
  | inr other ↦ let (m, n) = contents-insert k v d in rw other (Memᴰ.tail m, omega (arith, n))
]

length-rank : (query : String) (xs : List String) → length (rank query xs) ≡ length xs
length-rank query xs =
    length-append (select (hits query) xs) (select (λ c. not (hits query c)) xs)
    ∙ length-select (hits query) xs

-- A search whose limit takes them all finds each of the contents.
search-Memᴰ :
    (namespace query x : String) (limit : ℕ) (store : Dict (Dict String))
    → Memᴰ x (contents (lookup namespace store))
    → length (contents (lookup namespace store)) ≤ limit
    → Memᴰ x (search namespace query limit store)
unfolding search
search-Memᴰ namespace query x limit store m short =
    let all = contents (lookup namespace store) in
    subst (Memᴰ x)
      (sym (take-all limit (rank query all) (omega (arith, length-rank query all, short))))
      (rank-Memᴰ query x all m)

index_incident_snippet-memory :
    (env : Environ) (id snippet : String) (w : World)
    → env_flag env "WORKING_MEMORY_ENABLED" "true" ≡ true
    → is_blank (strip snippet) ≡ false
    → (index_incident_snippet env id snippet w).1.memory
      ≡ insert "incidents"
          (insert (concat ("wm:" ∷ id ∷ [])) snippet (namespace_of (lookup "incidents" w.memory)))
          w.memory
unfolding index_incident_snippet fresh_id
index_incident_snippet-memory env id snippet w on full = ground (arith, on, full)

length-contents : (d : Dict String) → length (contents (some d)) ≡ length d
length-contents [] = refl
length-contents ((_, _) ∷ d) = ap suc (length-contents d)

-- With the memory on, a snippet of one incident that is not blank is found by the search of any other incident,
-- for any query, if the limit takes all snippets and one more: a search ranks what it finds and
-- leaves out nothing.
pub search_incident_memory-index :
    (env : Environ) (id other query snippet : String) (limit : ℕ) (w : World)
    → env_flag env "WORKING_MEMORY_ENABLED" "true" ≡ true
    → is_blank (strip snippet) ≡ false
    → length (namespace_of (lookup "incidents" w.memory)) + 1 ≤ limit
    → Memᴰ snippet
        (search_incident_memory env other query limit (index_incident_snippet env id snippet w).1)
unfolding search_incident_memory
search_incident_memory-index env id other query snippet limit w on full short =
    let key = concat ("wm:" ∷ id ∷ []) in
    let before = namespace_of (lookup "incidents" w.memory) in
    let here = (index_incident_snippet env id snippet w).1 in
    let stored : contents (lookup "incidents" here.memory)
        ≡ contents (some (insert key snippet before)) =
      ap (λ m. contents (lookup "incidents" m))
        (index_incident_snippet-memory env id snippet w on full)
      ∙ ap contents (lookup-insert_self "incidents" (insert key snippet before) w.memory) in
    let (member, longer) = contents-insert key snippet before in
    let found =
      search-Memᴰ "incidents" (concat (other ∷ " " ∷ query ∷ [])) snippet limit here.memory
        (subst (Memᴰ snippet) (sym stored) member)
        (omega (arith, ap length stored, longer, length-contents before, short)) in
    rw on found

active-with : (h : HotState) (d : Dict String) → active (with_active h d) ≡ d
active-with h d = ground arith

set-got :
    (key payload : String) (h : HotState)
    → lookup key (active (with_active h (insert key payload (active h)))) ≡ some payload
set-got key payload h =
    ap (lookup key) (active-with h _) ∙ lookup-insert_self key payload (active h)

-- A value that is set and whose text reads back is got again.
get_json-set_json :
    (env : Environ) (key : String) (value : Fields) (expire_seconds : Option ℕ) (w : World)
    → env.loads (env.dumps_plain value) ≡ some (dict value)
    → get_json env key (set_json env key value expire_seconds w)
      ≡ (ok (some value), set_json env key value expire_seconds w)
unfolding get_json set_json set_text ai_assisted_aws_incident.HotState.get
get_json-set_json env key value none w reads =
    simp (set-got key (env.dumps_plain value) w.hot, reads)
get_json-set_json env key value (some expire_seconds) w reads =
    simp (set-got key (env.dumps_plain value) w.hot, reads)
