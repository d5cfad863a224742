-- ===== src/Value.antt =====
-- Values of a dynamic type: what `yaml.safe_load` gives `PolicyEngine`, what a `dict[str, Any]` field
-- of src/domain/contracts/models.py holds, and what the checkout service answers.
-- A float is a count of ten-thousandths; an integer is a ℤ.
use ai_assisted_aws_incident.Prelude.{
  ℕ, Bool, true, false, not, String, List, [], ◌∷◌, Option, none, some, ◌==◌, if◌then◌else◌, eqb,
  is_blank,
}

-- `negsuc n` is -(n + 1).
pub data ℤ : Type 0 where
  pos : ℕ → ℤ
  negsuc : ℕ → ℤ

mutual
  pub data Value : Type 0 where
    null : Value
    boolean : Bool → Value
    int : ℤ → Value
    float : ℕ → Value
    text : String → Value
    list : Items → Value
    dict : Fields → Value

  pub data Items : Type 0 where
    nil : Items
    cons : Value → Items → Items

  pub data Fields : Type 0 where
    end : Fields
    field : String → Value → Fields → Fields

abbrev pub items : Items → List Value
items nil = []
items (cons v vs) = v ∷ items vs

-- `[text, …]`
abbrev pub text_items : List String → Items
text_items [] = nil
text_items (s ∷ r) = cons (text s) (text_items r)

-- `fields.get(key)`
abbrev pub get : String → Fields → Option Value
get key end = none
get key (field k v fs) = if k == key then some v else get key fs

-- `fields.get(key, default)`
abbrev pub get_or : String → Value → Fields → Value
get_or key default fs = elim (get key fs) [ none ↦ default | some v ↦ v ]

abbrev pub is_zero : ℤ → Bool
is_zero (pos n) = eqb n 0
is_zero (negsuc _) = false

-- `bool(v)`
unfoldable pub truthy : Value → Bool
truthy null = false
truthy (boolean b) = b
truthy (int n) = not (is_zero n)
truthy (float n) = not (eqb n 0)
truthy (text s) = not (is_blank s)
truthy (list nil) = false
truthy (list (cons _ _)) = true
truthy (dict end) = false
truthy (dict (field _ _ _)) = true

-- `isinstance(v, list)`, with the items.
abbrev pub as_list : Value → Option (List Value)
as_list (list vs) = some (items vs)
as_list _ = none

-- `isinstance(v, dict)`, with the fields.
abbrev pub as_dict : Value → Option Fields
as_dict (dict fs) = some fs
as_dict _ = none

-- `v is not None`, where a missing key reads as None.
abbrev pub present : Option Value → Option Value
present none = none
present (some null) = none
present (some v) = some v
