-- ===== src/Store/Fallback.antt =====
-- `IncidentRepository` of apps/api/routers/incident_store/repository.py in its in-memory mode
-- (`_fallback_mode`): the dictionary holds the object itself, so that the caller who got it and the store
-- share it.
use ai_assisted_aws_incident.Prelude.{
  select, ◌∷◌, [], ◌==◌, take, List, ◌+◌, not, ◌+◌, ℕ, ◌≡◌, refl, ap, ◌∙◌, String, Option, none,
  some, eqb, if◌then◌else◌, eqb_iff,
}
use ai_assisted_aws_incident.Contracts.{IncidentRecord, IncidentState}
use ai_assisted_aws_incident.Dict.{Dict, lookup, insert, lookup-insert_self}
use ai_assisted_aws_incident.Store.{by_recency, first}
use ai_assisted_aws_incident.Store.Machine.{is_invalid}
use ai_assisted_aws_incident.Store.Transitions.{may_follow_iff, stay}

-- The objects by their addresses, and `_fallback_store`, whose values are addresses.
pub record Heap : Type 0 where
  pub objects : ℕ → IncidentRecord
  pub store : Dict ℕ

-- An assignment to fields of the object at an address.
abbrev pub assign : ℕ → (IncidentRecord → IncidentRecord) → Heap → Heap
assign ref f h = record h { objects = λ r. if eqb r ref then f (h.objects r) else h.objects r }

-- `get`
unfoldable pub get_fallback : String → Heap → Option ℕ
get_fallback incident_id h = lookup incident_id h.store

abbrev pub object_of : Option ℕ → Heap → Option IncidentRecord
object_of none h = none
object_of (some ref) h = some (h.objects ref)

-- The assignments of `upsert`: `previous` is read through its address, behind the one to `updated_at`.
abbrev pub write_version : Option ℕ → ℕ → Heap → Heap
write_version none ref h = h
write_version (some previous) ref h =
    assign ref (λ r. record r { version = (h.objects previous).version + 1 }) h

-- The assignments and the write of `upsert`, behind the validation.
unfoldable pub store_object : Option ℕ → ℕ → ℕ → Heap → Heap
store_object previous now ref h =
    let written = write_version previous ref (assign ref (λ r. record r { updated_at = now }) h) in
    record written { store = insert (h.objects ref).incident_id ref written.store }

-- `upsert` of the object at an address; `none` is the ValueError.
unfoldable pub upsert_fallback : ℕ → ℕ → Heap → Option Heap
unfolding get_fallback
upsert_fallback now ref h =
    let previous = get_fallback (h.objects ref).incident_id h in
    if is_invalid (object_of previous h) (h.objects ref)
    then none
    else some (store_object previous now ref h)

-- `_fallback_store.values()`
abbrev pub values : Dict ℕ → Heap → List IncidentRecord
values [] h = []
values ((_, ref) ∷ d) h = h.objects ref ∷ values d h

-- `list_recent`: the sort in reverse keeps the order of equal times, as `by_recency` does.
unfoldable pub list_recent_fallback : ℕ → Heap → List IncidentRecord
list_recent_fallback limit h = take limit (by_recency (values h.store h))

-- `get_by_dedupe_key`
unfoldable pub get_by_dedupe_key_fallback : String → Heap → Option IncidentRecord
get_by_dedupe_key_fallback dedupe_key h =
    first (by_recency (select (λ r. r.metadata.dedupe_key == dedupe_key) (values h.store h)))

assign_self :
    (ref : ℕ) (f : IncidentRecord → IncidentRecord) (h : Heap)
    → (assign ref f h).objects ref ≡ f (h.objects ref)
assign_self ref f h =
    ap (λ b. if b then f (h.objects ref) else h.objects ref) ((eqb_iff ref ref).1 refl)

assign-state :
    (ref : ℕ) (f : IncidentRecord → IncidentRecord) (h : Heap)
    → ((r : IncidentRecord) → (f r).state ≡ r.state)
    → ((assign ref f h).objects ref).state ≡ (h.objects ref).state
assign-state ref f h same = ap (λ r. r.state) (assign_self ref f h) ∙ same (h.objects ref)

-- An object that is stored already is accepted, in the state that it is in.
accepts_self :
    (now ref : ℕ) (h : Heap)
    → get_fallback (h.objects ref).incident_id h ≡ some ref
    → upsert_fallback now ref h ≡ some (store_object (some ref) now ref h)
unfolding upsert_fallback is_invalid
accepts_self now ref h found =
    ap
      (λ p.
        if is_invalid (object_of p h) (h.objects ref)
        then none
        else some (store_object p now ref h))
      found
    ∙ ap (λ b. if not b then none else some (store_object (some ref) now ref h))
        ((may_follow_iff _ _).1 stay)

store_object-state :
    (now ref : ℕ) (h : Heap)
    → ((store_object (some ref) now ref h).objects ref).state ≡ (h.objects ref).state
unfolding store_object
store_object-state now ref h =
    let stamped = assign ref (λ r. record r { updated_at = now }) h in
    assign-state ref (λ r. record r { version = (stamped.objects ref).version + 1 }) stamped
      (λ r. refl)
    ∙ assign-state ref (λ r. record r { updated_at = now }) h (λ r. refl)

stored :
    (id : String) (now ref : ℕ) (h : Heap)
    → (h.objects ref).incident_id ≡ id
    → get_fallback id (store_object (some ref) now ref h) ≡ some ref
unfolding store_object get_fallback
stored id now ref h named =
    ap (λ i. lookup id (insert i ref h.store)) named ∙ lookup-insert_self id ref h.store

-- Whoever gets an incident, sets its state, and stores it is never refused, whatever the two states:
-- the state that the validation compares with is the one that was just set.
pub upsert_fallback-accepts :
    (id : String) (now ref : ℕ) (s : IncidentState) (h : Heap)
    → get_fallback id h ≡ some ref
    → (h.objects ref).incident_id ≡ id
    → (h' : Heap) × (upsert_fallback now ref (assign ref (λ r. record r { state = s }) h) ≡ some h')
      × (get_fallback id h' ≡ some ref)
      × ((h'.objects ref).state ≡ s)
unfolding get_fallback
upsert_fallback-accepts id now ref s h found named =
    let set = assign ref (λ r. record r { state = s }) h in
    let self = assign_self ref (λ r. record r { state = s }) h in
    let named' : (set.objects ref).incident_id ≡ id = ap (λ r. r.incident_id) self ∙ named in
    (
      store_object (some ref) now ref set,
      accepts_self now ref set (ap (λ i. lookup i h.store) named' ∙ found),
      stored id now ref set named',
      store_object-state now ref set ∙ ap (λ r. r.state) self,
    )
