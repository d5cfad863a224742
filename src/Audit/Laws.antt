-- ===== src/Audit/Laws.antt =====
-- The audit lists the same events with the database and without, and an incident's own.
use ai_assisted_aws_incident.Prelude.{
  ℕ, zero, suc, ◌-◌, ◌≤◌, ◌<◌, ◌≡◌, refl, sym, ap, ◌∙◌, true, false, String, List, [], ◌∷◌, ◌++◌,
  ◌==◌, length, take, drop, arith, All, All-append, ◌⊎◌, inl, inr, length-append, eq_refl,
}
use ai_assisted_aws_incident.Value.{Fields}
use ai_assisted_aws_incident.Environ.{Environ}
use ai_assisted_aws_incident.World.{utcnow, ok, World, AuditEvent, append_audit, about}
use ai_assisted_aws_incident.Audit.{
  append_event, insert_desc, order_desc, reverse, last_events, list_events, get_incident_audit,
}

-- Each event is older than those behind it.
abbrev pub IsChronological : List AuditEvent → Type 0
IsChronological [] = Unit
IsChronological (e ∷ es) = All (λ d. e.created_at < d.created_at) es × IsChronological es

insert_desc-last :
    (e : AuditEvent) (ds : List AuditEvent)
    → All (λ d. e.created_at < d.created_at) ds
    → insert_desc e ds ≡ ds ++ e ∷ []
insert_desc-last e [] h = refl
insert_desc-last e (d ∷ ds) (h, hs) = ground (arith, insert_desc-last e ds hs)

All-reverse : (P : AuditEvent → Type 0) (es : List AuditEvent) → All P es → All P (reverse es)
All-reverse P [] h = tt
All-reverse P (e ∷ es) (h, hs) = All-append P (reverse es) (e ∷ []) (All-reverse P es hs) (h, tt)

order_desc-reverse : (es : List AuditEvent) → IsChronological es → order_desc es ≡ reverse es
order_desc-reverse [] h = refl
order_desc-reverse (e ∷ es) (h, hs) =
    ap (insert_desc e) (order_desc-reverse es hs)
    ∙ insert_desc-last e (reverse es) (All-reverse _ es h)

length-reverse : (es : List AuditEvent) → length (reverse es) ≡ length es
length-reverse [] = refl
length-reverse (e ∷ es) = omega (arith, length-append (reverse es) (e ∷ []), length-reverse es)

take-append : (n : ℕ) (xs ys : List AuditEvent) → n ≤ length xs → take n (xs ++ ys) ≡ take n xs
take-append zero xs ys h = refl
take-append (suc n) [] ys h = absurd (omega (arith, h))
take-append (suc n) (x ∷ xs) ys h = ap (λ zs. x ∷ zs) (take-append n xs ys (omega (arith, h)))

take-all : (n : ℕ) (xs : List AuditEvent) → length xs ≤ n → take n xs ≡ xs
take-all zero [] h = refl
take-all zero (x ∷ xs) h = absurd (omega (arith, h))
take-all (suc n) [] h = refl
take-all (suc n) (x ∷ xs) h = ap (λ zs. x ∷ zs) (take-all n xs (omega (arith, h)))

reverse-drop :
    (n : ℕ) (es : List AuditEvent) → reverse (drop (length es - n) es) ≡ take n (reverse es)
reverse-drop zero [] = refl
reverse-drop (suc n) [] = let e : 0 - suc n ≡ 0 = omega arith in ap (λ k. reverse (drop k [])) e
reverse-drop n (e ∷ es) =
    let split : (n ≤ length es) ⊎ (suc (length es) ≤ n) = omega arith in
    elim split [
      | inl fewer ↦
          let k : suc (length es) - n ≡ suc (length es - n) = omega (arith, fewer) in
          ap (λ k. reverse (drop k (e ∷ es))) k
          ∙ reverse-drop n es
          ∙ sym (take-append n (reverse es) (e ∷ []) (omega (arith, fewer, length-reverse es)))
      | inr all ↦
          let k : suc (length es) - n ≡ 0 = omega (arith, all) in
          ap (λ k. reverse (drop k (e ∷ es))) k
          ∙ sym (take-all n (reverse (e ∷ es)) (omega (arith, all, length-reverse (e ∷ es))))
    ]

reverse-last :
    (n : ℕ) (es : List AuditEvent) → reverse (last_events (suc n) es) ≡ take (suc n) (reverse es)
reverse-last n es = ground (arith, reverse-drop (suc n) es)

-- With events in the order of their times, and a limit of at least 1, the database and the fallback
-- list the same events in the same order.
pub list_events-modes :
    (n : ℕ) (es : List AuditEvent)
    → IsChronological es
    → list_events false (suc n) es ≡ list_events true (suc n) es
unfolding list_events
list_events-modes n es h = ap (take (suc n)) (order_desc-reverse es h) ∙ sym (reverse-last n es)

order_desc-newest :
    (es : List AuditEvent) (e : AuditEvent)
    → All (λ d. d.created_at < e.created_at) es
    → order_desc (es ++ e ∷ []) ≡ e ∷ order_desc es
order_desc-newest [] e h = refl
order_desc-newest (d ∷ ds) e (h, hs) = ground (arith, order_desc-newest ds e hs)

-- The event that `append_audit` writes about an incident, when the clock has gone on since the others,
-- is the first of the incident's audit, for every limit of at least 1; another incident's audit
-- is the one of before with a limit smaller by 1.
pub get_incident_audit-append_audit :
    (env : Environ) (event_type id other : String) (more : Fields) (n : ℕ) (w : World)
    → All (λ d. d.created_at < env.clock (suc w.clock_reads)) w.audit
    → (id == other) ≡ false
    → let v = (append_audit env event_type (about id more) w).1 in
      (get_incident_audit false id (suc n) v.audit
        ≡ record {
          event_type = event_type;
          payload = about id more;
          created_at = env.clock (suc w.clock_reads);
        }
          ∷ get_incident_audit false id n w.audit)
      × (get_incident_audit false other (suc n) v.audit ≡ get_incident_audit false other n w.audit)
unfolding get_incident_audit list_events append_audit
get_incident_audit-append_audit env event_type id other more n w newest differs =
    grind (arith, order_desc-newest, eq_refl id, differs)

-- With the database at hand, the event that a handler appends is that of the route.
append_event-append_audit :
    (env : Environ) (event_type : String) (payload : Fields) (w : World)
    → append_event env false event_type payload w ≡ (
      ok (record {
        event_type = event_type;
        payload = payload;
        created_at = env.clock w.clock_reads;
      }),
      (append_audit env event_type payload w).1,
    )
unfolding append_event append_audit utcnow
append_event-append_audit env event_type payload w = refl
