-- ===== src/HotState/Exclusion.antt =====
-- A lock stays with the client that acquired it until its deadline, whatever other clients call.
use ai_assisted_aws_incident.Prelude.{
  ℕ, ◌+◌, ◌-◌, ◌≤◌, ◌&&◌, Bool, true, false, ◌≡◌, ◌≢◌, sym, ap, ◌∙◌, subst, String, some, List, [],
  ◌∷◌, arith, eq_iff, ◌==◌, if◌then◌else◌,
}
use ai_assisted_aws_incident.Dict.{lookup, lookup-insert_self}
use ai_assisted_aws_incident.HotState.{HotState, acquire_lock, set_if_absent}
use ai_assisted_aws_incident.HotState.Table.{
  Call, set_absent, take_lock, give_back, extend_lock, elapse, reach, serve_all, Table, holders,
  allot, allot_all,
}
use ai_assisted_aws_incident.HotState.Refines.{serve_all-allot_all}

-- What leaves a lock with its holder while it has so many seconds left: any call but the holder's own
-- give_back, less time than is left, and no loss of Redis. A renewal asks for a second or more.
abbrev pub Leaves : String → String → ℕ → Call → Type 0
Leaves key token left (give_back k t) = (k ≡ key) → t ≢ token
Leaves key token left (extend_lock k t s) = 1 ≤ s
Leaves key token left (elapse n) = n + 1 ≤ left
Leaves key token left (reach b) = b ≡ true
Leaves key token left _ = Unit

-- The seconds that are left behind it; the holder's renewal starts them anew.
abbrev pub left_behind : String → String → ℕ → Call → ℕ
left_behind key token left (elapse n) = left - n
left_behind key token left (extend_lock k t s) = if (k == key) && (token == t) then s else left
left_behind key token left _ = left

abbrev pub AllLeave : String → String → ℕ → List Call → Type 0
AllLeave key token left [] = Unit
AllLeave key token left (c ∷ cs) =
    Leaves key token left c × AllLeave key token (left_behind key token left c) cs

-- The answer to a call that asks for the lock.
abbrev pub Denied : String → Call → Bool → Type 0
Denied key (set_absent k v s) answer = k ≡ key → answer ≡ false
Denied key (take_lock k t s) answer = k ≡ key → answer ≡ false
Denied key _ answer = Unit

abbrev pub AllDenied : String → List Call → List Bool → Type 0
AllDenied key (c ∷ cs) (b ∷ bs) = Denied key c b × AllDenied key cs bs
AllDenied key _ _ = Unit

-- A lock in Redis that a client holds for so many seconds.
record Held (key token : String) (left : ℕ) (t : Table) : Type 0 where
  up : t.up ≡ true
  owner : t.owner key ≡ some token
  deadline : t.until key ≡ some (t.now + left)
  positive : 1 ≤ left

allot-Held :
    (key token : String) (left : ℕ) (c : Call) (t : Table)
    → Held key token left t
    → Leaves key token left c
    → Denied key c (allot c t).0 × Held key token (left_behind key token left c) (allot c t).1
unfolding allot
allot-Held key token left (set_absent k v s) t h leaves = (
  λ e. grind (arith, h.up, h.owner, eq_iff k key),
  record {
    up = grind (arith, h.up);
    owner = grind (arith, h.up, h.owner, eq_iff k key);
    deadline = grind (arith, h.up, h.owner, h.deadline, eq_iff k key);
    positive = h.positive;
  },
)
allot-Held key token left (take_lock k v s) t h leaves = (
  λ e. grind (arith, h.up, h.owner, eq_iff k key),
  record {
    up = grind (arith, h.up);
    owner = grind (arith, h.up, h.owner, eq_iff k key);
    deadline = grind (arith, h.up, h.owner, h.deadline, eq_iff k key);
    positive = h.positive;
  },
)
allot-Held key token left (give_back k v) t h leaves = (
  tt,
  record {
    up = grind (arith, h.up);
    owner = grind (arith, h.up, h.owner, eq_iff k key, eq_iff token v);
    deadline = grind (arith, h.up, h.owner, h.deadline, eq_iff k key, eq_iff token v);
    positive = h.positive;
  },
)
allot-Held key token left (extend_lock k v s) t h leaves = (
  tt,
  record {
    up = grind (arith, h.up);
    owner = grind (arith, h.up, h.owner);
    deadline = grind (arith, h.up, h.owner, h.deadline, eq_iff k key);
    positive = grind (arith, h.positive, leaves);
  },
)
allot-Held key token left (elapse n) t h leaves = (
  tt,
  record {
    up = h.up;
    owner = ground (arith, h.deadline, h.owner, leaves);
    deadline = ground (arith, h.deadline, leaves);
    positive = ground (arith, leaves);
  },
)
allot-Held key token left (reach b) t h leaves =
    (tt, record { up = leaves; owner = h.owner; deadline = h.deadline; positive = h.positive })

allot_all-Held :
    (key token : String) (left : ℕ) (cs : List Call) (t : Table)
    → Held key token left t
    → AllLeave key token left cs
    → AllDenied key cs (allot_all cs t).0 × ((allot_all cs t).1.owner key ≡ some token)
unfolding allot_all
allot_all-Held key token left [] t h leaves = (tt, h.owner)
allot_all-Held key token left (c ∷ cs) t h (leaves, rest) =
    let (denied, h') = allot-Held key token left c t h leaves in
    let (more, last) =
      allot_all-Held key token (left_behind key token left c) cs (allot c t).1 h' rest in
    ((denied, more), last)

acquired :
    (key token : String) (s : ℕ) (h : HotState)
    → h.up ≡ true
    → 1 ≤ s
    → (acquire_lock key token s h).0 ≡ true
    → Held key token s (holders (acquire_lock key token s h).1)
unfolding acquire_lock set_if_absent
acquired key token s h up positive got = record {
  up = ground (arith, up, got);
  owner = ground (arith, up, got, lookup-insert_self key token h.remote);
  deadline = ground (arith, up, got, lookup-insert_self key (h.seconds + s) h.deadlines);
  positive = positive;
}

-- After a lock was acquired in Redis for some seconds, and until its holder releases it, its seconds,
-- counted anew from the holder's last renewal, have passed, or Redis is lost, no run of calls
-- acquires or claims it, and it is its holder's behind that run.
pub serve_all-holder :
    (key token : String) (s : ℕ) (cs : List Call) (h : HotState)
    → h.up ≡ true
    → 1 ≤ s
    → (acquire_lock key token s h).0 ≡ true
    → AllLeave key token s cs
    → let (answers, last) = serve_all cs (acquire_lock key token s h).1 in
      AllDenied key cs answers × (lookup key last.remote ≡ some token)
serve_all-holder key token s cs h up positive got leaves =
    let h' = (acquire_lock key token s h).1 in
    let (answers, last) = serve_all-allot_all cs h' in
    let (denied, held) =
      allot_all-Held key token s cs (holders h') (acquired key token s h up positive got) leaves in
    (subst (AllDenied key cs) (sym answers) denied, ap (λ t. t.owner key) last ∙ held)
