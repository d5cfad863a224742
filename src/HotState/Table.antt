-- ===== src/HotState/Table.antt =====
-- The abstract view of the hot state's locks: tables of holders and deadlines that forget the order of
-- the keys, with the events of a run: the calls of clients, the passing of time, and Redis going
-- away and coming back.
use ai_assisted_aws_incident.Prelude.{
  ℕ, ◌+◌, Bool, true, false, String, Option, none, some, List, [], ◌∷◌, ◌==◌, is_some,
  if◌then◌else◌,
}
use ai_assisted_aws_incident.HotState.{
  lookup, HotState, is_token, is_due, pass, set_if_absent, acquire_lock, release_lock, renew_lock,
}

-- A call of a client, with its key and its token, and the seconds for which it asks, or an event.
pub data Call : Type 0 where
  set_absent take_lock extend_lock : String → String → ℕ → Call
  give_back : String → String → Call
  elapse : ℕ → Call
  reach : Bool → Call

-- The answer of a call; an event has no answer, and counts as one that went well.
unfoldable pub serve : Call → HotState → Bool × HotState
serve (set_absent key value s) h = set_if_absent key value s h
serve (take_lock key token s) h = acquire_lock key token s h
serve (extend_lock key token s) h = renew_lock key token s h
serve (give_back key token) h = release_lock key token h
serve (elapse n) h = (true, pass n h)
serve (reach b) h = (true, record h { up = b })

unfoldable pub serve_all : List Call → HotState → List Bool × HotState
serve_all [] h = ([], h)
serve_all (c ∷ cs) h =
    let (answer, h') = serve c h in
    let (answers, last) = serve_all cs h' in (answer ∷ answers, last)

pub record Table : Type 0 where
  pub up : Bool
  pub now : ℕ
  pub owner : String → Option String  -- in Redis
  pub until : String → Option ℕ  -- the deadline in Redis
  pub own : String → Option String  -- in the process

abbrev pub holders : HotState → Table
holders h = record {
  up = h.up;
  now = h.seconds;
  owner = λ key. lookup key h.remote;
  until = λ key. lookup key h.deadlines;
  own = λ key. lookup key h.fallback;
}

abbrev pub holder : Table → String → Option String
holder t key = if t.up then t.owner key else t.own key

abbrev pub assign : {A : Type 0} → String → Option A → (String → Option A) → String → Option A
assign key a f k = if key == k then a else f k

-- A key gets a holder until a deadline, or loses both.
abbrev pub grant : String → Option String → Option ℕ → Table → Table
grant key value deadline t =
    if t.up
    then record t { owner = assign key value t.owner; until = assign key deadline t.until }
    else record t { own = assign key value t.own }

abbrev pub extend : String → ℕ → Table → Table
extend key deadline t = if t.up then record t { until = assign key (some deadline) t.until } else t

-- What a call does to a table.
unfoldable pub allot : Call → Table → Bool × Table
allot (set_absent key value s) t =
    if is_some (holder t key)
    then (false, t)
    else (true, grant key (some value) (some (t.now + s)) t)
allot (take_lock key token s) t =
    if is_some (holder t key)
    then (false, t)
    else (true, grant key (some token) (some (t.now + s)) t)
allot (extend_lock key token s) t =
    if is_token (holder t key) token then (true, extend key (t.now + s) t) else (false, t)
allot (give_back key token) t =
    if is_token (holder t key) token then (true, grant key none none t) else (false, t)
allot (elapse n) t = (
  true,
  record t {
    now = t.now + n;
    owner = λ key. if is_due (t.now + n) (t.until key) then none else t.owner key;
  },
)
allot (reach b) t = (true, record t { up = b })

unfoldable pub allot_all : List Call → Table → List Bool × Table
allot_all [] t = ([], t)
allot_all (c ∷ cs) t =
    let (answer, t') = allot c t in
    let (answers, last) = allot_all cs t' in (answer ∷ answers, last)
