-- ===== src/HotState.antt =====
-- `RedisHotStateProvider` of src/persistence/memory/providers.py: keys in Redis, and in a dict of
-- the process while Redis cannot be reached. Of Redis itself the model takes what its documentation
-- says: a key that is set with `ex`, or given a new `expire`, has a deadline, a key that is set without or
-- deleted has none, and a key is gone once its deadline has come.
pub mod Locks
pub mod Table
pub mod Refines
pub mod Exclusion
pub mod Tests
use ai_assisted_aws_incident.Prelude.{
  ℕ, ◌+◌, leb, Bool, true, false, String, Option, none, some, List, [], ◌∷◌, is_some, ◌==◌,
  if◌then◌else◌,
}
use ai_assisted_aws_incident.Dict.{Dict, lookup, insert, erase}

pub record HotState : Type 0 where
  pub up : Bool  -- a call to Redis returns, and does not raise
  pub seconds : ℕ  -- the time of Redis
  pub remote : Dict String
  pub deadlines : Dict ℕ
  pub fallback : Dict String

-- The dictionary that a call works on.
abbrev pub active : HotState → Dict String
active h = if h.up then h.remote else h.fallback

abbrev pub with_active : HotState → Dict String → HotState
with_active h d = if h.up then record h { remote = d } else record h { fallback = d }

-- A key's new deadline, or none; the dictionary of the process has no deadlines.
abbrev pub expiring : String → Option ℕ → HotState → HotState
expiring key none h = record h { deadlines = if h.up then erase key h.deadlines else h.deadlines }
expiring key (some expire_seconds) h = record h {
  deadlines = if h.up then insert key (h.seconds + expire_seconds) h.deadlines else h.deadlines;
}

-- `set_if_absent`
unfoldable pub set_if_absent : String → String → ℕ → HotState → Bool × HotState
set_if_absent key value expire_seconds h =
    if is_some (lookup key (active h))
    then (false, h)
    else (true, expiring key (some expire_seconds) (with_active h (insert key value (active h))))

-- `get`
unfoldable pub get : String → HotState → Option String
get key h = lookup key (active h)

-- `set_json`, with the payload already printed
unfoldable pub set_text : String → String → Option ℕ → HotState → HotState
set_text key payload expire_seconds h =
    expiring key expire_seconds (with_active h (insert key payload (active h)))

-- `current == token`
abbrev pub is_token : Option String → String → Bool
is_token none token = false
is_token (some current) token = current == token

-- `acquire_lock`
unfoldable pub acquire_lock : String → String → ℕ → HotState → Bool × HotState
unfolding set_if_absent
acquire_lock key token expire_seconds h = set_if_absent key token expire_seconds h

-- `release_lock`
unfoldable pub release_lock : String → String → HotState → Bool × HotState
release_lock key token h =
    if is_token (lookup key (active h)) token
    then (true, expiring key none (with_active h (erase key (active h))))
    else (false, h)

-- `renew_lock`
unfoldable pub renew_lock : String → String → ℕ → HotState → Bool × HotState
renew_lock key token expire_seconds h =
    if is_token (lookup key (active h)) token
    then (true, expiring key (some expire_seconds) h)
    else (false, h)

-- A deadline has come.
abbrev pub is_due : ℕ → Option ℕ → Bool
is_due now none = false
is_due now (some deadline) = leb deadline now

abbrev drop_if : Bool → String → String → Dict String → Dict String
drop_if true key value d = d
drop_if false key value d = (key, value) ∷ d

-- The keys whose deadline has not come.
unfoldable pub drop_due : ℕ → Dict ℕ → Dict String → Dict String
drop_due now deadlines [] = []
drop_due now deadlines ((key, value) ∷ d) =
    drop_if (is_due now (lookup key deadlines)) key value (drop_due now deadlines d)

-- Time passes for Redis.
abbrev pub pass : ℕ → HotState → HotState
pass n h = record h {
  seconds = h.seconds + n;
  remote = drop_due (h.seconds + n) h.deadlines h.remote;
}
