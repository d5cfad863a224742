-- ===== src/HotState/Locks.antt =====
-- Locks exclude each other and are released by their holder alone.
use ai_assisted_aws_incident.Prelude.{
  ℕ, ◌≢◌, ◌≡◌, true, false, String, none, arith, eq_iff, eq_refl,
}
use ai_assisted_aws_incident.Dict.{lookup, lookup-insert_self, Dict, lookup-erase, insert}
use ai_assisted_aws_incident.HotState.{HotState, active, with_active, acquire_lock, release_lock}

pub active-with_active : (h : HotState) (d : Dict String) → active (with_active h d) ≡ d
active-with_active h d = ground arith

-- Once a lock is acquired, every further attempt fails and changes nothing until a release
-- and while no time passes.
pub acquire_lock-excludes :
    (key t u : String) (s : ℕ) (h : HotState)
    → (acquire_lock key t s h).0 ≡ true
    → acquire_lock key u s (acquire_lock key t s h).1 ≡ (false, (acquire_lock key t s h).1)
unfolding acquire_lock
acquire_lock-excludes key t u s h e =
    ground (arith, lookup-insert_self key t h.remote, lookup-insert_self key t h.fallback)

-- A release with the holder's token frees the lock; with another token it fails and changes nothing.
pub release_lock-acquire_lock :
    (key t u : String) (s : ℕ) (h : HotState)
    → (acquire_lock key t s h).0 ≡ true
    → let (freed, h') = release_lock key u (acquire_lock key t s h).1 in
      (t ≡ u → (freed ≡ true) × (lookup key (active h') ≡ none))
      × (t ≢ u → (freed ≡ false) × (h' ≡ (acquire_lock key t s h).1))
unfolding acquire_lock release_lock
release_lock-acquire_lock key t u s h e = (
  λ p. ground (
    arith,
    lookup-insert_self key t h.remote,
    lookup-insert_self key t h.fallback,
    eq_iff t u,
    eq_refl key,
    lookup-erase key key (insert key t h.remote),
    lookup-erase key key (insert key t h.fallback),
  ),
  λ p.
      ground
        (arith, lookup-insert_self key t h.remote, lookup-insert_self key t h.fallback, eq_iff t u),
)
