-- ===== src/HotState/Tests.antt =====
-- Locks.
use ai_assisted_aws_incident.Prelude.{
  arith, ap, ◌==◌, ◌≡◌, ◌≢◌, refl, true, false, some, String, List, [], ◌∷◌,
}
use ai_assisted_aws_incident.Dict.{lookup, insert}
use ai_assisted_aws_incident.HotState.{
  HotState, acquire_lock, set_if_absent, release_lock, drop_due,
}
use ai_assisted_aws_incident.HotState.Table.{
  serve, Call, set_absent, take_lock, give_back, extend_lock, elapse, reach, serve_all, allot_all,
  holders,
}
use ai_assisted_aws_incident.HotState.Refines.{serve_all-allot_all}
use ai_assisted_aws_incident.HotState.Exclusion.{AllDenied, serve_all-holder}

abbrev nothing : HotState
nothing = record { up = true; seconds = 0; remote = []; deadlines = []; fallback = [] }

abbrev token : String
token = "t"

acquired : (acquire_lock "k" "t" 30 nothing).0 ≡ true
unfolding acquire_lock set_if_absent lookup
acquired = refl

different : "u" ≢ token
different p = absurd (texts (ap (λ t. t == "t") p))
  where
    texts : (false ≡ true) → ⊥
    texts q = cc

-- Two clients and a set_absent, a lock that lapses, and one that is granted again without Redis.
abbrev calls : List Call
calls =
    take_lock "k" "t" 30
    ∷ take_lock "k" "u" 30
    ∷ give_back "k" "u"
    ∷ set_absent "j" "i" 300
    ∷ elapse 30
    ∷ take_lock "k" "u" 30
    ∷ reach false
    ∷ take_lock "k" "t" 30
    ∷ []

-- The lock is granted a second time behind 30 seconds, and a third time without Redis.
lapsed : (serve_all calls nothing).0 ≡ true ∷ false ∷ false ∷ true ∷ true ∷ true ∷ true ∷ true ∷ []
unfolding serve_all serve acquire_lock set_if_absent release_lock lookup insert drop_due
lapsed = refl

serve_all-allot_all_example :
    ((serve_all calls nothing).0 ≡ (allot_all calls (holders nothing)).0)
    × (holders (serve_all calls nothing).1 ≡ (allot_all calls (holders nothing)).1)
serve_all-allot_all_example = serve_all-allot_all calls nothing

abbrev others : List Call
others =
    take_lock "k" "u" 30
    ∷ elapse 20
    ∷ extend_lock "k" "t" 30
    ∷ elapse 20
    ∷ set_absent "k" "v" 300
    ∷ take_lock "j" "u" 30
    ∷ give_back "j" "u"
    ∷ []

abbrev held : HotState
held = (acquire_lock "k" "t" 30 nothing).1

serve_all-holder_example :
    AllDenied "k" others (serve_all others held).0
    × (lookup "k" (serve_all others held).1.remote ≡ some "t")
serve_all-holder_example =
    serve_all-holder "k" "t" 30 others nothing refl (omega arith) acquired
      (tt, (omega arith, (omega arith, (omega arith, (tt, (tt, (λ e p. different p, tt)))))))
