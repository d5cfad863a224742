-- ===== src/Executor/Attempts.antt =====
-- The retry loop against the list of its attempts.
use ai_assisted_aws_incident.Prelude.{
  subst, inr, inl, Bool-cases, ℕ, zero, suc, ◌≡◌, refl, Bool, true, false, String, Option, none,
  some, arith, ◌≤◌,
}
use ai_assisted_aws_incident.World.{run_rest, World, Action, Result, Failure, ok, err}
use ai_assisted_aws_incident.Adapters.{AdapterResult}
use ai_assisted_aws_incident.Executor.{Fate, wait_for, round_end, attempts, timeout_message}

-- One attempt after another, each on the world that the one before left: none of them succeeds
-- before the last. `n` counts the attempts made.
pub data Runs (fate : ℕ → Fate) (m : Action AdapterResult)
    : ℕ → ℕ → World → Result (Bool × String) → World → Type 0 where
  succeeds :
      {left : ℕ} {r : AdapterResult} {w w' : World}
      → wait_for (fate left) m w ≡ (ok (some r), w')
      → r.success ≡ true
      → Runs fate m (suc left) 1 w (ok (true, r.message)) w'
  fails_last :
      {r : AdapterResult} {w w' : World}
      → wait_for (fate 0) m w ≡ (ok (some r), w')
      → r.success ≡ false
      → Runs fate m 1 1 w (ok (false, r.message)) w'
  late_last :
      {w w' : World}
      → wait_for (fate 0) m w ≡ (ok none, w')
      → Runs fate m 1 1 w (ok (false, timeout_message)) w'
  raises :
      {left : ℕ} {e : Failure} {w w' : World}
      → wait_for (fate left) m w ≡ (err e, w')
      → Runs fate m (suc left) 1 w (err e) w'
  fails :
      {left n : ℕ} {o : Result (Bool × String)} {r : AdapterResult} {w v w' : World}
      → wait_for (fate (suc left)) m w ≡ (ok (some r), v)
      → r.success ≡ false
      → Runs fate m (suc left) n v o w'
      → Runs fate m (suc (suc left)) (suc n) w o w'
  late :
      {left n : ℕ} {o : Result (Bool × String)} {w v w' : World}
      → wait_for (fate (suc left)) m w ≡ (ok none, v)
      → Runs fate m (suc left) n v o w'
      → Runs fate m (suc (suc left)) (suc n) w o w'

module _ (fate : ℕ → Fate) (m : Action AdapterResult) where
  abbrev Bounded : ℕ → World → Result (Bool × String) → World → Type 0
  Bounded left w o w' = (n : ℕ) × (n ≤ suc left) × Runs fate m (suc left) n w o w'

  -- The loop's rest from the end of its first attempt.
  abbrev rest : ℕ → Result (Option AdapterResult) × World → Result (Bool × String) × World
  rest left = run_rest (round_end (attempts fate m left) left)

  last :
      (w : World) (t : Result (Option AdapterResult) × World) {o : Result (Bool × String)}
      {w' : World}
      → wait_for (fate 0) m w ≡ t
      → rest 0 t ≡ (o, w')
      → Bounded 0 w o w'
  last w (err e, v) h k = subst (λ p. Bounded 0 w p.0 p.1) k (1, omega arith, raises h)
  last w (ok none, v) h k = subst (λ p. Bounded 0 w p.0 p.1) k (1, omega arith, late_last h)
  last w (ok (some r), v) h k = elim (Bool-cases r.success) [
    | inl won ↦ subst (λ p. Bounded 0 w p.0 p.1) (rw won at k) (1, omega arith, succeeds h won)
    | inr lost ↦ subst (λ p. Bounded 0 w p.0 p.1) (rw lost at k) (1, omega arith, fails_last h lost)
  ]

  another :
      (left : ℕ) (w : World) (t : Result (Option AdapterResult) × World)
      {o : Result (Bool × String)} {w' : World}
      → ((v : World) → attempts fate m (suc left) v ≡ (o, w') → Bounded left v o w')
      → wait_for (fate (suc left)) m w ≡ t
      → rest (suc left) t ≡ (o, w')
      → Bounded (suc left) w o w'
  another left w (err e, v) ih h k =
      subst (λ p. Bounded (suc left) w p.0 p.1) k (1, omega arith, raises h)
  another left w (ok none, v) ih h k = let (n, b, r) = ih v k in (suc n, omega arith, late h r)
  another left w (ok (some r), v) ih h k = elim (Bool-cases r.success) [
    | inl won ↦
        subst (λ p. Bounded (suc left) w p.0 p.1) (rw won at k) (1, omega arith, succeeds h won)
    | inr lost ↦ let (n, b, runs) = ih v (rw lost at k) in (suc n, omega arith, fails h lost runs)
  ]

  -- The loop with `left + 1` attempts is a run of at most so many: each is made on the world that the one
  -- before left, and none succeeds before the last.
  pub attempts-Runs :
      (left : ℕ) (w : World) {o : Result (Bool × String)} {w' : World}
      → attempts fate m (suc left) w ≡ (o, w')
      → Bounded left w o w'
  unfolding attempts
  attempts-Runs zero w e = last w (wait_for (fate 0) m w) refl e
  attempts-Runs (suc left) w e =
      another left w (wait_for (fate (suc left)) m w) (λ v. attempts-Runs left v) refl e
