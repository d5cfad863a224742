-- ===== src/Llm/Laws.antt =====
-- What a route spends on the language model.
use ai_assisted_aws_incident.Llm.{
  http_error, is_success, eqb, Reply, read_reply, checked, request_payload, retry, Fields,
  record_call, send, read_body, exchange, complete_json, post, Chat,
}
use ai_assisted_aws_incident.Prelude.{
  ◌&&◌, length, if◌then◌else◌, subst, ◌∙◌, sym, ap, ℕ, ◌+◌, ◌*◌, ◌≤◌, ◌≡◌, refl, Bool, true, false,
  String, Option, some, List, [], ◌∷◌, arith,
}
use ai_assisted_aws_incident.Value.{Value}
use ai_assisted_aws_incident.Environ.{Environ}
use ai_assisted_aws_incident.Budget.{LlmBudget, charge, is_exceeded}
use ai_assisted_aws_incident.World.{
  run_rest, World, Action, Result, ok, err, >>=-eq-ok, pure, ◌>>=◌,
}

-- What was spent is within its limits.
pub record IsWithin (b : LlmBudget) : Type 0 where
  pub calls : b.calls ≤ b.max_calls
  pub tokens : b.tokens_used ≤ b.max_tokens

-- An action that leaves the budget and sends at most so many requests.
record Spends (n : ℕ) (w v : World) : Type 0 where
  budget : v.budget ≡ w.budget
  posts : v.posts ≤ w.posts + n

abbrev SpendsAtMost : {A : Type 0} → ℕ → Action A → Type 0
SpendsAtMost n m = (w : World) → Spends n w (m w).1

run_rest-Spends :
    {A B : Type 0} (j k : ℕ) (f : A → Action B) (w : World) (o : Result A × World)
    → ((a : A) → SpendsAtMost k (f a))
    → Spends j w o.1
    → Spends (j + k) w (run_rest f o).1
run_rest-Spends j k f w (ok a, v) hf h = record {
  budget = (hf a v).budget ∙ h.budget;
  posts = omega (arith, (hf a v).posts, h.posts);
}
run_rest-Spends j k f w (err e, v) hf h = record {
  budget = h.budget;
  posts = omega (arith, h.posts);
}

>>=-Spends :
    {A B : Type 0} (j k : ℕ) (m : Action A) (f : A → Action B)
    → SpendsAtMost j m
    → ((a : A) → SpendsAtMost k (f a))
    → SpendsAtMost (j + k) (m >>= f)
>>=-Spends j k m f hm hf w = run_rest-Spends j k f w (m w) hf (hm w)

if-Spends :
    {A : Type 0} (n : ℕ) (c : Bool) (m k : Action A)
    → SpendsAtMost n m
    → SpendsAtMost n k
    → SpendsAtMost n (if c then m else k)
if-Spends n true m k hm hk = hm
if-Spends n false m k hm hk = hk

still : {A : Type 0} (n : ℕ) (m : Action A) → ((w : World) → (m w).1 ≡ w) → SpendsAtMost n m
still n m h w = record {
  budget = ap (λ v. v.budget) (h w);
  posts = subst (λ v. v.posts ≤ w.posts + n) (sym (h w)) (omega arith);
}

module _ (env : Environ) (chat : Chat) where
  send-Spends : (payload : Fields) → SpendsAtMost 1 (send env chat payload)
  unfolding send
  send-Spends payload w = ground arith

  retry-Spends :
      (system user : String) (first : Reply) → SpendsAtMost 1 (retry env chat system user first)
  unfolding retry
  retry-Spends system user first =
      if-Spends 1 (eqb first.status 400 && first.mentions_format)
        (send env chat (request_payload env false system user)) (pure first)
        (send-Spends (request_payload env false system user)) (still 1 (pure first) (λ w. refl))

  checked-Spends : (reply : Reply) → SpendsAtMost 0 (checked env chat reply)
  unfolding checked
  checked-Spends reply =
      still 0 (λ w. (if is_success reply.status then ok reply else err http_error, w)) (λ w. refl)

  exchange-Spends : (system user : String) → SpendsAtMost 2 (exchange env chat system user)
  unfolding exchange
  exchange-Spends system user =
      >>=-Spends 1 1 (send env chat (request_payload env true system user))
        (λ first. retry env chat system user first >>= checked env chat)
        (send-Spends (request_payload env true system user))
        λ first.
          >>=-Spends 1 0 (retry env chat system user first) (checked env chat)
            (retry-Spends system user first) checked-Spends

  read_reply-still : (reply : Reply) (w : World) → (read_reply env chat reply w).1 ≡ w
  unfolding read_reply read_body
  read_reply-still reply w = ground arith

  post-Spends : (system user : String) → SpendsAtMost 2 (post env chat system user)
  unfolding post
  post-Spends system user =
      >>=-Spends 2 0 (exchange env chat system user) (read_reply env chat)
        (exchange-Spends system user)
        λ reply. still 0 (read_reply env chat reply) (read_reply-still reply)

module _ (env : Environ) (chat : Chat) where
  -- Calls of the language model one after another, as agents make them.
  unfoldable pub complete_all :
      {A : Type 0} → (Value → Option A) → List (String × String) → Action (List A)
  complete_all validate [] = pure []
  complete_all validate (p ∷ ps) = do
    a ← complete_json env chat validate p.0 p.1
    rest ← complete_all validate ps
    pure (a ∷ rest)

  -- What `complete_json` leaves of a budget that a call was charged to.
  charged :
      {A : Type 0} (validate : Value → Option A) (system user : String) (w : World) {b : LlmBudget}
      {a : A} {v : World}
      → w.budget ≡ some b
      → complete_json env chat validate system user w ≡ (ok a, v)
      → (tokens : ℕ) × (v.budget ≡ some (charge tokens b))
        × (is_exceeded (charge tokens b) ≡ false)
        × (v.posts ≤ w.posts + 2)
  unfolding complete_json record_call
  charged validate system user w {b} {a} {v} has h =
      let (answer, v₁, h₁, h₂) = >>=-eq-ok (post env chat system user) _ w h in
      let spent = post-Spends env chat system user w in
      let budget : v₁.budget ≡ some b = ap (λ o. o.1.budget) (sym h₁) ∙ spent.budget ∙ has in
      let posts : v₁.posts ≤ w.posts + 2 = subst (λ o. o.1.posts ≤ w.posts + 2) h₁ spent.posts in
      (answer.1, ground arith, ground arith, ground arith)

  -- Within a budget, calls that all come back are within its limits: there are at most `max_calls` of
  -- them, they used at most `max_tokens` tokens, and each sent at most two requests.
  pub complete_all-IsWithin :
      {A : Type 0} (validate : Value → Option A) (prompts : List (String × String)) (w : World)
      {b : LlmBudget} {found : List A} {v : World}
      → w.budget ≡ some b
      → IsWithin b
      → complete_all validate prompts w ≡ (ok found, v)
      → (c : LlmBudget) × (v.budget ≡ some c)
        × IsWithin c
        × (c.max_calls ≡ b.max_calls)
        × (c.max_tokens ≡ b.max_tokens)
        × (c.calls ≡ b.calls + length prompts)
        × (v.posts ≤ w.posts + 2 * length prompts)
  unfolding complete_all
  complete_all-IsWithin validate [] w {b} has within h =
      (b, ground arith, within, refl, refl, omega arith, ground arith)
  complete_all-IsWithin validate (p ∷ ps) w {b} {found} {v} has within h =
      let (a, v₁, h₁, h₂) = >>=-eq-ok (complete_json env chat validate p.0 p.1) _ w h in
      let (rest, v₂, h₃, h₄) = >>=-eq-ok (complete_all validate ps) _ v₁ h₂ in
      let (tokens, has₁, kept, sent) = charged validate p.0 p.1 w has h₁ in
      let within₁ : IsWithin (charge tokens b) = record {
        calls = ground arith;
        tokens = ground arith;
      } in
      let (c, has₂, in_limits, same_calls, same_tokens, counted, posts) =
        complete_all-IsWithin validate ps v₁ has₁ within₁ h₃ in
      let e : v₂ ≡ v = ground arith in
      (
        c,
        ap (λ x. x.budget) (sym e) ∙ has₂,
        in_limits,
        same_calls,
        same_tokens,
        omega (arith, counted),
        subst (λ x. x.posts ≤ w.posts + 2 * length (p ∷ ps)) e (omega (arith, posts, sent)),
      )
