-- ===== src/Llm/Tests.antt =====
-- Calls of the language model.
use ai_assisted_aws_incident.Prelude.{
  ◌+◌, ◌*◌, ◌≤◌, ◌≡◌, refl, arith, String, some, false, [], ◌∷◌, List,
}
use ai_assisted_aws_incident.Value.{truthy, end, field, text, list, dict, cons, nil}
use ai_assisted_aws_incident.Contracts.{opened}
use ai_assisted_aws_incident.Budget.{LlmBudget}
use ai_assisted_aws_incident.World.{World}
use ai_assisted_aws_incident.Samples.{env, text_of, world}
use ai_assisted_aws_incident.Llm.{
  Chat, complete_json, post, exchange, send, retry, checked, read_reply, read_body, record_call,
}
use ai_assisted_aws_incident.Llm.Laws.{IsWithin, complete_all, complete_all-IsWithin}

-- An endpoint that answers every request with the same text.
abbrev chat : Chat
chat = record {
  answer = λ _ _. some (record {
    status = 200;
    mentions_format = false;
    body = some (
        dict (
          field "choices"
            (list (cons (dict (field "message" (dict (field "content" (text "ok") end)) end)) nil))
            end));
  });
}

abbrev budget : LlmBudget
budget = record { max_calls = 2; max_tokens = 1000; calls = 0; tokens_used = 0 }

abbrev here : World
here = record (world opened) { budget = some budget }

abbrev prompts : List (String × String)
prompts = ("triage", "a") ∷ ("rca", "b") ∷ []

budget-IsWithin : IsWithin budget
budget-IsWithin = record { calls = omega arith; tokens = omega arith }

abbrev answers : List String
answers = "ok" ∷ "ok" ∷ []

abbrev behind : World
behind = (complete_all env chat text_of prompts here).1

complete_all-IsWithin_example :
    (c : LlmBudget) × (behind.budget ≡ some c)
    × IsWithin c
    × (c.max_calls ≡ 2)
    × (c.max_tokens ≡ 1000)
    × (c.calls ≡ 0 + 2)
    × (behind.posts ≤ 0 + 2 * 2)
unfolding complete_all complete_json post exchange send retry checked read_reply read_body truthy
    record_call
complete_all-IsWithin_example =
    complete_all-IsWithin env chat text_of prompts here {b = budget} {found = answers} {v = behind}
      refl budget-IsWithin refl
