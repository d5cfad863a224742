-- ===== src/Llm.antt =====
-- `OpenAICompatibleClient` of src/agent_runtime/llm.py. What the endpoint answers is the parameter `Chat`:
-- the n-th request that is sent gets the n-th answer. Spans and redaction are left out.
pub mod Laws
pub mod Tests
use ai_assisted_aws_incident.Prelude.{
  starts_with, ℕ, suc, Bool, true, false, not, ◌&&◌, ◌||◌, String, Option, none, some, or_else,
  List, [], ◌∷◌, eqb, leb, is_blank, is_some, lower, has_part, concat, if◌then◌else◌,
}
use ai_assisted_aws_incident.Value.{
  Value, Items, Fields, ℤ, pos, end, field, text, int, float, list, dict, null, boolean, nil, cons,
  get, get_or, truthy,
}
use ai_assisted_aws_incident.Environ.{Environ}
use ai_assisted_aws_incident.Budget.{LlmBudget, charge, is_exceeded}
use ai_assisted_aws_incident.World.{
  World, Action, Failure, Result, structured_llm_error, http_error, runtime_error, value_error,
  type_error, attribute_error, index_error, key_error, ok, err, or_raise, pure, raise, raise_if,
  modify, ◌>>=◌, ◌>>◌,
}

-- An answer of the endpoint: the status, whether the content holds "response_format", and the body as
-- JSON. `none` for all is an error of the connection, none for the body one of its reading.
pub record Reply : Type 0 where
  pub status : ℕ
  pub mentions_format : Bool
  pub body : Option Value

pub record Chat : Type 0 where
  pub answer : ℕ → Fields → Option Reply

-- `model.lower().startswith("gpt-5")`
unfoldable pub is_gpt5_family : String → Bool
is_gpt5_family model = starts_with (lower model) "gpt-5"

-- `_openai_host`
unfoldable pub is_openai_host : String → Bool
is_openai_host base_url = has_part "openai.com" (lower base_url)

abbrev pub message_of : String → String → Value
message_of role content = dict (field "role" (text role) (field "content" (text content) end))

abbrev pub limits : Bool → ℕ → Fields → Fields
limits true n rest =
    field "max_completion_tokens" (int (pos n))
      (field "reasoning_effort" (text "none") (field "temperature" (float 2000) rest))
limits false n rest = field "max_tokens" (int (pos n)) (field "temperature" (float 2000) rest)

abbrev pub json_format : Value
json_format = dict (field "type" (text "json_object") end)

-- The payload of a request, with or without its `response_format`.
unfoldable pub request_payload : Environ → Bool → String → String → Fields
request_payload env formatted system user =
    let model = env.agent.llm_model in
    let rest =
      limits (is_gpt5_family model && is_openai_host env.agent.llm_base_url)
        env.agent.llm_max_tokens end in
    field "model" (text model) (
      field "messages"
        (list (cons (message_of "system" system) (cons (message_of "user" user) nil)))
        (if formatted then field "response_format" json_format rest else rest))

-- `response.is_success`
abbrev pub is_success : ℕ → Bool
is_success status = leb 200 status && leb status 299

-- `v.get(key, default)` of any value
abbrev pub value_get : String → Value → Value → Action Value
value_get key default (dict fs) = pure (get_or key default fs)
value_get key default v = raise attribute_error

-- `choices[0]`; of a text it is a character, which has no `get`
abbrev pub first_item : Value → Action Value
first_item (list nil) = raise index_error
first_item (list (cons v _)) = pure v
first_item (text s) = raise (if is_blank s then index_error else attribute_error)
first_item (dict _) = raise key_error
first_item v = raise type_error

-- `a or b`
abbrev pub or_value : Value → Value → Value
or_value a b = if truthy a then a else b

-- `content if isinstance(content, str) else str(content)`
abbrev pub content_text : Environ → Value → String
content_text env (text s) = s
content_text env v = env.render v

module _ (env : Environ) (chat : Chat) where
  -- `client.post(…)`
  unfoldable pub send : Fields → Action Reply
  send payload = do
    reply ← (λ w. (ok (chat.answer w.posts payload), record w { posts = suc w.posts }))
    or_raise reply http_error

  -- The second request, without `response_format`
  unfoldable pub retry : String → String → Reply → Action Reply
  retry system user first =
      if eqb first.status 400 && first.mentions_format
      then send (request_payload env false system user)
      else pure first

  -- `response.raise_for_status()`
  unfoldable pub checked : Reply → Action Reply
  checked reply w = (if is_success reply.status then ok reply else err http_error, w)

  unfoldable pub exchange : String → String → Action Reply
  exchange system user =
      send (request_payload env true system user) >>= λ first. retry system user first >>= checked

  -- The end of `_post`: the text of the first choice, and the tokens.
  unfoldable pub read_body : Value → Action (String × ℕ)
  read_body body = do
    choices ← value_get "choices" (list (cons (dict end) nil)) body
    choice ← first_item choices
    message ← value_get "message" (dict end) choice
    content ← value_get "content" (text "") message
    found ← value_get "usage" null body
    let usage = or_value found (dict end)
    total ← value_get "total_tokens" null usage
    completion ← value_get "completion_tokens" null usage
    tokens ←
        or_raise (env.count_of (or_value (or_value total completion) (int (pos 0)))) value_error
    pure (content_text env content, tokens)

  -- The end of `_post`, from the reply.
  unfoldable pub read_reply : Reply → Action (String × ℕ)
  read_reply reply = do body ← or_raise reply.body value_error; read_body body

  -- `_post`
  unfoldable pub post : String → String → Action (String × ℕ)
  post system user = exchange system user >>= read_reply

  -- `budget.record_call(usage_tokens)`, if there is a budget
  unfoldable pub record_call : ℕ → Action (Unit {0})
  record_call tokens w = elim w.budget [
    | none ↦ (ok tt, w)
    | some b ↦ (
      if is_exceeded (charge tokens b) then err runtime_error else ok tt,
      record w { budget = some (charge tokens b) },
    )
  ]

  -- `complete_json`, with the validation of the response model
  unfoldable pub complete_json : {A : Type 0} → (Value → Option A) → String → String → Action A
  complete_json validate system user = do
    answer ← post system user
    record_call answer.1
    data_read ← or_raise (env.loads answer.0) structured_llm_error
    or_raise (validate data_read) structured_llm_error
