-- ===== src/Environ.antt =====
-- What the process reads from outside: environment variables, the two settings objects
-- (src/config.py, src/agent_runtime/settings.py, parsed by pydantic-settings), the clock, uuid4, and
-- the parts of Python's `str`, `float`, `int`, `sha256` and `json.dumps` that act on arbitrary values.
use ai_assisted_aws_incident.Prelude.{
  ℕ, Bool, String, Option, List, or_else, none, some, lower, ◌==◌, ◌*◌,
}
use ai_assisted_aws_incident.Value.{
  Value, Fields, ℤ, pos, negsuc, null, boolean, int, float, text, list, dict,
}

-- `AppSettings` without the region and the profile of AWS and the addresses of the databases.
pub record AppSettings : Type 0 where
  pub demo_mode : Bool
  pub execution_mode : String
  pub execute_action_dry_run : Bool
  pub auth_mode : String
  pub checkout_service_url : String
  pub aws_ecs_cluster : String
  pub aws_ecs_service : String
  pub aws_log_group : String
  pub aws_metric_namespace : String
  pub aws_deployment_lookback_minutes : ℕ
  pub aws_action_dry_run : Bool

-- `AgentRuntimeSettings` without the timeout of the language model.
pub record AgentRuntimeSettings : Type 0 where
  pub agentic_enabled : Bool
  pub agentic_stub_fallback : Bool
  pub llm_base_url : String
  pub llm_model : String
  pub llm_api_key : String
  pub llm_max_tokens : ℕ
  pub llm_max_calls_per_route : ℕ
  pub llm_max_tokens_per_route : ℕ
  pub telemetry_adapter : String
  pub change_feed_adapter : String
  pub sandbox_enabled : Bool

pub record Environ : Type 0 where
  pub getenv : String → Option String
  pub app : AppSettings
  pub agent : AgentRuntimeSettings
  -- the n-th reading of `datetime.utcnow()`
  pub clock : ℕ → ℕ
  -- the n-th `uuid4().hex`
  pub uuid_hex : ℕ → String
  -- `hashlib.sha256(text.encode("utf-8")).hexdigest()`
  pub sha256 : String → String
  -- `str(v)` of a value that is no text
  pub render : Value → String
  -- `float(text)`: `none` is the ValueError; a negative number or a NaN reads as 0, since the
  -- program only asks whether a score is less than the result
  pub float_text : String → Option ℕ
  -- pydantic's reading of a value as a `str` and as an `int` field; `none` is a validation error
  pub as_str : Value → Option String
  pub as_int : Value → Option ℤ
  -- `int(v)`: `none` is a ValueError or a TypeError
  pub int_of : Value → Option ℤ
  -- `float(v)` as a field between 0 and 1: `none` is a TypeError, a ValueError or a validation error
  pub score_of : Value → Option ℕ
  -- `list(v)` as a field of texts: `none` is a TypeError or a validation error
  pub texts_of : Value → Option (List String)
  -- `json.loads(text)`: `none` is the JSONDecodeError
  pub loads : String → Option Value
  -- `int(v)` of a count of tokens: `none` is a TypeError or a ValueError
  pub count_of : Value → Option ℕ
  -- `datetime.isoformat()`
  pub isoformat : ℕ → String
  -- `datetime.fromisoformat(text.replace("Z", "+00:00"))`: `none` is the ValueError
  pub fromisoformat : String → Option ℕ
  -- `round(seconds / 60.0, 2)` of a difference of times
  pub minutes_of : ℕ → ℕ
  -- `f"{x:.0%}"`
  pub percent : ℕ → String
  -- the checkout service answers
  pub workload_up : Bool
  -- `json.dumps(fields)`
  pub dumps_plain : Fields → String
  -- `json.dumps(fields, sort_keys=True)`
  pub dumps : Fields → String

-- `os.getenv(name, default).lower() == "true"`
abbrev pub env_flag : Environ → String → String → Bool
env_flag env name default = lower (or_else (env.getenv name) default) == "true"

-- `str(v)`
abbrev pub str_of : Environ → Value → String
str_of env (text s) = s
str_of env v = env.render v

abbrev pub float_int : ℤ → ℕ
float_int (pos n) = n * 10000
float_int (negsuc _) = 0

-- `float(str(v))`, with `float_text`'s reading of negative numbers.
abbrev pub float_of : Environ → Value → Option ℕ
float_of env null = none
float_of env (boolean _) = none
float_of env (int n) = some (float_int n)
float_of env (float n) = some n
float_of env (text s) = env.float_text s
float_of env (list _) = none
float_of env (dict _) = none
