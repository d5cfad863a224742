-- ===== src/Budget.antt =====
-- `LLMBudget` of src/agent_runtime/budgets.py: what a route may spend on the language model.
use ai_assisted_aws_incident.Prelude.{ℕ, suc, ◌+◌, Bool, ◌||◌, ltb}

pub record LlmBudget : Type 0 where
  pub max_calls : ℕ
  pub max_tokens : ℕ
  pub calls : ℕ
  pub tokens_used : ℕ

-- The two assignments of `record_call`.
abbrev pub charge : ℕ → LlmBudget → LlmBudget
charge tokens b = record b { calls = suc b.calls; tokens_used = b.tokens_used + tokens }

-- `record_call` raises behind them.
abbrev pub is_exceeded : LlmBudget → Bool
is_exceeded b = ltb b.max_calls b.calls || ltb b.max_tokens b.tokens_used
