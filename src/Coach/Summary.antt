-- ===== src/Coach/Summary.antt =====
-- `estimate_cost_usd` and `_summary` of backend/services/coach.py. The rounding of a quotient to the
-- nearest whole number is an argument; a cost is a whole number of millionths of a dollar.
use p_r_i_s_m.Prelude.{ℕ, ◌+◌, ◌*◌, List, Option, none, some, String, if◌then◌else◌}
use p_r_i_s_m.Text.{Text, codes, text_eq}
use p_r_i_s_m.Coach.Session.{CoachStats, LlmClient}

-- `_PRICE_PER_M.get(model, (0.0, 0.0))`, in hundredths of a dollar
unfoldable pub price_of : Text → ℕ × ℕ
unfolding text_eq
price_of model = if text_eq model (codes "gpt-4o-mini") then (15, 60) else (0, 0)

-- `round((prompt_tokens * pin + completion_tokens * pout) / 1_000_000, 6)`
unfoldable pub estimate_cost_usd : (ℕ → ℕ → ℕ) → Text → ℕ → ℕ → ℕ
unfolding price_of
estimate_cost_usd nearest model prompt_tokens completion_tokens =
    let (pin, pout) = price_of model in nearest (prompt_tokens * pin + completion_tokens * pout) 100

pub record CoachSummary : Type 0 where
  pub coached : ℕ
  pub calls : ℕ
  pub cached : ℕ
  pub filtered_fields : ℕ
  pub model : Option Text
  pub prompt_tokens : ℕ
  pub completion_tokens : ℕ
  pub estimated_cost_usd : ℕ
  pub skipped_reason : Option String
  pub errors : List String

-- `model or ""`
unfoldable pub or_empty : Option Text → Text
or_empty none = codes ""
or_empty (some model) = model

-- `_summary`; the constant text of its key `method` is left out.
unfoldable pub summary : (ℕ → ℕ → ℕ) → CoachStats → Option Text → CoachSummary
unfolding estimate_cost_usd or_empty
summary nearest stats model = record {
  coached = stats.coached;
  calls = stats.calls;
  cached = stats.cached;
  filtered_fields = stats.filtered_fields;
  model = model;
  prompt_tokens = stats.prompt_tokens;
  completion_tokens = stats.completion_tokens;
  estimated_cost_usd =
      estimate_cost_usd nearest (or_empty model) stats.prompt_tokens stats.completion_tokens;
  skipped_reason = stats.skipped_reason;
  errors = stats.errors;
}

-- `client.model`, or `None` without a client
unfoldable pub model_of : Option LlmClient → Option Text
model_of none = none
model_of (some client) = some client.model
