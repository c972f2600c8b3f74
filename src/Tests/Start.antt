-- ===== src/Tests/Start.antt =====
-- Starting a `RulesBasedSampler`, at concrete inputs.
use refinery.Base.{ℕ, true, false, Option, none, some, String, [], ◌∷◌}
use refinery.Types.Trace.{Trace}
use refinery.Base.Int.{pos}
use refinery.Rules.Operators.{trace}
use refinery.Rules.Condition.{Condition, Prepared}
use refinery.Rules.Sampler.{Rule, Answer, plain_answer}
use refinery.Config.Samplers.{Downstream, RulesConfig, FieldsConfig}
use refinery.Tests.Rules.{named}

abbrev printed : Rule Prepared Downstream → String
printed r = r.name

abbrev windowed : FieldsConfig
windowed = record { goal = pos 10; field_list = "status" ∷ [] }

abbrev pub downstream : Downstream
downstream = record {
  dynamic_sampler = none;
  ema_dynamic_sampler = none;
  ema_throughput_sampler = none;
  windowed_throughput_sampler = some windowed;
  total_throughput_sampler = none;
  deterministic_sampler = none;
}

abbrev pub rule : Rule Condition Downstream
rule = record {
  name = "r";
  sample_rate = pos 1;
  drop = false;
  scope = trace;
  conditions = some (named ∷ []);
  sampler = some downstream;
}

abbrev config : RulesConfig
config = record { rules = some rule ∷ []; check_nested_fields = false }

abbrev with_nil : RulesConfig
with_nil = record { rules = some rule ∷ none ∷ []; check_nested_fields = false }

abbrev ask : ℕ → Trace → ℕ × Answer
ask n t = (n, plain_answer n true "always")

abbrev make : Downstream → Option ℕ
make d = some 7
