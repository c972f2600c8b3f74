-- ===== src/Rules/Start/Outcomes.antt =====
-- sample/rules.go: when `Start` of a `RulesBasedSampler` panics, fails and succeeds.
use refinery.Base.{Bool, true, false, Option, String}
use refinery.Generics.Set
use refinery.Types.Payload.{Payload}
use refinery.Types.Trace.{Trace}
use refinery.Rules.Operators.{Std}
use refinery.Rules.Condition.{Prepared}
use refinery.Rules.Reference.{any_of}
use refinery.Rules.Sampler.{Rule}
use refinery.Rules.Start.{StartResult, panicked, failed}
use refinery.Config.Samplers.{Downstream, RulesConfig}
use refinery.Config.Covered.{rule_names}

abbrev pub is_failed : {S : Type 0} → StartResult S → Bool
is_failed failed = true
is_failed _ = false

abbrev pub is_panicked : {S : Type 0} → StartResult S → Bool
is_panicked panicked = true
is_panicked _ = false

module _ (S : Type 0) (std : Std) (nested : Payload → String → Option String)
    (printed : Rule Prepared Downstream → String) where
  -- A condition or a downstream sampler of the rules names a field with the empty name.
  abbrev pub names_empty : RulesConfig → Bool
  names_empty c = any_of (rule_names std "") c.rules
