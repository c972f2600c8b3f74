-- ===== src/Rules/Start.antt =====
-- sample/rules.go: `Start` of a `RulesBasedSampler`. `Init` of the conditions, which `GetSamplingFields`
-- calls first, is that of the loop: it does its work once. The key fields that `Start` notes are part of
-- what it gives.
pub mod Outcomes
use refinery.Base.{Bool, true, false, Option, none, some, String, List, [], ◌∷◌}
use refinery.Types.Payload.{Payload}
use refinery.Rules.Operators.{Std}
use refinery.Rules.Condition.{Condition, Prepared}
use refinery.Rules.Sampler.{Rule, Counts, RulesBasedSampler, start_loop}
use refinery.Config.Samplers.{Downstream, RulesConfig, rules_fields}
use refinery.Config.KeyFields.{get_key_fields}

-- `failed` is an error, and `panicked` a nil rule or an empty name of a field. A sampler that runs has
-- the key fields, and those that are not of the root.
pub data StartResult (S : Type 0) : Type 0 where
  panicked : StartResult S
  failed : StartResult S
  running : List String → List String → RulesBasedSampler Downstream S → StartResult S

-- the rules that the loop comes to before one that is nil
unfoldable pub before_nil :
    List (Option (Rule Condition Downstream)) → List (Rule Condition Downstream)
before_nil [] = []
before_nil (none ∷ rs) = []
before_nil (some r ∷ rs) = r ∷ before_nil rs

unfoldable pub has_nil : List (Option (Rule Condition Downstream)) → Bool
has_nil [] = false
has_nil (none ∷ rs) = true
has_nil (some r ∷ rs) = has_nil rs

module _ (S : Type 0) (std : Std) (nested : Payload → String → Option String)
    (printed : Rule Prepared Downstream → String) where
  -- what the loop comes to, which panics at a nil rule unless there was an error before
  unfoldable pub after_loop :
      Bool → List String × List String → Option (RulesBasedSampler Downstream S) → StartResult S
  after_loop nil_rule keys none = failed
  after_loop true keys (some st) = panicked
  after_loop false (all, non_root) (some st) = running all non_root st

  unfoldable pub start_with :
      Option (Downstream → Option S)
      → RulesConfig
      → Counts
      → Option (List String × List String)
      → StartResult S
  unfolding after_loop before_nil has_nil
  start_with make c counts none = panicked
  start_with make c counts (some keys) = after_loop (has_nil c.rules) keys (
      start_loop Downstream S std nested printed make (before_nil c.rules) c.check_nested_fields
        counts)

  -- `Start`; `make` is `GetDownstreamSampler` of the factory, if there is one
  unfoldable pub start : Option (Downstream → Option S) → RulesConfig → Counts → StartResult S
  unfolding start_with
  start make c counts = start_with make c counts (get_key_fields (rules_fields std c))
