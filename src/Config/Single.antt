-- ===== src/Config/Single.antt =====
-- config/sampler_config.go, sample/sample.go: if only one downstream sampler is configured, its fields are those
-- that are asked for.
use refinery.Base.{ℕ, ◌+◌, ◌≤◌, ◌≡◌, Option, none, some, String, List, [], arith}
use refinery.Config.Samplers.{Downstream, Chosen, by_fields, downstream_fields, chosen_downstream}

-- The list of the sampler that is made of a configuration.
abbrev pub list_of : Chosen → List String
list_of (by_fields kind c) = c.field_list
list_of _ = []

abbrev pub one_if {ℓ} : {A : Type ℓ} → Option A → ℕ
one_if none = 0
one_if (some a) = 1

-- Only one of the downstream samplers should be set.
abbrev pub IsSingle : Downstream → Type 0
IsSingle d =
    one_if d.deterministic_sampler
      + one_if d.dynamic_sampler
      + one_if d.ema_dynamic_sampler
      + one_if d.ema_throughput_sampler
      + one_if d.windowed_throughput_sampler
      + one_if d.total_throughput_sampler
    ≤ 1

abbrev pub IsSingleOr : Option Downstream → Type 0
IsSingleOr none = Unit
IsSingleOr (some d) = IsSingle d

pub downstream_fields-IsSingle :
    (d : Downstream) → IsSingle d → downstream_fields d ≡ list_of (chosen_downstream d)
unfolding downstream_fields chosen_downstream
downstream_fields-IsSingle d h = ground arith
