-- ===== src/Tests/Stress.antt =====
-- Stress relief and the deterministic sampler, at concrete inputs.
use refinery.Base.{some, ℕ, ◌*◌, ◌≤◌, ◌≡◌, ◌⊎◌, ◌↔◌, true, false, String, List, [], ◌∷◌, arith}
use refinery.Stress.{StressRelief, StressConfig, never, monitor, always, recalc}
use refinery.Stress.Machine.{recalc-stressed, stays_on, measured}
use refinery.Sample.Deterministic
use refinery.Sample.Deterministic.{DeterministicSampler, max_uint32, get_sample_rate-start}

-- some way to average
abbrev mean : List ℕ → ℕ → ℕ
mean [] n = 0
mean (l ∷ ls) n = l

abbrev watching : StressRelief
watching = record {
  mode = monitor;
  host_id = "h";
  activate_level = 90;
  deactivate_level = 75;
  sample_rate = 100;
  upper_bound = 5;
  overall_stress_level = 0;
  reason = "";
  stressed = false;
  stay_on_until = 0;
  min_duration = 10;
  stress_levels = [];
}

abbrev settings : StressConfig
settings = record {
  mode = "monitor";
  activation_level = 90;
  deactivation_level = 75;
  sampling_rate = 4;
  minimum_activation_duration = 10;
}

abbrev constant_hash : String → ℕ
constant_hash s = 12

recalc-stressed_example :
    ((monitor ≡ never) × ((recalc mean 7 watching 95 "memory").0.stressed ≡ false))
    ⊎ ((monitor ≡ always) × ((recalc mean 7 watching 95 "memory").0.stressed ≡ true))
    ⊎ ((monitor ≡ monitor)
        × ((recalc mean 7 watching 95 "memory").0.stressed
            ≡ stays_on 7 watching (measured mean 7 watching 95 "memory")))
recalc-stressed_example = recalc-stressed mean 7 watching 95 "memory"

get_sample_rate-start_example :
    (d : DeterministicSampler) × (Deterministic.start 4 ≡ some d)
    × ((Deterministic.get_sample_rate constant_hash d "t").0 ≡ 4)
    × (((Deterministic.get_sample_rate constant_hash d "t").1 ≡ true) ↔ (12 * 4 ≤ max_uint32))
get_sample_rate-start_example =
    get_sample_rate-start constant_hash 4 "t" (omega arith) (omega arith) (omega arith)
