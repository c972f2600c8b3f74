-- ===== src/Stress/Sampling.antt =====
-- collect/stressRelief.go: sampling by the hash of the trace id, as configured.
use refinery.Base.{
  ℕ, ◌*◌, ◌/◌, ◌≤◌, ◌≡◌, ◌↔◌, refl, sym, true, String, arith, leb, max, inl, inr, Bool-cases,
  leb→le, le_div,
}
use refinery.Stress.{StressRelief, StressConfig, update_from_config, get_sample_rate, max_uint64}

sampled :
    (hash : String → ℕ) (s : StressRelief) (id : String)
    → 1 ≤ s.sample_rate
    → s.upper_bound ≡ max_uint64 / s.sample_rate
    → hash id ≤ max_uint64
    → ((get_sample_rate hash s id).0 ≡ s.sample_rate)
      × (((get_sample_rate hash s id).1 ≡ true) ↔ (hash id * s.sample_rate ≤ max_uint64))
unfolding get_sample_rate
sampled hash s id low bound fits = elim (Bool-cases (leb s.sample_rate 1)) [
  | inl a ↦
      let one : s.sample_rate ≡ 1 = omega (arith, leb→le s.sample_rate 1 a) in
      rw a (sym one, (λ _. rw one (omega arith), λ _. refl))
  | inr a ↦ rw (a, bound) (refl, le_div (hash id) max_uint64 s.sample_rate low)
]

-- With any configuration and a hash of 64 bits, the rate that is reported is the configured one,
-- and at least 1; and a trace is kept exactly if its hash, times the rate, stays within 64 bits.
pub get_sample_rate-update_from_config :
    (hash : String → ℕ) (s : StressRelief) (cfg : StressConfig) (id : String)
    → hash id ≤ max_uint64
    → ((get_sample_rate hash (update_from_config s cfg) id).0 ≡ max 1 cfg.sampling_rate)
      × (((get_sample_rate hash (update_from_config s cfg) id).1 ≡ true)
          ↔ (hash id * max 1 cfg.sampling_rate ≤ max_uint64))
unfolding get_sample_rate update_from_config
get_sample_rate-update_from_config hash s cfg id fits =
    let s' = update_from_config s cfg in
    let rate : s'.sample_rate ≡ max 1 cfg.sampling_rate = ground arith in
    rw (sym rate) (sampled hash s' id (rw rate (omega arith)) refl fits)
