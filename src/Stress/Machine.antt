-- ===== src/Stress/Machine.antt =====
-- collect/stressRelief.go: when stress relief is on, and what it samples.
use refinery.Base.{
  ℕ, ◌≡◌, refl, ap, ◌∙◌, Bool, true, false, ◌&&◌, ◌||◌, not, String, List, max, arith, ◌⊎◌, inl,
  inr, ltb, leb,
}
use refinery.Stress.{
  StressRelief, Mode, never, monitor, always, activate, push_out, deactivate, switch, recalc,
  cluster_stress_level,
}

-- Whether relief is on in the mode "monitor", by the level `m` that was measured.
abbrev pub stays_on : ℕ → StressRelief → StressRelief → Bool
stays_on now s m =
    (s.stressed || leb s.activate_level m.overall_stress_level)
    && not (ltb m.overall_stress_level s.deactivate_level && ltb s.stay_on_until now)

stressed-monitor : (now : ℕ) (m : StressRelief) → (switch monitor now m).stressed ≡ stays_on now m m
unfolding switch activate push_out deactivate
stressed-monitor now m = ground arith

module _ (root_mean : List ℕ → ℕ → ℕ) where
  -- the state after the levels were computed, on which the switch acts
  abbrev pub measured : ℕ → StressRelief → ℕ → String → StressRelief
  measured now s local_level reason =
      let p = cluster_stress_level root_mean now s local_level in
      record (p.0) { overall_stress_level = max p.1 local_level; reason = reason }

  -- After `Recalc` relief is off in the mode "never" and on in the mode "always". In the mode
  -- "monitor", if it was off, it is on exactly if the level has reached the level of activation
  -- and is not at once below the level of deactivation with the time to stay on passed; if it was
  -- on, it is off exactly if the level is below the level of deactivation and that time has passed.
  pub recalc-stressed :
      (now : ℕ) (s : StressRelief) (local_level : ℕ) (reason : String)
      → ((s.mode ≡ never) × ((recalc root_mean now s local_level reason).0.stressed ≡ false))
        ⊎ ((s.mode ≡ always) × ((recalc root_mean now s local_level reason).0.stressed ≡ true))
        ⊎ ((s.mode ≡ monitor)
            × ((recalc root_mean now s local_level reason).0.stressed
                ≡ stays_on now s (measured now s local_level reason)))
  unfolding recalc cluster_stress_level switch activate push_out deactivate
  recalc-stressed now s local_level reason = by_mode s.mode refl
    where
      m : StressRelief
      m = measured now s local_level reason

      by_mode :
          (mode : Mode)
          → s.mode ≡ mode
          → ((s.mode ≡ never) × ((switch s.mode now m).stressed ≡ false))
            ⊎ ((s.mode ≡ always) × ((switch s.mode now m).stressed ≡ true))
            ⊎ ((s.mode ≡ monitor) × ((switch s.mode now m).stressed ≡ stays_on now s m))
      by_mode never e = inl (e, rw e refl)
      by_mode always e = inr (inl (e, rw e refl))
      by_mode monitor e =
          inr (inr (e, ap (λ q. (switch q now m).stressed) e ∙ stressed-monitor now m))
