-- ===== src/Stress.antt =====
-- collect/stressRelief.go: `StressRelief`, which under load keeps or drops spans by a hash of their
-- trace id alone. Levels are whole numbers from 0 to 100, as `uint(...)` rounds them; the
-- arithmetic on floats that leads to them is not modelled: `local_level` is the rounded maximum
-- over the calculations, and `root_mean` the rounded root of the mean of the squares listed.
pub mod Machine
pub mod Sampling
use refinery.Base.{
  ℕ, ◌+◌, ◌-◌, ◌*◌, ◌/◌, ◌%◌, ◌^◌, length, Bool, true, false, ◌&&◌, not, Option, none, some, String,
  String_discrete, List, [], ◌∷◌, ltb, leb, ◌==◌, ite, max, if◌then◌else◌,
}
use Prim.Native.String.{◌++◌ as joined}
use refinery.GoMap

-- `StressReliefMode`
pub data Mode : Type 0 where
  never monitor always : Mode

pub record StressReport : Type 0 where
  pub key : String
  pub level : ℕ
  pub timestamp : ℕ

-- `StressReliefConfig`
pub record StressConfig : Type 0 where
  pub mode : String
  pub activation_level : ℕ
  pub deactivation_level : ℕ
  pub sampling_rate : ℕ
  pub minimum_activation_duration : ℕ

pub record StressRelief : Type 0 where
  pub mode : Mode
  pub host_id : String
  pub activate_level : ℕ
  pub deactivate_level : ℕ
  pub sample_rate : ℕ
  pub upper_bound : ℕ
  pub overall_stress_level : ℕ
  pub reason : String
  pub stressed : Bool
  pub stay_on_until : ℕ
  pub min_duration : ℕ
  pub stress_levels : List (String × StressReport)

abbrev pub max_uint64 : ℕ
max_uint64 = 2 ^ 64 - 1

-- `peer.PeerEntryTimeout`: 10 seconds, in nanoseconds
abbrev pub peer_entry_timeout : ℕ
peer_entry_timeout = 10000000000

unfoldable pub mode_of : String → Mode
mode_of m = ite (String_discrete m "never") never (
    ite (String_discrete m "") never
      (ite (String_discrete m "monitor") monitor (ite (String_discrete m "always") always never)))

-- `UpdateFromConfig`
unfoldable pub update_from_config : StressRelief → StressConfig → StressRelief
update_from_config s cfg =
    let rate = if cfg.sampling_rate == 0 then 1 else cfg.sampling_rate in
    record s {
      mode = mode_of cfg.mode;
      activate_level = cfg.activation_level;
      deactivate_level = cfg.deactivation_level;
      sample_rate = rate;
      min_duration = cfg.minimum_activation_duration;
      upper_bound = max_uint64 / rate;
    }

-- `onStressLevelUpdate`, for a message that was read
unfoldable pub on_stress_level_update : ℕ → StressRelief → String → ℕ → StressRelief
on_stress_level_update now s peer level = record s {
  stress_levels =
      GoMap.set String_discrete peer (record { key = peer; level = level; timestamp = now })
        s.stress_levels;
}

-- the loop of `clusterStressLevel`: the reports that stay, and the squares of the levels that are
-- not 0, each a `uint` of 64 bits
unfoldable pub live_levels :
    ℕ → List (String × StressReport) → List (String × StressReport) × List ℕ
live_levels now [] = ([], [])
live_levels now ((k, r) ∷ reports) =
    let (rest, squares) = live_levels now reports in
    if ltb peer_entry_timeout (now - r.timestamp)
    then (rest, squares)
    else if r.level == 0
    then ((k, r) ∷ rest, squares)
    else ((k, r) ∷ rest, (r.level * r.level) % 2 ^ 64 ∷ squares)

-- the case `Monitor` of `Recalc`
unfoldable pub activate : StressRelief → StressRelief
activate s =
    if not s.stressed && leb s.activate_level s.overall_stress_level
    then record s { stressed = true }
    else s

unfoldable pub push_out : ℕ → StressRelief → StressRelief
push_out now s =
    if s.stressed && leb s.deactivate_level s.overall_stress_level
    then record s { stay_on_until = now + s.min_duration }
    else s

unfoldable pub deactivate : ℕ → StressRelief → StressRelief
deactivate now s =
    if s.stressed && (ltb s.overall_stress_level s.deactivate_level && ltb s.stay_on_until now)
    then record s { stressed = false }
    else s

-- the `switch` of `Recalc`
unfoldable pub switch : Mode → ℕ → StressRelief → StressRelief
unfolding activate push_out deactivate
switch never now s = record s { stressed = false }
switch always now s = record s { stressed = true }
switch monitor now s = deactivate now (push_out now (activate s))

module _ (root_mean : List ℕ → ℕ → ℕ) where
  -- `clusterStressLevel`
  unfoldable pub cluster_stress_level : ℕ → StressRelief → ℕ → StressRelief × ℕ
  cluster_stress_level now s local_level =
      let reports =
        GoMap.set String_discrete s.host_id
          (record { key = s.host_id; level = local_level; timestamp = now }) s.stress_levels in
      let (rest, squares) = live_levels now reports in
      let peers = length squares in
      (record s { stress_levels = rest }, root_mean squares (if peers == 0 then 1 else peers))

  -- `Recalc`, from the level and the reason that the calculations gave
  unfoldable pub recalc : ℕ → StressRelief → ℕ → String → StressRelief × ℕ
  unfolding switch cluster_stress_level
  recalc now s local_level reason =
      let (s', cluster) = cluster_stress_level now s local_level in
      let s'' = record s' { overall_stress_level = max cluster local_level; reason = reason } in
      (switch s''.mode now s'', local_level)

-- `GetSampleRate`: the rate, whether to keep, and the reason
unfoldable pub get_sample_rate : (String → ℕ) → StressRelief → String → ℕ × Bool × String
get_sample_rate hash s trace_id =
    if leb s.sample_rate 1 then (1, true, "stress_relief/always") else (
      s.sample_rate,
      leb (hash trace_id) s.upper_bound,
      joined "stress_relief/deterministic/" s.reason,
    )
