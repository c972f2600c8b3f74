-- ===== src/Collect/Config.antt =====
-- config/config.go, config/file_config.go: the settings that the collector reads, and which sampler
-- a trace belongs to. Durations are in nanoseconds; 0 is a setting that is not given.
use refinery.Base.{
  ℕ, Bool, true, false, ◌&&◌, ◌||◌, not, String, String_discrete, List, leb, ◌==◌, ite,
  if◌then◌else◌,
}
use Prim.Native.String.{len, ◌++◌ as joined}
use Prim.Native.Char.{code}

pub record Config : Type 0 where
  pub trace_timeout : ℕ
  pub send_delay : ℕ
  pub span_limit : ℕ
  pub max_expired_traces : ℕ
  pub add_rule_reason_to_trace : Bool
  pub add_counts_to_root : Bool
  pub add_span_count_to_root : Bool
  pub is_dry_run : Bool
  pub additional_attributes : List (String × String)
  pub hostname : String
  pub dataset_prefix : String

-- `IsLegacyAPIKey`: the tests of characters
unfoldable pub in_range : ℕ → ℕ → ℕ → Bool
in_range low high c = leb low c && leb c high

unfoldable pub is_digit : ℕ → Bool
unfolding in_range
is_digit c = in_range 48 57 c

-- the loops: every character is a digit or a letter up to `last`
unfoldable pub all_alphanumeric : ℕ → String → Bool
unfolding is_digit
all_alphanumeric last String.[] = true
all_alphanumeric last (String.◌∷◌ c s) =
    let rest = all_alphanumeric last s in
    if is_digit (code c) || in_range 97 last (code c) then rest else false

-- the form of the 64 characters "hc[a-z]ic_" and then letters and digits
unfoldable pub is_ingest_key : String → Bool
unfolding all_alphanumeric
is_ingest_key
      (String.◌∷◌ a (String.◌∷◌ b (String.◌∷◌ c (String.◌∷◌ d (String.◌∷◌ e (String.◌∷◌ f s)))))) =
    (code a == 104)
    && (code b == 99)
    && in_range 97 122 (code c)
    && (code d == 105)
    && (code e == 99)
    && (code f == 95)
    && all_alphanumeric 122 s
is_ingest_key _ = false

-- `IsLegacyAPIKey`; the keys are ASCII texts, so that their length is the number of characters
unfoldable pub is_legacy_api_key : String → Bool
unfolding is_ingest_key
is_legacy_api_key key =
    if len key == 32
    then all_alphanumeric 102 key
    else if len key == 64
    then is_ingest_key key
    else false

-- `DetermineSamplerKey`
unfoldable pub determine_sampler_key : Config → String → String → String → String
determine_sampler_key cfg api_key env dataset =
    if not (is_legacy_api_key api_key)
    then env
    else ite (String_discrete cfg.dataset_prefix "") dataset
        (joined cfg.dataset_prefix (joined "." dataset))
