-- ===== src/Sample/Deterministic.antt =====
-- sample/deterministic.go: `DeterministicSampler`, which keeps one in a number of traces by their
-- id. `sum` is the number in the first four bytes of the SHA-1 sum. A configured rate is not
-- negative.
use refinery.Base.{
  ℕ, ◌-◌, ◌*◌, ◌/◌, ◌%◌, ◌^◌, ◌≤◌, ◌<◌, ◌≡◌, ◌↔◌, refl, sym, Bool, true, false, Option, none, some,
  String, leb, ◌==◌, if◌then◌else◌, arith, leb→le, le_div, Bool-cases, inl, inr,
}
use Prim.Native.String.{◌++◌ as joined}

abbrev pub sharding_salt : String
sharding_salt = "5VQ8l2jE5aJLPVqk"

abbrev pub max_uint32 : ℕ
max_uint32 = 2 ^ 32 - 1

pub record DeterministicSampler : Type 0 where
  pub sample_rate : ℕ
  pub upper_bound : ℕ

-- `Start`; `none` is the panic of a division by 0
unfoldable pub start : ℕ → Option DeterministicSampler
start rate =
    if rate % 2 ^ 32 == 0
    then none
    else some (record { sample_rate = rate; upper_bound = max_uint32 / (rate % 2 ^ 32) })

-- `GetSampleRate`: the rate, whether to keep, and the reason; the key is empty
unfoldable pub get_sample_rate : (String → ℕ) → DeterministicSampler → String → ℕ × Bool × String
get_sample_rate sum d trace_id =
    if leb d.sample_rate 1 then (1, true, "deterministic/always") else (
      d.sample_rate,
      leb (sum (joined trace_id sharding_salt)) d.upper_bound,
      "deterministic/chance",
    )

-- A sampler with a rate from 1 to 2 ^ 32 - 1 starts, reports that rate, and keeps a trace exactly
-- if the number of its id, times the rate, stays within 32 bits.
pub get_sample_rate-start :
    (sum : String → ℕ) (n : ℕ) (id : String)
    → 1 ≤ n
    → n < 2 ^ 32
    → sum (joined id sharding_salt) ≤ max_uint32
    → (d : DeterministicSampler) × (start n ≡ some d)
      × ((get_sample_rate sum d id).0 ≡ n)
      × (((get_sample_rate sum d id).1 ≡ true) ↔ (sum (joined id sharding_salt) * n ≤ max_uint32))
unfolding get_sample_rate start
get_sample_rate-start sum n id low high fits = elim (Bool-cases (leb n 1)) [
  | inl a ↦
      let one : n ≡ 1 = omega (arith, leb→le n 1 a) in
      (d, started, rw a (sym one), rw a (λ _. rw one (omega arith), λ _. refl))
  | inr a ↦ (d, started, rw a refl, rw a (le_div (sum (joined id sharding_salt)) max_uint32 n low))
]
  where
    d : DeterministicSampler
    d = record { sample_rate = n; upper_bound = max_uint32 / n }

    started : start n ≡ some d
    started =
        let same : n % 2 ^ 32 ≡ n = omega arith in
        let nonzero : (n == 0) ≡ false = ground arith in rw (same, nonzero) refl
