-- ===== src/Health.antt =====
-- internal/health/health.go: the subsystems' reports of being ready and alive. A time left is
-- `none` for the -1 of a subsystem that has registered and not reported yet; durations are in
-- nanoseconds. The ticker calls `tick` each `ticker_time`; logs and gauges are left out. The order
-- in which Go visits a map only chooses which dead subsystem is noted first.
pub mod Life
pub mod Alive
use refinery.Base.{
  ℕ, ◌+◌, ◌-◌, ◌*◌, ◌≡◌, Bool, true, false, ◌&&◌, not, Option, none, some, String, String_discrete,
  List, [], ◌∷◌, ltb, leb, ◌==◌, length, if◌then◌else◌,
}
use refinery.GoMap.{get, set, delete, is_some}

-- 500 milliseconds
abbrev pub ticker_time : ℕ
ticker_time = 500000000

pub record Health : Type 0 where
  pub timeouts : List (String × ℕ)
  pub time_left : List (String × Option ℕ)
  pub readies : List (String × Bool)
  pub alives : List (String × Bool)

-- `Start`
unfoldable pub start : Health
start = record { timeouts = []; time_left = []; readies = []; alives = [] }

unfoldable pub tick_one : Option ℕ → Option ℕ
tick_one none = none
tick_one (some n) = some (n - ticker_time)

-- the loop in `ticker`: what is left of each positive time, which does not go below 0
unfoldable pub tick_all : List (String × Option ℕ) → List (String × Option ℕ)
unfolding tick_one
tick_all [] = []
tick_all ((k, t) ∷ m) = (k, tick_one t) ∷ tick_all m

unfoldable pub tick : Health → Health
unfolding tick_all
tick h = record h { time_left = tick_all h.time_left }

unfoldable pub register : Health → String → ℕ → Health
register h subsystem timeout = record h {
  timeouts = set String_discrete subsystem timeout h.timeouts;
  readies = set String_discrete subsystem false h.readies;
  time_left = set String_discrete subsystem none h.time_left;
}

unfoldable pub unregister : Health → String → Health
unregister h subsystem = record h {
  timeouts = delete String_discrete subsystem h.timeouts;
  time_left = delete String_discrete subsystem h.time_left;
  alives = delete String_discrete subsystem h.alives;
  readies = set String_discrete subsystem false h.readies;
}

-- `checkAlive`, which marks the dead subsystem it finds
unfoldable pub first_dead : List (String × Option ℕ) → Option String
first_dead [] = none
first_dead ((k, none) ∷ m) = first_dead m
first_dead ((k, some t) ∷ m) = let rest = first_dead m in if t == 0 then some k else rest

is_true : Option Bool → Bool
is_true (some true) = true
is_true _ = false

mark_dead : Health → Option String → Health × Bool
unfolding is_true
mark_dead h none = (h, true)
mark_dead h (some k) = (
  if is_true (get String_discrete k h.alives)
      then record h { alives = set String_discrete k false h.alives }
      else h,
  false,
)

unfoldable pub check_alive : Health → Health × Bool
unfolding first_dead mark_dead
check_alive h = mark_dead h (first_dead h.time_left)

-- the loops of `checkReady`
unfoldable pub positive : Option ℕ → Bool
positive none = false
positive (some n) = not (n == 0)

unfoldable pub all_positive : List (String × Option ℕ) → Bool
unfolding positive
all_positive [] = true
all_positive ((k, t) ∷ m) = let rest = all_positive m in if positive t then rest else false

unfoldable pub all_ready : Bool → List (String × Bool) → Bool
all_ready ready [] = ready
all_ready ready ((k, r) ∷ m) = all_ready (ready && r) m

-- `checkReady`
unfoldable pub check_ready : Health → Bool
unfolding all_positive all_ready
check_ready h =
    if length h.readies == 0
    then false
    else if not (all_positive h.time_left)
    then false
    else all_ready true h.readies

unfoldable pub note_report : Health → String → Bool → ℕ → Health
note_report h subsystem r timeout = record h {
  readies = set String_discrete subsystem r h.readies;
  time_left = set String_discrete subsystem (some timeout) h.time_left;
  alives = set String_discrete subsystem true h.alives;
}

-- a report with the timeout of the subsystem; one that is not registered is ignored
unfoldable pub report : Health → String → Bool → Option ℕ → Health
unfolding note_report check_alive
report h subsystem r none = h
report h subsystem r (some timeout) = (check_alive (note_report h subsystem r timeout)).0

-- `Ready`, which also calls `checkAlive` for its gauge
unfoldable pub ready : Health → String → Bool → Health
unfolding report
ready h subsystem r = report h subsystem r (get String_discrete subsystem h.timeouts)

-- `IsAlive` and `IsReady`
unfoldable pub is_alive : Health → Health × Bool
is_alive h = check_alive h

unfoldable pub is_ready : Health → Bool
is_ready h = check_ready h
