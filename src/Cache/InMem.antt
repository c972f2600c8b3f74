-- ===== src/Cache/InMem.antt =====
-- collect/cache/cache.go: `DefaultInMemCache`, the traces that wait for a decision, with a queue
-- of their ids by the time they are to be sent. `max` is a limit if it is positive. Metrics are
-- left out, and `GetCacheCapacity` is the constant `max_int32`.
pub mod Valid
pub mod Take
pub mod Refine
use refinery.Base.{
  ℕ, zero, suc, ◌+◌, ◌-◌, ◌^◌, Bool, true, false, ◌||◌, not, Option, none, some, String,
  String_discrete, List, [], ◌∷◌, ◌++◌, length, ltb, ◌==◌, if◌then◌else◌,
}
use refinery.GoMap
use refinery.GoMap.{values}
use refinery.Deps.Queue.{KeyedQueue}
use refinery.Types.Trace.{Trace}

pub record InMemCache (Q : Type 0) : Type 0 where
  pub pq : Q
  pub traces : List (String × Trace)

abbrev pub max_int32 : ℕ
max_int32 = 2 ^ 31 - 1

module _ (kpq : KeyedQueue) where
  open kpq use {Queue}

  unfoldable pub new : InMemCache Queue
  new = record { pq = kpq.new; traces = [] }

  unfoldable pub entry_count : InMemCache Queue → ℕ
  entry_count d = length d.traces

  -- `Set`; the argument may be nil
  unfoldable pub set : InMemCache Queue → Option Trace → InMemCache Queue
  set d none = d
  set d (some trace) = record {
    pq = kpq.set d.pq trace.trace_id trace.send_by;
    traces = GoMap.set String_discrete trace.trace_id trace d.traces;
  }

  unfoldable pub get : InMemCache Queue → String → Option Trace
  get d trace_id = GoMap.get String_discrete trace_id d.traces

  unfoldable pub get_all : InMemCache Queue → List Trace
  get_all d = values d.traces

  unfoldable pub capacity : InMemCache Queue → ℕ
  capacity d = max_int32

  -- what the loop of `TakeExpiredTraces` has gathered
  pub record Taken : Type 0 where
    pub cache : InMemCache Queue
    pub expired : List Trace
    pub skipped : List Trace

  unfoldable pub has_room : ℕ → List Trace → Bool
  has_room max expired = max == 0 || ltb (length expired) max

  passes : Option (Trace → Bool) → Trace → Bool
  passes none trace = true
  passes (some filter) trace = filter trace

  -- whether the loop of `TakeExpiredTraces` goes on
  pub data Step : Type 0 where
    stop : Taken → Step
    again : Taken → Step

  unfoldable pub take_trace : ℕ → Option (Trace → Bool) → Taken → String → ℕ → Queue → Trace → Step
  unfolding passes
  take_trace now filter s trace_id send_by pq trace =
      if ltb now send_by
      then stop (record s { cache = record (s.cache) { pq = kpq.push pq trace_id send_by } })
      else if not (passes filter trace)
      then again
          (record s { cache = record (s.cache) { pq = pq }; skipped = s.skipped ++ trace ∷ [] })
      else again (record s {
        cache = record { pq = pq; traces = GoMap.delete String_discrete trace_id s.cache.traces };
        expired = s.expired ++ trace ∷ [];
      })

  unfoldable pub take_cached :
      ℕ → Option (Trace → Bool) → Taken → String → ℕ → Queue → Option Trace → Step
  unfolding take_trace
  take_cached now filter s trace_id send_by pq none =
      again (record s { cache = record (s.cache) { pq = pq } })
  take_cached now filter s trace_id send_by pq (some trace) =
      take_trace now filter s trace_id send_by pq trace

  unfoldable pub take_popped :
      ℕ → Option (Trace → Bool) → Taken → Option (String × ℕ × Queue) → Step
  unfolding take_cached
  take_popped now filter s none = stop s
  take_popped now filter s (some (trace_id, send_by, pq)) =
      take_cached now filter s trace_id send_by pq
        (GoMap.get String_discrete trace_id s.cache.traces)

  -- one round of the loop of `TakeExpiredTraces`
  unfoldable pub take_step : ℕ → ℕ → Option (Trace → Bool) → Taken → Step
  unfolding has_room take_popped
  take_step now max filter s =
      if has_room max s.expired then take_popped now filter s (kpq.pop s.cache.pq) else stop s

  unfoldable pub resume : (Taken → Taken) → Step → Taken
  resume loop (stop s) = s
  resume loop (again s) = loop s

  -- the loop; each round pops the queue, so its length is fuel enough
  unfoldable pub take_loop : ℕ → ℕ → ℕ → Option (Trace → Bool) → Taken → Taken
  unfolding take_step resume
  take_loop zero now max filter s = s
  take_loop (suc fuel) now max filter s =
      resume (take_loop fuel now max filter) (take_step now max filter s)

  -- the traces that the filter skipped go back to the queue
  unfoldable pub push_back : Queue → List Trace → Queue
  push_back pq [] = pq
  push_back pq (trace ∷ traces) = push_back (kpq.push pq trace.trace_id trace.send_by) traces

  unfoldable pub take_expired_traces :
      InMemCache Queue → ℕ → ℕ → Option (Trace → Bool) → InMemCache Queue × List Trace
  unfolding take_loop push_back
  take_expired_traces d now max filter =
      let s =
        take_loop (kpq.len d.pq) now max filter
          (record { cache = d; expired = []; skipped = [] }) in
      let d' = s.cache in (record d' { pq = push_back d'.pq s.skipped }, s.expired)

  unfoldable pub remove_traces : InMemCache Queue → List String → InMemCache Queue
  remove_traces d [] = d
  remove_traces d (trace_id ∷ ids) =
      remove_traces
        (record {
          pq = kpq.remove d.pq trace_id;
          traces = GoMap.delete String_discrete trace_id d.traces;
        })
        ids
