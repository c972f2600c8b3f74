-- ===== src/Cache/InMem/Valid.antt =====
-- collect/cache/cache.go: the queue and the map of the live traces agree, and every operation
-- keeps it so.
use refinery.Base.{◌≡◌, Option, some, String, String_discrete, List, [], ◌∷◌, ite, arith}
use refinery.GoMap
use refinery.GoMap.{Unique, get-set, get-delete, set-Unique, delete-Unique}
use refinery.Deps.Queue.{KeyedQueue}
use refinery.Types.Trace.{Trace}
use refinery.Cache.InMem.{InMemCache, new, set, remove_traces}

module _ (kpq : KeyedQueue) where
  open kpq use {Queue}

  abbrev pub find : InMemCache Queue → String → Option Trace
  find d k = GoMap.get String_discrete k d.traces

  -- Each trace is stored under its own id, and is queued by its time to be sent.
  pub record IsValid (d : InMemCache Queue) : Type 0 where
    pub unique : Unique String_discrete d.traces
    pub keyed : (k : String) (t : Trace) → find d k ≡ some t → t.trace_id ≡ k
    pub synced : (k : String) (t : Trace) → find d k ≡ some t → kpq.priority d.pq k ≡ some t.send_by

  pub new-IsValid : IsValid (new kpq)
  unfolding new GoMap.get Unique
  new-IsValid = record { unique = tt; keyed = λ k t h. cc; synced = λ k t h. cc }

  -- `Set` stores the trace and moves it in the queue to its present time; the others stay.
  pub set-IsValid :
      (d : InMemCache Queue) (trace : Trace)
      → IsValid d
      → IsValid (set kpq d (some trace))
        × ((k : String)
            → find (set kpq d (some trace)) k
              ≡ ite (String_discrete k trace.trace_id) (some trace) (find d k))
  unfolding set
  set-IsValid d trace v = (
    record {
      unique = set-Unique String_discrete trace.trace_id trace d.traces v.unique;
      keyed = λ k t h.
          ground (arith, get-set String_discrete k trace.trace_id trace d.traces, v.keyed k t);
      synced = λ k t h. ground (
        arith,
        get-set String_discrete k trace.trace_id trace d.traces,
        v.synced k t,
        kpq.priority-set d.pq k trace.trace_id trace.send_by,
      );
    },
    λ k. get-set String_discrete k trace.trace_id trace d.traces,
  )

  -- `RemoveTraces` keeps the cache valid.
  pub remove_traces-IsValid :
      (ids : List String) (d : InMemCache Queue) → IsValid d → IsValid (remove_traces kpq d ids)
  unfolding remove_traces
  remove_traces-IsValid [] d v = v
  remove_traces-IsValid (id ∷ ids) d v =
      remove_traces-IsValid ids
        (record { pq = kpq.remove d.pq id; traces = GoMap.delete String_discrete id d.traces })
        (record {
          unique = delete-Unique String_discrete id d.traces v.unique;
          keyed = λ k t h. ground (arith, get-delete String_discrete k id d.traces, v.keyed k t);
          synced = λ k t h. ground (
            arith,
            get-delete String_discrete k id d.traces,
            v.synced k t,
            kpq.priority-remove d.pq k id,
          );
        })
