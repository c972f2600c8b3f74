-- ===== src/Cache/Sent.antt =====
-- collect/cache/cuckooSentCache.go: the record of decisions. Kept traces are entries in a store,
-- which the bounded map points into; dropped traces are in a set of recent ids and in the cuckoo
-- filters. `now` is the clock's reading in a call. The goroutines that tick are their calls of
-- `maintain_tick`; metrics and locks are left out.
pub mod Entries
pub mod Decisions
use refinery.Base.{
  ℕ, zero, suc, ◌+◌, ◌-◌, ◌%◌, ◌^◌, Bool, true, false, Option, none, some, String, String_discrete,
  List, [], ◌∷◌, ◌++◌, length, ltb, drop, get_elem?, set, if◌then◌else◌,
}
use refinery.Generics.SetTtl
use refinery.Generics.SetTtl.{SetWithTtl}
use refinery.Deps.Filter.{CuckooFilter}
use refinery.Deps.Lru.{Lru}
use refinery.Types.Span.{Span, AnnotationType, span_event, link, annotation_type}
use refinery.Types.Trace.{
  Trace, u32, descendant_count, counted, span_count_of, span_event_count_of, span_link_count_of,
}
use refinery.Cache.Reasons
use refinery.Cache.Reasons.{KeptReasons}
use refinery.Cache.Cuckoo
use refinery.Cache.Cuckoo.{Checker}

-- `keptTraceCacheEntry`, all of whose fields are `uint32`
pub record KeptEntry : Type 0 where
  pub rate : ℕ
  pub reason : ℕ
  pub event_count : ℕ
  pub span_event_count : ℕ
  pub span_link_count : ℕ
  pub span_count : ℕ

-- `NewKeptTraceCacheEntry`; the counts are memoized in the trace
unfoldable pub new_entry : Trace → KeptEntry
new_entry t = record {
  rate = u32 t.sample_rate;
  reason = u32 t.kept_reason;
  event_count = descendant_count t;
  span_event_count = span_event_count_of t;
  span_link_count = span_link_count_of t;
  span_count = span_count_of t;
}

unfoldable count_as : AnnotationType → KeptEntry → KeptEntry
count_as span_event e = record e { span_event_count = u32 (e.span_event_count + 1) }
count_as link e = record e { span_link_count = u32 (e.span_link_count + 1) }
count_as _ e = record e { span_count = u32 (e.span_count + 1) }

-- `Count`
unfoldable pub count : KeptEntry → Span → KeptEntry
unfolding count_as
count e sp = count_as (annotation_type sp) (record e { event_count = u32 (e.event_count + 1) })

-- `TraceSentRecord`: the record of a kept trace, or the one record of all dropped traces
pub data SentRecord : Type 0 where
  kept : KeptEntry → SentRecord
  dropped : SentRecord

unfoldable pub is_kept : SentRecord → Bool
is_kept (kept e) = true
is_kept dropped = false

unfoldable pub rate : SentRecord → ℕ
rate (kept e) = e.rate
rate dropped = 0

unfoldable pub descendants : SentRecord → ℕ
descendants (kept e) = e.event_count
descendants dropped = 0

unfoldable pub span_events : SentRecord → ℕ
span_events (kept e) = e.span_event_count
span_events dropped = 0

unfoldable pub span_links : SentRecord → ℕ
span_links (kept e) = e.span_link_count
span_links dropped = 0

unfoldable pub spans : SentRecord → ℕ
spans (kept e) = e.span_count
spans dropped = 0

-- the time to live of the recently dropped ids: 3 seconds, in nanoseconds
abbrev pub recent_ttl : ℕ
recent_ttl = 3000000000

module _ (lru : Lru) (cf : CuckooFilter) (hash : String → ℕ) where
  pub record SentCache : Type 0 where
    pub store : List KeptEntry
    pub kept_ids : lru.Cache
    pub dropped_ids : Checker cf
    pub recent : SetWithTtl String
    pub kept_reasons : KeptReasons

  -- `NewCuckooSentCache`; `none` is the error of a size that is not positive
  unfoldable pub new : ℕ → ℕ → Option SentCache
  unfolding Cuckoo.new
  new kept_size dropped_size = elim (lru.new kept_size) [
    | none ↦ none
    | some stc ↦ some (record {
      store = [];
      kept_ids = stc;
      dropped_ids = Cuckoo.new cf dropped_size;
      recent = record { items = []; ttl = recent_ttl };
      kept_reasons = record { reasons = []; keys = [] };
    })
  ]

  -- `Record`, which also notes the reason in a kept trace
  unfoldable pub record_decision : ℕ → SentCache → Trace → Bool → String → SentCache × Trace
  unfolding Reasons.set new_entry counted
  record_decision now c trace true reason =
      let (reasons, n) = Reasons.set hash c.kept_reasons reason in
      let trace' = counted (record trace { kept_reason = n }) in
      (
        record c {
          store = c.store ++ new_entry trace' ∷ [];
          kept_ids = lru.add c.kept_ids trace.trace_id (length c.store);
          kept_reasons = reasons;
        },
        trace',
      )
  record_decision now c trace false reason = (
    record c {
      recent = SetTtl.add String_discrete now c.recent (trace.trace_id ∷ []);
      dropped_ids = Cuckoo.add cf c.dropped_ids trace.trace_id;
    },
    trace,
  )

  unfoldable pub reason_or_empty : Option String → String
  reason_or_empty none = ""
  reason_or_empty (some r) = r

  -- what `CheckSpan` does with the entry of a kept trace
  unfoldable pub count_span :
      SentCache → Span → Option KeptEntry → ℕ → SentCache × Option (SentRecord × String)
  unfolding count reason_or_empty
  count_span c sp none at = (c, none)
  count_span c sp (some e) at =
      let e' = count e sp in
      (
        record c { store = set c.store at e' },
        some (kept e', reason_or_empty (Reasons.get c.kept_reasons e'.reason)),
      )

  unfoldable pub found_kept : SentCache → Span → Option ℕ → SentCache × Option (SentRecord × String)
  unfolding count_span
  found_kept c sp none = (c, none)
  found_kept c sp (some at) = count_span c sp (get_elem? c.store at) at

  -- `CheckSpan`; `none` is `nil`, "" and `false`
  unfoldable pub check_span : ℕ → SentCache → Span → SentCache × Option (SentRecord × String)
  unfolding found_kept
  check_span now c sp =
      if SetTtl.contains String_discrete now c.recent sp.trace_id
      then (
        record c { recent = SetTtl.add String_discrete now c.recent (sp.trace_id ∷ []) },
        some (dropped, ""),
      )
      else if Cuckoo.check cf c.dropped_ids sp.trace_id
      then (
        record c { recent = SetTtl.add String_discrete now c.recent (sp.trace_id ∷ []) },
        some (dropped, ""),
      )
      else let (ids, at) = lru.get c.kept_ids sp.trace_id in
        found_kept (record c { kept_ids = ids }) sp at

  entry_of : SentCache → Option ℕ → Option KeptEntry
  entry_of c none = none
  entry_of c (some at) = get_elem? c.store at

  with_reason : SentCache → Option KeptEntry → Option (SentRecord × String)
  unfolding reason_or_empty
  with_reason c none = none
  with_reason c (some e) = some (kept e, reason_or_empty (Reasons.get c.kept_reasons e.reason))

  -- `CheckTrace`
  unfoldable pub check_trace : SentCache → String → SentCache × Option (SentRecord × String)
  unfolding entry_of with_reason
  check_trace c trace_id =
      if Cuckoo.check cf c.dropped_ids trace_id
      then (c, some (dropped, ""))
      else let (ids, at) = lru.get c.kept_ids trace_id in
        (record c { kept_ids = ids }, with_reason c (entry_of c at))

  -- the loop of `Resize` that copies the keys to the new map, oldest first
  unfoldable pub copy_keys : lru.Cache → lru.Cache → List String → lru.Cache
  copy_keys old stc [] = stc
  copy_keys old stc (k ∷ ks) =
      let (old', at) = lru.get old k in
      copy_keys old' (elim at [ none ↦ stc | some v ↦ lru.add stc k v ]) ks

  -- `Resize`; `none` is the error of a size that is not positive
  unfoldable pub resize : SentCache → ℕ → ℕ → Option SentCache
  unfolding copy_keys
  resize c kept_size dropped_size = elim (lru.new kept_size) [
    | none ↦ none
    | some stc ↦
        let ks = lru.keys c.kept_ids in
        some (record c {
          kept_ids = copy_keys c.kept_ids stc (drop (length ks - kept_size) ks);
          dropped_ids = Cuckoo.set_next_capacity cf c.dropped_ids dropped_size;
        })
  ]

  -- a tick of `monitor`
  unfoldable pub maintain_tick : ℕ → ℕ → SentCache → SentCache
  maintain_tick now budget c = record c {
    dropped_ids = Cuckoo.maintain cf budget c.dropped_ids;
    recent = (SetTtl.cleanup String_discrete now c.recent).0;
  }
