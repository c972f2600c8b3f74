-- ===== src/Tests/Cache.antt =====
-- The caches of live traces and of decisions, at concrete inputs.
use refinery.Base.{
  ℕ, ◌≡◌, ◌+◌, refl, length, true, false, none, some, String, String_discrete, [], ◌∷◌, arith,
}
use refinery.GoMap
use refinery.GoMap.{Unique, is_some}
use refinery.Generics.Set.{elem}
use refinery.Generics.SetTtl
use refinery.Types.Trace.{Trace, u32, span_count_of, span_event_count_of, span_link_count_of}
use refinery.Cache.InMem
use refinery.Cache.InMem.{InMemCache}
use refinery.Cache.InMem.Valid.{IsValid, find, new-IsValid, set-IsValid}
use refinery.Cache.InMem.Refine.{put, remove, take, Refines, new-Refines}
use refinery.Cache.InMem.Take.{KeptOrTaken, take-KeptOrTaken}
use refinery.Cache.Reasons
use refinery.Cache.Reasons.{KeptReasons, get-set_reason, get-set_reason_old}
use refinery.Cache.Cuckoo
use refinery.Cache.Cuckoo.{Checker}
use refinery.Cache.Cuckoo.Cycle.{check-maintain}
use mathlib.Core.List.{Memᴰ}
use refinery.Cache.Sent.Entries.{is_span_event, is_link, is_plain, one_more}
use refinery.Types.Span.{annotation_type}
use refinery.Cache.Sent.{SentCache, KeptEntry, dropped, kept, check_span, record_decision}
use refinery.Cache.Sent.Decisions.{check_span-record_dropped, check_span-record_kept}
use refinery.Tests.Lists.{queue, filter, lru}
use refinery.Tests.Samples.{span, trace}

abbrev later_trace : Trace
later_trace = record trace { trace_id = "t2"; send_by = 9 }

abbrev pub one : InMemCache queue.Queue
one = InMem.set queue (InMem.new queue) (some trace)

abbrev pub two : InMemCache queue.Queue
two = InMem.set queue one (some later_trace)

two-IsValid : IsValid queue two
two-IsValid =
    (set-IsValid queue one later_trace
      (set-IsValid queue (InMem.new queue) trace (new-IsValid queue)).0).0

find-two : find queue two "t1" ≡ some trace
unfolding InMem.set InMem.new GoMap.get GoMap.set GoMap.delete String_discrete queue
find-two = refl

take-KeptOrTaken_example :
    IsValid queue (InMem.take_expired_traces queue two 7 0 none).0
    × KeptOrTaken queue 7 two
        (InMem.take_expired_traces queue two 7 0 none).0
        (InMem.take_expired_traces queue two 7 0 none).1
        "t1"
        trace
take-KeptOrTaken_example = take-KeptOrTaken queue 7 0 two two-IsValid "t1" trace find-two

-- a hash with collisions
abbrev hash : String → ℕ
hash s = 5

abbrev no_reasons : KeptReasons
no_reasons = record { reasons = []; keys = [] }

abbrev one_reason : KeptReasons
one_reason = record { reasons = "rule" ∷ []; keys = (5, 1) ∷ [] }

no_reasons-IsValid : Reasons.IsValid hash no_reasons
unfolding GoMap.get
no_reasons-IsValid = record { stored = λ h n e. cc }

one_reason-IsValid : Reasons.IsValid hash one_reason
unfolding Reasons.set GoMap.get GoMap.set
one_reason-IsValid = (get-set_reason hash no_reasons no_reasons-IsValid "rule" (omega arith)).1

abbrev full : Checker filter
full = record {
  current = some (1, "old" ∷ []);
  future = none;
  capacity = 4;
  addch = "new" ∷ [];
  refused = 0;
}

abbrev roomy : Checker filter
roomy = record full { current = some (3, "old" ∷ []) }

-- a checker whose current filter is full after the drain
abbrev cycling : Checker filter
cycling = record full { current = some (2, "old" ∷ []); future = some (4, "old" ∷ []) }

check-maintain_example :
    (Cuckoo.check filter (Cuckoo.maintain filter 5 cycling) "new" ≡ true)
    × (Cuckoo.check filter (Cuckoo.maintain filter 5 cycling) "old" ≡ true)
unfolding elem String_discrete GoMap.get
check-maintain_example =
    check-maintain filter 5 cycling (2, "old" ∷ []) (4, "old" ∷ []) "new" "old" refl refl
      (omega arith) (refl, tt) (refl, tt) (Memᴰ.head refl) refl refl

abbrev decisions : SentCache lru filter hash
decisions = record {
  store = [];
  kept_ids = (3, []);
  dropped_ids = record roomy { addch = [] };
  recent = record { items = []; ttl = 3000 };
  kept_reasons = no_reasons;
}

check_span-record_dropped_example :
    (check_span lru filter hash 2005
      (record_decision lru filter hash 5 decisions trace false "").0
      span).1
    ≡ some (dropped, "")
check_span-record_dropped_example =
    check_span-record_dropped lru filter hash 5 2005 decisions trace "" span refl (omega arith)

check_span-record_kept_example :
    (e : KeptEntry) × (s : String) × ((check_span lru filter hash 7
        (record_decision lru filter hash 5 decisions trace true "rule").0
        span).1
      ≡ some (kept e, s))
    × (hash s ≡ hash "rule")
    × (e.rate ≡ u32 trace.sample_rate)
    × (e.event_count ≡ u32 (length trace.spans + 1))
    × (e.span_event_count
        ≡ one_more (is_span_event (annotation_type span)) (span_event_count_of trace))
    × (e.span_link_count ≡ one_more (is_link (annotation_type span)) (span_link_count_of trace))
    × (e.span_count ≡ one_more (is_plain (annotation_type span)) (span_count_of trace))
unfolding SetTtl.contains SetTtl.is_after GoMap.get Cuckoo.check Cuckoo.lookup_in elem
    String_discrete
check_span-record_kept_example =
    check_span-record_kept lru filter hash 5 7 decisions trace "rule" span no_reasons-IsValid
      (omega arith) refl refl refl

new-Refines_example :
    Refines queue
      (put (some trace) ∷ take 7 ∷ remove ("t1" ∷ []) ∷ [])
      (InMem.new queue)
      (λ k. none)
new-Refines_example = new-Refines queue (put (some trace) ∷ take 7 ∷ remove ("t1" ∷ []) ∷ [])
