-- ===== src/Cache/Sent/Decisions.antt =====
-- collect/cache/cuckooSentCache.go: a decision that was recorded is found by later spans.
use refinery.Base.{
  ℕ, ◌+◌, ◌^◌, ◌<◌, ◌≡◌, refl, ap, ◌∙◌, true, false, some, String, String_discrete, [], ◌∷◌, length,
  arith, get_elem?-snoc,
}
use refinery.Generics.SetTtl
use refinery.Generics.SetTtl.{SetWithTtl}
use refinery.Generics.Set.{elem}
use refinery.GoMap
use refinery.GoMap.{get_or}
use refinery.Deps.Filter.{CuckooFilter}
use refinery.Deps.Lru.{Lru}
use refinery.Types.Span.{Span, annotation_type}
use refinery.Types.Trace.{
  Trace, u32, counted, span_count_of, span_event_count_of, span_link_count_of,
}
use refinery.Cache.Reasons
use refinery.Cache.Cuckoo
use refinery.Cache.Sent.Entries.{
  is_span_event, is_link, is_plain, one_more, Counts, Describes, new_entry-counted, small, wrapped,
  count-Counts, stored_reason,
}
use refinery.Cache.Sent.{
  SentCache, kept, dropped, new_entry, count, record_decision, check_span, found_kept, count_span,
  reason_or_empty, KeptEntry,
}

contains_added :
    (now later : ℕ) (s : SetWithTtl String) (e x : String)
    → e ≡ x
    → later < now + s.ttl
    → SetTtl.contains String_discrete later (SetTtl.add String_discrete now s (x ∷ [])) e ≡ true
unfolding elem GoMap.get
contains_added now later s e x p h =
    SetTtl.contains-add String_discrete now later s (x ∷ []) e ∙ ground (arith, String_discrete x e)

get_added :
    (lru : Lru) (c : lru.Cache) (j k : String) (v : ℕ)
    → j ≡ k
    → (lru.get (lru.add c k v) j).1 ≡ some v
get_added lru c j k v p = rw p (lru.get-peek (lru.add c k v) k ∙ lru.peek-add c k v)

module _ (lru : Lru) (cf : CuckooFilter) (hash : String → ℕ) where
  -- A span of a trace whose drop was recorded less than the time to live ago is told that the
  -- trace was dropped, without a look into the filter or at the kept traces.
  pub check_span-record_dropped :
      (now later : ℕ) (c : SentCache lru cf hash) (t : Trace) (reason : String) (sp : Span)
      → sp.trace_id ≡ t.trace_id
      → later < now + c.recent.ttl
      → (check_span lru cf hash later (record_decision lru cf hash now c t false reason).0 sp).1
        ≡ some (dropped, "")
  unfolding check_span record_decision
  check_span-record_dropped now later c t reason sp e h =
      rw (contains_added now later c.recent sp.trace_id t.trace_id e h) refl

  -- what is looked up for the number of an entry
  abbrev found_reason : SentCache lru cf hash → KeptEntry → String
  found_reason c e = reason_or_empty lru cf hash (Reasons.get c.kept_reasons e.reason)

  check_span-found_entry :
      (now later : ℕ) (c : SentCache lru cf hash) (t : Trace) (reason : String) (sp : Span)
      → sp.trace_id ≡ t.trace_id
      → SetTtl.contains String_discrete later c.recent sp.trace_id ≡ false
      → Cuckoo.check cf c.dropped_ids sp.trace_id ≡ false
      → let c' = (record_decision lru cf hash now c t true reason).0 in
        let t' = (record_decision lru cf hash now c t true reason).1 in
        (check_span lru cf hash later c' sp).1
        ≡ some (kept (count (new_entry t') sp), found_reason c' (count (new_entry t') sp))
  unfolding check_span record_decision
  check_span-found_entry now later c t reason sp e r1 r2 =
      rw (r1, r2, get_added lru c.kept_ids sp.trace_id t.trace_id (length c.store) e, found_kept)
        (rw (get_elem?-snoc c.store (new_entry t'), count_span) refl)
    where
      t' : Trace
      t' = (record_decision lru cf hash now c t true reason).1

  -- A span of a trace that was just recorded as kept, and that neither the recent ids nor the filters
  -- take for dropped, is told so, with the rate of the trace, the number of its spans with this one
  -- included, its three counts with this span counted by its kind, and the reason or another of the
  -- same hash; if the store of reasons is valid and has room.
  pub check_span-record_kept :
      (now later : ℕ) (c : SentCache lru cf hash) (t : Trace) (reason : String) (sp : Span)
      → Reasons.IsValid hash c.kept_reasons
      → length c.kept_reasons.reasons + 1 < 2 ^ 32
      → sp.trace_id ≡ t.trace_id
      → SetTtl.contains String_discrete later c.recent sp.trace_id ≡ false
      → Cuckoo.check cf c.dropped_ids sp.trace_id ≡ false
      → (e : KeptEntry) × (s : String) × ((check_span lru cf hash later
            (record_decision lru cf hash now c t true reason).0
            sp).1
          ≡ some (kept e, s))
        × (hash s ≡ hash reason)
        × (e.rate ≡ u32 t.sample_rate)
        × (e.event_count ≡ u32 (length t.spans + 1))
        × (e.span_event_count
            ≡ one_more (is_span_event (annotation_type sp)) (span_event_count_of t))
        × (e.span_link_count ≡ one_more (is_link (annotation_type sp)) (span_link_count_of t))
        × (e.span_count ≡ one_more (is_plain (annotation_type sp)) (span_count_of t))
  unfolding record_decision Counts Describes
  check_span-record_kept now later c t reason sp v fits same r1 r2 =
      let n = (Reasons.set hash c.kept_reasons reason).1 in
      let x = new_entry (counted (record t { kept_reason = n })) in
      let (d1, d2, d3, d4, d5, d6) = new_entry-counted t n in
      let (c1, c2, c3, c4, c5, c6) = count-Counts x sp in
      let ((s, stored, collides), _) = Reasons.get-set_reason hash c.kept_reasons v reason fits in
      let number = small n (Reasons.number-set hash c.kept_reasons v reason fits) in
      (
        count x sp,
        s,
        check_span-found_entry now later c t reason sp same r1 r2
            ∙ ap (λ q. some (kept (count x sp), q))
                (stored_reason lru cf hash _ s (
                  ap (Reasons.get (Reasons.set hash c.kept_reasons reason).0) (c5 ∙ d2 ∙ number)
                  ∙ stored)),
        collides,
        c4 ∙ d1,
        c6 ∙ ap (λ q. u32 (q + 1)) d3 ∙ wrapped (length t.spans),
        c1 ∙ ap (one_more (is_span_event (annotation_type sp))) d4,
        c2 ∙ ap (one_more (is_link (annotation_type sp))) d5,
        c3 ∙ ap (one_more (is_plain (annotation_type sp))) d6,
      )
