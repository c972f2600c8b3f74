-- ===== src/Collect/Gather.antt =====
-- collect/collector_worker.go: `processSpan` gathers the spans of a trace.
use refinery.Base.{
  ℕ, ◌+◌, ◌≤◌, ◌≡◌, refl, sym, ◌≢◌, ◌∙◌, ap, subst, true, false, Option, none, some, String,
  String_discrete, [], ◌∷◌, ◌++◌, ite, if◌then◌else◌, arith, Bool-cases, Option-cases, inl, inr,
  if_pos, if_neg,
}
use refinery.GoMap.{get-set, set-Unique}
use refinery.Deps.Queue.{KeyedQueue}
use refinery.Deps.Filter.{CuckooFilter}
use refinery.Deps.Lru.{Lru}
use refinery.Types.Span.{Span, data_size_of}
use refinery.Types.Trace.{Trace, add_span}
use refinery.Cache.InMem
use refinery.Cache.InMem.{InMemCache}
use refinery.Cache.InMem.Valid.{IsValid, find, set-IsValid}
use refinery.Cache.Sent.{check_span, SentRecord, SentCache}
use refinery.Collect.Late.{deal_with_sent_trace}
use refinery.Collect.Config.{Config}
use refinery.Collect.Worker.{
  Samplers, Worker, add_live, new_send_by, or_default, new_trace, join_trace, store_live,
  write_back, process_span, to_trace, first_or_late, transmit, sent_or_default,
}

-- What adding a span leaves as it was, and what it appends.
add_live_lem :
    (now : ℕ) (t : Trace) (sp : Span)
    → ((add_live now t sp).trace_id ≡ t.trace_id)
      × ((add_live now t sp).send_by ≡ t.send_by)
      × ((add_live now t sp).sent ≡ t.sent)
      × ((add_live now t sp).spans
          ≡ t.spans ++ (data_size_of (record sp { arrival_time = now })).0 ∷ [])
unfolding add_live add_span
add_live_lem now t sp = elim (Bool-cases sp.is_root) [
  | inl e ↦ rw e (refl, refl, refl, refl)
  | inr e ↦ rw e (refl, refl, refl, refl)
]

module _ (kpq : KeyedQueue) (lru : Lru) (cf : CuckooFilter) (hash : String → ℕ)
    (smp : Samplers) where
  -- The cache is valid, and the traces in it are waiting for their decision.
  pub record IsLive (w : Worker kpq lru cf hash smp) : Type 0 where
    pub valid : IsValid kpq w.cache
    pub unsent : (k : String) (t : Trace) → find kpq w.cache k ≡ some t → t.sent ≡ false

  -- The trace has gained the span, and is sent no later than before; for a root span no later
  -- than after the delay.
  pub record Joined (now : ℕ) (cfg : Config) (t : Trace) (sp : Span) (t' : Trace) : Type 0 where
    pub same_id : t'.trace_id ≡ t.trace_id
    pub still_unsent : t'.sent ≡ t.sent
    pub gained : t'.spans ≡ t.spans ++ (data_size_of (record sp { arrival_time = now })).0 ∷ []
    pub no_later : t'.send_by ≤ t.send_by
    pub root_delay : sp.is_root ≡ true → t'.send_by ≤ now + or_default cfg.send_delay 2000000000

  abbrev Stored : Worker kpq lru cf hash smp → Worker kpq lru cf hash smp → Trace → Type 0
  Stored w w' t' =
      IsValid kpq w'.cache
      × ((k : String)
          → find kpq w'.cache k
            ≡ ite (String_discrete k t'.trace_id) (some t') (find kpq w.cache k))

  write_back-IsValid :
      (d : InMemCache kpq.Queue) (t t' : Trace)
      → IsValid kpq d
      → find kpq d t'.trace_id ≡ some t
      → t'.send_by ≡ t.send_by
      → IsValid kpq (write_back kpq lru cf hash smp d t')
  unfolding write_back
  write_back-IsValid d t t' v found same = record {
    unique = set-Unique String_discrete t'.trace_id t' d.traces v.unique;
    keyed = λ k u h. ground (arith, get-set String_discrete k t'.trace_id t' d.traces, v.keyed k u);
    synced = λ k u h. ground (
      arith,
      get-set String_discrete k t'.trace_id t' d.traces,
      v.synced k u,
      v.synced t'.trace_id t found,
    );
  }

  new_send_by_lem :
      (now : ℕ) (cfg : Config) (t : Trace) (sp : Span) (n : ℕ)
      → new_send_by now cfg t sp ≡ some n
      → (n ≤ t.send_by) × (n ≤ now + or_default cfg.send_delay 2000000000)
  unfolding new_send_by
  new_send_by_lem now cfg t sp n e = ground arith

  new_send_by_root :
      (now : ℕ) (cfg : Config) (t : Trace) (sp : Span)
      → new_send_by now cfg t sp ≡ none
      → sp.is_root ≡ true
      → t.send_by ≤ now + or_default cfg.send_delay 2000000000
  unfolding new_send_by
  new_send_by_root now cfg t sp e root = ground arith

  -- The worker goes on live, with the trace `t` changed to one that the span joined, and the others
  -- as they were.
  pub record Gathered (now : ℕ) (cfg : Config) (w : Worker kpq lru cf hash smp) (t : Trace)
      (sp : Span) (w' : Worker kpq lru cf hash smp) : Type 0 where
    pub live : IsLive w'
    pub trace : Trace
    pub held : find kpq w'.cache t.trace_id ≡ some trace
    pub joined : Joined now cfg t sp trace
    pub others : (k : String) → k ≢ t.trace_id → find kpq w'.cache k ≡ find kpq w.cache k

  Stored-IsLive :
      (w w' : Worker kpq lru cf hash smp) (t' : Trace)
      → IsLive w
      → t'.sent ≡ false
      → Stored w w' t'
      → IsLive w'
  Stored-IsLive w w' t' l u s = record {
    valid = s.0;
    unsent = λ k x h. ground (arith, s.1 k, l.unsent k x);
  }

  untimed-Joined :
      (now : ℕ) (cfg : Config) (t : Trace) (sp : Span)
      → new_send_by now cfg (add_live now t sp) sp ≡ none
      → Joined now cfg t sp (add_live now t sp)
  untimed-Joined now cfg t sp f =
      let (id, by, sent, spans) = add_live_lem now t sp in
      record {
        same_id = id;
        still_unsent = sent;
        gained = spans;
        no_later = omega (arith, by);
        root_delay = new_send_by_root now cfg (add_live now t sp) sp f;
      }

  timed-Joined :
      (now : ℕ) (cfg : Config) (t : Trace) (sp : Span) (n : ℕ)
      → new_send_by now cfg (add_live now t sp) sp ≡ some n
      → Joined now cfg t sp (record (add_live now t sp) { send_by = n })
  timed-Joined now cfg t sp n f =
      let (id, by, sent, spans) = add_live_lem now t sp in
      let (earlier, soon) = new_send_by_lem now cfg (add_live now t sp) sp n f in
      record {
        same_id = id;
        still_unsent = sent;
        gained = spans;
        no_later = omega (arith, by, earlier);
        root_delay = λ _. soon;
      }

  Gathered-intro :
      (now : ℕ) (cfg : Config) (w w' : Worker kpq lru cf hash smp) (t t' : Trace) (sp : Span)
      → IsLive w
      → t.sent ≡ false
      → Joined now cfg t sp t'
      → Stored w w' t'
      → Gathered now cfg w t sp w'
  Gathered-intro now cfg w w' t t' sp l u j s = record {
    live = Stored-IsLive w w' t' l (j.still_unsent ∙ u) s;
    trace = t';
    held = s.1 t.trace_id ∙ if_pos (String_discrete t.trace_id t'.trace_id) (sym j.same_id) _ _;
    joined = j;
    others = λ k ne. s.1 k ∙ if_neg (String_discrete k t'.trace_id) (λ e. ne (e ∙ j.same_id)) _ _;
  }

  join_trace-Gathered :
      (now : ℕ) (cfg : Config) (w : Worker kpq lru cf hash smp) (t : Trace) (sp : Span)
      → IsLive w
      → find kpq w.cache t.trace_id ≡ some t
      → Gathered now cfg w t sp (join_trace kpq lru cf hash smp now cfg w t sp)
  unfolding join_trace store_live write_back
  join_trace-Gathered now cfg w t sp l found =
      stored (new_send_by now cfg (add_live now t sp) sp) refl
    where
      t' : Trace
      t' = add_live now t sp

      held_as : find kpq w.cache t'.trace_id ≡ some t
      held_as = rw ((add_live_lem now t sp).0) found

      u : t.sent ≡ false
      u = l.unsent t.trace_id t found

      stored :
          (o : Option ℕ)
          → new_send_by now cfg t' sp ≡ o
          → Gathered now cfg w t sp (store_live kpq lru cf hash smp w t' o)
      stored none f =
          Gathered-intro now cfg w (store_live kpq lru cf hash smp w t' none) t t' sp l u
            (untimed-Joined now cfg t sp f)
            (
              write_back-IsValid w.cache t t' l.valid held_as (add_live_lem now t sp).1,
              λ k. get-set String_discrete k t'.trace_id t' w.cache.traces,
            )
      stored (some n) f =
          Gathered-intro now cfg w (store_live kpq lru cf hash smp w t' (some n)) t
            (record t' { send_by = n }) sp l u (timed-Joined now cfg t sp n f)
            (set-IsValid kpq w.cache (record t' { send_by = n }) l.valid)

  -- In a live worker a span of a trace that is held joins it: the trace gains the span, its time to
  -- be sent is not put off, and is within the delay if the span is a root; the other traces stay as
  -- they are, and the worker stays live.
  pub process_span-held :
      (now : ℕ) (cfg : Config) (w : Worker kpq lru cf hash smp) (t : Trace) (sp : Span)
      → IsLive w
      → find kpq w.cache sp.trace_id ≡ some t
      → Gathered now cfg w t sp (process_span kpq lru cf hash smp now cfg w sp)
  unfolding process_span to_trace InMem.get
  process_span-held now cfg w t sp l found =
      subst (λ o. Gathered now cfg w t sp (to_trace kpq lru cf hash smp now cfg w sp o)) (sym found)
        (subst (Gathered now cfg w t sp)
          (sym (
            ap (λ b. if b then late else join_trace kpq lru cf hash smp now cfg w t sp)
              (l.unsent sp.trace_id t found)))
          (join_trace-Gathered now cfg w t sp l (
            subst (λ k. find kpq w.cache k ≡ some t) (sym (l.valid.keyed sp.trace_id t found))
              found)))
    where
      r : SentCache lru cf hash × Option (SentRecord × String)
      r = check_span lru cf hash now w.sample_cache sp

      late : Worker kpq lru cf hash smp
      late =
          let (tr, reason) = sent_or_default kpq lru cf hash smp t r.1 in
          transmit kpq lru cf hash smp (record w { sample_cache = r.0 })
            (deal_with_sent_trace cfg tr reason sp)

  -- A worker with the trace of a first span, which is not in it yet.
  abbrev begun :
      ℕ
      → Config
      → Worker kpq lru cf hash smp
      → SentCache lru cf hash
      → Span
      → Worker kpq lru cf hash smp
  begun now cfg w c sp = record w {
    sample_cache = c;
    cache = InMem.set kpq w.cache (some (new_trace now cfg sp));
  }

  begun-Gathered :
      (now : ℕ) (cfg : Config) (w : Worker kpq lru cf hash smp) (c : SentCache lru cf hash)
      (sp : Span)
      → IsLive w
      → Gathered now cfg w
          (new_trace now cfg sp)
          sp
          (join_trace kpq lru cf hash smp now cfg (begun now cfg w c sp) (new_trace now cfg sp) sp)
  unfolding new_trace
  begun-Gathered now cfg w c sp l =
      let t = new_trace now cfg sp in
      let stored = set-IsValid kpq w.cache t l.valid in
      let g =
        join_trace-Gathered now cfg (begun now cfg w c sp) t sp
          (Stored-IsLive w (begun now cfg w c sp) t l refl stored)
          (stored.1 sp.trace_id ∙ if_pos (String_discrete sp.trace_id sp.trace_id) refl _ _) in
      record {
        live = g.live;
        trace = g.trace;
        held = g.held;
        joined = g.joined;
        others = λ k ne. g.others k ne ∙ stored.1 k ∙ if_neg (String_discrete k sp.trace_id) ne _ _;
      }

  -- In a live worker a span of a trace that is not held and of which no decision is on record
  -- begins a new trace, which it joins; the other traces stay as they are, and the worker stays
  -- live.
  pub process_span-first :
      (now : ℕ) (cfg : Config) (w : Worker kpq lru cf hash smp) (sp : Span)
      → IsLive w
      → find kpq w.cache sp.trace_id ≡ none
      → (check_span lru cf hash now w.sample_cache sp).1 ≡ none
      → Gathered now cfg w (new_trace now cfg sp) sp (process_span kpq lru cf hash smp now cfg w sp)
  unfolding process_span to_trace InMem.get first_or_late
  process_span-first now cfg w sp l absent unknown =
      subst
        (λ o.
          Gathered now cfg w (new_trace now cfg sp) sp
            (to_trace kpq lru cf hash smp now cfg w sp o))
        (sym absent)
        (subst
          (λ o.
            Gathered now cfg w (new_trace now cfg sp) sp
              (first_or_late kpq lru cf hash smp now cfg (record w { sample_cache = c }) sp o))
          (sym unknown) (begun-Gathered now cfg w c sp l))
    where
      c : SentCache lru cf hash
      c = (check_span lru cf hash now w.sample_cache sp).0

  transmit-IsLive :
      (w : Worker kpq lru cf hash smp) (o : Option Span)
      → IsLive w
      → IsLive (transmit kpq lru cf hash smp w o)
  unfolding transmit
  transmit-IsLive w none l = l
  transmit-IsLive w (some sp) l = record { valid = l.valid; unsent = l.unsent }

  first_or_late-IsLive :
      (now : ℕ) (cfg : Config) (w : Worker kpq lru cf hash smp) (sp : Span)
      (o : Option (SentRecord × String))
      → IsLive w
      → IsLive (first_or_late kpq lru cf hash smp now cfg w sp o)
  unfolding first_or_late
  first_or_late-IsLive now cfg w sp none l = (begun-Gathered now cfg w w.sample_cache sp l).live
  first_or_late-IsLive now cfg w sp (some (tr, reason)) l =
      transmit-IsLive w (deal_with_sent_trace cfg tr reason sp) l

  -- Whatever the span, a worker whose cache is valid and whose traces wait for their decision is
  -- such a worker afterwards.
  pub process_span-IsLive :
      (now : ℕ) (cfg : Config) (w : Worker kpq lru cf hash smp) (sp : Span)
      → IsLive w
      → IsLive (process_span kpq lru cf hash smp now cfg w sp)
  unfolding process_span to_trace InMem.get
  process_span-IsLive now cfg w sp l = elim (Option-cases (find kpq w.cache sp.trace_id)) [
    | inl absent ↦
        subst (λ o. IsLive (to_trace kpq lru cf hash smp now cfg w sp o)) (sym absent)
          (first_or_late-IsLive now cfg (record w { sample_cache = r.0 }) sp r.1
            (record { valid = l.valid; unsent = l.unsent }))
    | inr (t, found) ↦ (process_span-held now cfg w t sp l found).live
  ]
    where
      r : SentCache lru cf hash × Option (SentRecord × String)
      r = check_span lru cf hash now w.sample_cache sp
