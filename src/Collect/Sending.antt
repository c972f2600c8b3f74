-- ===== src/Collect/Sending.antt =====
-- collect/collector_worker.go, collect/collect.go: traces whose time has come are decided and sent,
-- and a decision binds the spans that come late.
use refinery.Base.{
  ℕ, ◌+◌, ◌<◌, ◌≡◌, refl, sym, ◌∙◌, ap, subst, Bool, true, false, ◌&&◌, not, Option, none, some,
  String, String_discrete, List, [], ◌∷◌, map, if◌then◌else◌,
}
use refinery.Deps.Queue.{KeyedQueue}
use refinery.Deps.Filter.{CuckooFilter}
use refinery.Deps.Lru.{Lru}
use refinery.Types.Span.{Span}
use refinery.Types.Trace.{Trace, counted, calculate_span_counts}
use refinery.Cache.InMem
use refinery.Cache.InMem.{InMemCache}
use refinery.Cache.InMem.Valid.{IsValid, find}
use refinery.Cache.InMem.Take.{take-all_expired}
use refinery.Cache.Sent.{check_span, record_decision, dropped, is_kept}
use refinery.Cache.Sent.Decisions.{check_span-record_dropped}
use refinery.GoMap.{get, get_or}
use refinery.Collect.Config.{Config, determine_sampler_key}
use refinery.Collect.Late.{deal_with_sent_trace}
use refinery.Collect.Outcome.{final_rate, rate-send_noted}
use refinery.Collect.Worker.{
  Samplers, Sendable, Worker, process_span, to_trace, first_or_late, transmit,
}
use refinery.Collect.Decide.{
  send_span, send_trace, decided, make_decision, send, send_decided, decide_all, memoize_spans,
  send_expired_traces, send_reason_of,
}

-- Every span of a trace is handed on, in order, under the API key of the trace and with the rate
-- of the trace multiplied with its own in 64 bits, or in dry run with its own.
pub send_trace_lem :
    (cfg : Config) (s : Sendable)
    → (map {B = String × ℕ} (λ sp. (sp.api_key, sp.sample_rate)) (send_trace cfg s)
        ≡ map {B = String × ℕ}
            (λ sp. (s.trace.api_key, final_rate cfg s.trace.sample_rate sp.sample_rate))
            s.trace.spans)
unfolding send_trace send_span
send_trace_lem cfg s = go s.trace.spans
  where
    go :
        (sps : List Span)
        → map {B = String × ℕ} (λ sp. (sp.api_key, sp.sample_rate)) (map (send_span cfg s) sps)
          ≡ map {B = String × ℕ}
              (λ sp. (s.trace.api_key, final_rate cfg s.trace.sample_rate sp.sample_rate))
              sps
    go [] = refl
    go (sp ∷ sps) = rw (go sps, rate-send_noted cfg s sp) refl

if-some {ℓ} : {A : Type ℓ} (b : Bool) (x y : A) → (if b then none else some x) ≡ some y → x ≡ y
if-some true x y e = cc
if-some false x y e = cc

if-sent :
    (b : Bool) (x y : Trace) (c : Bool) → x.sent ≡ c → y.sent ≡ c → (if b then x else y).sent ≡ c
if-sent true x y c e f = e
if-sent false x y c e f = f

if-none {ℓ} : {A : Type ℓ} (b : Bool) (x : A) → b ≡ false → (if b then some x else none) ≡ none
if-none true x e = cc
if-none false x e = refl

deal_with_sent_trace-dropped :
    (cfg : Config) (sp : Span)
    → cfg.is_dry_run ≡ false
    → deal_with_sent_trace cfg dropped "" sp ≡ none
unfolding deal_with_sent_trace is_kept
deal_with_sent_trace-dropped cfg sp wet = if-none cfg.is_dry_run _ wet

module _ (kpq : KeyedQueue) (lru : Lru) (cf : CuckooFilter) (hash : String → ℕ)
    (smp : Samplers) where
  abbrev W : Type 0
  W = Worker kpq lru cf hash smp

  if-cache :
      (b : Bool) (x y : W) (c : InMemCache kpq.Queue)
      → x.cache ≡ c
      → y.cache ≡ c
      → (if b then x else y).cache ≡ c
  if-cache true x y c e f = e
  if-cache false x y c e f = f

  send-cache :
      (cfg : Config) (w : W) (s : Sendable) → (send kpq lru cf hash smp cfg w s).cache ≡ w.cache
  unfolding send
  send-cache cfg w s =
      if-cache s.trace.sent _ _ w.cache refl
        (if-cache (not s.trace.keep_sample && not cfg.is_dry_run) _ _ w.cache refl refl)

  -- What a decision changes and what it records.
  record IsDecision (now : ℕ) (w : W) (t : Trace) (w' : W) (s : Sendable) : Type 0 where
    same_cache : w'.cache ≡ w.cache
    same_queue : w'.to_send ≡ w.to_send
    same_sent : s.trace.sent ≡ t.sent
    recorded :
        (t' : Trace) × (reason : String) × (t'.trace_id ≡ t.trace_id)
        × (w'.sample_cache
            ≡ (record_decision lru cf hash now w.sample_cache t' s.should_send reason).0)

  record_decision-sent :
      (now : ℕ) (w : W) (t : Trace) (keep : Bool) (r : String)
      → (record_decision lru cf hash now w.sample_cache t keep r).1.sent ≡ t.sent
  unfolding record_decision counted calculate_span_counts
  record_decision-sent now w t true r = if-sent _ _ _ t.sent refl refl
  record_decision-sent now w t false r = refl

  decided-IsDecision :
      (now : ℕ) (w : W) (sel r : String) (t : Trace) (sps : List Span)
      (a : smp.Sampler × ℕ × Bool × String × String)
      → IsDecision now w t
          (decided kpq lru cf hash smp now w sel r (record t { spans = sps }) a).0
          (decided kpq lru cf hash smp now w sel r (record t { spans = sps }) a).1
  unfolding decided
  decided-IsDecision now w sel r t sps (sampler, rate, keep, reason, key) =
      let t' = record t { spans = sps; sample_rate = rate; keep_sample = keep } in
      record {
        same_cache = refl;
        same_queue = refl;
        same_sent = record_decision-sent now w t' keep reason;
        recorded = (t', reason, refl, refl);
      }

  make_decision-IsDecision :
      (now : ℕ) (cfg : Config) (w w' : W) (t : Trace) (r : String) (s : Sendable)
      → make_decision kpq lru cf hash smp now cfg w t r ≡ some (w', s)
      → IsDecision now w t w' s
  unfolding make_decision
  make_decision-IsDecision now cfg w w' t r s e =
      subst (λ q. IsDecision now w t q.0 q.1)
        (if-some t.sent (decided kpq lru cf hash smp now w sel r (record t { spans = sps }) answer)
          (w', s) e)
        (decided-IsDecision now w sel r t sps answer)
    where
      sel : String
      sel = determine_sampler_key cfg t.api_key t.environment t.dataset

      sampler : smp.Sampler
      sampler = get_or (get String_discrete sel w.samplers) (smp.for_key sel)

      sps : List Span
      sps = memoize_spans (smp.key_fields sampler).0 (smp.key_fields sampler).1 t.spans

      answer : smp.Sampler × ℕ × Bool × String × String
      answer = smp.get_sample_rate sampler (record t { spans = sps })

  send_decided-cache :
      (cfg : Config) (w : W) (o : Option (W × Sendable))
      → ((w' : W) (s : Sendable) → o ≡ some (w', s) → w'.cache ≡ w.cache)
      → (send_decided kpq lru cf hash smp cfg w o).cache ≡ w.cache
  unfolding send_decided
  send_decided-cache cfg w none h = refl
  send_decided-cache cfg w (some (w', s)) h = send-cache cfg w' s ∙ h w' s refl

  decide_all-cache :
      (now : ℕ) (cfg : Config) (w : W) (ts : List Trace)
      → (decide_all kpq lru cf hash smp now cfg w ts).cache ≡ w.cache
  unfolding decide_all
  decide_all-cache now cfg w [] = refl
  decide_all-cache now cfg w (t ∷ ts) =
      decide_all-cache now cfg
        (send_decided kpq lru cf hash smp cfg w
          (make_decision kpq lru cf hash smp now cfg w t (send_reason_of cfg t)))
        ts
      ∙ send_decided-cache cfg w
          (make_decision kpq lru cf hash smp now cfg w t (send_reason_of cfg t))
          (λ w' s e.
            (make_decision-IsDecision now cfg w w' t (send_reason_of cfg t) s e).same_cache)

  -- From a valid cache and with no limit on the number of traces, each pass over the expired traces
  -- leaves in the cache only traces that were there before and whose time has not come.
  pub send_expired_traces-cache :
      (now : ℕ) (cfg : Config) (w : W) (k : String) (t : Trace)
      → IsValid kpq w.cache
      → cfg.max_expired_traces ≡ 0
      → find kpq (send_expired_traces kpq lru cf hash smp now cfg w).cache k ≡ some t
      → (now < t.send_by) × (find kpq w.cache k ≡ some t)
  unfolding send_expired_traces
  send_expired_traces-cache now cfg w k t v unlimited h =
      let p = InMem.take_expired_traces kpq w.cache now cfg.max_expired_traces none in
      take-all_expired kpq now cfg.max_expired_traces w.cache v k t unlimited (
        subst (λ c. find kpq c k ≡ some t) (decide_all-cache now cfg (record w { cache = p.0 }) p.1)
          h)

  -- Once a trace was decided to be dropped, a span of it that comes within the time that the
  -- decision is remembered as recent, while no trace of its id is held, is dropped too: outside
  -- dry run nothing is transmitted, no trace is begun, and nothing is queued.
  pub process_span-make_decision :
      (now later : ℕ) (cfg : Config) (w w' : W) (t : Trace) (r : String) (s : Sendable) (sp : Span)
      → make_decision kpq lru cf hash smp now cfg w t r ≡ some (w', s)
      → s.should_send ≡ false
      → cfg.is_dry_run ≡ false
      → sp.trace_id ≡ t.trace_id
      → later < now + w.sample_cache.recent.ttl
      → find kpq w.cache sp.trace_id ≡ none
      → ((process_span kpq lru cf hash smp later cfg w' sp).transmitted ≡ w'.transmitted)
        × ((process_span kpq lru cf hash smp later cfg w' sp).cache ≡ w.cache)
        × ((process_span kpq lru cf hash smp later cfg w' sp).to_send ≡ w.to_send)
  unfolding process_span to_trace InMem.get first_or_late transmit
  process_span-make_decision now later cfg w w' t r s sp e drop wet same soon absent =
      subst (λ o. Unchanged (to_trace kpq lru cf hash smp later cfg w' sp o)) (sym gone)
        (subst (λ o. Unchanged (first_or_late kpq lru cf hash smp later cfg checked sp o))
          (sym found)
          (subst (λ o. Unchanged (transmit kpq lru cf hash smp checked o))
            (sym (deal_with_sent_trace-dropped cfg sp wet)) (refl, d.same_cache, d.same_queue)))
    where
      d : IsDecision now w t w' s
      d = make_decision-IsDecision now cfg w w' t r s e

      Unchanged : W → Type 0
      Unchanged x = (x.transmitted ≡ w'.transmitted) × (x.cache ≡ w.cache) × (x.to_send ≡ w.to_send)

      checked : W
      checked = record w' { sample_cache = (check_span lru cf hash later w'.sample_cache sp).0 }

      gone : find kpq w'.cache sp.trace_id ≡ none
      gone = subst (λ c. find kpq c sp.trace_id ≡ none) (sym d.same_cache) absent

      recorded :
          w'.sample_cache
          ≡ (record_decision lru cf hash now w.sample_cache d.recorded.0 false d.recorded.1).0
      recorded =
          d.recorded.3
          ∙ ap (λ b. (record_decision lru cf hash now w.sample_cache d.recorded.0 b d.recorded.1).0)
              drop

      found : (check_span lru cf hash later w'.sample_cache sp).1 ≡ some (dropped, "")
      found =
          ap (λ c. (check_span lru cf hash later c sp).1) recorded
          ∙ check_span-record_dropped lru cf hash now later w.sample_cache d.recorded.0 d.recorded.1
              sp (same ∙ sym d.recorded.2) soon
