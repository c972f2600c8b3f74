-- ===== src/Cache/InMem/Take.antt =====
-- collect/cache/cache.go: what `TakeExpiredTraces` takes, with no filter, as the program calls it.
use refinery.Base.{
  ℕ, zero, suc, ◌≤◌, ◌<◌, ◌≡◌, refl, sym, ◌∙◌, ap, subst, Option, none, some, String,
  String_discrete, List, [], ◌∷◌, ◌++◌, if_pos, Option-cases, Bool-cases, inl, inr, ◌⊎◌, arith, All,
  All-mono, ltb, ltb→lt,
}
use mathlib.Core.List.{Memᴰ}
use native.Mathlib.Nat.{le_refl}
use refinery.GoMap
use refinery.GoMap.{Unique, get-set, get-delete, get-delete_self, set-Unique, delete-Unique}
use refinery.Deps.Queue.{KeyedQueue}
use refinery.Types.Trace.{Trace}
use refinery.Cache.InMem.{
  InMemCache, Taken, Step, stop, again, has_room, take_trace, take_cached, take_popped, take_step,
  resume, take_loop, take_expired_traces, push_back,
}
use refinery.Cache.InMem.Valid.{IsValid, find}

Mem-append_left {ℓ} : {A : Type ℓ} (x : A) (xs ys : List A) → Memᴰ x xs → Memᴰ x (xs ++ ys)
Mem-append_left x [] ys m = elim m [ ]
Mem-append_left x (y ∷ xs) ys (Memᴰ.head e) = Memᴰ.head e
Mem-append_left x (y ∷ xs) ys (Memᴰ.tail m) = Memᴰ.tail (Mem-append_left x xs ys m)

Mem-snoc {ℓ} : {A : Type ℓ} (x : A) (xs : List A) → Memᴰ x (xs ++ x ∷ [])
Mem-snoc x [] = Memᴰ.head refl
Mem-snoc x (y ∷ xs) = Memᴰ.tail (Mem-snoc x xs)

All-snoc {ℓ κ} :
    {A : Type ℓ} (P : A → Type κ) (xs : List A) (x : A) → All P xs → P x → All P (xs ++ x ∷ [])
All-snoc P [] x h p = (p, tt)
All-snoc P (y ∷ xs) x h p = (h.0, All-snoc P xs x h.1 p)

module _ (kpq : KeyedQueue) (now : ℕ) (d : InMemCache kpq.Queue) where
  open kpq use {Queue}

  -- A trace that was in the cache is there still, or has expired and was taken.
  abbrev pub KeptOrTaken : InMemCache Queue → List Trace → String → Trace → Type 0
  KeptOrTaken c expired k t =
      (find kpq c k ≡ some t) ⊎ ((find kpq c k ≡ none) × (t.send_by ≤ now) × Memᴰ t expired)

  -- A trace that was taken had expired, was in the cache, and is there no longer.
  abbrev pub RightlyTaken : InMemCache Queue → Trace → Type 0
  RightlyTaken c t =
      (t.send_by ≤ now) × (find kpq d t.trace_id ≡ some t) × (find kpq c t.trace_id ≡ none)

  pub record Progress (s : Taken kpq) : Type 0 where
    pub valid : IsValid kpq s.cache
    pub no_skips : s.skipped ≡ []
    pub kept : (k : String) (t : Trace) → find kpq d k ≡ some t → KeptOrTaken s.cache s.expired k t
    pub from : (k : String) (t : Trace) → find kpq s.cache k ≡ some t → find kpq d k ≡ some t
    pub rightly : All (RightlyTaken s.cache) s.expired

  -- Nothing that has expired is left.
  abbrev pub AllTaken : InMemCache Queue → Type 0
  AllTaken c = (k : String) (t : Trace) → find kpq c k ≡ some t → now < t.send_by

  -- After a round the loop has progressed; if it stops with room left, nothing expired is left,
  -- and if it goes on, the queue is shorter.
  abbrev After : ℕ → Taken kpq → Step kpq → Type 0
  After max s (stop s') = Progress s' × (max ≡ 0 → AllTaken s'.cache)
  After max s (again s') = Progress s' × (kpq.len (s'.cache.pq) < kpq.len (s.cache.pq))

  -- the trace is not due yet: it goes back to the queue
  not_due-After :
      (max : ℕ) (s : Taken kpq) (id : String) (send_by : ℕ) (pq : Queue) (trace : Trace)
      → Progress s
      → kpq.pop s.cache.pq ≡ some (id, send_by, pq)
      → find kpq s.cache id ≡ some trace
      → now < send_by
      → After max s (stop (record s { cache = record (s.cache) { pq = kpq.push pq id send_by } }))
  not_due-After max s id send_by pq trace p popped found due = (
    record {
      valid = record {
        unique = p.valid.unique;
        keyed = p.valid.keyed;
        synced = λ k t h. ground (
          arith,
          p.valid.synced k t h,
          kpq.pop-priority s.cache.pq pq id send_by popped,
          kpq.priority-pop s.cache.pq pq k id send_by popped,
          kpq.priority-push pq k id send_by (
              kpq.priority-pop s.cache.pq pq id id send_by popped
              ∙ if_pos (String_discrete id id) refl none (kpq.priority s.cache.pq id)),
        );
      };
      no_skips = p.no_skips;
      kept = p.kept;
      from = p.from;
      rightly = p.rightly;
    },
    λ unlimited k t h.
        omega
          (arith, kpq.pop-least s.cache.pq pq k id send_by t.send_by popped (p.valid.synced k t h)),
  )

  -- the trace is gone from the cache already: its place in the queue is dropped
  stale-After :
      (max : ℕ) (s : Taken kpq) (id : String) (send_by : ℕ) (pq : Queue)
      → Progress s
      → kpq.pop s.cache.pq ≡ some (id, send_by, pq)
      → find kpq s.cache id ≡ none
      → After max s (again (record s { cache = record (s.cache) { pq = pq } }))
  stale-After max s id send_by pq p popped gone = (
    record {
      valid = record {
        unique = p.valid.unique;
        keyed = p.valid.keyed;
        synced = λ k t h.
            ground
              (arith, p.valid.synced k t h, kpq.priority-pop s.cache.pq pq k id send_by popped);
      };
      no_skips = p.no_skips;
      kept = p.kept;
      from = p.from;
      rightly = p.rightly;
    },
    kpq.len-pop s.cache.pq pq id send_by popped,
  )

  -- the trace has expired: it is taken
  expired-After :
      (max : ℕ) (s : Taken kpq) (id : String) (send_by : ℕ) (pq : Queue) (trace : Trace)
      → Progress s
      → kpq.pop s.cache.pq ≡ some (id, send_by, pq)
      → find kpq s.cache id ≡ some trace
      → send_by ≤ now
      → After max s (
          again (record s {
            cache = record { pq = pq; traces = GoMap.delete String_discrete id s.cache.traces };
            expired = s.expired ++ trace ∷ [];
          }))
  expired-After max s id send_by pq trace p popped found due = (
    record {
      valid = record {
        unique = delete-Unique String_discrete id s.cache.traces p.valid.unique;
        keyed = λ k t h.
            p.valid.keyed k t (ground (arith, get-delete String_discrete k id s.cache.traces));
        synced = λ k t h. ground (
          arith,
          p.valid.synced k t,
          get-delete String_discrete k id s.cache.traces,
          kpq.priority-pop s.cache.pq pq k id send_by popped,
        );
      };
      no_skips = p.no_skips;
      kept = kept;
      from = λ k t h. p.from k t (ground (arith, get-delete String_discrete k id s.cache.traces));
      rightly =
          All-snoc (RightlyTaken c) s.expired trace
            (All-mono (RightlyTaken s.cache) (RightlyTaken c) s.expired
              (λ t r. (r.0, r.1, still_gone t.trace_id r.2)) p.rightly)
            (
              trace_due,
              subst (λ i. find kpq d i ≡ some trace) (sym same_id) (p.from id trace found),
              subst (λ i. find kpq c i ≡ none) (sym same_id)
                  (get-delete_self String_discrete id s.cache.traces),
            );
    },
    kpq.len-pop s.cache.pq pq id send_by popped,
  )
    where
      c : InMemCache Queue
      c = record { pq = pq; traces = GoMap.delete String_discrete id s.cache.traces }

      same_id : trace.trace_id ≡ id
      same_id = p.valid.keyed id trace found

      trace_due : trace.send_by ≤ now
      trace_due =
          ground
            (arith, p.valid.synced id trace found, kpq.pop-priority s.cache.pq pq id send_by popped)

      still_gone : (k : String) → find kpq s.cache k ≡ none → find kpq c k ≡ none
      still_gone k e = ground (arith, get-delete String_discrete k id s.cache.traces)

      kept :
          (k : String) (t : Trace)
          → find kpq d k ≡ some t
          → KeptOrTaken c (s.expired ++ trace ∷ []) k t
      kept k t h = elim (p.kept k t h) [
        | inr (gone, t_due, m) ↦
            inr (still_gone k gone, t_due, Mem-append_left t s.expired (trace ∷ []) m)
        | inl here ↦ elim (String_discrete k id) [
          | no q ↦ inl (ground (arith, get-delete String_discrete k id s.cache.traces))
          | yes q ↦
              let same : t ≡ trace = ground (arith, found, here, q) in
              inr (
                ground (arith, get-delete String_discrete k id s.cache.traces),
                rw same trace_due,
                rw same (Mem-snoc trace s.expired),
              )
        ]
      ]

  take_trace-After :
      (max : ℕ) (s : Taken kpq) (id : String) (send_by : ℕ) (pq : Queue) (trace : Trace)
      → Progress s
      → kpq.pop s.cache.pq ≡ some (id, send_by, pq)
      → find kpq s.cache id ≡ some trace
      → After max s (take_trace kpq now none s id send_by pq trace)
  unfolding take_trace
  take_trace-After max s id send_by pq trace p popped found = elim (Bool-cases (ltb now send_by)) [
    | inl e ↦ rw e (not_due-After max s id send_by pq trace p popped found (ltb→lt now send_by e))
    | inr e ↦ rw e (expired-After max s id send_by pq trace p popped found (ground arith))
  ]

  take_cached-After :
      (max : ℕ) (s : Taken kpq) (id : String) (send_by : ℕ) (pq : Queue) (o : Option Trace)
      → Progress s
      → kpq.pop s.cache.pq ≡ some (id, send_by, pq)
      → find kpq s.cache id ≡ o
      → After max s (take_cached kpq now none s id send_by pq o)
  unfolding take_cached
  take_cached-After max s id send_by pq none p popped e = stale-After max s id send_by pq p popped e
  take_cached-After max s id send_by pq (some trace) p popped e =
      take_trace-After max s id send_by pq trace p popped e

  empty-AllTaken : (s : Taken kpq) → Progress s → kpq.pop s.cache.pq ≡ none → AllTaken s.cache
  empty-AllTaken s p popped k t h =
      let absent = kpq.pop-empty s.cache.pq popped k in let present = p.valid.synced k t h in cc

  take_popped-After :
      (max : ℕ) (s : Taken kpq) (o : Option (String × ℕ × Queue))
      → Progress s
      → kpq.pop s.cache.pq ≡ o
      → After max s (take_popped kpq now none s o)
  unfolding take_popped
  take_popped-After max s none p popped = (p, λ unlimited. empty-AllTaken s p popped)
  take_popped-After max s (some (id, send_by, pq)) p popped =
      take_cached-After max s id send_by pq (find kpq s.cache id) p popped refl

  take_step-After :
      (max : ℕ) (s : Taken kpq) → Progress s → After max s (take_step kpq now max none s)
  unfolding take_step has_room
  take_step-After max s p = elim (Bool-cases (has_room kpq max s.expired)) [
    | inl e ↦ rw (e, has_room) (take_popped-After max s (kpq.pop s.cache.pq) p refl)
    | inr e ↦ rw (e, has_room) (p, λ unlimited. ground arith)
  ]

  zero-AllTaken : (s : Taken kpq) → Progress s → kpq.len (s.cache.pq) ≤ 0 → AllTaken s.cache
  zero-AllTaken s p h = elim (Option-cases (kpq.pop s.cache.pq)) [
    | inl e ↦ empty-AllTaken s p e
    | inr ((id, t, q), e) ↦ absurd (omega (arith, kpq.len-pop s.cache.pq q id t e))
  ]

  resume_lem :
      (max : ℕ) (s : Taken kpq) (loop : Taken kpq → Taken kpq)
      → ((s' : Taken kpq)
          → Progress s'
          → kpq.len (s'.cache.pq) < kpq.len (s.cache.pq)
          → Progress (loop s') × (max ≡ 0 → AllTaken (loop s').cache))
      → (r : Step kpq) → After max s r
      → Progress (resume kpq loop r) × (max ≡ 0 → AllTaken (resume kpq loop r).cache)
  unfolding resume
  resume_lem max s loop ih (stop s') a = a
  resume_lem max s loop ih (again s') a = ih s' a.0 a.1

  -- Fuel for the length of the queue carries the loop to its end.
  take_loop_lem :
      (fuel max : ℕ) (s : Taken kpq)
      → Progress s
      → kpq.len (s.cache.pq) ≤ fuel
      → Progress (take_loop kpq fuel now max none s)
        × (max ≡ 0 → AllTaken (take_loop kpq fuel now max none s).cache)
  unfolding take_loop
  take_loop_lem zero max s p h = (p, λ unlimited. zero-AllTaken s p h)
  take_loop_lem (suc fuel) max s p h =
      resume_lem max s (take_loop kpq fuel now max none)
        (λ s' p' shorter. take_loop_lem fuel max s' p' (omega arith)) (take_step kpq now max none s)
        (take_step-After max s p)

module _ (kpq : KeyedQueue) (now max : ℕ) (d : InMemCache kpq.Queue) (v : IsValid kpq d) where
  -- the cache after the call, and the traces returned
  abbrev after : InMemCache kpq.Queue
  after = (take_expired_traces kpq d now max none).0

  abbrev taken : List Trace
  taken = (take_expired_traces kpq d now max none).1

  abbrev start : Taken kpq
  start = record { cache = d; expired = []; skipped = [] }

  start-Progress : Progress kpq now d start
  start-Progress = record {
    valid = v;
    no_skips = refl;
    kept = λ k t h. inl h;
    from = λ k t h. h;
    rightly = tt;
  }

  finished :
      Progress kpq now d (take_loop kpq (kpq.len d.pq) now max none start)
      × (max ≡ 0 → AllTaken kpq now d (take_loop kpq (kpq.len d.pq) now max none start).cache)
  finished =
      take_loop_lem kpq now d (kpq.len d.pq) max start start-Progress (le_refl (kpq.len d.pq))

  after-eq : after ≡ (take_loop kpq (kpq.len d.pq) now max none start).cache
  unfolding take_expired_traces
  after-eq =
      let s = take_loop kpq (kpq.len d.pq) now max none start in
      ap (λ sk. record { pq = push_back kpq s.cache.pq sk; traces = s.cache.traces })
        finished.0.no_skips

  pub take-IsValid : IsValid kpq after
  unfolding take_expired_traces
  take-IsValid = subst (IsValid kpq) (sym after-eq) finished.0.valid

  -- `TakeExpiredTraces` with no filter keeps a valid cache valid, and a trace that was in the cache
  -- is in it still, or had reached its time and is among the traces returned.
  pub take-KeptOrTaken :
      (k : String) (t : Trace)
      → find kpq d k ≡ some t
      → IsValid kpq after × KeptOrTaken kpq now d after taken k t
  unfolding take_expired_traces
  take-KeptOrTaken k t h =
      subst (λ c. IsValid kpq c × KeptOrTaken kpq now d c taken k t) (sym after-eq)
        (finished.0.valid, finished.0.kept k t h)

  -- Each trace returned from a valid cache had reached its time, was in the cache, and is there no
  -- longer.
  pub take-RightlyTaken : All (RightlyTaken kpq now d after) taken
  unfolding take_expired_traces
  take-RightlyTaken =
      subst (λ c. All (RightlyTaken kpq now d c) taken) (sym after-eq) finished.0.rightly

  -- With no limit on the number of traces taken, a trace that is left in a valid cache was there
  -- before and has not reached its time: everything that has expired is taken.
  pub take-all_expired :
      (k : String) (t : Trace)
      → max ≡ 0
      → find kpq after k ≡ some t
      → (now < t.send_by) × (find kpq d k ≡ some t)
  unfolding take_expired_traces
  take-all_expired k t unlimited h =
      let h' = subst (λ c. find kpq c k ≡ some t) after-eq h in
      (finished.1 unlimited k t h', finished.0.from k t h')
