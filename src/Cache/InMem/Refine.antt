-- ===== src/Cache/InMem/Refine.antt =====
-- collect/cache/cache.go: the cache and its queue beside a map from ids to traces with no queue.
use refinery.Base.{
  ℕ, ◌≤◌, ◌≡◌, ◌↔◌, refl, sym, ◌∙◌, ap, subst, Option, none, some, String, String_discrete, List,
  [], ◌∷◌, ite, ltb, if◌then◌else◌, arith, All, Option-cases, inl, inr,
}
use mathlib.Core.List.{Memᴰ}
use refinery.GoMap
use refinery.GoMap.{get-set, get-delete}
use refinery.Deps.Queue.{KeyedQueue}
use refinery.Types.Trace.{Trace}
use refinery.Cache.InMem.{InMemCache, new, set, take_expired_traces, remove_traces}
use refinery.Cache.InMem.Valid.{IsValid, find, new-IsValid, set-IsValid, remove_traces-IsValid}
use refinery.Cache.InMem.Take.{
  RightlyTaken, take-KeptOrTaken, take-RightlyTaken, take-all_expired, take-IsValid,
}

-- A call of the cache. `take` has neither a limit nor a filter.
pub data Call : Type 0 where
  put : Option Trace → Call
  remove : List String → Call
  take : ℕ → Call

-- What the cache stands for: the trace that waits under an id.
abbrev pub View : Type 0
View = String → Option Trace

abbrev pub put_view : Option Trace → View → View
put_view none m k = m k
put_view (some t) m k = ite (String_discrete k t.trace_id) (some t) (m k)

abbrev pub remove_view : List String → View → View
remove_view [] m k = m k
remove_view (id ∷ ids) m k = remove_view ids (λ j. ite (String_discrete j id) none (m j)) k

abbrev pub unexpired : ℕ → Option Trace → Option Trace
unexpired now none = none
unexpired now (some t) = if ltb now t.send_by then some t else none

abbrev pub call_view : Call → View → View
call_view (put o) m = put_view o m
call_view (remove ids) m = remove_view ids m
call_view (take now) m = λ k. unexpired now (m k)

All-Mem : {A : Type 0} (P : A → Type 0) (x : A) (xs : List A) → All P xs → Memᴰ x xs → P x
All-Mem P x [] h m = elim m [ ]
All-Mem P x (y ∷ ys) h (Memᴰ.head e) = subst P (sym e) h.0
All-Mem P x (y ∷ ys) h (Memᴰ.tail m) = All-Mem P x ys h.1 m

module _ (kpq : KeyedQueue) where
  open kpq use {Queue}

  unfoldable pub call : Call → InMemCache Queue → InMemCache Queue
  call (put o) d = set kpq d o
  call (remove ids) d = remove_traces kpq d ids
  call (take now) d = (take_expired_traces kpq d now 0 none).0

  -- What a call answers: `take` gives exactly the traces that wait and whose time has come.
  abbrev pub Answers : Call → InMemCache Queue → View → Type 0
  Answers (put o) d m = Unit
  Answers (remove ids) d m = Unit
  Answers (take now) d m =
      (t : Trace)
      → Memᴰ t (take_expired_traces kpq d now 0 none).1
        ↔ ((m t.trace_id ≡ some t) × (t.send_by ≤ now))

  -- Over a sequence of calls the cache finds and answers what the view says.
  abbrev pub Refines : List Call → InMemCache Queue → View → Type 0
  Refines [] d m = (k : String) → find kpq d k ≡ m k
  Refines (c ∷ cs) d m =
      ((k : String) → find kpq d k ≡ m k) × Answers c d m × Refines cs (call c d) (call_view c m)

  remove_traces-find :
      (ids : List String) (d : InMemCache Queue) (m : View)
      → ((k : String) → find kpq d k ≡ m k)
      → (k : String) → find kpq (remove_traces kpq d ids) k ≡ remove_view ids m k
  unfolding remove_traces
  remove_traces-find [] d m h k = h k
  remove_traces-find (id ∷ ids) d m h k =
      remove_traces-find ids
        (record { pq = kpq.remove d.pq id; traces = GoMap.delete String_discrete id d.traces })
        (λ j. ite (String_discrete j id) none (m j))
        (λ j.
          get-delete String_discrete j id d.traces
          ∙ ap (λ o. ite (String_discrete j id) none o) (h j))
        k

  take-unexpired :
      (now : ℕ) (d : InMemCache Queue) (k : String) (o : Option Trace)
      → IsValid kpq d
      → find kpq d k ≡ o
      → find kpq (take_expired_traces kpq d now 0 none).0 k ≡ unexpired now o
  take-unexpired now d k none v h =
      let d' = (take_expired_traces kpq d now 0 none).0 in
      elim (Option-cases (find kpq d' k)) [
        | inl e ↦ e
        | inr (t, e) ↦ let was = (take-all_expired kpq now 0 d v k t refl e).1 in cc
      ]
  take-unexpired now d k (some t) v h = elim (take-KeptOrTaken kpq now 0 d v k t h).1 [
    | inl here ↦
        let later = (take-all_expired kpq now 0 d v k t refl here).0 in ground (arith, here, later)
    | inr (gone, due, m) ↦ ground (arith, gone, due)
  ]

  take-find :
      (now : ℕ) (d : InMemCache Queue) (m : View)
      → IsValid kpq d
      → ((k : String) → find kpq d k ≡ m k)
      → (k : String) → find kpq (take_expired_traces kpq d now 0 none).0 k ≡ unexpired now (m k)
  take-find now d m v h k = take-unexpired now d k (m k) v (h k)

  take-Answers :
      (now : ℕ) (d : InMemCache Queue) (m : View)
      → IsValid kpq d
      → ((k : String) → find kpq d k ≡ m k)
      → Answers (take now) d m
  take-Answers now d m v h t = (
    λ i.
        let r =
          All-Mem (RightlyTaken kpq now d (take_expired_traces kpq d now 0 none).0) t _
            (take-RightlyTaken kpq now 0 d v) i in
        (sym (h t.trace_id) ∙ r.1, r.0),
    λ w. elim (take-KeptOrTaken kpq now 0 d v t.trace_id t (h t.trace_id ∙ w.0)).1 [
      | inl here ↦
          absurd (omega (arith, (take-all_expired kpq now 0 d v t.trace_id t refl here).0, w.1))
      | inr (gone, due, i) ↦ i
    ],
  )

  put-find :
      (o : Option Trace) (d : InMemCache Queue) (m : View)
      → IsValid kpq d
      → ((k : String) → find kpq d k ≡ m k)
      → IsValid kpq (set kpq d o) × ((k : String) → find kpq (set kpq d o) k ≡ put_view o m k)
  put-find none d m v h = unfold set in (v, h)
  put-find (some t) d m v h = (
    (set-IsValid kpq d t v).0,
    λ k.
        (set-IsValid kpq d t v).1 k ∙ ap (λ o. ite (String_discrete k t.trace_id) (some t) o) (h k),
  )

  -- One call, on a valid cache that stands for a view.
  call_lem :
      (c : Call) (d : InMemCache Queue) (m : View)
      → IsValid kpq d
      → ((k : String) → find kpq d k ≡ m k)
      → IsValid kpq (call c d)
        × Answers c d m
        × ((k : String) → find kpq (call c d) k ≡ call_view c m k)
  unfolding call
  call_lem (put o) d m v h = ((put-find o d m v h).0, tt, (put-find o d m v h).1)
  call_lem (remove ids) d m v h =
      (remove_traces-IsValid kpq ids d v, tt, remove_traces-find ids d m h)
  call_lem (take now) d m v h =
      (take-IsValid kpq now 0 d v, take-Answers now d m v h, take-find now d m v h)

  calls-Refines :
      (cs : List Call) (d : InMemCache Queue) (m : View)
      → IsValid kpq d
      → ((k : String) → find kpq d k ≡ m k)
      → Refines cs d m
  calls-Refines [] d m v h = h
  calls-Refines (c ∷ cs) d m v h =
      let (v', a, h') = call_lem c d m v h in
      (h, a, calls-Refines cs (call c d) (call_view c m) v' h')

  new-find : (k : String) → find kpq (new kpq) k ≡ none
  unfolding new GoMap.get
  new-find k = refl

  -- From a new cache, over any sequence of calls of `Set`, `RemoveTraces`, and `TakeExpiredTraces` with
  -- neither a limit nor a filter, the cache finds under every id what a map from ids to traces with no
  -- queue holds, and `TakeExpiredTraces` answers exactly the traces of the map whose time has come.
  pub new-Refines : (cs : List Call) → Refines cs (new kpq) (λ k. none)
  new-Refines cs = calls-Refines cs (new kpq) (λ k. none) (new-IsValid kpq) new-find
