-- ===== src/Tests/Lists.antt =====
-- The interfaces of `Deps` implemented by association lists.
use refinery.Base.{
  ℕ, zero, suc, ◌-◌, ◌≤◌, ◌<◌, ◌≡◌, ◌≢◌, refl, Bool, true, false, Option, none, some, String,
  String_discrete, List, [], ◌∷◌, if◌then◌else◌, ltb, arith, length, inl, inr, Option-cases,
}
use refinery.GoMap.{get, set, delete, keys, Unique, get-set, get-delete, set-Unique, delete-Unique}
use refinery.Generics.Set.{elem}
use refinery.Deps.Queue.{KeyedQueue}
use refinery.Deps.Filter.{CuckooFilter}
use refinery.Deps.Lru.{Lru}

abbrev pub Entries : Type 0
Entries = List (String × ℕ)

unfoldable pub better : String → ℕ → Option (String × ℕ) → Option (String × ℕ)
better k t none = some (k, t)
better k t (some (j, u)) = if ltb u t then some (j, u) else some (k, t)

unfoldable pub least : Entries → Option (String × ℕ)
unfolding better
least [] = none
least ((k, t) ∷ q) = better k t (least q)

pub get-least :
    (q : Entries) (k : String) (t : ℕ)
    → Unique String_discrete q
    → least q ≡ some (k, t)
    → get String_discrete k q ≡ some t
unfolding least get better Unique
get-least [] k t u e = cc
get-least ((j, s) ∷ q) k t u e = elim (Option-cases (least q)) [
  | inl n ↦ ground arith
  | inr ((i, r), n) ↦ ground (arith, get-least q i r u.1 n)
]

pub least-none : (q : Entries) → least q ≡ none → q ≡ []
unfolding least better
least-none [] e = refl
least-none ((j, s) ∷ q) e = elim (Option-cases (least q)) [
  | inl n ↦ absurd (ground arith)
  | inr ((a, r), n) ↦ absurd (ground arith)
]

pub least-least :
    (q : Entries) (j k : String) (t u : ℕ)
    → least q ≡ some (k, t)
    → get String_discrete j q ≡ some u
    → t ≤ u
unfolding least get better
least-least [] j k t u e h = cc
least-least ((i, s) ∷ q) j k t u e h = elim (Option-cases (least q)) [
  | inl n ↦ ground (arith, least-none q n)
  | inr ((a, r), n) ↦ ground (arith, least-least q j a r u n)
]

length-delete : (q : Entries) (k : String) → length (delete String_discrete k q) ≤ length q
unfolding delete
length-delete [] k = ground arith
length-delete ((j, t) ∷ q) k = ground (arith, length-delete q k)

pub length-delete_present :
    (q : Entries) (k : String) (t : ℕ)
    → get String_discrete k q ≡ some t
    → length (delete String_discrete k q) < length q
unfolding delete get
length-delete_present [] k t h = cc
length-delete_present ((j, s) ∷ q) k t h =
    ground (arith, length-delete q k, length-delete_present q k t)

-- a list with each id once
abbrev pub Queue : Type 0
Queue = (q : Entries) × Unique String_discrete q

unfoldable pub priority_in : Queue → String → Option ℕ
priority_in q k = get String_discrete k q.0

unfoldable pub set_in : Queue → String → ℕ → Queue
set_in q k t = (set String_discrete k t q.0, set-Unique String_discrete k t q.0 q.1)

unfoldable pub push_absent : Queue → String → ℕ → Option ℕ → Queue
push_absent q k t none = set_in q k t
push_absent q k t (some _) = q

unfoldable pub remove_in : Queue → String → Queue
remove_in q k = (delete String_discrete k q.0, delete-Unique String_discrete k q.0 q.1)

unfoldable pub pop_least : Queue → Option (String × ℕ) → Option (String × ℕ × Queue)
pop_least q none = none
pop_least q (some (k, t)) = some (k, t, remove_in q k)

pub pop_inv :
    (q q' : Queue) (k : String) (t : ℕ) (o : Option (String × ℕ))
    → pop_least q o ≡ some (k, t, q')
    → (o ≡ some (k, t)) × (q' ≡ remove_in q k)
unfolding pop_least
pop_inv q q' k t none e = cc
pop_inv q q' k t (some (j, s)) e = (cc, cc)

pub pop-none :
    (q : Queue) (o : Option (String × ℕ)) (k : String)
    → least q.0 ≡ o
    → pop_least q o ≡ none
    → priority_in q k ≡ none
unfolding pop_least priority_in get
pop-none q none k n e = rw (least-none q.0 n) refl
pop-none q (some (j, t)) k n e = cc

unfoldable pub queue : KeyedQueue
unfolding priority_in set_in push_absent remove_in pop_least get Unique
queue = record {
  Queue = Queue;
  new = ([], tt);
  len = λ q. length q.0;
  set = set_in;
  push = λ q k t. push_absent q k t (priority_in q k);
  remove = remove_in;
  pop = λ q. pop_least q (least q.0);
  priority = priority_in;
  priority-new = λ k. refl;
  priority-set = λ q j k t. get-set String_discrete j k t q.0;
  priority-push = λ q j k t h. rw h (get-set String_discrete j k t q.0);
  priority-remove = λ q j k. get-delete String_discrete j k q.0;
  pop-empty = λ q e k. pop-none q (least q.0) k refl e;
  len-pop = λ q q' k t e.
      let (l, r) = pop_inv q q' k t (least q.0) e in
      rw r (length-delete_present q.0 k t (get-least q.0 k t q.1 l));
  priority-pop = λ q q' j k t e.
      let (l, r) = pop_inv q q' k t (least q.0) e in rw r (get-delete String_discrete j k q.0);
  pop-priority = λ q q' k t e. get-least q.0 k t q.1 (pop_inv q q' k t (least q.0) e).0;
  pop-least = λ q q' j k t u e h. least-least q.0 j k t u (pop_inv q q' k t (least q.0) e).0 h;
}

abbrev pub insert_in : ℕ × List String → String → (ℕ × List String) × Bool
insert_in f s = if ltb (length f.1) f.0 then ((f.0, s ∷ f.1), true) else (f, false)

pub lookup-insert_room :
    (f : ℕ × List String) (s : String)
    → (insert_in f s).1 ≡ true
    → elem String_discrete s (insert_in f s).0.1 ≡ true
unfolding elem get
lookup-insert_room f s h = ground arith

pub lookup-insert_old :
    (f : ℕ × List String) (s t : String)
    → (insert_in f s).1 ≡ true
    → elem String_discrete t f.1 ≡ true
    → elem String_discrete t (insert_in f s).0.1 ≡ true
unfolding elem get
lookup-insert_old f s t h m = ground arith

-- a list of ids with a limit
abbrev pub filter : CuckooFilter
filter = record {
  Filter = ℕ × List String;
  new = λ n. (n, []);
  insert = insert_in;
  lookup = λ f s. elem String_discrete s f.1;
  used = λ f. length f.1;
  slots = λ f. f.0;
  lookup-insert = lookup-insert_room;
  lookup-insert_mono = lookup-insert_old;
}

unfoldable pub take : ℕ → Entries → Entries
take zero q = []
take (suc n) [] = []
take (suc n) (e ∷ q) = e ∷ take n q

pub get-take :
    (n : ℕ) (q : Entries) (j : String) (w : ℕ)
    → get String_discrete j (take n q) ≡ some w
    → get String_discrete j q ≡ some w
unfolding take get
get-take zero q j w h = cc
get-take (suc n) [] j w h = h
get-take (suc n) ((i, s) ∷ q) j w h = ground (arith, get-take n q j w)

abbrev pub append_key : List String → String → List String
append_key [] k = k ∷ []
append_key (j ∷ js) k = j ∷ append_key js k

abbrev pub oldest_first : List String → List String
oldest_first [] = []
oldest_first (k ∷ ks) = append_key (oldest_first ks) k

abbrev pub touch : ℕ × Entries → String → Option ℕ → (ℕ × Entries) × Option ℕ
touch c k none = (c, none)
touch c k (some v) = ((c.0, set String_discrete k v c.1), some v)

pub touch-peek :
    (c : ℕ × Entries) (j k : String) (o : Option ℕ)
    → get String_discrete k c.1 ≡ o
    → ((touch c k o).1 ≡ o) × (get String_discrete j (touch c k o).0.1 ≡ get String_discrete j c.1)
touch-peek c j k none e = (refl, refl)
touch-peek c j k (some v) e = (refl, ground (arith, get-set String_discrete j k v c.1))

abbrev pub add_in : ℕ × Entries → String → ℕ → ℕ × Entries
add_in c k v = (c.0, (k, v) ∷ take c.0 (delete String_discrete k c.1))

pub peek-add_lem :
    (c : ℕ × Entries) (k : String) (v : ℕ) → get String_discrete k (add_in c k v).1 ≡ some v
unfolding get
peek-add_lem c k v = ground arith

pub peek-add_other :
    (c : ℕ × Entries) (j k : String) (v w : ℕ)
    → j ≢ k
    → get String_discrete j (add_in c k v).1 ≡ some w
    → get String_discrete j c.1 ≡ some w
unfolding get
peek-add_other c j k v w n h =
    let m : get String_discrete j (take c.0 (delete String_discrete k c.1)) ≡ some w =
      ground arith in
    ground
      (arith, get-delete String_discrete j k c.1, get-take c.0 (delete String_discrete k c.1) j w m)

-- a list, the most recent first, and one less than its limit
abbrev pub lru : Lru
lru = record {
  Cache = ℕ × Entries;
  new = λ n. if ltb 0 n then some (n - 1, []) else none;
  add = add_in;
  get = λ c k. touch c k (get String_discrete k c.1);
  keys = λ c. oldest_first (keys c.1);
  peek = λ c k. get String_discrete k c.1;
  peek-add = peek-add_lem;
  peek-add_ne = peek-add_other;
  get-peek = λ c k. (touch-peek c k k (get String_discrete k c.1) refl).0;
  peek-get = λ c j k. (touch-peek c j k (get String_discrete k c.1) refl).1;
}
