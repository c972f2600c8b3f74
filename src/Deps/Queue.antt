-- ===== src/Deps/Queue.antt =====
-- github.com/rdleal/go-priorityq/kpq: a keyed priority queue of trace ids, least time first.
use refinery.Base.{ℕ, ◌≤◌, ◌<◌, ◌≡◌, Option, none, some, String, String_discrete, ite}

pub record KeyedQueue : Type 1 where
  pub Queue : Type 0
  pub new : Queue
  pub len : Queue → ℕ
  -- `Set`: inserts a key or changes its priority
  pub set : Queue → String → ℕ → Queue
  -- `Push`: inserts a key; for a key that is there it returns an error, which the caller ignores
  pub push : Queue → String → ℕ → Queue
  pub remove : Queue → String → Queue
  -- `Pop`: a key of least priority, its priority, and the queue without it
  pub pop : Queue → Option (String × ℕ × Queue)
  -- `ValueOf`
  pub priority : Queue → String → Option ℕ
  pub priority-new : (k : String) → priority new k ≡ none
  pub priority-set :
      (q : Queue) (j k : String) (t : ℕ)
      → priority (set q k t) j ≡ ite (String_discrete j k) (some t) (priority q j)
  pub priority-push :
      (q : Queue) (j k : String) (t : ℕ)
      → priority q k ≡ none
      → priority (push q k t) j ≡ ite (String_discrete j k) (some t) (priority q j)
  pub priority-remove :
      (q : Queue) (j k : String)
      → priority (remove q k) j ≡ ite (String_discrete j k) none (priority q j)
  pub pop-empty : (q : Queue) → pop q ≡ none → (k : String) → priority q k ≡ none
  pub len-pop : (q q' : Queue) (k : String) (t : ℕ) → pop q ≡ some (k, t, q') → len q' < len q
  pub priority-pop :
      (q q' : Queue) (j k : String) (t : ℕ)
      → pop q ≡ some (k, t, q')
      → priority q' j ≡ ite (String_discrete j k) none (priority q j)
  pub pop-priority :
      (q q' : Queue) (k : String) (t : ℕ) → pop q ≡ some (k, t, q') → priority q k ≡ some t
  pub pop-least :
      (q q' : Queue) (j k : String) (t u : ℕ)
      → pop q ≡ some (k, t, q')
      → priority q j ≡ some u
      → t ≤ u
