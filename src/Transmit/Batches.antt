-- ===== src/Transmit/Batches.antt =====
-- transmit/direct_transmit.go: the batches of events that wait for each destination. Events are shared by
-- reference: the store holds them, and the batches hold their addresses, so that a caller may change an
-- event that waits. `EnqueueEvent` and a tick of `dispatchStaleBatches` are single steps; the batches that
-- are dispatched are a list. The time at which an event was enqueued, and metrics, are left out.
pub mod Entries
pub mod Destinations
use refinery.Base.{
  ℕ, ◌+◌, Bool, ◌&&◌, String, String_discrete, ℕ_discrete, List, [], ◌∷◌, ◌++◌, leb, length, ite,
  if◌then◌else◌,
}
use mathlib.Core.HLevel.{×_discrete}
use refinery.GoMap.{get, set, get_or}
use refinery.Types.Span.{Span}

-- `transmitKey`: the host, the key and the dataset
abbrev pub TransmitKey : Type 0
TransmitKey = String × (String × String)

unfoldable pub key_discrete : Discrete TransmitKey
key_discrete = ×_discrete String_discrete (×_discrete String_discrete String_discrete)

unfoldable pub key_of : Span → TransmitKey
key_of ev = (ev.api_host, (ev.api_key, ev.dataset))

-- the events, by address
abbrev pub Store : Type 0
Store = ℕ → Span

pub record EventBatch : Type 0 where
  pub events : List ℕ
  pub start_time : ℕ

pub record DirectTransmission : Type 0 where
  pub event_batches : List (TransmitKey × EventBatch)
  pub dispatched : List (List ℕ)

unfoldable pub new : DirectTransmission
new = record { event_batches = []; dispatched = [] }

-- the time at which a batch starts is that of its first event
unfoldable pub start_of : List ℕ → ℕ → ℕ → ℕ
start_of [] start now = now
start_of (r ∷ rs) start now = start

unfoldable pub put_batch : ℕ → TransmitKey → List ℕ → ℕ → DirectTransmission → DirectTransmission
put_batch max_batch_size key events start d =
    if leb max_batch_size (length events)
    then record {
      event_batches =
          set key_discrete key (record { events = []; start_time = start }) d.event_batches;
      dispatched = events ∷ d.dispatched;
    }
    else record d {
      event_batches =
          set key_discrete key (record { events = events; start_time = start }) d.event_batches;
    }

unfoldable pub add_to_batch :
    ℕ → ℕ → TransmitKey → ℕ → EventBatch → DirectTransmission → DirectTransmission
unfolding start_of put_batch
add_to_batch max_batch_size now key r b d =
    put_batch max_batch_size key (b.events ++ r ∷ []) (start_of b.events b.start_time now) d

-- `EnqueueEvent` of the event at an address
unfoldable pub enqueue_event : ℕ → ℕ → Store → ℕ → DirectTransmission → DirectTransmission
unfolding add_to_batch key_of
enqueue_event max_batch_size now store r d =
    let key = key_of (store r) in
    add_to_batch max_batch_size now key r
      (get_or (get key_discrete key d.event_batches) (record { events = []; start_time = 0 })) d

-- the batches that a tick dispatches are emptied
unfoldable pub is_stale : ℕ → ℕ → EventBatch → Bool
is_stale timeout now b = leb 1 (length b.events) && leb (b.start_time + timeout) now

unfoldable pub dispatch_stale : ℕ → ℕ → List (TransmitKey × EventBatch) → DirectTransmission
unfolding is_stale
dispatch_stale timeout now [] = record { event_batches = []; dispatched = [] }
dispatch_stale timeout now ((k, b) ∷ m) =
    let rest = dispatch_stale timeout now m in
    if is_stale timeout now b
    then record {
      event_batches = (k, record b { events = [] }) ∷ rest.event_batches;
      dispatched = b.events ∷ rest.dispatched;
    }
    else record rest { event_batches = (k, b) ∷ rest.event_batches }

-- a tick of `dispatchStaleBatches`
unfoldable pub tick : ℕ → ℕ → DirectTransmission → DirectTransmission
unfolding dispatch_stale
tick timeout now d =
    let r = dispatch_stale timeout now d.event_batches in
    record r { dispatched = r.dispatched ++ d.dispatched }

-- What a caller that holds the event at an address makes of it.
unfoldable pub write : Store → ℕ → Span → Store
write store r ev q = ite (ℕ_discrete r q) ev (store q)
