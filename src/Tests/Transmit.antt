-- ===== src/Tests/Transmit.antt =====
-- The messages of a batch, at concrete inputs.
use refinery.Base.{inl, inr, ℕ_discrete, ℕ, Option, some, List, [], ◌∷◌, arith}
use refinery.Types.Span.{Span}
use refinery.Transmit.{send_batch}
use refinery.Transmit.Messages.{Sent, send_batch-Sent}
use refinery.Transmit.Batches.{new, Store, enqueue_event, write}
use refinery.Transmit.Batches.Destinations.{
  Event, enqueued, ticked, written, AreRespectful, IsBatched, after, after-new-IsBatched,
}
use refinery.Tests.Samples

-- Events that are as large as their time of arrival says.
abbrev sized : Span → Option ℕ
sized sp = some sp.arrival_time

abbrev large : Span
large = record Samples.span { arrival_time = 900000 }

abbrev too_large : Span
too_large = record Samples.span { arrival_time = 1000001 }

abbrev batch : List Span
batch = large ∷ large ∷ too_large ∷ large ∷ large ∷ large ∷ large ∷ []

send_batch-Sent_example : Sent sized batch (send_batch sized 7 batch)
send_batch-Sent_example = send_batch-Sent sized 7 batch (omega arith)

-- Two destinations, a batch that is full, and one that has waited long enough. An event is addressed
-- before it is enqueued, and loses its time of arrival while it waits.
abbrev elsewhere : Span
elsewhere = record large { dataset = "elsewhere" }

abbrev store : Store
store r = large

abbrev history : List Event
history =
    written 2 elsewhere
    ∷ enqueued 1 1
    ∷ enqueued 2 2
    ∷ written 1 (record large { arrival_time = 0 })
    ∷ enqueued 3 3
    ∷ ticked 10 5
    ∷ ticked 10 20
    ∷ enqueued 21 4
    ∷ []

is_respected : AreRespectful 2 history (store, new)
unfolding new enqueue_event write ℕ_discrete
is_respected = (inr (tt, tt), (tt, (tt, (inl (λ k h. h), (tt, (tt, (tt, (tt, tt))))))))

after-new-IsBatched_example : IsBatched 2 (after 2 history (store, new))
after-new-IsBatched_example = after-new-IsBatched 2 (omega arith) history store is_respected
