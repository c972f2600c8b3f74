-- ===== src/Transmit.antt =====
-- transmit/direct_transmit.go: how `sendBatch` cuts a batch of events into the messages that the API
-- accepts. The serializer is a parameter, which gives the size of an event, `none` if it fails; what
-- becomes of a message (compression, the request, its retries and the response) is left out.

pub mod Batches
pub mod Messages
use refinery.Base.{
  ℕ, zero, suc, ◌+◌, Bool, Option, none, some, String, List, [], ◌∷◌, ltb, length, if◌then◌else◌,
}
use refinery.Types.Span.{Span}

abbrev pub api_max_batch_size : ℕ
api_max_batch_size = 5000000

abbrev pub api_max_event_size : ℕ
api_max_event_size = 1000000

-- the bytes that are kept free for the header of the array
abbrev pub header_size : ℕ
header_size = 5

-- Where the events of a message go is read from the first that is left of the batch.
pub record Message : Type 0 where
  pub api_host : String
  pub api_key : String
  pub dataset : String
  pub events : List Span

module _ (size : Span → Option ℕ) where
  -- An event that cannot be serialized or is too large is not accepted.
  unfoldable pub accepted_size : Option ℕ → Option ℕ
  accepted_size none = none
  accepted_size (some n) = if ltb api_max_event_size n then none else some n

  unfoldable pub accepted : Span → Option ℕ
  unfolding accepted_size
  accepted e = accepted_size (size e)

  -- one round of the inner loop, with the rounds that follow for the bytes that are packed by then
  unfoldable pub fill_one :
      (ℕ → List Span × List Span) → Span → List Span → Option ℕ → ℕ → List Span × List Span
  fill_one rest e es none packed = rest packed
  fill_one rest e es (some n) packed =
      if ltb api_max_batch_size (packed + n)
      then ([], e ∷ es)
      else (e ∷ (rest (packed + n)).0, (rest (packed + n)).1)

  -- The inner loop: what goes into the message with some bytes packed already, and what is left of
  -- the batch. An event that is not accepted is skipped.
  unfoldable pub fill : ℕ → List Span → List Span × List Span
  unfolding accepted fill_one
  fill packed [] = ([], [])
  fill packed (e ∷ es) = fill_one (λ q. fill q es) e es (accepted e) packed

  -- a message of some events, if there are any, before the others
  unfoldable pub add_message : Span → List Span → List Message → List Message
  add_message e [] ms = ms
  add_message e (x ∷ xs) ms =
      record { api_host = e.api_host; api_key = e.api_key; dataset = e.dataset; events = x ∷ xs }
      ∷ ms

  unfoldable pub then_messages : Span → List Span → Option (List Message) → Option (List Message)
  unfolding add_message
  then_messages e xs none = none
  then_messages e xs (some ms) = some (add_message e xs ms)

  -- `sendBatch`, with a bound on the rounds of its loop: `none` if they do not suffice
  unfoldable pub send_batch : ℕ → List Span → Option (List Message)
  unfolding fill then_messages
  send_batch n [] = some []
  send_batch zero (e ∷ es) = none
  send_batch (suc n) (e ∷ es) =
      let r = fill header_size (e ∷ es) in then_messages e r.0 (send_batch n r.1)
