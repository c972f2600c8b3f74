-- ===== src/Transmit/Messages.antt =====
-- transmit/direct_transmit.go: the messages of `sendBatch` hold the events of the batch that the API
-- accepts, each once and in their order, and its loop ends.
use refinery.Base.{
  ℕ, zero, suc, ◌+◌, ◌≤◌, ◌≡◌, refl, ap, ◌∙◌, All, Bool-cases, false, Option, none, some, List, [],
  ◌∷◌, ◌++◌, ◌⊎◌, inl, inr, ltb, length, arith,
}
use refinery.Types.Span.{Span}
use refinery.Transmit.{
  Message, api_max_batch_size, api_max_event_size, header_size, accepted_size, accepted, fill_one,
  fill, add_message, then_messages, send_batch,
}

Option-cases {ℓ} : {A : Type ℓ} (o : Option A) → (o ≡ none) ⊎ ((a : A) × (o ≡ some a))
Option-cases none = inl refl
Option-cases (some a) = inr (a, refl)

not_above : (n : ℕ) → ltb api_max_batch_size n ≡ false → n ≤ api_max_batch_size
not_above n h = ground arith

module _ (size : Span → Option ℕ) where
  sendable_one : Span → Option ℕ → List Span → List Span
  sendable_one e none es = es
  sendable_one e (some n) es = e ∷ es

  -- the events of a batch that the API accepts
  unfoldable pub sendable : List Span → List Span
  unfolding sendable_one
  sendable [] = []
  sendable (e ∷ es) = sendable_one e (accepted size e) (sendable es)

  abbrev pub bytes : Option ℕ → ℕ
  bytes none = 0
  bytes (some n) = n

  abbrev pub total : List Span → ℕ
  total [] = 0
  total (e ∷ es) = bytes (accepted size e) + total es

  abbrev pub all_events : List Message → List Span
  all_events [] = []
  all_events (m ∷ ms) = m.events ++ all_events ms

  fill_one-sendable :
      (rest : ℕ → List Span × List Span) (e : Span) (es : List Span) (o : Option ℕ) (p : ℕ)
      → ((q : ℕ) → (rest q).0 ++ sendable (rest q).1 ≡ sendable es)
      → accepted size e ≡ o
      → (fill_one size rest e es o p).0 ++ sendable (fill_one size rest e es o p).1
        ≡ sendable_one e o (sendable es)
  unfolding fill_one sendable sendable_one
  fill_one-sendable rest e es none p ih h = ih p
  fill_one-sendable rest e es (some n) p ih h = elim (Bool-cases (ltb api_max_batch_size (p + n))) [
    | inl g ↦ rw g (ap (λ o. sendable_one e o (sendable es)) h)
    | inr g ↦ rw g (ap (λ xs. e ∷ xs) (ih (p + n)))
  ]

  fill-sendable :
      (p : ℕ) (es : List Span) → (fill size p es).0 ++ sendable (fill size p es).1 ≡ sendable es
  unfolding fill sendable
  fill-sendable p [] = refl
  fill-sendable p (e ∷ es) =
      fill_one-sendable (λ q. fill size q es) e es (accepted size e) p (λ q. fill-sendable q es)
        refl

  fill_one-length :
      (rest : ℕ → List Span × List Span) (e : Span) (es : List Span) (o : Option ℕ) (p : ℕ)
      → ((q : ℕ) → length (rest q).1 ≤ length es)
      → length (fill_one size rest e es o p).1 ≤ suc (length es)
  unfolding fill_one
  fill_one-length rest e es none p ih = let h = ih p in omega arith
  fill_one-length rest e es (some n) p ih =
      let h = ih (p + n) in
      elim (Bool-cases (ltb api_max_batch_size (p + n))) [
        | inl g ↦ rw (g, length) (omega arith)
        | inr g ↦ rw (g, length) (omega arith)
      ]

  fill-length : (p : ℕ) (es : List Span) → length (fill size p es).1 ≤ length es
  unfolding fill
  fill-length p [] = omega arith
  fill-length p (e ∷ es) =
      fill_one-length (λ q. fill size q es) e es (accepted size e) p (λ q. fill-length q es)

  bytes-accepted_size : (o : Option ℕ) → bytes (accepted_size size o) ≤ api_max_event_size
  unfolding accepted_size
  bytes-accepted_size none = omega arith
  bytes-accepted_size (some n) = elim (Bool-cases (ltb api_max_event_size n)) [
    | inl g ↦ rw g (omega arith)
    | inr g ↦ rw g (ground arith)
  ]

  fits : (n : ℕ) → n ≤ api_max_event_size → ltb api_max_batch_size (header_size + n) ≡ false
  fits n h = ground arith

  fill_one-first :
      (rest : ℕ → List Span × List Span) (e : Span) (es : List Span) (o : Option ℕ)
      → bytes o ≤ api_max_event_size
      → ((q : ℕ) → length (rest q).1 ≤ length es)
      → length (fill_one size rest e es o header_size).1 ≤ length es
  unfolding fill_one
  fill_one-first rest e es none b ih = ih header_size
  fill_one-first rest e es (some n) b ih = rw (fits n b, length) (ih (header_size + n))

  accepted-small : (e : Span) → bytes (accepted size e) ≤ api_max_event_size
  unfolding accepted
  accepted-small e = bytes-accepted_size (size e)

  -- The first event of a batch never stays behind: it fits into a message of its own.
  fill_first-length :
      (e : Span) (es : List Span) → length (fill size header_size (e ∷ es)).1 ≤ length es
  unfolding fill
  fill_first-length e es =
      fill_one-first (λ q. fill size q es) e es (accepted size e) (accepted-small e)
        (λ q. fill-length q es)

  fill_one-total :
      (rest : ℕ → List Span × List Span) (e : Span) (es : List Span) (o : Option ℕ) (p : ℕ)
      → p ≤ api_max_batch_size
      → ((q : ℕ) → q ≤ api_max_batch_size → q + total (rest q).0 ≤ api_max_batch_size)
      → accepted size e ≡ o
      → p + total (fill_one size rest e es o p).0 ≤ api_max_batch_size
  unfolding fill_one
  fill_one-total rest e es none p l ih h = ih p l
  fill_one-total rest e es (some n) p l ih h = elim (Bool-cases (ltb api_max_batch_size (p + n))) [
    | inl g ↦ rw (g, total) (omega arith)
    | inr g ↦ rw (g, total) (rw h (let k = ih (p + n) (not_above (p + n) g) in omega arith))
  ]

  fill-total :
      (p : ℕ) (es : List Span)
      → p ≤ api_max_batch_size
      → p + total (fill size p es).0 ≤ api_max_batch_size
  unfolding fill
  fill-total p [] l = omega arith
  fill-total p (e ∷ es) l =
      fill_one-total (λ q. fill size q es) e es (accepted size e) p l (λ q m. fill-total q es m)
        refl

  abbrev pub IsAcceptable : Message → Type 0
  IsAcceptable m = (1 ≤ length m.events) × (header_size + total m.events ≤ api_max_batch_size)

  -- Messages that the API accepts, which hold the events of a batch that can be sent.
  abbrev pub Sent : List Span → Option (List Message) → Type 0
  Sent es none = ⊥
  Sent es (some ms) = (all_events ms ≡ sendable es) × All IsAcceptable ms

  all_events-add_message :
      (e : Span) (xs : List Span) (ms : List Message)
      → all_events (add_message size e xs ms) ≡ xs ++ all_events ms
  unfolding add_message
  all_events-add_message e [] ms = refl
  all_events-add_message e (x ∷ xs) ms = refl

  add_message-IsAcceptable :
      (e : Span) (xs : List Span) (ms : List Message)
      → header_size + total xs ≤ api_max_batch_size
      → All IsAcceptable ms
      → All IsAcceptable (add_message size e xs ms)
  unfolding add_message
  add_message-IsAcceptable e [] ms h a = a
  add_message-IsAcceptable e (x ∷ xs) ms h a = ((omega arith, h), a)

  then_messages-Sent :
      (e : Span) (es xs rest : List Span) (o : Option (List Message))
      → xs ++ sendable rest ≡ sendable es
      → header_size + total xs ≤ api_max_batch_size
      → Sent rest o
      → Sent es (then_messages size e xs o)
  unfolding then_messages
  then_messages-Sent e es xs rest none s h r = r
  then_messages-Sent e es xs rest (some ms) s h r = (
    all_events-add_message e xs ms ∙ ap (λ q. xs ++ q) r.0 ∙ s,
    add_message-IsAcceptable e xs ms h r.1,
  )

  -- As many rounds as the batch has events are enough, and the messages are then the events of the
  -- batch that the serializer accepts and that are not too large, each once and in their order; no
  -- message is empty, and none has more bytes, with those kept for its header, than the API accepts.
  pub send_batch-Sent : (n : ℕ) (es : List Span) → length es ≤ n → Sent es (send_batch size n es)
  unfolding send_batch sendable
  send_batch-Sent n [] h = (refl, tt)
  send_batch-Sent zero (e ∷ es) h = absurd (omega arith)
  send_batch-Sent (suc n) (e ∷ es) h =
      let l = fill_first-length e es in
      then_messages-Sent e (e ∷ es) _ _ (send_batch size n (fill size header_size (e ∷ es)).1)
        (fill-sendable header_size (e ∷ es)) (fill-total header_size (e ∷ es) (omega arith))
        (send_batch-Sent n (fill size header_size (e ∷ es)).1 (omega arith))
