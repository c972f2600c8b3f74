-- ===== src/Sample/Factory/Shared.antt =====
-- sample/sample.go: which samplers share an instance.
use refinery.Base.{
  ℕ, ◌+◌, ◌≡◌, ◌≢◌, refl, sym, ap, ◌∙◌, subst, Bool, Bool-cases, true, false, ◌&&◌, Option, none,
  some, String, String_discrete, inl, inr, if◌then◌else◌,
}
use refinery.Base.Int.{ℤ}
use refinery.GoMap.{get, get_or, get-set_self, get-set_ne}
use refinery.Sample.Dynamic.{
  Kind, dynamic, ema_dynamic, ema_throughput, windowed_throughput, total_throughput,
}
use refinery.Sample.Factory.{
  KeyedConfig, Instance, SamplerFactory, Dynsamplers, scaled, has_type, has_throughput,
  update_peer_counts, use_stored, create_instance, get_shared_dynsampler, track_goal, acquire,
}
use refinery.Sample.Factory.Scaled.{on_some, get-rescale}

has_type-itself : (k : Kind) → has_type k k ≡ true
unfolding has_type
has_type-itself dynamic = refl
has_type-itself ema_dynamic = refl
has_type-itself ema_throughput = refl
has_type-itself windowed_throughput = refl
has_type-itself total_throughput = refl

module _ (D : Type 0) (dyn : Dynsamplers D) where
  -- What samplers share is told by its type and its address.
  abbrev pub stamp : Instance D → Kind × ℕ
  stamp i = (i.kind, i.address)

  abbrev pub stamp_at : String → SamplerFactory D → Option (Kind × ℕ)
  stamp_at k s = on_some stamp (get String_discrete k s.shared_dynsamplers)

  stamp_if :
      (b : Bool) (x i : Instance D) → stamp x ≡ stamp i → stamp (if b then x else i) ≡ stamp i
  stamp_if true x i e = e
  stamp_if false x i e = refl

  stamp-scaled : (o : Option ℤ) (n : ℕ) (i : Instance D) → stamp (scaled D dyn o n i) ≡ stamp i
  unfolding scaled
  stamp-scaled none n i = refl
  stamp-scaled (some g) n i = stamp_if (dyn.can_set_goal i.kind) _ i refl

  stamps-scaled :
      (g : Option ℤ) (n : ℕ) (o : Option (Instance D))
      → on_some stamp (on_some (scaled D dyn g n) o) ≡ on_some stamp o
  stamps-scaled g n none = refl
  stamps-scaled g n (some i) = ap some (stamp-scaled g n i)

  pub stamp_at-update_peer_counts :
      (k : String) (peers : Option ℕ) (s : SamplerFactory D)
      → stamp_at k (update_peer_counts D dyn peers s) ≡ stamp_at k s
  unfolding update_peer_counts
  stamp_at-update_peer_counts k peers s =
      ap (on_some stamp) (get-rescale D dyn s.goal_throughput_configs _ k s.shared_dynsamplers)
      ∙ stamps-scaled _ _ (get String_discrete k s.shared_dynsamplers)

  shared_if :
      (b : Bool) (k : String) (x s : SamplerFactory D)
      → stamp_at k x ≡ stamp_at k s
      → stamp_at k (if b then x else s) ≡ stamp_at k s
  shared_if true k x s e = e
  shared_if false k x s e = refl

  stamp_at-track_goal :
      (k key : String) (c : KeyedConfig) (s : SamplerFactory D)
      → stamp_at k (track_goal D dyn key c s) ≡ stamp_at k s
  unfolding track_goal
  stamp_at-track_goal k key c s = shared_if (has_throughput c.kind && c.use_cluster_size) k _ s refl

  stamp_at-create_instance :
      (key : String) (c : KeyedConfig) (s : SamplerFactory D)
      → stamp_at key (create_instance D dyn s key c).0 ≡ some (c.kind, s.next_address)
  unfolding create_instance
  stamp_at-create_instance key c s =
      ap (on_some stamp) (get-set_self String_discrete key _ s.shared_dynsamplers)

  -- What is stored under a key has the type that a kind asks for, and this address.
  abbrev pub Serves : String → SamplerFactory D → Kind → ℕ → Type 0
  Serves key s kind a = (j : Kind) × (stamp_at key s ≡ some (j, a)) × (has_type j kind ≡ true)

  use_stored-Serves :
      (key : String) (c : KeyedConfig) (s : SamplerFactory D) (o : Option (Instance D))
      → get String_discrete key s.shared_dynsamplers ≡ o
      → Serves key (use_stored D dyn s key c o).0 c.kind (use_stored D dyn s key c o).1
  unfolding use_stored
  use_stored-Serves key c s none e =
      (c.kind, stamp_at-create_instance key c s, has_type-itself c.kind)
  use_stored-Serves key c s (some i) e = elim (Bool-cases (has_type i.kind c.kind)) [
    | inl h ↦
        subst (λ r. Serves key r.0 c.kind r.1)
          (sym (ap (λ b. if b then (s, i.address) else create_instance D dyn s key c) h))
          (i.kind, ap (on_some stamp) e, h)
    | inr h ↦
        subst (λ r. Serves key r.0 c.kind r.1)
          (sym (ap (λ b. if b then (s, i.address) else create_instance D dyn s key c) h))
          (c.kind, stamp_at-create_instance key c s, has_type-itself c.kind)
  ]

  of_stamp : (i : Instance D) {k : Kind} {a : ℕ} → some (stamp i) ≡ some (k, a) → stamp i ≡ (k, a)
  of_stamp i e = ap (λ o. get_or o (stamp i)) e

  -- What is stored with the type that is asked for is used.
  use_stored-found :
      (key : String) (c : KeyedConfig) (s : SamplerFactory D) (j : Kind) (a : ℕ)
      (o : Option (Instance D))
      → on_some stamp o ≡ some (j, a)
      → has_type j c.kind ≡ true
      → use_stored D dyn s key c o ≡ (s, a)
  unfolding use_stored
  use_stored-found key c s j a none e t = cc
  use_stored-found key c s j a (some i) e t =
      rw (ap (λ q. has_type q.0 c.kind) (of_stamp i e), t) (ap (λ q. (s, q.1)) (of_stamp i e))

  stamp_at-create_ne :
      (k key : String) (c : KeyedConfig) (s : SamplerFactory D)
      → k ≢ key
      → stamp_at k (create_instance D dyn s key c).0 ≡ stamp_at k s
  unfolding create_instance
  stamp_at-create_ne k key c s h =
      ap (on_some stamp) (get-set_ne String_discrete k key _ s.shared_dynsamplers h)

  other_if :
      (b : Bool) (k : String) (x y : SamplerFactory D × ℕ) (o : Option (Kind × ℕ))
      → stamp_at k x.0 ≡ o
      → stamp_at k y.0 ≡ o
      → stamp_at k (if b then x else y).0 ≡ o
  other_if true k x y o h g = h
  other_if false k x y o h g = g

  use_stored-other :
      (k key : String) (c : KeyedConfig) (s : SamplerFactory D) (o : Option (Instance D))
      → k ≢ key
      → stamp_at k (use_stored D dyn s key c o).0 ≡ stamp_at k s
  unfolding use_stored
  use_stored-other k key c s none h = stamp_at-create_ne k key c s h
  use_stored-other k key c s (some i) h =
      other_if (has_type i.kind c.kind) k (s, i.address) (create_instance D dyn s key c)
        (stamp_at k s) refl (stamp_at-create_ne k key c s h)

  pub acquire-Serves :
      (key : String) (c : KeyedConfig) (s : SamplerFactory D)
      → Serves key (acquire D dyn s key c).0 c.kind (acquire D dyn s key c).1
  unfolding acquire get_shared_dynsampler
  acquire-Serves key c s =
      let (j, e, t) =
        use_stored-Serves key c s (get String_discrete key s.shared_dynsamplers) refl in
      (j, stamp_at-track_goal key key c _ ∙ e, t)

  pub acquire-found :
      (key : String) (c : KeyedConfig) (s : SamplerFactory D) (a : ℕ)
      → Serves key s c.kind a
      → (acquire D dyn s key c).1 ≡ a
  unfolding acquire get_shared_dynsampler
  acquire-found key c s a (j, e, t) = ap (λ r. r.1) (use_stored-found key c s j a _ e t)

  pub acquire-keeps :
      (k key : String) (c : KeyedConfig) (s : SamplerFactory D) (kind : Kind) (a : ℕ)
      → (key ≡ k → c.kind ≡ kind)
      → Serves k s kind a
      → Serves k (acquire D dyn s key c).0 kind a
  unfolding acquire get_shared_dynsampler
  acquire-keeps k key c s kind a same (j, h, t) = elim (String_discrete k key) [
    | yes p ↦ (
      j,
      stamp_at-track_goal k key c _
          ∙ ap (λ r. stamp_at k r.0)
              (use_stored-found key c s j a _ (ap (λ q. stamp_at q s) (sym p) ∙ h)
                (ap (has_type j) (same (sym p)) ∙ t))
          ∙ h,
      t,
    )
    | no n ↦ (j, stamp_at-track_goal k key c _ ∙ use_stored-other k key c s _ n ∙ h, t)
  ]

  pub acquire-other :
      (k key : String) (c : KeyedConfig) (s : SamplerFactory D)
      → k ≢ key
      → stamp_at k (acquire D dyn s key c).0 ≡ stamp_at k s
  unfolding acquire get_shared_dynsampler
  acquire-other k key c s n = stamp_at-track_goal k key c _ ∙ use_stored-other k key c s _ n

  next_if :
      (b : Bool) (x s : SamplerFactory D)
      → x.next_address ≡ s.next_address
      → (if b then x else s).next_address ≡ s.next_address
  next_if true x s e = e
  next_if false x s e = refl

  use_stored-new :
      (key : String) (c : KeyedConfig) (s : SamplerFactory D) (o : Option (Instance D))
      → on_some stamp o ≡ none
      → ((use_stored D dyn s key c o).1 ≡ s.next_address)
        × ((use_stored D dyn s key c o).0.next_address ≡ s.next_address + 1)
  unfolding use_stored create_instance
  use_stored-new key c s none e = (refl, refl)
  use_stored-new key c s (some i) e = cc

  -- What is not stored is created at the next address.
  pub acquire-new :
      (key : String) (c : KeyedConfig) (s : SamplerFactory D)
      → stamp_at key s ≡ none
      → ((acquire D dyn s key c).1 ≡ s.next_address)
        × ((acquire D dyn s key c).0.next_address ≡ s.next_address + 1)
  unfolding acquire get_shared_dynsampler track_goal
  acquire-new key c s e =
      let u = use_stored-new key c s _ e in
      (u.0, next_if (has_throughput c.kind && c.use_cluster_size) _ _ refl ∙ u.1)
