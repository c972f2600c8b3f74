-- ===== src/Sample/Factory/Reuse.antt =====
-- sample/sample.go: when `createSampler` gives two samplers the same instance, and when it does not.
use refinery.Base.{
  ℕ, ◌+◌, ◌≡◌, ◌≢◌, refl, sym, ap, ◌∙◌, subst, All, Option, none, some, String, List, [], ◌∷◌,
}
use refinery.Sample.TraceKey.{Texts, TraceKey}
use refinery.Config.KeyFields.{get_key_fields}
use refinery.Sample.Dynamic.{Kind, Recorded, DynamicSampler, start, started, list_read}
use refinery.Sample.Factory.{
  KeyedConfig, SamplerFactory, Dynsamplers, update_peer_counts, acquire, after_start,
  create_sampler, dynsampler_key, left_behind, nothing_recorded,
}
use refinery.Sample.Factory.Scaled.{
  Holds, Event, create, peers_changed, config_changed, step, after, first_of,
}
use refinery.Sample.Factory.Shared.{
  stamp_at, Serves, stamp_at-update_peer_counts, acquire-Serves, acquire-found, acquire-keeps,
  acquire-other, acquire-new,
}

started-dynsampler :
    (texts : Texts) (kind : Kind) (key : TraceKey) (a : ℕ) (r : Recorded)
    (o : Option (List String × List String))
    → Holds (λ x. x.dynsampler ≡ a) (started ℕ texts kind key a r o)
unfolding started
started-dynsampler texts kind key a r none = tt
started-dynsampler texts kind key a r (some (all, non_root)) = refl

module _ (D : Type 0) (dyn : Dynsamplers D) (texts : Texts) (show_list : List String → String) where
  -- what a creation gives: the instance that was acquired, and the goals up to date
  abbrev Made : Option ℕ → SamplerFactory D × ℕ → SamplerFactory D × DynamicSampler ℕ → Type 0
  Made peers r (s', x) = (x.dynsampler ≡ r.1) × (s' ≡ update_peer_counts D dyn peers r.0)

  after_start-Made :
      (peers : Option ℕ) (r : SamplerFactory D × ℕ) (o : Option (DynamicSampler ℕ))
      → Holds (λ x. x.dynsampler ≡ r.1) o
      → Holds (Made peers r) (after_start D dyn r.0 peers o)
  unfolding after_start
  after_start-Made peers r none h = tt
  after_start-Made peers r (some x) h = (h, refl)

  create_sampler-Made :
      (peers : Option ℕ) (c : KeyedConfig) (prefix : String) (s : SamplerFactory D)
      → Holds
          (Made peers (acquire D dyn s (dynsampler_key texts show_list prefix c) c))
          (create_sampler D dyn texts show_list peers c prefix s)
  unfolding create_sampler start
  create_sampler-Made peers c prefix s = after_start-Made peers _ _ (
      started-dynsampler texts c.kind _ _ nothing_recorded
        (get_key_fields (list_read c.kind c.fields.field_list)))

  Made-of :
      (peers : Option ℕ) (c : KeyedConfig) (prefix : String) (s s' : SamplerFactory D)
      (x : DynamicSampler ℕ)
      → create_sampler D dyn texts show_list peers c prefix s ≡ some (s', x)
      → Made peers (acquire D dyn s (dynsampler_key texts show_list prefix c) c) (s', x)
  Made-of peers c prefix s s' x e =
      subst (Holds (Made peers (acquire D dyn s (dynsampler_key texts show_list prefix c) c))) e
        (create_sampler-Made peers c prefix s)

  next_address-update :
      (peers : Option ℕ) (s : SamplerFactory D)
      → (update_peer_counts D dyn peers s).next_address ≡ s.next_address
  unfolding update_peer_counts
  next_address-update peers s = refl

  -- No change of the configuration, and no sampler of another kind under the same key.
  abbrev pub Undisturbed : String → Kind → Event → Type 0
  Undisturbed key kind (create prefix c peers) =
      dynsampler_key texts show_list prefix c ≡ key → c.kind ≡ kind
  Undisturbed key kind (peers_changed peers) = Unit
  Undisturbed key kind config_changed = ⊥

  module _ (key : String) (kind : Kind) (a : ℕ) where
    abbrev Stored : SamplerFactory D → Type 0
    Stored s = Serves D dyn key s kind a

    Stored-update :
        (peers : Option ℕ) (s : SamplerFactory D)
        → Stored s
        → Stored (update_peer_counts D dyn peers s)
    Stored-update peers s (j, h, t) = (j, stamp_at-update_peer_counts D dyn key peers s ∙ h, t)

    first_of-Stored :
        (peers : Option ℕ) (r : SamplerFactory D × ℕ)
        (o : Option (SamplerFactory D × DynamicSampler ℕ))
        → Stored r.0
        → Holds (Made peers r) o
        → Holds Stored (first_of D dyn texts show_list o)
    first_of-Stored peers r none h m = tt
    first_of-Stored peers r (some (s', x)) h m = subst Stored (sym m.1) (Stored-update peers r.0 h)

    step-Stored :
        (e : Event) (s : SamplerFactory D)
        → Undisturbed key kind e
        → Stored s
        → Holds Stored (step D dyn texts show_list e s)
    step-Stored (create prefix c peers) s u h =
        first_of-Stored peers (acquire D dyn s (dynsampler_key texts show_list prefix c) c) _
          (acquire-keeps D dyn key _ c s kind a u h) (create_sampler-Made peers c prefix s)
    step-Stored (peers_changed peers) s u h = Stored-update peers s h
    step-Stored config_changed s u h = absurd u

    after-Stored :
        (es : List Event) (o : Option (SamplerFactory D))
        → All (Undisturbed key kind) es
        → Holds Stored o
        → Holds Stored (after D dyn texts show_list es o)
    after-Stored [] o u h = h
    after-Stored (e ∷ es) none u h = after-Stored es none u.1 tt
    after-Stored (e ∷ es) (some s) u h =
        after-Stored es (step D dyn texts show_list e s) u.1 (step-Stored e s u.0 h)

  -- Two samplers of the same kind and with the same key are given the same instance, whatever happens
  -- to the factory between their creations but a change of the configuration and the creation of a
  -- sampler of another kind under that key; if nothing panics.
  pub create_sampler-shares :
      (peers peers' : Option ℕ) (c c' : KeyedConfig) (prefix prefix' : String)
      (s s1 s2 s3 : SamplerFactory D) (x y : DynamicSampler ℕ) (es : List Event)
      → create_sampler D dyn texts show_list peers c prefix s ≡ some (s1, x)
      → All (Undisturbed (dynsampler_key texts show_list prefix c) c.kind) es
      → after D dyn texts show_list es (some s1) ≡ some s2
      → dynsampler_key texts show_list prefix' c' ≡ dynsampler_key texts show_list prefix c
      → c'.kind ≡ c.kind
      → create_sampler D dyn texts show_list peers' c' prefix' s2 ≡ some (s3, y)
      → y.dynsampler ≡ x.dynsampler
  create_sampler-shares peers peers' c c' prefix prefix' s s1 s2 s3 x y es e u r same kinds e' =
      let key = dynsampler_key texts show_list prefix c in
      let m = Made-of peers c prefix s s1 x e in
      let at_first =
        subst (Stored key c.kind (acquire D dyn s key c).1) (sym m.1)
          (Stored-update key c.kind _ peers _ (acquire-Serves D dyn key c s)) in
      let later =
        subst (Holds (Stored key c.kind (acquire D dyn s key c).1)) r
          (after-Stored key c.kind _ es (some s1) u at_first) in
      (Made-of peers' c' prefix' s2 s3 y e').0
      ∙ acquire-found D dyn _ c' s2 _ (
          subst (λ k. Serves D dyn k s2 c'.kind (acquire D dyn s key c).1) (sym same)
            (subst (λ q. Serves D dyn key s2 q (acquire D dyn s key c).1) (sym kinds) later))
      ∙ sym m.0

  -- If the list of fields of a configuration is not sorted, so that its key changes as the first sampler
  -- starts, and neither key is stored yet, then a second sampler from the same configuration gets an
  -- instance of its own; if nothing panics.
  pub create_sampler-left_behind :
      (peers peers' : Option ℕ) (c : KeyedConfig) (prefix : String) (s s1 s2 : SamplerFactory D)
      (x y : DynamicSampler ℕ)
      → stamp_at D dyn (dynsampler_key texts show_list prefix c) s ≡ none
      → stamp_at D dyn (dynsampler_key texts show_list prefix (left_behind c)) s ≡ none
      → dynsampler_key texts show_list prefix (left_behind c)
        ≢ dynsampler_key texts show_list prefix c
      → create_sampler D dyn texts show_list peers c prefix s ≡ some (s1, x)
      → create_sampler D dyn texts show_list peers' (left_behind c) prefix s1 ≡ some (s2, y)
      → (x.dynsampler ≡ s.next_address) × (y.dynsampler ≡ s.next_address + 1)
  create_sampler-left_behind peers peers' c prefix s s1 s2 x y n n' ne e e' =
      let m = Made-of peers c prefix s s1 x e in
      let first = acquire-new D dyn (dynsampler_key texts show_list prefix c) c s n in
      let still =
        ap (stamp_at D dyn (dynsampler_key texts show_list prefix (left_behind c))) m.1
        ∙ stamp_at-update_peer_counts D dyn _ peers _
        ∙ acquire-other D dyn _ _ c s ne
        ∙ n' in
      (
        m.0 ∙ first.0,
        (Made-of peers' (left_behind c) prefix s1 s2 y e').0
            ∙ (acquire-new D dyn _ (left_behind c) s1 still).0
            ∙ ap (λ q. q.next_address) m.1
            ∙ next_address-update peers _
            ∙ first.1,
      )
