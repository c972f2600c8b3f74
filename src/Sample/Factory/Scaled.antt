-- ===== src/Sample/Factory/Scaled.antt =====
-- sample/sample.go: the goals of the shared samplers, by the size of the cluster.
use refinery.Base.{
  ℕ, ◌≡◌, refl, sym, ap, ◌∙◌, subst, Bool, true, false, Option, none, some, String, String_discrete,
  List, [], ◌∷◌, ite, if◌then◌else◌,
}
use refinery.Base.Int.{ℤ}
use refinery.GoMap.{get, get_or}
use refinery.Sample.TraceKey.{Texts}
use refinery.Sample.Dynamic.{DynamicSampler}
use refinery.Sample.Factory.{
  KeyedConfig, Instance, SamplerFactory, Dynsamplers, new, new_throughput, scaled, rescale,
  update_peer_counts, after_start, create_sampler, clear_dynsamplers, counted,
}

abbrev pub on_some {ℓ κ} : {A : Type ℓ} {B : Type κ} → (A → B) → Option A → Option B
on_some f none = none
on_some f (some a) = some (f a)

-- What may happen to a factory that was started.
pub data Event : Type 0 where
  create : String → KeyedConfig → Option ℕ → Event
  peers_changed : Option ℕ → Event
  config_changed : Event

abbrev pub Holds {ℓ κ} : {A : Type ℓ} → (A → Type κ) → Option A → Type κ
Holds P none = Unit
Holds P (some a) = P a

ite-on_some :
    {A : Type 0} {j k : String} (d : Dec (j ≡ k)) (f : String → A → A) (a : A) (o q : Option A)
    → q ≡ on_some (f k) o
    → ite d (some (f j a)) q ≡ on_some (f k) (ite d (some a) o)
ite-on_some (yes p) f a o q h = ap (λ x. some (f x a)) p
ite-on_some (no p) f a o q h = h

module _ (D : Type 0) (dyn : Dynsamplers D) where
  kind_if : (b : Bool) (x i : Instance D) → x.kind ≡ i.kind → (if b then x else i).kind ≡ i.kind
  kind_if true x i e = e
  kind_if false x i e = refl

  scaled-kind : (o : Option ℤ) (n : ℕ) (i : Instance D) → (scaled D dyn o n i).kind ≡ i.kind
  unfolding scaled
  scaled-kind none n i = refl
  scaled-kind (some g) n i = kind_if (dyn.can_set_goal i.kind) _ i refl

  pub get-rescale :
      (goals : List (String × ℤ)) (n : ℕ) (k : String) (m : List (String × Instance D))
      → get String_discrete k (rescale D dyn goals n m)
        ≡ on_some (scaled D dyn (get String_discrete k goals) n) (get String_discrete k m)
  unfolding get rescale
  get-rescale goals n k [] = refl
  get-rescale goals n k ((j, i) ∷ m) =
      ite-on_some (String_discrete j k) (λ q. scaled D dyn (get String_discrete q goals) n) i _ _
        (get-rescale goals n k m)

  module _ (texts : Texts) (show_list : List String → String) where
    abbrev pub first_of : Option (SamplerFactory D × DynamicSampler ℕ) → Option (SamplerFactory D)
    first_of none = none
    first_of (some (s, _)) = some s

    abbrev pub step : Event → SamplerFactory D → Option (SamplerFactory D)
    step (create prefix c peers) s =
        first_of (create_sampler D dyn texts show_list peers c prefix s)
    step (peers_changed peers) s = some (update_peer_counts D dyn peers s)
    step config_changed s = some (clear_dynsamplers D dyn s)

    abbrev pub step_on : Event → Option (SamplerFactory D) → Option (SamplerFactory D)
    step_on e none = none
    step_on e (some s) = step e s

    -- a panic ends it all
    abbrev pub after : List Event → Option (SamplerFactory D) → Option (SamplerFactory D)
    after [] o = o
    after (e ∷ es) o = after es (step_on e o)

    module _ (goal : D → ℤ) where
      -- Each shared sampler whose goal is tracked and can be set has that goal, divided among the peers.
      abbrev pub IsScaled : SamplerFactory D → Type 0
      IsScaled s =
          (k : String) (i : Instance D) (g : ℤ)
          → get String_discrete k s.shared_dynsamplers ≡ some i
          → get String_discrete k s.goal_throughput_configs ≡ some g
          → dyn.can_set_goal i.kind ≡ true
          → goal i.state ≡ new_throughput g s.peer_count

      goal_if :
          (b : Bool) (x i : Instance D) (t : ℤ)
          → b ≡ true
          → goal x.state ≡ t
          → goal (if b then x else i).state ≡ t
      goal_if true x i t e h = h
      goal_if false x i t e h = cc

      scaled-goal :
          ((d : D) (z : ℤ) → goal (dyn.set_goal d z) ≡ z)
          → (g : ℤ) (n : ℕ) (i : Instance D)
          → dyn.can_set_goal (scaled D dyn (some g) n i).kind ≡ true
          → goal (scaled D dyn (some g) n i).state ≡ new_throughput g n
      unfolding scaled
      scaled-goal law g n i h =
          goal_if (dyn.can_set_goal i.kind) _ i (new_throughput g n)
            (ap dyn.can_set_goal (sym (scaled-kind (some g) n i)) ∙ h) (law i.state _)

      scaled-goal_on_some :
          ((d : D) (z : ℤ) → goal (dyn.set_goal d z) ≡ z)
          → (g : ℤ) (n : ℕ) (o : Option (Instance D)) (i : Instance D)
          → on_some (scaled D dyn (some g) n) o ≡ some i
          → dyn.can_set_goal i.kind ≡ true
          → goal i.state ≡ new_throughput g n
      scaled-goal_on_some law g n none i e h = cc
      scaled-goal_on_some law g n (some j) i e h =
          subst (λ q. dyn.can_set_goal q.kind ≡ true → goal q.state ≡ new_throughput g n)
            (ap (λ o. get_or o j) e) (scaled-goal law g n j) h

      update_peer_counts-IsScaled :
          ((d : D) (z : ℤ) → goal (dyn.set_goal d z) ≡ z)
          → (peers : Option ℕ) (s : SamplerFactory D) → IsScaled (update_peer_counts D dyn peers s)
      unfolding update_peer_counts
      update_peer_counts-IsScaled law peers s k i g e f h =
          scaled-goal_on_some law g (counted D dyn peers s.peer_count)
            (get String_discrete k s.shared_dynsamplers) i
            (ap
                (λ o.
                  on_some (scaled D dyn o (counted D dyn peers s.peer_count))
                    (get String_discrete k s.shared_dynsamplers))
                (sym f)
              ∙ sym (get-rescale s.goal_throughput_configs _ k s.shared_dynsamplers)
              ∙ e)
            h

      after_start-IsScaled :
          ((d : D) (z : ℤ) → goal (dyn.set_goal d z) ≡ z)
          → (s : SamplerFactory D) (peers : Option ℕ) (o : Option (DynamicSampler ℕ))
          → Holds IsScaled (first_of (after_start D dyn s peers o))
      unfolding after_start
      after_start-IsScaled law s peers none = tt
      after_start-IsScaled law s peers (some x) = update_peer_counts-IsScaled law peers s

      nothing_shared :
          (n m : ℕ) (goals : List (String × ℤ))
          → IsScaled (record {
            peer_count = n;
            shared_dynsamplers = [];
            goal_throughput_configs = goals;
            next_address = m;
          })
      unfolding get
      nothing_shared n m goals k i g e f h = cc

      step-IsScaled :
          ((d : D) (z : ℤ) → goal (dyn.set_goal d z) ≡ z)
          → (e : Event) (s : SamplerFactory D) → IsScaled s
          → Holds IsScaled (step e s)
      unfolding create_sampler clear_dynsamplers
      step-IsScaled law (create prefix c peers) s h = after_start-IsScaled law _ peers _
      step-IsScaled law (peers_changed peers) s h = update_peer_counts-IsScaled law peers s
      step-IsScaled law config_changed s h = nothing_shared s.peer_count s.next_address []

      after-IsScaled :
          ((d : D) (z : ℤ) → goal (dyn.set_goal d z) ≡ z)
          → (es : List Event) (o : Option (SamplerFactory D)) → Holds IsScaled o
          → Holds IsScaled (after es o)
      after-IsScaled law [] o h = h
      after-IsScaled law (e ∷ es) none h = after-IsScaled law es none tt
      after-IsScaled law (e ∷ es) (some s) h =
          after-IsScaled law es (step e s) (step-IsScaled law e s h)

      new-IsScaled : IsScaled (new D dyn)
      unfolding new
      new-IsScaled = nothing_shared 1 0 []

      -- If a sampler whose goal was set has that goal, then whatever happens to a factory that was started,
      -- each shared sampler whose goal is tracked and can be set has the configured goal divided by the
      -- count of peers, or 1 if that is less; unless a sampler panicked as it started.
      pub after-new-IsScaled :
          ((d : D) (z : ℤ) → goal (dyn.set_goal d z) ≡ z)
          → (es : List Event) → Holds IsScaled (after es (some (new D dyn)))
      after-new-IsScaled law es = after-IsScaled law es (some (new D dyn)) new-IsScaled
