-- ===== src/Sample/Factory.antt =====
-- sample/sample.go: `SamplerFactory`, which gives the samplers by key the samplers of dynsampler-go that they
-- share. A shared sampler is an instance with an address; what is made of one, its goal and the texts
-- of a key are parameters. The samplers of the other kinds share nothing and are left out.
pub mod Scaled
pub mod Shared
pub mod Reuse
use refinery.Base.{
  ℕ, zero, suc, ◌+◌, ◌/◌, max, Bool, true, ◌&&◌, Option, none, some, String, String_discrete,
  str_less, List, [], ◌∷◌, ltb, ◌==◌, if◌then◌else◌,
}
use Prim.Native.String.{◌++◌ as joined}
use refinery.Base.Int.{ℤ, pos, negsuc}
use refinery.Base.Sort.{sort}
use refinery.GoMap.{get, set}
use refinery.Config.Samplers.{FieldsConfig}
use refinery.Sample.TraceKey.{Texts}
use refinery.Sample.Dynamic.{
  Kind, dynamic, ema_dynamic, ema_throughput, windowed_throughput, total_throughput, reason_of,
  Recorded, DynamicSampler, start,
}

-- What the factory reads of the configuration of a sampler by key.
pub record KeyedConfig : Type 0 where
  pub kind : Kind
  pub fields : FieldsConfig
  pub use_cluster_size : Bool
  pub use_trace_length : Bool

pub record Instance (D : Type 0) : Type 0 where
  pub kind : Kind
  pub address : ℕ
  pub state : D

-- `next_address` is that of the instance that is created next.
pub record SamplerFactory (D : Type 0) : Type 0 where
  pub peer_count : ℕ
  pub shared_dynsamplers : List (String × Instance D)
  pub goal_throughput_configs : List (String × ℤ)
  pub next_address : ℕ

-- What dynsampler-go is asked to do: to make a sampler, to set its goal if it can, to stop.
pub record Dynsamplers (D : Type 0) : Type 0 where
  pub create : KeyedConfig → D
  pub can_set_goal : Kind → Bool
  pub set_goal : D → ℤ → D

abbrev pub kind_number : Kind → ℕ
kind_number dynamic = 0
kind_number ema_dynamic = 1
kind_number ema_throughput = 2
kind_number windowed_throughput = 3
kind_number total_throughput = 4

-- The three kinds with a throughput for goal are those whose goal may be tracked.
abbrev pub has_throughput : Kind → Bool
has_throughput k = ltb 1 (kind_number k)

-- Whether a stored instance has the type that a sampler asks for: a `DynamicSampler` asks for any
-- `dynsampler.Sampler`, which all of them are, and each other kind for its own type.
unfoldable pub has_type : Kind → Kind → Bool
has_type stored dynamic = true
has_type stored wanted = kind_number stored == kind_number wanted

abbrev pub nothing_recorded : Recorded
nothing_recorded = record { num_kept = 0; num_dropped = 0; sample_rates = []; cardinalities = [] }

-- `max(cfg/s.peerCount, 1)`, where Go's division goes towards 0
unfoldable pub new_throughput : ℤ → ℕ → ℤ
new_throughput (pos c) n = pos (max (c / n) 1)
new_throughput (negsuc c) n = pos 1

-- `newTraceKey` leaves the list of the configuration sorted.
unfoldable pub left_behind : KeyedConfig → KeyedConfig
left_behind c = record c {
  fields = record { goal = c.fields.goal; field_list = sort str_less c.fields.field_list };
}

module _ (texts : Texts) (show_list : List String → String) where
  unfoldable pub dynsampler_key : String → KeyedConfig → String
  dynsampler_key prefix c = joined prefix (
      joined ":" (
        joined (reason_of c.kind) (
          joined ":"
            (joined (texts.show_int c.fields.goal) (joined ":" (show_list c.fields.field_list))))))

module _ (D : Type 0) (dyn : Dynsamplers D) where
  -- `Start`
  unfoldable pub new : SamplerFactory D
  new = record {
    peer_count = 1;
    shared_dynsamplers = [];
    goal_throughput_configs = [];
    next_address = 0;
  }

  -- the goal of one sampler by the size of the cluster, if it is tracked
  unfoldable pub scaled : Option ℤ → ℕ → Instance D → Instance D
  unfolding new_throughput
  scaled none n i = i
  scaled (some goal) n i =
      if dyn.can_set_goal i.kind
      then record i { state = dyn.set_goal i.state (new_throughput goal n) }
      else i

  unfoldable pub rescale :
      List (String × ℤ) → ℕ → List (String × Instance D) → List (String × Instance D)
  unfolding scaled
  rescale goals n [] = []
  rescale goals n ((k, i) ∷ m) = (k, scaled (get String_discrete k goals) n i) ∷ rescale goals n m

  -- the count of peers, where `none` is that there is no list of peers or that it failed
  unfoldable pub counted : Option ℕ → ℕ → ℕ
  counted none n = n
  counted (some zero) n = n
  counted (some (suc p)) n = suc p

  unfoldable pub update_peer_counts : Option ℕ → SamplerFactory D → SamplerFactory D
  unfolding rescale counted
  update_peer_counts peers s =
      let n = counted peers s.peer_count in
      record s {
        peer_count = n;
        shared_dynsamplers = rescale s.goal_throughput_configs n s.shared_dynsamplers;
      }

  unfoldable pub create_instance : SamplerFactory D → String → KeyedConfig → SamplerFactory D × ℕ
  create_instance s key c = (
    record s {
      shared_dynsamplers =
          set String_discrete key
            (record { kind = c.kind; address = s.next_address; state = dyn.create c })
            s.shared_dynsamplers;
      next_address = s.next_address + 1;
    },
    s.next_address,
  )

  -- `getSharedDynsampler`: what is stored is used if it has the type that is asked for.
  unfoldable pub use_stored :
      SamplerFactory D → String → KeyedConfig → Option (Instance D) → SamplerFactory D × ℕ
  unfolding create_instance has_type
  use_stored s key c none = create_instance s key c
  use_stored s key c (some i) =
      if has_type i.kind c.kind then (s, i.address) else create_instance s key c

  unfoldable pub get_shared_dynsampler :
      SamplerFactory D → String → KeyedConfig → SamplerFactory D × ℕ
  unfolding use_stored
  get_shared_dynsampler s key c = use_stored s key c (get String_discrete key s.shared_dynsamplers)

  unfoldable pub track_goal : String → KeyedConfig → SamplerFactory D → SamplerFactory D
  track_goal key c s =
      if has_throughput c.kind && c.use_cluster_size
      then record s {
        goal_throughput_configs = set String_discrete key c.fields.goal s.goal_throughput_configs;
      }
      else s

  -- the factory before the new sampler starts, and the address that the sampler is given
  unfoldable pub acquire : SamplerFactory D → String → KeyedConfig → SamplerFactory D × ℕ
  unfolding get_shared_dynsampler track_goal
  acquire s key c = let r = get_shared_dynsampler s key c in (track_goal key c r.0, r.1)

  unfoldable pub after_start :
      SamplerFactory D
      → Option ℕ
      → Option (DynamicSampler ℕ)
      → Option (SamplerFactory D × DynamicSampler ℕ)
  unfolding update_peer_counts
  after_start s peers none = none
  after_start s peers (some sampler) = some (update_peer_counts peers s, sampler)

  -- `createSampler` for a sampler by key; `none` is a panic as it starts.
  unfoldable pub create_sampler :
      Texts
      → (List String → String)
      → Option ℕ
      → KeyedConfig
      → String
      → SamplerFactory D
      → Option (SamplerFactory D × DynamicSampler ℕ)
  unfolding acquire after_start dynsampler_key
  create_sampler texts show_list peers c prefix s =
      let r = acquire s (dynsampler_key texts show_list prefix c) c in
      after_start r.0 peers
        (start ℕ texts c.kind c.fields.field_list c.use_trace_length r.1 nothing_recorded)

  -- `ClearDynsamplers`: what is stopped is forgotten.
  unfoldable pub clear_dynsamplers : SamplerFactory D → SamplerFactory D
  clear_dynsamplers s = record s { shared_dynsamplers = []; goal_throughput_configs = [] }
