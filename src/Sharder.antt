-- ===== src/Sharder.antt =====
-- sharder/deterministic.go, sharder/single.go: which node a trace belongs to. A shard is its
-- address. `wyhash` is the hash of a text with a seed, a 64-bit number. `peers` arguments are what
-- `Peers.GetPeers` returned.
pub mod Agree
pub mod Choice
use refinery.Base.{
  ℕ, zero, suc, ◌+◌, ◌*◌, ◌/◌, ◌^◌, Bool, true, false, ◌&&◌, Option, none, some, String,
  String_discrete, List, [], ◌∷◌, ◌++◌, length, get_elem?, ltb, ◌==◌, if◌then◌else◌, ite, str_less,
}
use refinery.Base.Sort.{sort}

pub record HashShard : Type 0 where
  pub uhash : ℕ
  pub shard_index : ℕ

abbrev pub peer_seed : ℕ
peer_seed = 6789531204236

abbrev pub partition_count : ℕ
partition_count = 50

pub record DeterministicSharder : Type 0 where
  pub my_shard : String
  pub peers : List String
  pub hashes : List HashShard

-- `SortableShardList.Equals`
unfoldable pub shards_equal : List String → List String → Bool
shards_equal [] [] = true
shards_equal (x ∷ xs) (y ∷ ys) = ite (String_discrete x y) (shards_equal xs ys) false
shards_equal _ _ = false

-- the order of `sort.Slice(hashes, ...)`
abbrev pub hash_less : HashShard → HashShard → Bool
hash_less a b = ltb a.uhash b.uhash

module _ (wyhash : String → ℕ → ℕ) where
  -- `GetHashesFor`
  unfoldable pub get_hashes_for : String → ℕ → ℕ → ℕ → List HashShard
  get_hashes_for addr index zero seed = []
  get_hashes_for addr index (suc n) seed =
      record { uhash = wyhash addr seed; shard_index = index }
      ∷ get_hashes_for addr index n (wyhash "anything" seed)

  -- the loop of `loadPeerList` that builds the hash list, from the peer at `index` on
  unfoldable pub all_hashes : ℕ → ℕ → List String → List HashShard
  unfolding get_hashes_for
  all_hashes per_peer index [] = []
  all_hashes per_peer index (p ∷ peers) =
      get_hashes_for p index per_peer peer_seed ++ all_hashes per_peer (suc index) peers

  unfoldable pub sorted_hashes : List String → List HashShard
  unfolding all_hashes
  sorted_hashes peers = sort hash_less (all_hashes (partition_count / length peers + 1) 0 peers)

  -- `loadPeerList`; the Boolean is whether there was no error. An error of `GetPeers` is `none`.
  unfoldable pub load_peer_list :
      DeterministicSharder → Option (List String) → DeterministicSharder × Bool
  unfolding shards_equal sorted_hashes
  load_peer_list d none = (d, false)
  load_peer_list d (some []) = (d, false)
  load_peer_list d (some (p ∷ ps)) =
      let new_peers = sort str_less (p ∷ ps) in
      if shards_equal d.peers new_peers
      then (d, true)
      else (record d { peers = new_peers; hashes = sorted_hashes new_peers }, true)

  -- the loop of `WhichShard`, with the best partition and its hash so far
  unfoldable pub best_index : String → ℕ → ℕ → List HashShard → ℕ
  best_index trace_id best_ix max_hash [] = best_ix
  best_index trace_id best_ix max_hash (h ∷ hs) =
      let n = wyhash trace_id h.uhash in
      if ltb max_hash n
      then best_index trace_id h.shard_index n hs
      else best_index trace_id best_ix max_hash hs

  -- `WhichShard`; `none` is the panic of an index out of range
  unfoldable pub which_shard : DeterministicSharder → String → Option String
  unfolding best_index
  which_shard d trace_id = get_elem? d.peers (best_index trace_id 0 0 d.hashes)

-- `MyShard`
unfoldable pub my_shard_of : DeterministicSharder → String
my_shard_of d = d.my_shard

-- the loop of `Start` that looks for the node itself among the peers
unfoldable pub find_self : String → List String → Option String
find_self self [] = none
find_self self (p ∷ ps) = ite (String_discrete self p) (some p) (find_self self ps)
