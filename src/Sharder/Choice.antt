-- ===== src/Sharder/Choice.antt =====
-- sharder/deterministic.go: the partitions, and the one that a trace falls into.
use refinery.Base.{
  ℕ, zero, suc, ◌+◌, ◌*◌, ◌/◌, ◌≤◌, ◌<◌, ◌≡◌, refl, ◌∙◌, ap, some, String, List, [], ◌∷◌, ◌++◌,
  length, get_elem?, ltb, arith, All, Bool-cases, inl, inr, str_less, length-append,
}
use refinery.Base.Sort.{sort, All-sort, length-sort}
use native.Mathlib.Nat.{lt-mul-div-succ}
use refinery.Sharder.{
  DeterministicSharder, HashShard, get_hashes_for, all_hashes, sorted_hashes, load_peer_list,
  best_index, which_shard, hash_less, partition_count, peer_seed,
}
use refinery.Sharder.Agree.{IsValid, load_peer_list-eq}

All-append {ℓ κ} :
    {A : Type ℓ} (P : A → Type κ) (xs ys : List A) → All P xs → All P ys → All P (xs ++ ys)
All-append P [] ys h k = k
All-append P (x ∷ xs) ys h k = (h.0, All-append P xs ys h.1 k)

module _ (wyhash : String → ℕ → ℕ) where
  -- The partition belongs to one of the first `n` peers.
  abbrev Below : ℕ → HashShard → Type 0
  Below n h = h.shard_index < n

  get_hashes_for-Below :
      (addr : String) (index n seed m : ℕ)
      → index < m
      → All (Below m) (get_hashes_for wyhash addr index n seed)
  unfolding get_hashes_for
  get_hashes_for-Below addr index zero seed m h = tt
  get_hashes_for-Below addr index (suc n) seed m h =
      (h, get_hashes_for-Below addr index n (wyhash "anything" seed) m h)

  all_hashes-Below :
      (per_peer index m : ℕ) (peers : List String)
      → index + length peers ≤ m
      → All (Below m) (all_hashes wyhash per_peer index peers)
  unfolding all_hashes
  all_hashes-Below per_peer index m [] h = tt
  all_hashes-Below per_peer index m (p ∷ peers) h =
      All-append (Below m) (get_hashes_for wyhash p index per_peer peer_seed)
        (all_hashes wyhash per_peer (suc index) peers)
        (get_hashes_for-Below p index per_peer peer_seed m (omega arith))
        (all_hashes-Below per_peer (suc index) m peers (omega arith))

  length-get_hashes_for :
      (addr : String) (index n seed : ℕ) → length (get_hashes_for wyhash addr index n seed) ≡ n
  unfolding get_hashes_for
  length-get_hashes_for addr index zero seed = refl
  length-get_hashes_for addr index (suc n) seed =
      ap suc (length-get_hashes_for addr index n (wyhash "anything" seed))

  length-all_hashes :
      (per_peer index : ℕ) (peers : List String)
      → length (all_hashes wyhash per_peer index peers) ≡ length peers * per_peer
  unfolding all_hashes
  length-all_hashes per_peer index [] = omega arith
  length-all_hashes per_peer index (p ∷ peers) =
      length-append (get_hashes_for wyhash p index per_peer peer_seed)
        (all_hashes wyhash per_peer (suc index) peers)
      ∙ rw
          (
            length-get_hashes_for p index per_peer peer_seed,
            length-all_hashes per_peer (suc index) peers,
          )
          (omega arith)

  -- The index found is that of the start, or of a partition.
  best_index-Below :
      (id : String) (ix top m : ℕ) (hs : List HashShard)
      → ix < m
      → All (Below m) hs
      → best_index wyhash id ix top hs < m
  unfolding best_index
  best_index-Below id ix top m [] l h = l
  best_index-Below id ix top m (x ∷ hs) l h = elim (Bool-cases (ltb top (wyhash id x.uhash))) [
    | inl e ↦ rw e (best_index-Below id x.shard_index (wyhash id x.uhash) m hs h.0 h.1)
    | inr e ↦ rw e (best_index-Below id ix top m hs l h.1)
  ]

  get_elem?-some :
      (xs : List String) (i : ℕ) → i < length xs → (s : String) × (get_elem? xs i ≡ some s)
  get_elem?-some [] i h = absurd (omega arith)
  get_elem?-some (x ∷ xs) zero h = (x, refl)
  get_elem?-some (x ∷ xs) (suc i) h = get_elem?-some xs i (omega arith)

  sorted_hashes-Below :
      (peers : List String) → All (Below (length peers)) (sorted_hashes wyhash peers)
  unfolding sorted_hashes
  sorted_hashes-Below peers =
      All-sort hash_less (Below (length peers))
        (all_hashes wyhash (partition_count / length peers + 1) 0 peers)
        (all_hashes-Below (partition_count / length peers + 1) 0 (length peers) peers (omega arith))

  -- Once peers are loaded, by a node whose partitions were those of its peers before, every trace
  -- belongs to one of them: the lookup does not run out of the list of peers.
  pub which_shard-total :
      (d : DeterministicSharder) (p : String) (ps : List String) (id : String)
      → IsValid wyhash d
      → (s : String) × (which_shard wyhash (load_peer_list wyhash d (some (p ∷ ps))).0 id ≡ some s)
  unfolding which_shard
  which_shard-total d p ps id v =
      let peers = sort str_less (p ∷ ps) in
      let (a, b) = load_peer_list-eq wyhash d p ps v in
      let some_peer : 0 < length peers = omega (arith, length-sort str_less (p ∷ ps)) in
      rw (a, b)
        (get_elem?-some peers (best_index wyhash id 0 0 (sorted_hashes wyhash peers)) (
          best_index-Below id 0 0 (length peers) (sorted_hashes wyhash peers) some_peer
            (sorted_hashes-Below peers)))

  -- There are at least as many partitions as `partitionCount`, and the same number for each peer.
  pub length-sorted_hashes :
      (p : String) (ps : List String)
      → (length (sorted_hashes wyhash (p ∷ ps))
          ≡ length (p ∷ ps) * (partition_count / length (p ∷ ps) + 1))
        × (partition_count ≤ length (sorted_hashes wyhash (p ∷ ps)))
  unfolding sorted_hashes
  length-sorted_hashes p ps =
      let n = length (p ∷ ps) in
      let per_peer = partition_count / n + 1 in
      let len : length (sorted_hashes wyhash (p ∷ ps)) ≡ n * per_peer =
        length-sort hash_less (all_hashes wyhash per_peer 0 (p ∷ ps))
        ∙ length-all_hashes per_peer 0 (p ∷ ps) in
      let enough = lt-mul-div-succ partition_count {b = n} (omega arith) in
      (len, rw len (omega (arith, enough)))
