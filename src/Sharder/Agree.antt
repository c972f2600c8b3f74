-- ===== src/Sharder/Agree.antt =====
-- sharder/deterministic.go: nodes that know the same peers agree on where each trace belongs.
use refinery.Base.{
  ℕ, ◌≡◌, refl, ◌∙◌, ap, true, false, some, String, String_discrete, List, [], ◌∷◌, Bool-cases,
  if_pos, if_neg, inl, inr, String-set, str_less, str_less-StrictTotal,
}
use mathlib.Core.List.{Perm}
use refinery.Base.Sort.{sort, sort-eq_of_perm}
use refinery.Sharder.{
  DeterministicSharder, shards_equal, sorted_hashes, load_peer_list, which_shard,
}

shards_equal-elim : (xs ys : List String) → shards_equal xs ys ≡ true → xs ≡ ys
unfolding shards_equal
shards_equal-elim [] [] e = refl
shards_equal-elim [] (y ∷ ys) e = cc
shards_equal-elim (x ∷ xs) [] e = cc
shards_equal-elim (x ∷ xs) (y ∷ ys) e = elim (String_discrete x y) [
  | yes p ↦
      let rest : shards_equal xs ys ≡ true = rw (if_pos (String_discrete x y) p) at e in
      rw (p, shards_equal-elim xs ys rest) refl
  | no p ↦ let never : false ≡ true = rw (if_neg (String_discrete x y) p) at e in cc
]

module _ (wyhash : String → ℕ → ℕ) where
  -- The partitions are those of the peers.
  abbrev pub IsValid : DeterministicSharder → Type 0
  IsValid d = d.hashes ≡ sorted_hashes wyhash d.peers

  pub load_peer_list-eq :
      (d : DeterministicSharder) (p : String) (ps : List String)
      → IsValid d
      → ((load_peer_list wyhash d (some (p ∷ ps))).0.peers ≡ sort str_less (p ∷ ps))
        × ((load_peer_list wyhash d (some (p ∷ ps))).0.hashes
            ≡ sorted_hashes wyhash (sort str_less (p ∷ ps)))
  unfolding load_peer_list
  load_peer_list-eq d p ps v = elim (Bool-cases (shards_equal d.peers (sort str_less (p ∷ ps)))) [
    | inl e ↦
        let same = shards_equal-elim d.peers (sort str_less (p ∷ ps)) e in
        rw e (same, v ∙ ap (sorted_hashes wyhash) same)
    | inr e ↦ rw e (refl, refl)
  ]

  -- Two nodes, whose partitions were those of their peers before, that loaded the same peers, each
  -- in an order of its own and after a history of its own, send every trace to the same peer.
  pub which_shard-load_peer_list :
      (d d' : DeterministicSharder) (p p' : String) (ps ps' : List String) (id : String)
      → IsValid d
      → IsValid d'
      → Perm (p ∷ ps) (p' ∷ ps')
      → which_shard wyhash (load_peer_list wyhash d (some (p ∷ ps))).0 id
        ≡ which_shard wyhash (load_peer_list wyhash d' (some (p' ∷ ps'))).0 id
  unfolding which_shard
  which_shard-load_peer_list d d' p p' ps ps' id v v' same =
      let a = load_peer_list-eq d p ps v in
      let b = load_peer_list-eq d' p' ps' v' in
      let s = sort-eq_of_perm str_less str_less-StrictTotal String-set (p ∷ ps) (p' ∷ ps') same in
      rw (a.0, a.1, b.0, b.1, s) refl
