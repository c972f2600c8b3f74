-- ===== src/Tests/Cluster.antt =====
-- The sharder and the health system, at concrete inputs.
use refinery.Base.{
  ℕ, ◌+◌, ◌*◌, ◌≡◌, ◌≢◌, refl, subst, true, false, some, String, [], ◌∷◌, arith, str_less,
}
use mathlib.Core.List.Perm
use refinery.Sharder.{DeterministicSharder, load_peer_list, which_shard, sorted_hashes, all_hashes}
use refinery.Base.Sort.{sort}
use refinery.Sharder.Agree.{IsValid, which_shard-load_peer_list}
use refinery.Health.{Health, start, register, unregister, ready, is_ready, is_alive}
use refinery.Health.Life.{run, registered, reported, ticked, is_ready-unregister}
use refinery.Health.Alive.{ticks, is_alive-ticks}

abbrev seeded : String → ℕ → ℕ
seeded s n = 3 * n + 1

abbrev fresh_node : DeterministicSharder
fresh_node = record { my_shard = "a"; peers = []; hashes = [] }

fresh_node-IsValid : IsValid seeded fresh_node
unfolding sorted_hashes all_hashes sort
fresh_node-IsValid = refl

which_shard-load_peer_list_example :
    which_shard seeded (load_peer_list seeded fresh_node (some ("a" ∷ "b" ∷ []))).0 "t"
    ≡ which_shard seeded (load_peer_list seeded fresh_node (some ("b" ∷ "a" ∷ []))).0 "t"
which_shard-load_peer_list_example =
    which_shard-load_peer_list seeded fresh_node fresh_node "a" "b" ("b" ∷ []) ("a" ∷ []) "t"
      fresh_node-IsValid fresh_node-IsValid (Perm.swap "b" "a" [])

b_ne_a : ◌≢◌ {A = String} "b" "a"
unfolding str_less
b_ne_a e = let h : false ≡ true = subst (λ s. str_less "a" s ≡ true) e refl in cc

is_ready-unregister_example :
    is_ready (
      run
        (ticked ∷ registered "a" 5 ∷ reported "b" true ∷ reported "a" true ∷ [])
        (unregister start "b"))
    ≡ false
is_ready-unregister_example =
    is_ready-unregister start "b"
      (ticked ∷ registered "a" 5 ∷ reported "b" true ∷ reported "a" true ∷ []) (b_ne_a, tt)

is_alive-ticks_example :
    (is_alive (ticks 2 (ready (register start "a" 600000000) "a" true))).1 ≡ false
is_alive-ticks_example = is_alive-ticks start "a" true 600000000 2 (omega arith)

abbrev healthy : Health
healthy = record {
  timeouts = ("a", 5) ∷ [];
  time_left = ("a", some 5) ∷ [];
  readies = ("a", true) ∷ [];
  alives = ("a", true) ∷ [];
}
