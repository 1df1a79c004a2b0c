-- ===== src/Tests/Peers.antt =====
-- Clusters of iproto pools on concrete pools.
use activerecord.Prelude.{
  Bool, ◌==◌, ◌≤◌, ℕ, ◌+◌, length, List, [], ◌∷◌, Option, none, some, true, false, ◌≡◌, refl, map,
}
use activerecord.Go.Strings.{codes}
use activerecord.Iproto.Peers.{Pool, Peers, new_peers, insert, disable}
use activerecord.Iproto.Peers.Distinct.{IsValid}
use activerecord.Iproto.Peers.Distinct.Steps.{
  Reachable-IsValid, at_start, after, inserting, disabling,
}
use activerecord.Iproto.Peers.Merge.Ends.{reset_peers_ends}
use activerecord.Iproto.Peers.Merge.Counts.{count}
use activerecord.Iproto.Peers.Merge.Keeps.{merge-count}
use activerecord.Iproto.Peers.Merge.{
  Merged, reset_peers, merge, run, turn, start, by_order, compare_at, sort_peers, place, keep_one,
  remove_one, dedup_or_create, is_dup, same_at, swap, finish, slice, forget_all,
}

abbrev pool : ℕ → ℕ → Pool
pool i c = record { pointer = i; remote_addr = record { network = codes "tcp"; addr = c ∷ [] } }

abbrev pointers : Option Merged → List ℕ × List ℕ × List ℕ
pointers none = ([], [], [])
pointers (some m) = (
  map (λ (p : Pool). p.pointer) m.result,
  map (λ (p : Pool). p.pointer) m.removed,
  map (λ (p : Pool). p.pointer) m.ignored,
)

merged :
    pointers (merge (pool 1 b'a' ∷ pool 2 b'b' ∷ []) (pool 3 b'b' ∷ pool 4 b'c' ∷ []))
    ≡ (4 ∷ 2 ∷ [], 1 ∷ [], [])
unfolding merge run turn start by_order compare_at sort_peers place keep_one remove_one
    dedup_or_create is_dup same_at swap finish slice
merged = refl

-- Both pools with the address that stands twice are inserted, and none is ignored: an element that was
-- moved stands between them when the second one is looked at.
twice :
    pointers (merge (pool 1 b'b' ∷ []) (pool 3 b'a' ∷ pool 4 b'a' ∷ pool 5 b'b' ∷ []))
    ≡ (3 ∷ 4 ∷ 1 ∷ [], [], [])
unfolding merge run turn start by_order compare_at sort_peers place keep_one remove_one
    dedup_or_create is_dup same_at swap finish slice
twice = refl

abbrev with_pool : Peers
with_pool = record { peers = pool 1 b'a' ∷ []; disabled = []; terminated = false; announced = [] }

-- A disabled pool that is given to Reset is a peer afterwards, and still disabled.
abbrev only_disabled : Peers
only_disabled = record with_pool {
  peers = [];
  disabled = ((pool 1 b'a').remote_addr, pool 1 b'a') ∷ [];
}

abbrev lists_of : Option (Peers × Merged) → List ℕ × ℕ
lists_of none = ([], 0)
lists_of (some (c, m)) = (map (λ (p : Pool). p.pointer) c.peers, length c.disabled)

enabled_by_reset : lists_of (reset_peers only_disabled (pool 2 b'a' ∷ []) false) ≡ (1 ∷ [], 1)
unfolding reset_peers merge run turn start by_order compare_at sort_peers place keep_one finish
    forget_all slice
enabled_by_reset = refl

Reachable-IsValid_example : IsValid ((disable ((insert new_peers (pool 1 b'a')).0) (pool 1 b'a')).0)
Reachable-IsValid_example =
    Reachable-IsValid (after (after at_start (inserting (pool 1 b'a'))) (disabling (pool 1 b'a')))

reset_peers_ends_example :
    (r : Peers × Merged) × (reset_peers with_pool (pool 2 b'b' ∷ []) true ≡ some r)
reset_peers_ends_example = reset_peers_ends with_pool (pool 2 b'b' ∷ []) true

abbrev old_peers : List Pool
old_peers = pool 1 b'a' ∷ pool 2 b'b' ∷ []

abbrev new_slice : List Pool
new_slice = pool 3 b'b' ∷ pool 4 b'c' ∷ []

abbrev merged_slices : Merged
merged_slices = record {
  result = pool 4 b'c' ∷ pool 2 b'b' ∷ [];
  untouched = pool 2 b'b' ∷ [];
  inserted = pool 4 b'c' ∷ [];
  removed = pool 1 b'a' ∷ [];
  ignored = [];
}

slices_merged : merge old_peers new_slice ≡ some merged_slices
unfolding merge run turn start by_order compare_at sort_peers place dedup_or_create is_dup swap
    keep_one remove_one finish slice
slices_merged = refl

abbrev is_second : Pool → Bool
is_second p = p.pointer == 2

merge-count_example :
    count is_second merged_slices.result
      + count is_second merged_slices.removed
      + count is_second merged_slices.ignored
    ≤ count is_second old_peers + count is_second new_slice
merge-count_example = merge-count is_second old_peers new_slice merged_slices slices_merged
