-- ===== src/Iproto/Peers/Merge.antt =====
-- pkg/iproto/iproto/cluster.go, `reset`: the sorted source and the sorted destination in one slice are
-- merged in place. Indexes i and j, which can become -1, are kept increased by 1, as `i_end` and
-- `j_end`.
pub mod Ends
pub mod Counts
pub mod Keeps
use activerecord.Prelude.{
  ℕ, zero, suc, ◌+◌, ◌-◌, List, [], ◌∷◌, ◌++◌, length, get_elem?, set, take, drop, map, foldl,
  Option, none, some, Bool, true, false, ◌==◌, ltb, ◌&&◌, if◌then◌else◌,
}
use activerecord.Iproto.Peers.{
  Pool, Order, before, equal, behind, cmp_remote_addr, is_equal, Address, Peers, delete_address,
  put_address,
}

-- `sort.SliceStable`
unfoldable pub is_before : Order → Bool
is_before before = true
is_before equal = false
is_before behind = false

unfoldable pub place : Pool → List Pool → List Pool
unfolding is_before
place p [] = p ∷ []
place p (q ∷ qs) =
    let rest = place p qs in if is_before (cmp_remote_addr q p) then q ∷ rest else p ∷ q ∷ qs

unfoldable pub sort_peers : List Pool → List Pool
sort_peers [] = []
sort_peers (p ∷ ps) = place p (sort_peers ps)

-- `ps[a], ps[b] = ps[b], ps[a]`; all indexes are in range.
unfoldable pub swap : List Pool → ℕ → ℕ → List Pool
swap ps a b = elim (get_elem? ps a) [
  | none ↦ ps
  | some p ↦ elim (get_elem? ps b) [ none ↦ ps | some q ↦ set (set ps a q) b p ]
]

-- `tmp := ps[i]; copy(ps[dp+1:i+1], ps[dp:i]); ps[dp] = tmp`
unfoldable pub move_left : List Pool → ℕ → ℕ → List Pool
move_left ps dp i = elim (get_elem? ps i) [
  | none ↦ ps
  | some p ↦ take dp ps ++ (p ∷ (take (i - dp) (drop dp ps) ++ drop (suc i) ps))
]

-- The local variables.
pub record Merge : Type 0 where
  pub ps : List Pool
  pub mid : ℕ
  pub dp : ℕ
  pub rm : ℕ
  pub cr : ℕ
  pub i_end : ℕ
  pub j_end : ℕ

unfoldable pub same_at : List Pool → ℕ → ℕ → Bool
same_at ps a b = elim (get_elem? ps a) [
  | none ↦ false
  | some p ↦ elim (get_elem? ps b) [ none ↦ false | some q ↦ is_equal (cmp_remote_addr p q) ]
]

-- `remove()` and `j--`
unfoldable pub remove_one : Merge → Merge
remove_one s = record s {
  rm = s.rm - 1;
  ps = swap s.ps (s.rm - 1) (s.j_end - 1);
  j_end = s.j_end - 1;
}

-- `if dedup() { continue }`, or else `create()` and `i--`.
unfoldable pub is_dup : Merge → Bool
is_dup s = ltb s.i_end s.mid && same_at s.ps s.i_end (s.i_end - 1)

unfoldable pub dedup_or_create : Merge → Merge
dedup_or_create s =
    if is_dup s
    then record s { ps = move_left s.ps s.dp (s.i_end - 1); dp = s.dp + 1 }
    else record s { cr = s.cr - 1; ps = swap s.ps (s.cr - 1) (s.i_end - 1); i_end = s.i_end - 1 }

unfoldable pub keep_one : Merge → Merge
keep_one s = record s { i_end = s.i_end - 1; j_end = s.j_end - 1 }

unfoldable pub by_order : Order → Merge → Merge
by_order before s = remove_one s
by_order equal s = keep_one s
by_order behind s = dedup_or_create s

unfoldable pub compare_at : Merge → Order
compare_at s = elim (get_elem? s.ps (s.i_end - 1)) [
  | none ↦ equal
  | some p ↦ elim (get_elem? s.ps (s.j_end - 1)) [ none ↦ equal | some q ↦ cmp_remote_addr p q ]
]

-- A turn of the first loop that runs: the loops run one after the other, and none of them can run
-- again when a later one has begun. `none` is the end of the last loop.
unfoldable pub turn : Merge → Option Merge
turn s =
    if ltb s.dp s.i_end && ltb s.mid s.j_end
    then some (by_order (compare_at s) s)
    else if ltb s.mid s.j_end
    then some (remove_one s)
    else if ltb s.dp s.i_end
    then some (dedup_or_create s)
    else none

-- `none` when the fuel is used up.
unfoldable pub run : ℕ → Merge → Option Merge
run zero s = elim (turn s) [ none ↦ some s | some t ↦ none ]
run (suc fuel) s = elim (turn s) [ none ↦ some s | some t ↦ run fuel t ]

unfoldable pub start : List Pool → List Pool → Merge
start dst src = record {
  ps = sort_peers src ++ sort_peers dst;
  mid = length src;
  dp = 0;
  rm = length dst + length src;
  cr = length src;
  i_end = length src;
  j_end = length dst + length src;
}

-- `ps[a:b]`
unfoldable pub slice : ℕ → ℕ → List Pool → List Pool
slice a b ps = drop a (take b ps)

pub record Merged : Type 0 where
  pub result : List Pool
  pub untouched : List Pool
  pub inserted : List Pool
  pub removed : List Pool
  pub ignored : List Pool

unfoldable pub finish : Merge → Merged
finish s = record {
  result = slice s.cr s.rm s.ps;
  untouched = slice s.mid s.rm s.ps;
  inserted = slice s.cr s.mid s.ps;
  removed = drop s.rm s.ps;
  ignored = take s.dp s.ps;
}

-- Each turn consumes one of the pools.
unfoldable pub merge : List Pool → List Pool → Option Merged
merge dst src = elim (run (length dst + length src) (start dst src)) [
  | none ↦ none
  | some s ↦ some (finish s)
]

unfoldable pub pools_of : List (Address × Pool) → List Pool
pools_of [] = []
pools_of ((a, p) ∷ m) = p ∷ pools_of m

unfoldable pub forget_all : List Pool → List (Address × Pool) → List (Address × Pool)
forget_all [] m = m
forget_all (p ∷ ps) m = forget_all ps (delete_address p.remote_addr m)

unfoldable pub put_all : List Pool → List (Address × Pool) → List (Address × Pool)
put_all [] m = m
put_all (p ∷ ps) m = put_all ps (put_address p.remote_addr p m)

unfoldable pub store : Peers → Bool → Merged → Peers
store c true m = record c {
  disabled = put_all m.inserted (forget_all m.removed c.disabled);
  peers = m.untouched;
  announced = m.untouched ∷ c.announced;
}
store c false m = record c {
  disabled = forget_all m.removed c.disabled;
  peers = m.result;
  announced = m.result ∷ c.announced;
}

unfoldable pub no_merge : Merged
no_merge = record { result = []; untouched = []; inserted = []; removed = []; ignored = [] }

-- Cluster.reset, whose callers pass `disable_inserted` as false (Reset) or true
-- (ResetAndDisableInserted). Go returns `inserted`, `removed` and `ignored` of the merge.
unfoldable pub reset_peers : Peers → List Pool → Bool → Option (Peers × Merged)
unfolding pools_of store no_merge
reset_peers c ps disable_inserted =
    if c.terminated then some (c, no_merge) else elim (merge (c.peers ++ pools_of c.disabled) ps) [
      | none ↦ none
      | some m ↦ some (store c disable_inserted m, m)
    ]
