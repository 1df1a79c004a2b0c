-- ===== src/Iproto/Peers.antt =====
-- pkg/iproto/iproto/cluster.go: the pools of a cluster and those that are disabled for a time; each
-- method is one step, since it holds the mutex. A pool is its pointer, and its remote address. Child
-- Merge is `reset`.
pub mod Merge
pub mod Distinct
pub mod Select
use activerecord.Prelude.{
  ℕ, zero, suc, ◌+◌, ◌%◌, ◌^◌, List, [], ◌∷◌, ◌++◌, length, get_elem?, take, drop, Option, none,
  some, Bool, true, false, ◌==◌, ltb, if◌then◌else◌,
}
use activerecord.Go.{Bytes}
use activerecord.Go.Strings.{same_bytes}

pub record Address : Type 0 where
  pub network : Bytes
  pub addr : Bytes

pub record Pool : Type 0 where
  pub pointer : ℕ
  pub remote_addr : Address

-- Address as the key of a map.
abbrev pub same_address : Address → Address → Bool
same_address a b = if same_bytes a.network b.network then same_bytes a.addr b.addr else false

-- cmpRemoteAddr: strings are compared byte by byte.
pub data Order : Type 0 where
  before equal behind : Order

abbrev pub cmp_bytes : Bytes → Bytes → Order
cmp_bytes [] [] = equal
cmp_bytes [] (b ∷ bs) = before
cmp_bytes (a ∷ as_bytes) [] = behind
cmp_bytes (a ∷ as_bytes) (b ∷ bs) =
    let rest = cmp_bytes as_bytes bs in if ltb a b then before else if ltb b a then behind else rest

abbrev pub then_by : Order → Order → Order
then_by before o = before
then_by equal o = o
then_by behind o = behind

abbrev pub cmp_remote_addr : Pool → Pool → Order
cmp_remote_addr p q =
    then_by (cmp_bytes p.remote_addr.network q.remote_addr.network)
      (cmp_bytes p.remote_addr.addr q.remote_addr.addr)

abbrev pub is_equal : Order → Bool
is_equal before = false
is_equal equal = true
is_equal behind = false

-- A callback gets the peers that are to come: `announced` has what was passed to the callbacks, the
-- last first.
pub record Peers : Type 0 where
  pub peers : List Pool
  pub disabled : List (Address × Pool)
  pub terminated : Bool
  pub announced : List (List Pool)

abbrev pub new_peers : Peers
new_peers = record { peers = []; disabled = []; terminated = false; announced = [] }

unfoldable pub shifted : Option ℕ → Option ℕ
shifted none = none
shifted (some i) = some (suc i)

unfoldable pub index_peer : List Pool → Pool → Option ℕ
unfolding shifted
index_peer [] p = none
index_peer (q ∷ ps) p =
    let rest = index_peer ps p in if is_equal (cmp_remote_addr q p) then some zero else shifted rest

unfoldable pub is_disabled : Address → List (Address × Pool) → Bool
is_disabled a [] = false
is_disabled a ((b, p) ∷ m) = let rest = is_disabled a m in if same_address b a then true else rest

-- `delete(m, a)`, and `m[a] = p`
unfoldable pub delete_address : Address → List (Address × Pool) → List (Address × Pool)
delete_address a [] = []
delete_address a ((b, p) ∷ m) =
    let rest = delete_address a m in if same_address b a then rest else (b, p) ∷ rest

unfoldable pub put_address : Address → Pool → List (Address × Pool) → List (Address × Pool)
put_address a p m = (a, p) ∷ delete_address a m

-- The unexported insert and remove.
unfoldable pub insert_peer : Peers → Pool → Peers × Bool
insert_peer c p = elim (index_peer c.peers p) [
  | some x ↦ (c, false)
  | none ↦ (record c { peers = c.peers ++ (p ∷ []) }, true)
]

unfoldable pub remove_peer : Peers → Pool → Peers × Bool
remove_peer c p = elim (index_peer c.peers p) [
  | none ↦ (c, false)
  | some x ↦ (record c { peers = take x c.peers ++ drop (suc x) c.peers }, true)
]

unfoldable pub insert : Peers → Pool → Peers × Bool
insert c p =
    if c.terminated
    then (c, false)
    else if is_disabled p.remote_addr c.disabled
    then (c, false)
    else insert_peer c p

unfoldable pub remove : Peers → Pool → Peers × Bool
remove c p =
    if c.terminated
    then (c, false)
    else if is_disabled p.remote_addr c.disabled
    then (record c { disabled = delete_address p.remote_addr c.disabled }, true)
    else remove_peer c p

unfoldable pub disabled_when : Pool → Peers × Bool → Peers × Bool
disabled_when p (c, false) = (c, false)
disabled_when p (c, true) = (record c { disabled = put_address p.remote_addr p c.disabled }, true)

unfoldable pub disable : Peers → Pool → Peers × Bool
unfolding disabled_when
disable c p = if c.terminated then (c, false) else disabled_when p (remove_peer c p)

unfoldable pub enable : Peers → Pool → Peers × Bool
enable c p =
    if c.terminated
    then (c, false)
    else if is_disabled p.remote_addr c.disabled
    then insert_peer (record c { disabled = delete_address p.remote_addr c.disabled }) p
    else (c, false)

-- Shutdown and Close: the pools on which the method is called are the second component.
unfoldable pub terminate : Peers → Peers × List Pool
terminate c = (record c { terminated = true; peers = [] }, c.peers)

-- roundRobin.Select with the new value of the counter; `none` is ErrEmptyPeers. The counter is kept
-- without its sign.
unfoldable pub select : ℕ → Peers → ℕ × Option Pool
select r c = elim (length c.peers) [
  | zero ↦ (r, none)
  | suc n ↦ ((r + 1) % 2 ^ 32, get_elem? c.peers ((r + 1) % 2 ^ 32 % 2 ^ 31 % suc n))
]
