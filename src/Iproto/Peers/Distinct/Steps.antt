-- ===== src/Iproto/Peers/Distinct/Steps.antt =====
-- The invariant, over the methods of a cluster except those that merge.
use activerecord.Prelude.{
  List, [], ◌∷◌, ◌++◌, Bool, true, false, if◌then◌else◌, ◌≡◌, inl, inr, refl, sym, All, All-append,
  Option-cases, Bool-cases,
}
use activerecord.Iproto.Peers.{
  Pool, Address, Peers, new_peers, same_address, index_peer, is_disabled, delete_address,
  put_address, insert_peer, remove_peer, insert, remove, disable, disabled_when, enable, terminate,
}
use activerecord.Iproto.Peers.Distinct.{
  Absent, Distinct, AbsentKey, DistinctKeys, Apart, IsValid, index_none, without_All,
  without_Distinct, index_Absent, same_address-false,
}

not_disabled : (a : Address) (m : List (Address × Pool)) → is_disabled a m ≡ false → AbsentKey a m
unfolding is_disabled
not_disabled a [] h = tt
not_disabled a ((b, p) ∷ m) h = elim (Bool-cases (same_address b a)) [
  | inl e ↦ (let h' = rw e at h in cc)
  | inr e ↦ (same_address-false b a e, not_disabled a m (rw e at h))
]

delete_All :
    (P : Address × Pool → Type 0) (a : Address) (m : List (Address × Pool))
    → All P m
    → All P (delete_address a m)
unfolding delete_address
delete_All P a [] h = tt
delete_All P a ((b, p) ∷ m) h = elim (Bool-cases (same_address b a)) [
  | inl e ↦ rw e (delete_All P a m h.1)
  | inr e ↦ rw e (h.0, delete_All P a m h.1)
]

delete_DistinctKeys :
    (a : Address) (m : List (Address × Pool)) → DistinctKeys m → DistinctKeys (delete_address a m)
unfolding delete_address
delete_DistinctKeys a [] h = tt
delete_DistinctKeys a ((b, p) ∷ m) h = elim (Bool-cases (same_address b a)) [
  | inl e ↦ rw e (delete_DistinctKeys a m h.1)
  | inr e ↦ rw e (delete_All _ a m h.0, delete_DistinctKeys a m h.1)
]

delete_AbsentKey : (a : Address) (m : List (Address × Pool)) → AbsentKey a (delete_address a m)
unfolding delete_address
delete_AbsentKey a [] = tt
delete_AbsentKey a ((b, p) ∷ m) = elim (Bool-cases (same_address b a)) [
  | inl e ↦ rw e (delete_AbsentKey a m)
  | inr e ↦ rw e (same_address-false b a e, delete_AbsentKey a m)
]

All-map :
    {A : Type 0} {P Q : A → Type 0} (xs : List A) → ((x : A) → P x → Q x) → All P xs → All Q xs
All-map [] f h = tt
All-map (x ∷ xs) f h = (f x h.0, All-map xs f h.1)

Distinct-append :
    (ps : List Pool) (p : Pool) → Distinct ps → Absent p.remote_addr ps → Distinct (ps ++ (p ∷ []))
Distinct-append [] p d a = (tt, tt)
Distinct-append (q ∷ ps) p d a =
    (All-append _ ps (p ∷ []) d.0 (λ e. a.0 (sym e), tt), Distinct-append ps p d.1 a.1)

Apart-append :
    (ps : List Pool) (p : Pool) (m : List (Address × Pool))
    → Apart ps m
    → AbsentKey p.remote_addr m
    → Apart (ps ++ (p ∷ [])) m
Apart-append ps p [] h a = tt
Apart-append ps p (e ∷ m) h a =
    (All-append _ ps (p ∷ []) h.0 (λ x. a.0 (sym x), tt), Apart-append ps p m h.1 a.1)

insert_peer-IsValid :
    (c : Peers) (p : Pool)
    → IsValid c
    → AbsentKey p.remote_addr c.disabled
    → IsValid ((insert_peer c p).0)
unfolding insert_peer
insert_peer-IsValid c p v a = elim (Option-cases (index_peer c.peers p)) [
  | inr (x, e) ↦ rw (e, insert_peer) v
  | inl e ↦
      rw (e, insert_peer)
        record {
          distinct = Distinct-append c.peers p v.distinct (index_none c.peers p e);
          distinct_keys = v.distinct_keys;
          apart = Apart-append c.peers p c.disabled v.apart a;
          keys_match = v.keys_match;
        }
]

forget_IsValid :
    (c : Peers) (a : Address)
    → IsValid c
    → IsValid (record c { disabled = delete_address a c.disabled })
forget_IsValid c a v = record {
  distinct = v.distinct;
  distinct_keys = delete_DistinctKeys a c.disabled v.distinct_keys;
  apart = delete_All _ a c.disabled v.apart;
  keys_match = delete_All _ a c.disabled v.keys_match;
}

remove_peer-IsValid : (c : Peers) (p : Pool) → IsValid c → IsValid ((remove_peer c p).0)
unfolding remove_peer
remove_peer-IsValid c p v = elim (Option-cases (index_peer c.peers p)) [
  | inl e ↦ rw (e, remove_peer) v
  | inr (x, e) ↦
      rw (e, remove_peer)
        record {
          distinct = without_Distinct x c.peers v.distinct;
          distinct_keys = v.distinct_keys;
          apart = All-map c.disabled (λ k h. without_All _ x c.peers h) v.apart;
          keys_match = v.keys_match;
        }
]

if_IsValid :
    (b : Bool) (x y : Peers × Bool)
    → (b ≡ true → IsValid (x.0))
    → (b ≡ false → IsValid (y.0))
    → IsValid ((if b then x else y).0)
if_IsValid true x y f g = f refl
if_IsValid false x y f g = g refl

insert-IsValid : (c : Peers) (p : Pool) → IsValid c → IsValid ((insert c p).0)
unfolding insert
insert-IsValid c p v =
    if_IsValid c.terminated _ _ (λ t. v)
      (λ t.
        if_IsValid (is_disabled p.remote_addr c.disabled) _ _ (λ e. v)
          (λ e. insert_peer-IsValid c p v (not_disabled p.remote_addr c.disabled e)))

remove-IsValid : (c : Peers) (p : Pool) → IsValid c → IsValid ((remove c p).0)
unfolding remove
remove-IsValid c p v =
    if_IsValid c.terminated _ _ (λ t. v)
      (λ t.
        if_IsValid (is_disabled p.remote_addr c.disabled) _ _
          (λ e. forget_IsValid c p.remote_addr v) (λ e. remove_peer-IsValid c p v))

enable-IsValid : (c : Peers) (p : Pool) → IsValid c → IsValid ((enable c p).0)
unfolding enable
enable-IsValid c p v =
    if_IsValid c.terminated _ _ (λ t. v)
      (λ t.
        if_IsValid (is_disabled p.remote_addr c.disabled) _ _
          (λ e.
            insert_peer-IsValid _ p (forget_IsValid c p.remote_addr v)
              (delete_AbsentKey p.remote_addr c.disabled))
          (λ e. v))

put_IsValid :
    (c : Peers) (p : Pool)
    → IsValid c
    → Absent p.remote_addr c.peers
    → IsValid (record c { disabled = put_address p.remote_addr p c.disabled })
unfolding put_address
put_IsValid c p v a = record {
  distinct = v.distinct;
  distinct_keys = (
    delete_AbsentKey p.remote_addr c.disabled,
    delete_DistinctKeys p.remote_addr c.disabled v.distinct_keys,
  );
  apart = (a, delete_All _ p.remote_addr c.disabled v.apart);
  keys_match = (refl, delete_All _ p.remote_addr c.disabled v.keys_match);
}

disable-IsValid : (c : Peers) (p : Pool) → IsValid c → IsValid ((disable c p).0)
unfolding disable remove_peer disabled_when
disable-IsValid c p v =
    if_IsValid c.terminated _ _ (λ t. v)
      (λ t. elim (Option-cases (index_peer c.peers p)) [
        | inl e ↦ rw (e, remove_peer) v
        | inr (x, e) ↦
            let w = remove_peer-IsValid c p v in
            let w' = rw (e, remove_peer) at w in
            rw (e, remove_peer) (put_IsValid _ p w' (index_Absent c.peers p x e v.distinct))
      ])

terminate-IsValid : (c : Peers) → IsValid c → IsValid ((terminate c).0)
unfolding terminate
terminate-IsValid c v = record {
  distinct = tt;
  distinct_keys = v.distinct_keys;
  apart = All-map c.disabled (λ k h. tt) v.apart;
  keys_match = v.keys_match;
}

-- One call of a method that does not merge; the mutex puts the calls in an order.
pub data Move : Peers → Peers → Type 0 where
  inserting : {c : Peers} (p : Pool) → Move c ((insert c p).0)
  removing : {c : Peers} (p : Pool) → Move c ((remove c p).0)
  disabling : {c : Peers} (p : Pool) → Move c ((disable c p).0)
  enabling : {c : Peers} (p : Pool) → Move c ((enable c p).0)
  terminating : {c : Peers} → Move c ((terminate c).0)

Move-IsValid : {c d : Peers} → Move c d → IsValid c → IsValid d
Move-IsValid {c} (inserting p) v = insert-IsValid c p v
Move-IsValid {c} (removing p) v = remove-IsValid c p v
Move-IsValid {c} (disabling p) v = disable-IsValid c p v
Move-IsValid {c} (enabling p) v = enable-IsValid c p v
Move-IsValid {c} terminating v = terminate-IsValid c v

pub data Reachable : Peers → Type 0 where
  at_start : Reachable new_peers
  after : {c d : Peers} → Reachable c → Move c d → Reachable d

-- However the calls of Insert, Remove, Disable, Enable, Shutdown and Close follow each other: the
-- peers of a cluster have different remote addresses, so have the disabled pools, none of which has
-- the address of a peer, and a disabled pool is kept under its own address.
pub Reachable-IsValid : {c : Peers} → Reachable c → IsValid c
Reachable-IsValid at_start = record {
  distinct = tt;
  distinct_keys = tt;
  apart = tt;
  keys_match = tt;
}
Reachable-IsValid (after r s) = Move-IsValid s (Reachable-IsValid r)
