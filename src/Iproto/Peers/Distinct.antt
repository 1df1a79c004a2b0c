-- ===== src/Iproto/Peers/Distinct.antt =====
-- The pools of a cluster have different addresses, and none of them is disabled.
pub mod Steps
use activerecord.Prelude.{
  ℕ, zero, suc, List, [], ◌∷◌, ◌++◌, take, drop, Option, none, some, Bool, true, false, ◌==◌, ltb,
  ltb→lt, if◌then◌else◌, ◌≡◌, ◌≢◌, ◌⊎◌, inl, inr, refl, sym, ap, ap₂, subst, ◌∙◌, All, All-append,
  Option-cases, Bool-cases, arith, tests,
}
use activerecord.Go.{Bytes}
use activerecord.Go.Strings.{same_bytes, same_bytes_eq, same_bytes_refl}
use activerecord.Iproto.Peers.{
  Pool, Address, Peers, new_peers, Order, before, equal, behind, then_by, cmp_bytes,
  cmp_remote_addr, is_equal, same_address, index_peer, shifted, is_disabled, delete_address,
  put_address, insert_peer, remove_peer, insert, remove, disable, disabled_when, enable, terminate,
}

abbrev pub Absent : Address → List Pool → Type 0
Absent a ps = All (λ (q : Pool). q.remote_addr ≢ a) ps

abbrev pub Distinct : List Pool → Type 0
Distinct [] = Unit {0}
Distinct (p ∷ ps) = Absent p.remote_addr ps × Distinct ps

abbrev pub AbsentKey : Address → List (Address × Pool) → Type 0
AbsentKey a m = All (λ (e : Address × Pool). e.0 ≢ a) m

abbrev pub DistinctKeys : List (Address × Pool) → Type 0
DistinctKeys [] = Unit {0}
DistinctKeys (e ∷ m) = AbsentKey e.0 m × DistinctKeys m

abbrev pub Apart : List Pool → List (Address × Pool) → Type 0
Apart ps m = All (λ (e : Address × Pool). Absent e.0 ps) m

abbrev pub KeysMatch : List (Address × Pool) → Type 0
KeysMatch m = All (λ (e : Address × Pool). e.1.remote_addr ≡ e.0) m

pub record IsValid (c : Peers) : Type 0 where
  pub distinct : Distinct c.peers
  pub distinct_keys : DistinctKeys c.disabled
  pub apart : Apart c.peers c.disabled
  pub keys_match : KeysMatch c.disabled

-- The orders and tests of addresses decide equality.
cmp_bytes_eq : (as_bytes bs : Bytes) → is_equal (cmp_bytes as_bytes bs) ≡ true → as_bytes ≡ bs
cmp_bytes_eq [] [] h = refl
cmp_bytes_eq [] (b ∷ bs) h = cc
cmp_bytes_eq (a ∷ as_bytes) [] h = cc
cmp_bytes_eq (a ∷ as_bytes) (b ∷ bs) h = ground (arith, cmp_bytes_eq as_bytes bs)

cmp_bytes_refl : (bs : Bytes) → cmp_bytes bs bs ≡ equal
cmp_bytes_refl [] = refl
cmp_bytes_refl (b ∷ bs) = ground (arith, cmp_bytes_refl bs)

both : (o u : Order) → is_equal (then_by o u) ≡ true → (is_equal o ≡ true) × (is_equal u ≡ true)
both before u h = cc
both equal u h = (refl, h)
both behind u h = cc

cmp_eq : (p q : Pool) → is_equal (cmp_remote_addr p q) ≡ true → p.remote_addr ≡ q.remote_addr
cmp_eq p q h =
    let (a, b) = both _ _ h in
    ap₂ (λ n s. record { network = n; addr = s }) (cmp_bytes_eq _ _ a) (cmp_bytes_eq _ _ b)

cmp_refl : (p q : Pool) → p.remote_addr ≡ q.remote_addr → is_equal (cmp_remote_addr p q) ≡ true
cmp_refl p q h =
    subst
      (λ a.
        is_equal (
          then_by (cmp_bytes p.remote_addr.network a.network) (cmp_bytes p.remote_addr.addr a.addr))
        ≡ true)
      h (rw (cmp_bytes_refl p.remote_addr.network) (rw (cmp_bytes_refl p.remote_addr.addr) refl))

pub same_address_eq : (a b : Address) → same_address a b ≡ true → a ≡ b
same_address_eq a b h = elim (Bool-cases (same_bytes a.network b.network)) [
  | inl e ↦
      ap₂ (λ n s. record { network = n; addr = s }) (same_bytes_eq _ _ e)
        (same_bytes_eq _ _ (rw e at h))
  | inr e ↦ (let h' = rw e at h in cc)
]

pub same_address_refl : (a : Address) → same_address a a ≡ true
same_address_refl a = rw (same_bytes_refl a.network) (same_bytes_refl a.addr)

pub same_address-false : (a b : Address) → same_address a b ≡ false → a ≢ b
same_address-false a b h e =
    let t = subst (λ x. same_address a x ≡ true) e (same_address_refl a) in cc

cmp_false : (p q : Pool) → is_equal (cmp_remote_addr p q) ≡ false → p.remote_addr ≢ q.remote_addr
cmp_false p q h e = let t = cmp_refl p q e in cc

shifted-none : (o : Option ℕ) → shifted o ≡ none → o ≡ none
unfolding shifted
shifted-none none h = refl
shifted-none (some i) h = cc

shifted-some : (o : Option ℕ) (x : ℕ) → shifted o ≡ some x → (y : ℕ) × (o ≡ some y) × (x ≡ suc y)
unfolding shifted
shifted-some none x h = cc
shifted-some (some i) x h = (i, refl, cc)

-- What indexPeer says.
pub index_none : (ps : List Pool) (p : Pool) → index_peer ps p ≡ none → Absent p.remote_addr ps
unfolding index_peer
index_none [] p h = tt
index_none (q ∷ ps) p h = elim (Bool-cases (is_equal (cmp_remote_addr q p))) [
  | inl e ↦ (let h' = rw e at h in cc)
  | inr e ↦ (cmp_false q p e, index_none ps p (shifted-none _ (rw e at h)))
]

pub without_All :
    {A : Type 0} (P : A → Type 0) (x : ℕ) (ps : List A)
    → All P ps
    → All P (take x ps ++ drop (suc x) ps)
without_All P zero [] h = tt
without_All P zero (p ∷ ps) h = h.1
without_All P (suc x) [] h = tt
without_All P (suc x) (p ∷ ps) h = (h.0, without_All P x ps h.1)

pub without_Distinct :
    (x : ℕ) (ps : List Pool) → Distinct ps → Distinct (take x ps ++ drop (suc x) ps)
without_Distinct zero [] h = tt
without_Distinct zero (p ∷ ps) h = h.1
without_Distinct (suc x) [] h = tt
without_Distinct (suc x) (p ∷ ps) h = (without_All _ x ps h.0, without_Distinct x ps h.1)

pub index_Absent :
    (ps : List Pool) (p : Pool) (x : ℕ)
    → index_peer ps p ≡ some x
    → Distinct ps
    → Absent p.remote_addr (take x ps ++ drop (suc x) ps)
unfolding index_peer
index_Absent [] p x h d = cc
index_Absent (q ∷ ps) p x h d = elim (Bool-cases (is_equal (cmp_remote_addr q p))) [
  | inl e ↦
      let z = rw e at h in
      let z' : ◌≡◌ {A = ℕ} zero x = cc in
      subst (λ x. Absent p.remote_addr (take x (q ∷ ps) ++ drop (suc x) (q ∷ ps))) z'
        (subst (λ a. Absent a ps) (cmp_eq q p e) d.0)
  | inr e ↦
      let (y, s, t) = shifted-some _ x (rw e at h) in
      subst (λ x. Absent p.remote_addr (take x (q ∷ ps) ++ drop (suc x) (q ∷ ps))) (sym t)
        (cmp_false q p e, index_Absent ps p y s d.1)
]
