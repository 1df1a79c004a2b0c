-- ===== src/Go/Reader/Decodes.antt =====
-- What it means that a reading function reads back one value, and how such facts compose along the
-- steps of a `do` block.
use activerecord.Prelude.{
  ℕ, suc, ◌≤◌, ◌-◌, List, [], ◌∷◌, ◌++◌, length, replicate, ◌≡◌, refl, ap, subst, arith,
  take-append, drop-append, append_assoc, append-nil, flat_map, All, length-append,
}
use native.Mathlib.Nat.{sub_self}
use activerecord.Go.{ok, Bytes}
use activerecord.Go.Reader.{
  Reader, remaining, value_of, new_reader, Read, at, ◌>>=◌, return, read, read_full, read_byte,
  read_times,
}

-- From a reader over a slice of length k that has `bs` before it, `m` reads `a` and stops behind `bs`,
-- whatever follows there.
pub record Decodes {A : Type 0} (m : Read A) (bs : Bytes) (a : A) (k : ℕ) : Type 0 where
  pub run : (ys : Bytes) → length (bs ++ ys) ≤ k → m (at (bs ++ ys) k) ≡ ok (a, at ys k)

module _ {A B : Type 0} where
  pub >>=-Decodes :
      {m : Read A} (f : A → Read B) {bs cs : Bytes} {a : A} {b : B} {k : ℕ}
      → Decodes m bs a k
      → Decodes (f a) cs b k
      → Decodes (m >>= f) (bs ++ cs) b k
  unfolding ◌>>=◌
  >>=-Decodes f {bs = bs} {cs = cs} d e = record {
    run = λ ys.
        rw (append_assoc bs cs ys) λ b.
          rw (d.run (cs ++ ys) b, ◌>>=◌) (e.run ys (omega (arith, length-append bs (cs ++ ys))));
  }

  -- The last step of a block only builds its result.
  pub >>=-return-Decodes :
      {m : Read A} (g : A → B) {bs : Bytes} {a : A} {k : ℕ}
      → Decodes m bs a k
      → Decodes (m >>= λ x. return (g x)) bs (g a) k
  unfolding ◌>>=◌ return
  >>=-return-Decodes g d = record { run = λ ys b. rw (d.run ys b, ◌>>=◌) }

pub return-Decodes : {A : Type 0} (a : A) {k : ℕ} → Decodes (return a) [] a k
unfolding return
return-Decodes a = record { run = λ ys b. refl }

-- A loop over a body that reads each element of `xs` back reads all of them.
pub read_times-Decodes :
    {A : Type 0} (m : Read A) (enc : A → Bytes) (k : ℕ) (xs : List A)
    → All (λ x. Decodes m (enc x) x k) xs
    → Decodes (read_times m (length xs)) (flat_map enc xs) xs k
unfolding read_times flat_map
read_times-Decodes m enc k [] h = return-Decodes []
read_times-Decodes m enc k (x ∷ xs) h =
    >>=-Decodes _ h.0 (>>=-return-Decodes (λ more. x ∷ more) (read_times-Decodes m enc k xs h.1))

pub read_byte-Decodes : (b k : ℕ) → Decodes read_byte (b ∷ []) b k
unfolding read_byte
read_byte-Decodes b k = record { run = λ ys b. refl }

pub read_full-Decodes : (xs : Bytes) (k : ℕ) → Decodes (read_full (length xs)) xs xs k
unfolding read_full
read_full-Decodes [] k = record { run = λ ys b. refl }
read_full-Decodes (x ∷ xs) k = record {
  run = λ ys b. ground (arith, length-append xs ys, take-append xs ys, drop-append xs ys);
}

no_padding : (bs : Bytes) (n : ℕ) → bs ++ replicate (n - n) 0 ≡ bs
no_padding bs n = rw (sub_self n) (append-nil bs)

-- A read that is not at the end and does not come short.
pub read-Decodes :
    (b : ℕ) (bs : Bytes) (k : ℕ) → Decodes (read (suc (length bs))) (b ∷ bs) (b ∷ bs) k
unfolding read
read-Decodes b bs k = record {
  run = λ ys h. rw (take-append bs ys, drop-append bs ys, no_padding bs (suc (length bs)));
}

-- Reading a whole slice, and the first step of a block.
pub value-Decodes :
    {A : Type 0} {m : Read A} (bs : Bytes) {a : A}
    → Decodes m bs a (length bs)
    → value_of (m (new_reader bs)) ≡ ok a
value-Decodes {m} bs {a} d =
    subst (λ xs. value_of (m (at xs (length bs))) ≡ ok a) (append-nil bs)
      (ap value_of (d.run [] (rw append-nil (omega arith))))

pub step-Decodes :
    {A B : Type 0} {m : Read A} {bs : Bytes} {a : A} {k : ℕ} (f : A → Read B) (ys : Bytes)
    → Decodes m bs a k
    → length (bs ++ ys) ≤ k
    → (m >>= f) (at (bs ++ ys) k) ≡ f a (at ys k)
unfolding ◌>>=◌
step-Decodes f ys d b = rw (d.run ys b, ◌>>=◌)

pub remaining_step :
    {B : Type 0} (f : ℕ → Read B) (r : Reader) → (remaining >>= f) r ≡ f (length r.rest) r
unfolding ◌>>=◌ remaining
remaining_step f r = refl
