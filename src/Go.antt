-- ===== src/Go.antt =====
-- What the modelled code uses of Go itself: the outcome of a function that can fail or panic, the
-- errors of the wire format, and byte slices that are read through a bytes.Reader (child Reader).
pub mod Reader
pub mod Strings
pub mod Numbers
use activerecord.Prelude.{ℕ, ◌<◌, List, [], ◌∷◌, All, Bool, true, false, ◌≡◌, ◌≢◌, refl}

-- `ok` stands for a nil error, `err` for another one; `panic` ends the goroutine.
-- What a function returns beside a non-nil error is not modelled.
pub data Result (E A : Type 0) : Type 0 where
  ok : A → Result E A
  err : E → Result E A
  panic : Result E A

infixl 5 ◌>>=◌
abbrev pub ◌>>=◌ : {E A B : Type 0} → Result E A → (A → Result E B) → Result E B
ok a >>= f = f a
err e >>= f = err e
panic >>= f = panic

-- A byte slice.
abbrev pub Bytes : Type 0
Bytes = List ℕ

abbrev pub IsByte : ℕ → Type 0
IsByte b = b < 256

-- The causes of the errors of the packages iproto and octopus; the words that a caller puts before
-- a cause (`fmt.Errorf("...: %w", err)`) are left out.
pub data Error : Type 0 where
  eof unexpected_eof : Error
  invalid_ber invalid_length : Error
  size_limit : Error
  small_response many_tuples empty_tuple short_tuple fields_overflow extra_data : Error
  not_lua : Error
  remote : Bytes → Error

-- `if failed { return e }`
abbrev pub fail_if : {E : Type 0} → Bool → E → Result E (Unit {0})
fail_if true e = err e
fail_if false e = ok tt

infixl 5 ◌>>◌
abbrev pub ◌>>◌ : {E B : Type 0} → Result E (Unit {0}) → Result E B → Result E B
m >> k = m >>= λ _. k

-- A loop that returns the first error.
abbrev pub each : {E A : Type 0} → (A → Result E (Unit {0})) → List A → Result E (Unit {0})
each f [] = ok tt
each f (x ∷ xs) = f x >> each f xs

-- Inversions of a result.
pub bind_ok :
    {E A B : Type 0} (m : Result E A) (f : A → Result E B) {b : B}
    → (m >>= f) ≡ ok b
    → (a : A) × (m ≡ ok a) × (f a ≡ ok b)
bind_ok (ok a) f h = (a, refl, h)
bind_ok (err e) f h = cc
bind_ok panic f h = cc

pub ok_same : {E A : Type 0} {a b : A} → ◌≡◌ {A = Result E A} (ok a) (ok b) → a ≡ b
ok_same h = cc

pub fail_if_ok : {E : Type 0} (b : Bool) (e : E) (u : Unit {0}) → fail_if b e ≡ ok u → b ≡ false
fail_if_ok true e u h = cc
fail_if_ok false e u h = refl

pub seq_ok :
    {E B : Type 0} (m : Result E (Unit {0})) (k : Result E B) {b : B}
    → (m >> k) ≡ ok b
    → (m ≡ ok tt) × (k ≡ ok b)
seq_ok (ok u) k h = (refl, h)
seq_ok (err e) k h = cc
seq_ok panic k h = cc

pub each_ok :
    {E A : Type 0} (f : A → Result E (Unit {0})) (xs : List A)
    → each f xs ≡ ok tt
    → All (λ x. f x ≡ ok tt) xs
each_ok f [] h = tt
each_ok f (x ∷ xs) h = let (a, b) = seq_ok (f x) (each f xs) h in (a, each_ok f xs b)

-- What panics: no test, and a sequence or a loop only if a part of it does.
pub fail_alone : {E : Type 0} (b : Bool) (e : E) → fail_if b e ≢ panic
fail_alone true e h = cc
fail_alone false e h = cc

pub fail_panic :
    {E B : Type 0} (b : Bool) (e : E) (k : Result E B) → (fail_if b e >> k) ≡ panic → k ≡ panic
fail_panic true e k h = cc
fail_panic false e k h = h

pub seq_panic :
    {E B : Type 0} (m : Result E (Unit {0})) (k : Result E B)
    → (m >> k) ≡ panic
    → (m ≢ panic → k ≡ panic) × (k ≢ panic → m ≡ panic)
seq_panic (ok u) k h = (λ a. h, λ b. absurd (b h))
seq_panic (err e) k h = cc
seq_panic panic k h = (λ a. absurd (a refl), λ b. refl)

pub bind_panic :
    {E A B : Type 0} (m : Result E A) (f : A → Result E B)
    → (m >>= f) ≡ panic
    → m ≢ panic
    → (a : A) × (f a ≡ panic)
bind_panic (ok a) f h p = (a, h)
bind_panic (err e) f h p = cc
bind_panic panic f h p = absurd (p refl)

pub each_safe :
    {E A : Type 0} (f : A → Result E (Unit {0})) (xs : List A)
    → ((x : A) → f x ≢ panic)
    → each f xs ≢ panic
each_safe f [] a h = cc
each_safe f (x ∷ xs) a h = each_safe f xs a ((seq_panic (f x) (each f xs) h).0 (a x))
