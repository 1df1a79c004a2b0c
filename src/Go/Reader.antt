-- ===== src/Go/Reader.antt =====
-- bytes.Reader and io.ReadFull, as far as pkg/iproto and pkg/octopus call them.
pub mod Decodes
use activerecord.Prelude.{
  ℕ, zero, suc, ◌+◌, ◌*◌, ◌-◌, List, [], ◌∷◌, ◌++◌, length, take, drop, replicate, ◌≡◌, refl, ltb,
  if◌then◌else◌, arith, take-append, drop-append,
}
use activerecord.Go.{Result, ok, err, panic, Bytes, Error, eof, unexpected_eof}

-- `rest` is what is not read yet, so `Len()` is its length; `size` is `Size()`, the length of the
-- slice that the reader was made from.
pub record Reader : Type 0 where
  pub rest : Bytes
  pub size : ℕ

abbrev pub new_reader : Bytes → Reader
new_reader b = record { rest = b; size = length b }

-- A function that reads: it moves the reader, or fails.
abbrev pub Read : Type 0 → Type 0
Read A = Reader → Result Error (A × Reader)

-- Shut, so that the laws below see the steps of a `do` block.
infixl 5 ◌>>=◌ ◌>>◌
unfoldable pub ◌>>=◌ : {A B : Type 0} → Read A → (A → Read B) → Read B
◌>>=◌ m f r = elim (m r) [ ok (a, s) ↦ f a s | err e ↦ err e | panic ↦ panic ]

abbrev pub ◌>>◌ : {A B : Type 0} → Read A → Read B → Read B
m >> k = m >>= λ _. k

unfoldable pub return : {A : Type 0} → A → Read A
return a r = ok (a, r)

unfoldable pub fail : {A : Type 0} → Error → Read A
fail e r = err e

-- `r.Len()`, and what a function returns without the reader's last state.
unfoldable pub remaining : Read ℕ
remaining r = ok (length r.rest, r)

abbrev pub value_of : {A : Type 0} → Result Error (A × Reader) → Result Error A
value_of (ok (a, _)) = ok a
value_of (err e) = err e
value_of panic = panic

-- `data := make([]byte, n); _, err = r.Read(data)`: at the end of the input it fails, and a read
-- that comes short leaves zeros behind what it got.
read_from : Bytes → ℕ → Read Bytes
read_from [] n r = err eof
read_from (b ∷ bs) n r =
    let got = take n (b ∷ bs) in
    ok (got ++ replicate (n - length got) 0, record r { rest = drop n (b ∷ bs) })

unfoldable pub read : ℕ → Read Bytes
unfolding read_from
read n r = read_from r.rest n r

-- `io.ReadFull(r, buf)` with a `buf` of length n.
unfoldable pub read_full : ℕ → Read Bytes
read_full zero r = ok ([], r)
read_full (suc n) r =
    if ltb (length r.rest) (suc n)
    then (elim r.rest [ [] ↦ err eof | _ ∷ _ ↦ err unexpected_eof ])
    else ok (take (suc n) r.rest, record r { rest = drop (suc n) r.rest })

-- `r.ReadByte()`
byte_from : Bytes → Read ℕ
byte_from [] r = err eof
byte_from (b ∷ bs) r = ok (b, record r { rest = bs })

unfoldable pub read_byte : Read ℕ
unfolding byte_from
read_byte r = byte_from r.rest r

-- `for i := 0; i < n; i++` over a body that appends what it read to a slice.
unfoldable pub read_times : {A : Type 0} → Read A → ℕ → Read (List A)
read_times m zero = return []
read_times m (suc n) = do a ← m; more ← read_times m n; return (a ∷ more)

abbrev pub at : Bytes → ℕ → Reader
at b k = record { rest = b; size = k }
