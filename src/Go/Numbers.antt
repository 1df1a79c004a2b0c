-- ===== src/Go/Numbers.antt =====
-- `strconv.ParseInt(s, 10, 64)` and `strconv.Atoi`: a sign or none, digits, and the range of an int64.
use activerecord.Prelude.{
  ℕ, zero, suc, ◌+◌, ◌*◌, ◌-◌, ◌^◌, [], ◌∷◌, Option, none, some, Bool, ◌==◌, ltb, leb, ◌&&◌,
  if◌then◌else◌, ◌≡◌, refl, ℤ, pos, negsuc,
}
use activerecord.Go.{Bytes}
use activerecord.Go.Strings.{codes}

is_digit : ℕ → Bool
is_digit c = leb b'0' c && leb c b'9'

digits_value : ℕ → Bytes → Option ℕ
digits_value acc [] = some acc
digits_value acc (c ∷ cs) =
    let rest = digits_value (10 * acc + (c - b'0')) cs in if is_digit c then rest else none

unsigned : Bytes → Option ℕ
unsigned [] = none
unsigned (c ∷ cs) = digits_value 0 (c ∷ cs)

non_negative : Option ℕ → Option ℤ
non_negative none = none
non_negative (some n) = if ltb n (2 ^ 63) then some (pos n) else none

minus : ℕ → ℤ
minus zero = pos 0
minus (suc n) = negsuc n

negative : Option ℕ → Option ℤ
negative none = none
negative (some n) = if leb n (2 ^ 63) then some (minus n) else none

unfoldable pub parse_int : Bytes → Option ℤ
unfolding is_digit digits_value unsigned non_negative negative minus
parse_int [] = none
parse_int (c ∷ cs) =
    if c == b'-'
    then negative (unsigned cs)
    else if c == b'+'
    then non_negative (unsigned cs)
    else non_negative (unsigned (c ∷ cs))

parsed : parse_int (codes "-12") ≡ some (negsuc 11)
unfolding parse_int
parsed = refl
