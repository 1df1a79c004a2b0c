-- ===== src/Sync/Throttle.antt =====
-- pkg/iproto/syncutil/throttle.go: a time is a number of nanoseconds since the zero Time, `period` is not
-- negative. Sub stops at the greatest Duration. Next reads the clock first; its test under the read lock
-- and its test and write under the lock are two steps, between which other calls can come.
use activerecord.Prelude.{
  ℕ, ◌+◌, ◌-◌, ◌≤◌, ◌^◌, List, [], ◌∷◌, Bool, true, false, leb, ltb, ◌&&◌, if◌then◌else◌, ◌≡◌, refl,
  ◌∙◌, inl, inr, Bool-cases, arith,
}

pub record Throttle : Type 0 where
  pub period : ℕ
  pub last : ℕ

abbrev pub max_duration : ℕ
max_duration = 2 ^ 63 - 1

-- `now.Sub(t.last) >= t.period`, where a difference below 0 is not.
unfoldable pub far_enough : Throttle → ℕ → Bool
far_enough t now =
    leb t.last now
    && leb t.period (if ltb max_duration (now - t.last) then max_duration else now - t.last)

-- The second part of Next, for a call that has read `now`.
unfoldable pub try_next : Throttle → ℕ → Throttle × Bool
try_next t now = if far_enough t now then (record t { last = now }, true) else (t, false)

-- Next without a call in between.
unfoldable pub next : Throttle → ℕ → Throttle × Bool
next t now = if far_enough t now then try_next t now else (t, false)

unfoldable pub reset : Throttle → Throttle
reset t = record t { last = 0 }

-- Set(p) for a moment that is not before the period.
unfoldable pub set_point : Throttle → ℕ → Throttle
set_point t p = record t { last = p - t.period }

-- The second parts of calls in the order in which they get the lock, with the clocks that were read:
-- the clocks of those that succeed.
pub successes : Throttle → List ℕ → List ℕ
successes t [] = []
successes t (now ∷ nows) =
    if far_enough t now then now ∷ successes (record t { last = now }) nows else successes t nows

pub Spaced : ℕ → ℕ → List ℕ → Type 0
Spaced period last [] = Unit {0}
Spaced period last (now ∷ nows) = (last + period ≤ now) × Spaced period now nows

far_enough_lem : (t : Throttle) (now : ℕ) → far_enough t now ≡ true → t.last + t.period ≤ now
unfolding far_enough
far_enough_lem t now h = ground arith

-- However calls of Next overlap, and even if their clocks were read long before: the times of those
-- that succeed are at least a period apart, from the last time on.
pub successes-Spaced : (t : Throttle) (nows : List ℕ) → Spaced t.period t.last (successes t nows)
unfolding successes Spaced
successes-Spaced t [] = tt
successes-Spaced t (now ∷ nows) = elim (Bool-cases (far_enough t now)) [
  | inl e ↦ rw e (far_enough_lem t now e, successes-Spaced (record t { last = now }) nows)
  | inr e ↦ rw e (successes-Spaced t nows)
]

next_lem : (t : Throttle) (now : ℕ) → (next t now).1 ≡ far_enough t now
unfolding next try_next
next_lem t now = elim (Bool-cases (far_enough t now)) [ inl e ↦ rw e refl | inr e ↦ rw e refl ]

set_lem :
    (d p now : ℕ)
    → d ≤ p
    → d ≤ max_duration
    → far_enough (record { period = d; last = p - d }) now ≡ leb p now
unfolding far_enough
set_lem d p now h k = ground (arith, h, k)

-- After Set, Next does not succeed before the moment that was set, and from then on it does.
pub next-set_point :
    (t : Throttle) (p now : ℕ)
    → t.period ≤ p
    → t.period ≤ max_duration
    → ((next (set_point t p) now).1 ≡ leb p now)
unfolding next set_point try_next far_enough
next-set_point t p now h k = next_lem (set_point t p) now ∙ set_lem t.period p now h k
