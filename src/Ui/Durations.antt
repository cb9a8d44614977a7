-- ===== src/Ui/Durations.antt =====
-- internal/ui/ui.go: what a printed duration says.
use nk.Base.{
  ℕ, zero, suc, ◌+◌, ◌-◌, ◌*◌, ◌/◌, ◌%◌, ◌≡◌, ◌≤◌, ◌<◌, refl, inl, inr, true, List, [], ◌∷◌, ◌++◌,
  ltb, ◌==◌, if◌then◌else◌, Bool-cases, arith,
}
use nk.Base.Text.{Text}
use nk.Base.Clock.{second, minute}
use nk.Ui.{
  hour, millisecond, decimal_from, decimal, Measure, milliseconds, seconds, minutes, hours, days,
  Part, two_parts, parts,
}

abbrev pub size : Measure → ℕ
size milliseconds = millisecond
size seconds = second
size minutes = minute
size hours = hour
size days = 24 * hour

-- The nanoseconds that the parts stand for.
unfoldable pub total : List Part → ℕ
total [] = 0
total ((n, m) ∷ ps) = n * size m + total ps

-- The number that a text of digits stands for, behind another one.
unfoldable pub number : ℕ → Text → ℕ
number k [] = k
number k (c ∷ s) = number (k * 10 + (c - b'0')) s

number-append : (k : ℕ) (s : Text) (c : ℕ) → number k (s ++ c ∷ []) ≡ number k s * 10 + (c - b'0')
unfolding number
number-append k [] c = refl
number-append k (d ∷ s) c = number-append (k * 10 + (d - b'0')) s c

number-decimal_from : (k n : ℕ) → n < k → number 0 (decimal_from k n) ≡ n
unfolding decimal_from number
number-decimal_from zero n h = absurd (omega arith)
number-decimal_from (suc k) n h = elim (Bool-cases (ltb n 10)) [
  | inl e ↦ rw e (ground arith)
  | inr e ↦
      rw
        (
          e,
          number-append 0 (decimal_from k (n / 10)) (b'0' + n % 10),
          number-decimal_from k (n / 10) (ground arith),
        )
        (omega arith)
]

-- The digits of a number stand for it.
number-decimal : (n : ℕ) → number 0 (decimal n) ≡ n
unfolding decimal
number-decimal n = number-decimal_from (suc n) n (omega arith)

-- How precise the parts are: a day's ones leave less than an hour out.
abbrev pub precision : ℕ → ℕ
precision n =
    if ltb n second
    then millisecond
    else if ltb n hour
    then second
    else if ltb n (24 * hour)
    then minute
    else hour

two_parts-total :
    (a b : ℕ) (m k : Measure) → total (two_parts (a, m) (b, k)) ≡ a * size m + b * size k
unfolding total
two_parts-total a b m k = elim (Bool-cases (b == 0)) [
  | inl e ↦ rw e (ground arith)
  | inr e ↦ rw e (omega arith)
]

abbrev Within : ℕ → ℕ → ℕ → Type 0
Within t p n = (t ≤ n) × (n < t + p)

minutes-Within : (n : ℕ) → Within (n / minute * minute + n / second % 60 * second) second n
minutes-Within n = (omega arith, omega arith)

hours-Within : (n : ℕ) → Within (n / hour * hour + n / minute % 60 * minute) minute n
hours-Within n = (omega arith, omega arith)

days-Within : (n : ℕ) → Within (n / (24 * hour) * (24 * hour) + n / hour % 24 * hour) hour n
days-Within n = (omega arith, omega arith)

-- What HumanizeDuration prints is at most the duration, and less than one smallest shown unit below
-- it: a millisecond below a second, a second below an hour, a minute below a day, and an hour
-- otherwise.
pub total-parts : (n : ℕ) → (total (parts n) ≤ n) × (n < total (parts n) + precision n)
unfolding parts
total-parts n = elim (Bool-cases (ltb n second)) [
  | inl e ↦ rw e (unfold total in (omega arith, omega arith))
  | inr e ↦ elim (Bool-cases (ltb n minute)) [
    | inl f ↦
        let g : ltb n hour ≡ true = ground arith in
        rw (e, f, g) (unfold total in (omega arith, omega arith))
    | inr f ↦ elim (Bool-cases (ltb n hour)) [
      | inl g ↦
          rw (e, f, g, two_parts-total (n / minute) (n / second % 60) minutes seconds)
            (minutes-Within n)
      | inr g ↦ elim (Bool-cases (ltb n (24 * hour))) [
        | inl k ↦
            rw (e, f, g, k, two_parts-total (n / hour) (n / minute % 60) hours minutes)
              (hours-Within n)
        | inr k ↦
            rw (e, f, g, k, two_parts-total (n / (24 * hour)) (n / hour % 24) days hours)
              (days-Within n)
      ]
    ]
  ]
]
