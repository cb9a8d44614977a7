-- ===== src/Ui.antt =====
-- internal/ui/ui.go: how nk prints durations, colours and text that it did not write.
pub mod Durations
use nk.Base.{
  ℕ, zero, suc, ◌+◌, ◌-◌, ◌*◌, ◌/◌, ◌%◌, ◌≡◌, Bool, true, false, ◌&&◌, not, List, [], ◌∷◌, ◌++◌,
  keep, ltb, ◌==◌, if◌then◌else◌,
}
use nk.Base.Text.{Text, codes, is_control}
use nk.Base.Clock.{Duration, pos, negsuc, second, minute}

abbrev pub hour : ℕ
hour = 60 * minute

abbrev pub millisecond : ℕ
millisecond = 1_000_000

-- color; `enabled` is colorEnabled.
unfoldable pub color : Bool → Text → Text → Text
color enabled code s = if enabled then (27 ∷ b'[' ∷ code) ++ (b'm' ∷ s) ++ (27 ∷ codes "[0m") else s

-- Plain
unfoldable pub plain : Text → Text
unfolding is_control
plain s = keep (λ c. not (is_control c && not (c == b'\n'))) s

-- `%d`, with fuel for its digits.
unfoldable pub decimal_from : ℕ → ℕ → Text
decimal_from zero n = []
decimal_from (suc k) n =
    let before = decimal_from k (n / 10) in
    (if ltb n 10 then [] else before) ++ (b'0' + n % 10) ∷ []

unfoldable pub decimal : ℕ → Text
unfolding decimal_from
decimal n = decimal_from (suc n) n

pub data Measure : Type 0 where
  milliseconds seconds minutes hours days : Measure

-- A number of a unit, as it is printed.
abbrev pub Part : Type 0
Part = ℕ × Measure

-- The second number only where it is not zero.
abbrev pub two_parts : Part → Part → List Part
two_parts p (n, m) = if n == 0 then p ∷ [] else p ∷ (n, m) ∷ []

-- The numbers of HumanizeDuration for n nanoseconds. The source divides floating-point numbers, here
-- the quotients are exact.
unfoldable pub parts : ℕ → List Part
parts n =
    if ltb n second
    then (n / millisecond, milliseconds) ∷ []
    else if ltb n minute
    then (n / second, seconds) ∷ []
    else if ltb n hour
    then two_parts (n / minute, minutes) (n / second % 60, seconds)
    else if ltb n (24 * hour)
    then two_parts (n / hour, hours) (n / minute % 60, minutes)
    else two_parts (n / (24 * hour), days) (n / hour % 24, hours)

abbrev pub suffix : Measure → Text
suffix milliseconds = codes "ms"
suffix seconds = codes "s"
suffix minutes = codes "m"
suffix hours = codes "h"
suffix days = codes "d"

unfoldable pub show_parts : List Part → Text
unfolding decimal
show_parts [] = []
show_parts ((n, m) ∷ ps) = decimal n ++ suffix m ++ show_parts ps

-- HumanizeDuration
unfoldable pub humanize_duration : Duration → Text
unfolding parts show_parts
humanize_duration (pos n) = show_parts (parts n)
humanize_duration (negsuc n) = show_parts (parts 0)
