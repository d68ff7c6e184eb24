-- ===== src/Health/Cron.antt =====
-- `cron_field` and `cron_occurrences` of operational_health.py. A moment is the number of its
-- microseconds since a midnight in UTC; none is ValueError.
pub mod Occurrences
use alric_containers_image_b.Base.{
  ℕ, zero, suc, ◌+◌, ◌-◌, ◌*◌, ◌/◌, ◌%◌, String, Bool, true, false, not, ◌&&◌, ◌||◌, Option, none,
  some, List, [], ◌∷◌, ◌++◌, all, any, ltb, leb, ◌==◌, if◌then◌else◌,
}
use alric_containers_image_b.Base.Decimal.{codes, value, is_digit}
use alric_containers_image_b.Promotion.Reference.{is_space}

-- `int(text)` of a text of digits.
unfoldable pub int_of : List ℕ → Option ℕ
int_of [] = none
int_of (c ∷ cs) = if all is_digit (c ∷ cs) then some (value 0 (c ∷ cs)) else none

abbrev pub cons_first : ℕ → List (List ℕ) → List (List ℕ)
cons_first c [] = (c ∷ []) ∷ []
cons_first c (word ∷ words) = (c ∷ word) ∷ words

-- `text.split(mark)`
unfoldable pub split_all : ℕ → List ℕ → List (List ℕ)
split_all mark [] = [] ∷ []
split_all mark (c ∷ cs) =
    let rest = split_all mark cs in if c == mark then [] ∷ rest else cons_first c rest

abbrev pub with_first : ℕ → Option (List ℕ × List ℕ) → Option (List ℕ × List ℕ)
with_first c none = none
with_first c (some (before, after)) = some (c ∷ before, after)

-- `text.split(mark, 1)` where the mark is there.
unfoldable pub split_once : ℕ → List ℕ → Option (List ℕ × List ℕ)
split_once mark [] = none
split_once mark (c ∷ cs) =
    let rest = split_once mark cs in if c == mark then some ([], cs) else with_first c rest

-- `text.split()`
abbrev pub starts_word : List ℕ → Bool
starts_word [] = false
starts_word (c ∷ cs) = not (is_space c)

unfoldable pub split_words : List ℕ → List (List ℕ)
unfolding is_space
split_words [] = []
split_words (c ∷ cs) =
    let rest = split_words cs in
    if is_space c then rest else if starts_word cs then cons_first c rest else (c ∷ []) ∷ rest

-- The start, the end and the step of a part.
abbrev pub Bounds : Type 0
Bounds = ℕ × ℕ × ℕ

abbrev pub is_star : List ℕ → Bool
is_star (c ∷ []) = c == b'*'
is_star _ = false

abbrev pub both : Option ℕ → Option ℕ → Option ℕ → Option Bounds
both (some start) (some end) (some step) = some (start, end, step)
both _ _ _ = none

abbrev pub bounds_at : ℕ → ℕ → List ℕ → Option (List ℕ × List ℕ) → Option ℕ → Option Bounds
bounds_at low high part none step =
    if is_star part then both (some low) (some high) step else both (int_of part) (int_of part) step
bounds_at low high part (some (start, end)) step =
    if is_star part then both (some low) (some high) step else both (int_of start) (int_of end) step

abbrev pub bounds_with : ℕ → ℕ → List ℕ → Option (List ℕ × List ℕ) → Option Bounds
bounds_with low high part none = bounds_at low high part (split_once b'-' part) (some 1)
bounds_with low high part (some (range, raw)) =
    bounds_at low high range (split_once b'-' range) (int_of raw)

abbrev pub bounds_of : ℕ → ℕ → List ℕ → Option Bounds
bounds_of low high part = bounds_with low high part (split_once b'/' part)

-- `range(start, end + 1, step)`, of which `count` are left.
abbrev pub range_from : ℕ → ℕ → ℕ → List ℕ
range_from start step zero = []
range_from start step (suc count) = start ∷ range_from (start + step) step count

abbrev pub part_values : ℕ → ℕ → Option Bounds → Option (List ℕ)
part_values low high none = none
part_values low high (some (start, end, step)) =
    if leb low start && leb start end && leb end high && leb 1 step
    then some (range_from start step ((end - start) / step + 1))
    else none

abbrev pub joined : Option (List ℕ) → Option (List ℕ) → Option (List ℕ)
joined (some xs) (some ys) = some (xs ++ ys)
joined _ _ = none

unfoldable pub parts_values : ℕ → ℕ → List (List ℕ) → Option (List ℕ)
unfolding int_of split_once
parts_values low high [] = some []
parts_values low high (part ∷ parts) =
    joined (part_values low high (bounds_of low high part)) (parts_values low high parts)

-- `cron_field`: the set of its values.
unfoldable pub cron_field : List ℕ → ℕ → ℕ → Option (List ℕ)
unfolding split_all parts_values
cron_field spec low high = parts_values low high (split_all b',' spec)

abbrev pub has : ℕ → List ℕ → Bool
has x values = any (λ y. x == y) values

abbrev pub minute_of : ℕ → ℕ
minute_of t = t / 60000000 % 60

abbrev pub hour_of : ℕ → ℕ
hour_of t = t / 3600000000 % 24

-- `start.replace(second=0, microsecond=0)`, or the minute after it.
unfoldable pub first_minute : ℕ → ℕ
first_minute start =
    let current = start - start % 60000000 in
    if ltb current start then current + 60000000 else current

abbrev pub matches : List ℕ → List ℕ → ℕ → Bool
matches minutes hours t = has (minute_of t) minutes && has (hour_of t) hours

-- `while current <= end`
unfoldable pub minutes_from : ℕ → (ℕ → Bool) → ℕ → ℕ → List ℕ
minutes_from zero test current end = []
minutes_from (suc fuel) test current end =
    let rest = minutes_from fuel test (current + 60000000) end in
    if leb current end then (if test current then current ∷ rest else rest) else []

-- The rounds that the loop makes.
abbrev pub rounds : ℕ → ℕ → ℕ
rounds current end = (end - current) / 60000000 + 1

abbrev pub occurrences_in : Option (List ℕ) → Option (List ℕ) → ℕ → ℕ → Option (List ℕ)
occurrences_in (some minutes) (some hours) start end = some (
    minutes_from (rounds (first_minute start) end) (matches minutes hours) (first_minute start) end)
occurrences_in _ _ start end = none

abbrev pub occurrences_of : List (List ℕ) → ℕ → ℕ → Option (List ℕ)
occurrences_of (minute ∷ hour ∷ day ∷ month ∷ weekday ∷ []) start end =
    if is_star day && is_star month && is_star weekday
    then occurrences_in (cron_field minute 0 59) (cron_field hour 0 23) start end
    else none
occurrences_of _ start end = none

-- `cron_occurrences`
unfoldable pub cron_occurrences : String → ℕ → ℕ → Option (List ℕ)
unfolding split_words cron_field minutes_from first_minute
cron_occurrences expression start end = occurrences_of (split_words (codes expression)) start end
