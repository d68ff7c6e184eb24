-- ===== src/BuildTag.antt =====
-- Build tags, `ddmmyy-hhmm` or `ddmmyy-hhmm-r<run>-a<attempt>`: `is_build_tag` and
-- `build_tag_order` of release/find_promotion_candidate.py, `run_identity` of
-- release/verify_promotion_pair.py. A tag is the list of its code points.
pub mod RoundTrip
mod Tests
use alric_containers_image_b.Base.{
  ℕ, ◌+◌, ◌-◌, ◌*◌, ◌%◌, Bool, true, false, ◌&&◌, ◌||◌, Option, none, some, List, [], ◌∷◌, ltb, leb,
  ◌==◌, is_some, all, if◌then◌else◌,
}
use alric_containers_image_b.Base.Decimal.{value, is_digit, is_digit19, is_positive_number}

pub record Stamp : Type 0 where
  pub day : ℕ
  pub month : ℕ
  pub year : ℕ
  pub hour : ℕ
  pub minute : ℕ

-- The longest run of digits at the head, and the rest.
unfoldable pub span_digits : List ℕ → List ℕ × List ℕ
span_digits [] = ([], [])
span_digits (c ∷ cs) =
    let (digits, rest) = span_digits cs in if is_digit c then (c ∷ digits, rest) else ([], c ∷ cs)

-- `-r([1-9][0-9]*)-a([1-9][0-9]*)` to the end of the text.
match_attempt : List ℕ → List ℕ → Option (List ℕ × List ℕ)
match_attempt run (dash ∷ a ∷ attempt) =
    if is_positive_number run && dash == b'-' && a == b'a' && is_positive_number attempt
    then some (run, attempt)
    else none
match_attempt run _ = none

unfoldable pub match_run : List ℕ → Option (List ℕ × List ℕ)
unfolding match_attempt span_digits
match_run (dash ∷ r ∷ cs) =
    if dash == b'-' && r == b'r'
    then (let (run, rest) = span_digits cs in match_attempt run rest)
    else none
match_run _ = none

abbrev two_digits : ℕ → ℕ → ℕ
two_digits a b = (a - 48) * 10 + (b - 48)

-- `([0-9]{6}-[0-9]{4})` at the head: the fields in the order that strptime reads them.
unfoldable pub match_stamp : List ℕ → Option (Stamp × List ℕ)
match_stamp (d₁ ∷ d₂ ∷ m₁ ∷ m₂ ∷ y₁ ∷ y₂ ∷ dash ∷ h₁ ∷ h₂ ∷ i₁ ∷ i₂ ∷ rest) =
    if all is_digit (d₁ ∷ d₂ ∷ m₁ ∷ m₂ ∷ y₁ ∷ y₂ ∷ h₁ ∷ h₂ ∷ i₁ ∷ i₂ ∷ []) && dash == b'-'
    then some (
      record {
        day = two_digits d₁ d₂;
        month = two_digits m₁ m₂;
        year = two_digits y₁ y₂;
        hour = two_digits h₁ h₂;
        minute = two_digits i₁ i₂;
      },
      rest,
    )
    else none
match_stamp _ = none

-- `%y` of strptime: 69 to 99 lie in the last century.
unfoldable pub full_year : ℕ → ℕ
full_year y = if ltb y 69 then 2000 + y else 1900 + y

is_leap : ℕ → Bool
is_leap y = y % 4 == 0 && (ltb 0 (y % 100) || y % 400 == 0)

days_in_month : ℕ → ℕ → ℕ
unfolding is_leap
days_in_month y m =
    if m == 2
    then (if is_leap y then 29 else 28)
    else if m == 4 || m == 6 || m == 9 || m == 11
    then 30
    else 31

-- The dates that `datetime.strptime(…, "%d%m%y-%H%M")` accepts.
unfoldable pub is_date : Stamp → Bool
unfolding days_in_month full_year
is_date s =
    leb 1 s.day
    && leb s.day (days_in_month (full_year s.year) s.month)
    && leb 1 s.month
    && leb s.month 12
    && leb s.hour 23
    && leb s.minute 59

is_suffix : List ℕ → Bool
is_suffix [] = true
is_suffix (c ∷ cs) = is_some (match_run (c ∷ cs))

-- `is_build_tag`
unfoldable pub is_build_tag : List ℕ → Bool
unfolding match_stamp is_suffix match_run is_date
is_build_tag tag = elim (match_stamp tag) [
  | none ↦ false
  | some (stamp, rest) ↦ is_suffix rest && is_date stamp
]

run_numbers : Option (List ℕ × List ℕ) → List ℕ
run_numbers none = 0 ∷ 0 ∷ []
run_numbers (some (run, attempt)) = value 0 run ∷ value 0 attempt ∷ []

-- `build_tag_order` of a build tag: the date, the run and the attempt, compared in that order.
unfoldable pub build_tag_order : List ℕ → List ℕ
unfolding match_stamp full_year match_run run_numbers
build_tag_order tag = elim (match_stamp tag) [
  | none ↦ []
  | some (s, rest) ↦
      full_year s.year ∷ s.month ∷ s.day ∷ s.hour ∷ s.minute ∷ run_numbers (match_run rest)
]

-- Tuples of numbers are compared by their first difference.
unfoldable pub lex_leb : List ℕ → List ℕ → Bool
lex_leb [] ys = true
lex_leb (x ∷ xs) [] = false
lex_leb (x ∷ xs) (y ∷ ys) = let rest = lex_leb xs ys in if x == y then rest else ltb x y

-- A match may end before a last line feed, where `$` holds too.
without_newline : List ℕ → List ℕ
without_newline [] = []
without_newline (c ∷ []) = if c == 10 then [] else c ∷ []
without_newline (c ∷ d ∷ cs) = c ∷ without_newline (d ∷ cs)

-- `RUN_SUFFIX.search`: the first place from which the pattern reaches the end.
search_run : List ℕ → Option (List ℕ × List ℕ)
search_run [] = none
search_run (c ∷ cs) =
    let later = search_run cs in
    elim (match_run (c ∷ cs)) [ some found ↦ some found | none ↦ later ]

-- `run_identity`: the run and the attempt as they are written, or none where it raises.
unfoldable pub run_identity : List ℕ → Option (List ℕ × List ℕ)
unfolding search_run without_newline is_build_tag
run_identity tag = elim (search_run (without_newline tag)) [
  | none ↦ none
  | some identity ↦ if is_build_tag tag then some identity else none
]
