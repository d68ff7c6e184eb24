-- ===== src/BuildTag/RoundTrip.antt =====
-- A tag as the build writes it, and what is read of it.
use alric_containers_image_b.Base.{
  ℕ, ◌+◌, ◌/◌, ◌%◌, ◌<◌, ◌≡◌, refl, Bool, true, false, not, some, List, [], ◌∷◌, ◌++◌, arith, ◌==◌,
  all,
}
use alric_containers_image_b.Base.Decimal.{
  show, codes, value-show, is_digit, is_positive_number, is_positive_number-show,
}
use alric_containers_image_b.BuildTag.{
  Stamp, span_digits, match_run, match_stamp, full_year, is_date, is_build_tag, two_digits,
  build_tag_order, without_newline, search_run, run_identity,
}

abbrev two : ℕ → List ℕ
two n = (48 + n / 10) ∷ (48 + n % 10) ∷ []

abbrev pub run_text : ℕ → ℕ → List ℕ
run_text run attempt = b'-' ∷ b'r' ∷ (codes (show run) ++ b'-' ∷ b'a' ∷ codes (show attempt))

-- `<ddmmyy-hhmm>-r<run>-a<attempt>`
pub tag_text : Stamp → ℕ → ℕ → List ℕ
tag_text s run attempt =
    two s.day
    ++ (two s.month
        ++ (two s.year ++ (b'-' ∷ (two s.hour ++ (two s.minute ++ run_text run attempt)))))

all_of_positive : (cs : List ℕ) → is_positive_number cs ≡ true → all is_digit cs ≡ true
all_of_positive [] h = refl
all_of_positive (c ∷ cs) h = ground arith

span_digits-append :
    (ds rest : List ℕ)
    → all is_digit ds ≡ true
    → span_digits (ds ++ b'-' ∷ rest) ≡ (ds, b'-' ∷ rest)
unfolding span_digits
span_digits-append [] rest h = refl
span_digits-append (d ∷ ds) rest h = ground (arith, span_digits-append ds rest)

pub match_run-run_text :
    (run attempt : ℕ)
    → 0 < run
    → 0 < attempt
    → match_run (run_text run attempt) ≡ some (codes (show run), codes (show attempt))
unfolding match_run
match_run-run_text run attempt p q = ground (
  arith,
  is_positive_number-show run p,
  is_positive_number-show attempt q,
  span_digits-append (codes (show run)) (b'a' ∷ codes (show attempt))
      (all_of_positive (codes (show run)) (is_positive_number-show run p)),
)

abbrev IsTwoDigits : Stamp → Type 0
IsTwoDigits s = (s.day < 100) × (s.month < 100) × (s.year < 100) × (s.hour < 100) × (s.minute < 100)

is_digit_tens : (n : ℕ) → n < 100 → is_digit (48 + n / 10) ≡ true
is_digit_tens n h = ground arith

is_digit_units : (n : ℕ) → is_digit (48 + n % 10) ≡ true
is_digit_units n = ground arith

two_digits-two : (n : ℕ) → n < 100 → two_digits (48 + n / 10) (48 + n % 10) ≡ n
two_digits-two n h = omega arith

match_stamp-tag_text :
    (s : Stamp) (run attempt : ℕ)
    → IsTwoDigits s
    → match_stamp (tag_text s run attempt) ≡ some (s, run_text run attempt)
unfolding match_stamp tag_text
match_stamp-tag_text s run attempt h = simp (
  is_digit_tens s.day h.0,
  is_digit_units s.day,
  two_digits-two s.day h.0,
  is_digit_tens s.month h.1,
  is_digit_units s.month,
  two_digits-two s.month h.1,
  is_digit_tens s.year h.2,
  is_digit_units s.year,
  two_digits-two s.year h.2,
  is_digit_tens s.hour h.3,
  is_digit_units s.hour,
  two_digits-two s.hour h.3,
  is_digit_tens s.minute h.4,
  is_digit_units s.minute,
  two_digits-two s.minute h.4,
)

-- No text with a hyphen and an `r` starts here.
search_run-skip : (c : ℕ) (cs : List ℕ) → (c == b'-') ≡ false → search_run (c ∷ cs) ≡ search_run cs
unfolding search_run match_run
search_run-skip c [] h = ground arith
search_run-skip c (d ∷ cs) h = ground arith

search_run-skip_dash :
    (d : ℕ) (cs : List ℕ) → (d == b'r') ≡ false → search_run (b'-' ∷ d ∷ cs) ≡ search_run (d ∷ cs)
unfolding search_run match_run
search_run-skip_dash d cs h = ground arith

search_run-found :
    (c : ℕ) (cs : List ℕ) (found : List ℕ × List ℕ)
    → match_run (c ∷ cs) ≡ some found
    → search_run (c ∷ cs) ≡ some found
unfolding search_run
search_run-found c cs found h = ground arith

search_run-two : (n : ℕ) (rest : List ℕ) → n < 100 → search_run (two n ++ rest) ≡ search_run rest
search_run-two n rest h = rw (
  search_run-skip (48 + n / 10) ((48 + n % 10) ∷ rest) (ground arith),
  search_run-skip (48 + n % 10) rest (ground arith),
)

abbrev no_newline : ℕ → Bool
no_newline c = not (c == 10)

without_newline_lem : (cs : List ℕ) → all no_newline cs ≡ true → without_newline cs ≡ cs
unfolding without_newline
without_newline_lem [] h = refl
without_newline_lem (c ∷ []) h = ground arith
without_newline_lem (c ∷ d ∷ cs) h = ground (arith, without_newline_lem (d ∷ cs))

no_newline_of_digit : (c : ℕ) → is_digit c ≡ true → no_newline c ≡ true
no_newline_of_digit c h = ground arith

no_newline-digits :
    (cs ds : List ℕ)
    → all is_digit cs ≡ true
    → all no_newline ds ≡ true
    → all no_newline (cs ++ ds) ≡ true
no_newline-digits [] ds h k = k
no_newline-digits (c ∷ cs) ds h k = ground (arith, no_newline-digits cs ds)

no_newline_of_digits : (cs : List ℕ) → all is_digit cs ≡ true → all no_newline cs ≡ true
no_newline_of_digits [] h = refl
no_newline_of_digits (c ∷ cs) h = ground (arith, no_newline_of_digits cs)

no_newline-two :
    (n : ℕ) (rest : List ℕ) → n < 100 → all no_newline (two n ++ rest) ≡ all no_newline rest
no_newline-two n rest h = rw (
  no_newline_of_digit (48 + n / 10) (is_digit_tens n h),
  no_newline_of_digit (48 + n % 10) (is_digit_units n),
)

module _ (s : Stamp) (run attempt : ℕ) (run_pos : 0 < run) (attempt_pos : 0 < attempt)
    (h : IsTwoDigits s) where
  digits-run : all is_digit (codes (show run)) ≡ true
  digits-run = all_of_positive (codes (show run)) (is_positive_number-show run run_pos)

  digits-attempt : all is_digit (codes (show attempt)) ≡ true
  digits-attempt =
      all_of_positive (codes (show attempt)) (is_positive_number-show attempt attempt_pos)

  no_newline-tag_text : all no_newline (tag_text s run attempt) ≡ true
  unfolding tag_text
  no_newline-tag_text =
      rw
        (
          no_newline-two s.day (two s.month ++ _) h.0,
          no_newline-two s.month (two s.year ++ _) h.1,
          no_newline-two s.year (b'-' ∷ _) h.2,
          no_newline-two s.hour (two s.minute ++ _) h.3,
          no_newline-two s.minute (run_text run attempt) h.4,
        )
        (no_newline-digits (codes (show run)) (b'-' ∷ b'a' ∷ codes (show attempt)) digits-run
          (no_newline_of_digits (codes (show attempt)) digits-attempt))

  search_run-tag_text :
      search_run (tag_text s run attempt) ≡ some (codes (show run), codes (show attempt))
  unfolding tag_text
  search_run-tag_text =
      rw
        (
          search_run-two s.day _ h.0,
          search_run-two s.month _ h.1,
          search_run-two s.year _ h.2,
          search_run-skip_dash (48 + s.hour / 10) _ (ground arith),
          search_run-two s.hour _ h.3,
          search_run-two s.minute _ h.4,
        )
        (search_run-found b'-' _ _ (match_run-run_text run attempt run_pos attempt_pos))

  is_build_tag-tag_text : is_build_tag (tag_text s run attempt) ≡ is_date s
  unfolding is_build_tag
  is_build_tag-tag_text = ground (
    arith,
    match_stamp-tag_text s run attempt h,
    match_run-run_text run attempt run_pos attempt_pos,
  )

  -- The tag written for a real date, a positive run and a positive attempt is recognised as a
  -- build tag, its order is the date, then the run, then the attempt, and its run identity is the
  -- run and the attempt as numbers are written.
  pub tag_text-fields :
      is_date s ≡ true
      → (is_build_tag (tag_text s run attempt) ≡ true)
        × (build_tag_order (tag_text s run attempt)
            ≡ full_year s.year ∷ s.month ∷ s.day ∷ s.hour ∷ s.minute ∷ run ∷ attempt ∷ [])
        × (run_identity (tag_text s run attempt) ≡ some (codes (show run), codes (show attempt)))
  unfolding build_tag_order run_identity
  tag_text-fields date = (
    rw is_build_tag-tag_text date,
    ground (
      arith,
      match_stamp-tag_text s run attempt h,
      match_run-run_text run attempt run_pos attempt_pos,
      value-show run,
      value-show attempt,
    ),
    ground (
      arith,
      without_newline_lem (tag_text s run attempt) no_newline-tag_text,
      search_run-tag_text,
      is_build_tag-tag_text,
    ),
  )
