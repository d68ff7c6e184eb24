-- ===== src/Health/Cron/Occurrences.antt =====
-- The occurrences of a cron expression in a window.
use alric_containers_image_b.Base.{
  ℕ, zero, suc, ◌+◌, ◌-◌, ◌*◌, ◌/◌, ◌%◌, ◌≤◌, ◌<◌, String, ◌≡◌, refl, ap, ◌∙◌, sym, ◌↔◌, inl, inr,
  Bool, true, false, ◌&&◌, Option, none, some, List, [], ◌∷◌, In, arith, leb, ltb, ltb→lt,
  if◌then◌else◌,
}
use alric_containers_image_b.Base.Decimal.{codes}
use mathlib.Core.Path.{subst}
use alric_containers_image_b.Health.Cron.{
  minutes_from, rounds, first_minute, matches, cron_field, cron_occurrences, is_star, split_words,
  occurrences_in, occurrences_of,
}

-- The k-th round of the loop.
minutes_from-In :
    (fuel : ℕ) (test : ℕ → Bool) (current end t : ℕ)
    → In t (minutes_from fuel test current end)
    → (k : ℕ) × (t ≡ current + k * 60000000) × (t ≤ end) × (test t ≡ true)
unfolding minutes_from
minutes_from-In zero test current end t m = absurd m
minutes_from-In (suc fuel) test current end t m =
    go (leb current end) refl (test current) refl m
      (minutes_from-In fuel test (current + 60000000) end t)
  where
    go :
        (b : Bool)
        → leb current end ≡ b
        → (c : Bool) → test current ≡ c
        → In t (
            if b
            then (if c
                then current ∷ minutes_from fuel test (current + 60000000) end
                else minutes_from fuel test (current + 60000000) end)
            else [])
        → (In t (minutes_from fuel test (current + 60000000) end)
            → (k : ℕ) × (t ≡ (current + 60000000) + k * 60000000) × (t ≤ end) × (test t ≡ true))
        → (k : ℕ) × (t ≡ current + k * 60000000) × (t ≤ end) × (test t ≡ true)
    go false e c q n ih = absurd n
    go true e true q (inl same) ih =
        (0, ground (arith, same), ground (arith, same, e), ground (arith, same, q))
    go true e true q (inr n) ih = let r = ih n in (r.0 + 1, omega arith, r.2, r.3)
    go true e false q n ih = let r = ih n in (r.0 + 1, omega arith, r.2, r.3)

In-minutes_from :
    (fuel : ℕ) (test : ℕ → Bool) (current end k : ℕ)
    → k < fuel
    → current + k * 60000000 ≤ end
    → test (current + k * 60000000) ≡ true
    → In (current + k * 60000000) (minutes_from fuel test current end)
unfolding minutes_from
In-minutes_from zero test current end k l h q = absurd (omega arith)
In-minutes_from (suc fuel) test current end k l h q =
    go k l h q (leb current end) refl (test current) refl
      (λ j m i r. In-minutes_from fuel test (current + 60000000) end j m i r)
  where
    later :
        (j : ℕ)
        → suc j < suc fuel
        → current + suc j * 60000000 ≤ end
        → test (current + suc j * 60000000) ≡ true
        → ((i : ℕ)
            → i < fuel
            → current + 60000000 + i * 60000000 ≤ end
            → test (current + 60000000 + i * 60000000) ≡ true
            → In
                (current + 60000000 + i * 60000000)
                (minutes_from fuel test (current + 60000000) end))
        → In (current + suc j * 60000000) (minutes_from fuel test (current + 60000000) end)
    later j l h q ih =
        let e : current + suc j * 60000000 ≡ current + 60000000 + j * 60000000 = omega arith in
        subst (λ t. In t (minutes_from fuel test (current + 60000000) end)) (sym e)
          (ih j (omega arith) (omega arith) (subst (λ t. test t ≡ true) e q))

    go :
        (k : ℕ)
        → k < suc fuel
        → current + k * 60000000 ≤ end
        → test (current + k * 60000000) ≡ true
        → (b : Bool) → leb current end ≡ b
        → (c : Bool) → test current ≡ c
        → ((j : ℕ)
            → j < fuel
            → current + 60000000 + j * 60000000 ≤ end
            → test (current + 60000000 + j * 60000000) ≡ true
            → In
                (current + 60000000 + j * 60000000)
                (minutes_from fuel test (current + 60000000) end))
        → In (current + k * 60000000) (
            if b
            then (if c
                then current ∷ minutes_from fuel test (current + 60000000) end
                else minutes_from fuel test (current + 60000000) end)
            else [])
    go k l h q false e c r ih = absurd (ground (arith, h, e))
    go zero l h q true e true r ih = inl (omega arith)
    go zero l h q true e false r ih = absurd (ground (arith, q, r))
    go (suc j) l h q true e true r ih = inr (later j l h q ih)
    go (suc j) l h q true e false r ih = later j l h q ih

-- The first whole minute that is not before the start.
abbrev IsFirst : ℕ → ℕ → Type 0
IsFirst start x = (start ≤ x) × (x % 60000000 ≡ 0) × (x < start + 60000000)

some-list : (a b : List ℕ) → some a ≡ some b → a ≡ b
some-list a b h = ap (λ o. elim o [ none ↦ a | some x ↦ x ]) h

first_minute-IsFirst : (start : ℕ) → IsFirst start (first_minute start)
unfolding first_minute
first_minute-IsFirst start = go (ltb (start - start % 60000000) start) refl
  where
    go :
        (b : Bool)
        → ltb (start - start % 60000000) start ≡ b
        → IsFirst start
            (if b then start - start % 60000000 + 60000000 else start - start % 60000000)
    go true e =
        let l = ltb→lt (start - start % 60000000) start e in (omega arith, omega arith, omega arith)
    go false e = (ground (arith, e), omega arith, omega arith)

-- A moment that the fields name, in the window.
pub record IsDue (minutes hours : List ℕ) (start end t : ℕ) : Type 0 where
  pub after : start ≤ t
  pub before : t ≤ end
  pub whole : t % 60000000 ≡ 0
  pub named : matches minutes hours t ≡ true

-- A whole minute from the first one on is a number of rounds later.
round_of :
    (start first t : ℕ)
    → IsFirst start first
    → start ≤ t
    → t % 60000000 ≡ 0
    → t ≡ first + (t - first) / 60000000 * 60000000
round_of start first t (f, g, h) l e = omega arith

rounds_enough :
    (first end t : ℕ)
    → t ≡ first + (t - first) / 60000000 * 60000000
    → t ≤ end
    → (t - first) / 60000000 < rounds first end
rounds_enough first end t e l = omega arith

due-In :
    (minutes hours : List ℕ) (start end t : ℕ)
    → IsDue minutes hours start end t
    → In t (
        minutes_from
          (rounds (first_minute start) end)
          (matches minutes hours)
          (first_minute start)
          end)
due-In minutes hours start end t d =
    go (first_minute start)
      (round_of start (first_minute start) t (first_minute-IsFirst start) d.after d.whole)
  where
    go :
        (first : ℕ)
        → t ≡ first + (t - first) / 60000000 * 60000000
        → In t (minutes_from (rounds first end) (matches minutes hours) first end)
    go first e =
        subst (λ x. In x (minutes_from (rounds first end) (matches minutes hours) first end))
          (sym e)
          (In-minutes_from (rounds first end) (matches minutes hours) first end
            ((t - first) / 60000000) (rounds_enough first end t e d.before)
            (subst (λ x. x ≤ end) e d.before)
            (subst (λ x. matches minutes hours x ≡ true) e d.named))

in-IsDue :
    (minutes hours : List ℕ) (start end t : ℕ)
    → In t (
        minutes_from
          (rounds (first_minute start) end)
          (matches minutes hours)
          (first_minute start)
          end)
    → IsDue minutes hours start end t
in-IsDue minutes hours start end t m = go (first_minute start) (first_minute-IsFirst start) (
    minutes_from-In (rounds (first_minute start) end) (matches minutes hours) (first_minute start)
      end t m)
  where
    go :
        (first : ℕ)
        → IsFirst start first
        → ((k : ℕ) × (t ≡ first + k * 60000000) × (t ≤ end) × (matches minutes hours t ≡ true))
        → IsDue minutes hours start end t
    go first (f, g, h) (k, e, l, q) = record {
      after = omega arith;
      before = l;
      whole = omega arith;
      named = q;
    }

-- The fields of an expression that is supported, and their values.
pub record IsCron (expression : String) (minutes hours : List ℕ) : Type 0 where
  pub minute : List ℕ
  pub hour : List ℕ
  pub fields :
      split_words (codes expression) ≡ minute ∷ hour ∷ (b'*' ∷ []) ∷ (b'*' ∷ []) ∷ (b'*' ∷ []) ∷ []
  pub minute_values : cron_field minute 0 59 ≡ some minutes
  pub hour_values : cron_field hour 0 23 ≡ some hours

is_star-star : (field : List ℕ) → is_star field ≡ true → field ≡ b'*' ∷ []
is_star-star [] h = absurd (ground (arith, h))
is_star-star (c ∷ []) h = ground (arith, h)
is_star-star (c ∷ d ∷ cs) h = absurd (ground (arith, h))

pub if_some :
    (c : Bool) (x : Option (List ℕ)) (found : List ℕ)
    → (if c then x else none) ≡ some found
    → (c ≡ true) × (x ≡ some found)
if_some true x found h = (refl, h)
if_some false x found h = absurd (ground (arith, h))

stars :
    (minute hour day month weekday : List ℕ)
    → day ≡ b'*' ∷ []
    → month ≡ b'*' ∷ []
    → weekday ≡ b'*' ∷ []
    → (minute ∷ hour ∷ day ∷ month ∷ weekday ∷ [])
      ≡ minute ∷ hour ∷ (b'*' ∷ []) ∷ (b'*' ∷ []) ∷ (b'*' ∷ []) ∷ []
stars minute hour day month weekday d m w = rw (d, m, w)

-- When cron_occurrences returns, the expression has five fields, the last three of them stars, and
-- a moment is among the occurrences exactly when it lies in the window, bounds included, is a
-- whole minute, and its minute and hour are values of the first two fields.
pub cron_occurrences-Exact :
    (expression : String) (start end : ℕ) (found : List ℕ)
    → cron_occurrences expression start end ≡ some found
    → (minutes : List ℕ) × (hours : List ℕ) × IsCron expression minutes hours
      × ((t : ℕ) → In t found ↔ IsDue minutes hours start end t)
unfolding cron_occurrences
cron_occurrences-Exact expression start end found h = go (split_words (codes expression)) refl h
  where
    fields :
        (minute hour : List ℕ)
        → split_words (codes expression)
          ≡ minute ∷ hour ∷ (b'*' ∷ []) ∷ (b'*' ∷ []) ∷ (b'*' ∷ []) ∷ []
        → (m : Option (List ℕ)) → cron_field minute 0 59 ≡ m
        → (n : Option (List ℕ)) → cron_field hour 0 23 ≡ n
        → occurrences_in m n start end ≡ some found
        → (minutes : List ℕ) × (hours : List ℕ) × IsCron expression minutes hours
          × ((t : ℕ) → In t found ↔ IsDue minutes hours start end t)
    fields minute hour e none f n g k = absurd (ground (arith, k))
    fields minute hour e (some minutes) f none g k = absurd (ground (arith, k))
    fields minute hour e (some minutes) f (some hours) g k = (
      minutes,
      hours,
      record { minute = minute; hour = hour; fields = e; minute_values = f; hour_values = g },
      λ t. (
        λ i. in-IsDue minutes hours start end t (subst (In t) (sym (some-list _ found k)) i),
        λ d. subst (In t) (some-list _ found k) (due-In minutes hours start end t d),
      ),
    )

    go :
        (words : List (List ℕ))
        → split_words (codes expression) ≡ words
        → occurrences_of words start end ≡ some found
        → (minutes : List ℕ) × (hours : List ℕ) × IsCron expression minutes hours
          × ((t : ℕ) → In t found ↔ IsDue minutes hours start end t)
    go (minute ∷ hour ∷ day ∷ month ∷ weekday ∷ []) e k =
        let c = if_some (is_star day && is_star month && is_star weekday) _ found k in
        fields minute hour
          (e
            ∙ stars minute hour day month weekday (is_star-star day (ground (arith, c.0)))
                (is_star-star month (ground (arith, c.0)))
                (is_star-star weekday (ground (arith, c.0))))
          (cron_field minute 0 59) refl (cron_field hour 0 23) refl c.1
    go [] e k = absurd (ground (arith, k))
    go (a ∷ []) e k = absurd (ground (arith, k))
    go (a ∷ b ∷ []) e k = absurd (ground (arith, k))
    go (a ∷ b ∷ c ∷ []) e k = absurd (ground (arith, k))
    go (a ∷ b ∷ c ∷ d ∷ []) e k = absurd (ground (arith, k))
    go (a ∷ b ∷ c ∷ d ∷ f ∷ g ∷ words) e k = absurd (ground (arith, k))
