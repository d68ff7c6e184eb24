-- ===== src/Promotion/Evidence/Outcome.antt =====
-- The fields behind the outcome of a framework.
use alric_containers_image_b.Base.{
  String, ◌≡◌, refl, ◌⊎◌, inl, inr, Bool, true, false, Option, none, some, str_eq, eq_iff, arith,
  if◌then◌else◌,
}
use alric_containers_image_b.Promotion.Evidence.{
  ReadBack, confirmed, Evidence, is_confirmed, same_option, is_given, with_default, with_outcome,
  record_outcome,
}

-- One digest that was selected, asked for and observed.
pub record IsTold (e : Evidence) (digest : String) : Type 0 where
  pub selected : e.digest ≡ some digest
  pub asked : e.candidate_digest ≡ some digest
  pub observed : e.stable_digest_observed ≡ some digest
  pub read : e.read_back_status ≡ confirmed
  pub text : str_eq digest "" ≡ false

abbrev pub Agreed : Evidence → Type 0
Agreed e = (d : String) × IsTold e d

pub is_confirmed-confirmed : (r : ReadBack) → is_confirmed r ≡ true → r ≡ confirmed
is_confirmed-confirmed ReadBack.not_read h = absurd (ground (arith, h))
is_confirmed-confirmed ReadBack.read_failed h = absurd (ground (arith, h))
is_confirmed-confirmed ReadBack.mismatch h = absurd (ground (arith, h))
is_confirmed-confirmed confirmed h = refl

pub same_option-some : (o : Option String) (d : String) → same_option o (some d) ≡ true → o ≡ some d
same_option-some none d h = absurd (ground (arith, h))
same_option-some (some a) d h = ground (arith, h, eq_iff a d)

pub same_option_refl : (d : String) → same_option (some d) (some d) ≡ true
same_option_refl d = ground (arith, eq_iff d d)

one_digest :
    (asked selected observed : Option String)
    → is_given asked ≡ true
    → same_option asked selected ≡ true
    → same_option observed asked ≡ true
    → (d : String) × (asked ≡ some d)
      × (selected ≡ some d)
      × (observed ≡ some d)
      × (str_eq d "" ≡ false)
one_digest none selected observed g h k = absurd (ground (arith, g))
one_digest (some d) none observed g h k = absurd (ground (arith, h))
one_digest (some d) (some s) observed g h k =
    (d, refl, ground (arith, h, eq_iff d s), same_option-some observed d k, ground (arith, g))

with_outcome-Agreed :
    (e : Evidence) (succeeded skipped : Bool)
    → (with_outcome e succeeded skipped).promoted ≡ true
    → Agreed (with_outcome e succeeded skipped) × (succeeded ≡ true) × (skipped ≡ false)
with_outcome-Agreed e false skipped h = absurd (ground (arith, h))
with_outcome-Agreed e true true h = absurd (ground (arith, h))
with_outcome-Agreed e true false h =
    let g =
      one_digest e.candidate_digest e.digest e.stable_digest_observed (ground (arith, h))
        (ground (arith, h)) (ground (arith, h)) in
    (
      (
        g.0,
        record {
          selected = g.2;
          asked = g.1;
          observed = g.3;
          read = is_confirmed-confirmed e.read_back_status (ground (arith, h));
          text = g.4;
        },
      ),
      refl,
      refl,
    )

pub record_outcome-Agreed :
    (e : Evidence) (succeeded skipped : Bool)
    → (record_outcome e succeeded skipped).promoted ≡ true
    → Agreed (record_outcome e succeeded skipped) × (succeeded ≡ true) × (skipped ≡ false)
unfolding record_outcome
record_outcome-Agreed e = with_outcome-Agreed (with_default e)

Agreed-with_outcome : (e : Evidence) → Agreed e → (with_outcome e true false).promoted ≡ true
Agreed-with_outcome e (d, k) =
    rw (k.read, k.asked, k.selected, k.observed, k.text, same_option_refl d)

-- The read-back is confirmed, one digest, not empty, was selected and observed, and no other one was
-- asked for: the key is not there, or it has that digest.
pub record IsFit (e : Evidence) (digest : String) : Type 0 where
  pub selected : e.digest ≡ some digest
  pub asked : (e.has_candidate_digest ≡ false) ⊎ (e.candidate_digest ≡ some digest)
  pub observed : e.stable_digest_observed ≡ some digest
  pub read : e.read_back_status ≡ confirmed
  pub text : str_eq digest "" ≡ false

abbrev pub Fits : Evidence → Type 0
Fits e = (d : String) × IsFit e d

pub Agreed-Fits :
    (e : Evidence) (succeeded skipped : Bool) → Agreed (record_outcome e succeeded skipped) → Fits e
unfolding record_outcome
Agreed-Fits e succeeded skipped (d, k) = (d, go e.has_candidate_digest refl k)
  where
    go :
        (b : Bool)
        → e.has_candidate_digest ≡ b
        → IsTold
            (with_outcome
              (if b
                then e
                else record e { has_candidate_digest = true; candidate_digest = e.digest })
              succeeded
              skipped)
            d
        → IsFit e d
    go true q k = record {
      selected = k.selected;
      asked = inr k.asked;
      observed = k.observed;
      read = k.read;
      text = k.text;
    }
    go false q k = record {
      selected = k.selected;
      asked = inl q;
      observed = k.observed;
      read = k.read;
      text = k.text;
    }

Fits-Agreed : (e : Evidence) → Fits e → Agreed (with_default e)
Fits-Agreed e (d, k) = (d, go e.has_candidate_digest refl k.asked)
  where
    go :
        (b : Bool)
        → e.has_candidate_digest ≡ b
        → (e.has_candidate_digest ≡ false) ⊎ (e.candidate_digest ≡ some d)
        → IsTold
            (if b then e else record e { has_candidate_digest = true; candidate_digest = e.digest })
            d
    go true q (inl f) = absurd (ground (arith, q, f))
    go true q (inr asked) = record {
      selected = k.selected;
      asked = asked;
      observed = k.observed;
      read = k.read;
      text = k.text;
    }
    go false q a = record {
      selected = k.selected;
      asked = k.selected;
      observed = k.observed;
      read = k.read;
      text = k.text;
    }

pub Fits-record_outcome : (e : Evidence) → Fits e → (record_outcome e true false).promoted ≡ true
unfolding record_outcome
Fits-record_outcome e k = Agreed-with_outcome (with_default e) (Fits-Agreed e k)
