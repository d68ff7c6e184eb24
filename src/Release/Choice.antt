-- ===== src/Release/Choice.antt =====
-- `verify_candidate`, `verify_approved` and `choose` of release/lifecycle.py. The verification of
-- the consumer results (`verify_consumers`) is a parameter: none is that it raises.
pub mod Spec
use alric_containers_image_b.Base.{
  ℕ, ◌+◌, ◌*◌, String, Bool, true, false, not, ◌&&◌, ◌||◌, Option, none, some, List, [], ◌∷◌,
  Result, ok, err, require, ◌>>=◌, ◌>>◌, str_eq, elem, any, all, ltb, leb, ◌==◌, is_some,
  if◌then◌else◌,
}
use alric_containers_image_b.Base.Maximum.{max_of}
use alric_containers_image_b.Release.Data.{
  Environment, dev, hom, is_dev, Member, ManifestState, published, dev_validated, dev_stable,
  Manifest, Ordinal, ordering, ordinal_leb, FrameworkState, States, state_of, or_empty, watermark,
  is_text, Policy,
}

pub data ChoiceError : Type 0 where
  bad_consumers not_validated not_stable in_future readback_differs : ChoiceError
  disabled invalid_soak resume_without_release : ChoiceError

-- `soak_hours`: a finite int or float as a duration, or a value of another kind.
pub data SoakHours : Type 0 where
  not_a_number : SoakHours
  duration : ℕ → SoakHours

abbrev is_state : ManifestState → ManifestState → Bool
is_state published published = true
is_state dev_validated dev_validated = true
is_state dev_stable dev_stable = true
is_state _ _ = false

-- A time stamp that is there and not after the clock.
abbrev is_past : Option ℕ → ℕ → Bool
is_past none now = false
is_past (some t) now = leb t now

-- Two mappings from framework to digest are equal; each framework stands in a mapping once.
abbrev digest_of : String → List Member → Option String
digest_of name [] = none
digest_of name (m ∷ ms) = if str_eq name m.name then some m.digest else digest_of name ms

abbrev within : List Member → List Member → Bool
within xs ys = all (λ m. is_text (digest_of m.name ys) m.digest) xs

abbrev pub same_digests : List Member → List Member → Bool
same_digests xs ys = within xs ys && within ys xs

abbrev pub hours : ℕ → ℕ
hours n = n * 3600000000

-- `states.get(name) or {}`
abbrev pub known : States → Member → FrameworkState
known states m = or_empty (state_of m.name states)

-- The two tests that the loop over the images makes of each.
abbrev pub admits : Manifest → Bool → States → Member → Bool
admits manifest resume states m =
    (not (known states m).hold || resume)
    && ordinal_leb (watermark (known states m)) (ordering manifest)

abbrev pub changes : Manifest → States → Member → Bool
changes manifest states m =
    not (is_text (known states m).release_id manifest.release_id)
    || not (is_text (known states m).digest m.digest)
    || (known states m).hold

-- `manifest[approved_at]`
abbrev pub approved_at : Environment → Manifest → Option ℕ
approved_at dev m = m.dev_validated_at
approved_at hom m = m.dev_stable_at

-- `timestamp(…) + soak <= clock`
abbrev pub is_soaked : Option ℕ → ℕ → ℕ → Bool
is_soaked none soak clock = false
is_soaked (some t) soak clock = leb (t + soak) clock

abbrev pub is_requested : Option String → Manifest → Bool
is_requested none m = true
is_requested (some release) m = str_eq m.release_id release

module _ (consumers_pass : Manifest → Bool) (now : ℕ) where
  unfoldable pub verify_candidate : Manifest → Result ChoiceError (Unit {0})
  verify_candidate m = do
    require (consumers_pass m) bad_consumers
    require (is_state m.state dev_validated) not_validated
    require (is_past m.dev_validated_at now) in_future

  unfoldable pub verify_approved : Manifest → Result ChoiceError (Unit {0})
  verify_approved m = do
    require (consumers_pass m) bad_consumers
    require (is_state m.state dev_stable) not_stable
    require (is_past m.dev_stable_at now) in_future
    require (same_digests m.dev_readback m.images) readback_differs

  unfoldable pub verify : Environment → Manifest → Result ChoiceError (Unit {0})
  unfolding verify_candidate verify_approved
  verify dev m = verify_candidate m
  verify hom m = verify_approved m

  module _ (environment : Environment) (policy : Policy) (states : States) (resume : Bool) where
    -- The tests of one round of the loop.
    unfoldable pub is_eligible : ℕ → ℕ → Option String → Manifest → Bool
    is_eligible soak clock requested m =
        is_requested requested m
        && all (λ i. elem i.name policy.frameworks) m.images
        && is_soaked (approved_at environment m) soak clock
        && all (admits m resume states) m.images
        && (is_dev environment || any (changes m states) m.images)

    unfoldable pub eligible :
        ℕ → ℕ → Option String → List Manifest → Result ChoiceError (List Manifest)
    unfolding is_eligible verify
    eligible soak clock requested [] = ok []
    eligible soak clock requested (m ∷ ms) =
        let later = eligible soak clock requested ms in
        do
          verify environment m
          rest ← later
          ok (if is_eligible soak clock requested m then m ∷ rest else rest)

    -- `choose`
    unfoldable pub choose :
        List Manifest → SoakHours → ℕ → Option String → Result ChoiceError (Option Manifest)
    unfolding eligible max_of
    choose manifests not_a_number clock requested = do
      require policy.enabled disabled
      err invalid_soak
    choose manifests (duration soak) clock requested = do
      require policy.enabled disabled
      require (leb policy.soak soak && leb soak (hours 8760)) invalid_soak
      require (not resume || is_some requested) resume_without_release
      found ← eligible soak clock requested manifests
      ok (max_of (λ a b. ordinal_leb (ordering a) (ordering b)) found)
