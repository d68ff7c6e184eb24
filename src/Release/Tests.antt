-- ===== src/Release/Tests.antt =====
-- A release of two images, chosen and published, on a destination that survives or is cut off.
use alric_containers_image_b.Base.{
  ℕ, ◌≤◌, In, inl, inr, ap, ◌∙◌, sym, str_eq, if◌then◌else◌, map, arith, ◌≡◌, refl, ◌⊎◌, Bool,
  String, true, false, none, some, List, [], ◌∷◌, Result, ok, err,
}
use alric_containers_image_b.Base.Maximum.{max_of}
use alric_containers_image_b.Base.Act.{Stop, for_each, attempt, ◌>>=◌}
use alric_containers_image_b.Release.Data.{
  Environment, Member, FrameworkState, ManifestState, Manifest, States, Policy, ordering,
  ordinal_leb,
}
use alric_containers_image_b.Release.Choice.{
  duration, choose, eligible, is_eligible, verify, verify_candidate,
}
use alric_containers_image_b.Release.Choice.Spec.{IsPromotable, choose-some, choose-none}
use alric_containers_image_b.Release.Destination.{View}
use alric_containers_image_b.Release.Publication.{
  Context, Run, publish_states, publish, observe, stable_digest, check_unchanged, hold, put,
  put_answer, put_receipt, get, complete, write_member, write_stable, read_index, tag_stable,
  confirm, mark_promoted, release_member, give_up,
}
use alric_containers_image_b.Release.Publication.Covered.{Held, Confirmed, Unchanged, Released}
use alric_containers_image_b.Release.Publication.Outcome.{publish_states-ok, publish_states-Covered}
use alric_containers_image_b.Release.Publication.Returns.{publish_states-Returns}
use alric_containers_image_b.Release.Rehearsal.Willing.{
  itself, willing, willing-IsLawful, willing-IsAccepting,
}
use alric_containers_image_b.Release.Rehearsal.{has_digest, view_of, rehearsal, rehearsal-IsLawful}

abbrev images : List Member
images =
    record { name = "node"; digest = "sha256:n" }
    ∷ record { name = "python"; digest = "sha256:p" }
    ∷ []

abbrev release : Manifest
release = record {
  release_id = "r7";
  run_id = 7;
  attempt = 1;
  images = images;
  state = ManifestState.dev_validated;
  dev_validated_at = some 5;
  dev_stable_at = none;
  dev_readback = [];
  units = ("node" ∷ []) ∷ ("python" ∷ []) ∷ [];
  consumer_results = [];
  image_details = "";
  source = "";
}

abbrev policy : Policy
policy = record { enabled = true; soak = 10; frameworks = "node" ∷ "python" ∷ [] }

abbrev states : States
states = ("node", none) ∷ ("python", none) ∷ []

abbrev all_pass : Manifest → Bool
all_pass m = true

chooses :
    choose all_pass 20 Environment.dev policy states false (release ∷ []) (duration 10) 20 none
    ≡ ok (some release)
unfolding choose eligible is_eligible verify verify_candidate max_of
chooses = refl

waits :
    choose all_pass 20 Environment.dev policy states false (release ∷ []) (duration 10) 14 none
    ≡ ok none
unfolding choose eligible is_eligible verify verify_candidate max_of
waits = refl

abbrev context : Context
context = record {
  event = "e1";
  started_at = 20;
  completed_at = 21;
  checksum = λ m. "sha256:m";
  same_doc = λ a b. true;
  index_matches = has_digest;
}

abbrev empty : View
empty = record { objects = λ k. none; stable = λ n. none }

abbrev publishes : ℕ → Result Stop (Unit {0}) × Run rehearsal
publishes budget =
    publish_states rehearsal context release states Environment.dev false "" (empty, budget)

-- Nine writes are enough: two holds, a receipt, two tags, a receipt, and two states.
returns : (publishes 8).0 ≡ ok tt
unfolding publish_states publish observe stable_digest check_unchanged hold put put_answer
    put_receipt get complete write_member write_stable read_index tag_stable confirm mark_promoted
    release_member give_up for_each attempt ◌>>=◌
returns = refl

-- Cut off between the two tags.
cut_off :
    ((publishes 4).0 ≡ err Stop.killed)
    × ((view_of (publishes 4).1.remote).stable "node" ≡ some "sha256:n")
    × ((view_of (publishes 4).1.remote).stable "python" ≡ none)
unfolding publish_states publish observe stable_digest check_unchanged hold put put_answer
    put_receipt get complete write_member write_stable read_index tag_stable confirm mark_promoted
    release_member give_up for_each attempt ◌>>=◌
cut_off = (refl, refl, refl)

choose-some_example :
    (policy.enabled ≡ true)
    × (policy.soak ≤ 10)
    × In release (release ∷ [])
    × IsPromotable Environment.dev policy states false 10 20 none release
    × ((other : Manifest)
        → In other (release ∷ [])
        → verify all_pass 20 Environment.dev other ≡ ok tt)
    × ((other : Manifest)
        → In other (release ∷ [])
        → IsPromotable Environment.dev policy states false 10 20 none other
        → ordinal_leb (ordering other) (ordering release) ≡ true)
choose-some_example =
    choose-some Environment.dev policy states false 10 20 none all_pass 20 (release ∷ []) release
      chooses

choose-none_example : ¬ IsPromotable Environment.dev policy states false 10 14 none release
choose-none_example =
    choose-none Environment.dev policy states false 10 14 none all_pass 20 (release ∷ []) waits
      release (inl refl)

publish_states-ok_example :
    Confirmed images (view_of (publishes 8).1.remote)
    × Released rehearsal context view_of rehearsal-IsLawful release states Environment.dev false ""
        (view_of (publishes 8).1.remote)
publish_states-ok_example =
    publish_states-ok rehearsal context view_of rehearsal-IsLawful release states Environment.dev
      false "" (empty, 8) returns

publish_states-Covered_example :
    Unchanged empty (view_of (publishes 4).1.remote)
    ⊎ Held images (view_of (publishes 4).1.remote)
    ⊎ Confirmed images (view_of (publishes 4).1.remote)
publish_states-Covered_example =
    publish_states-Covered rehearsal context view_of rehearsal-IsLawful release states
      Environment.dev false "" (empty, 4)

publish_states-Returns_example :
    (publish_states willing context release states Environment.dev false "" empty).0 ≡ ok tt
publish_states-Returns_example =
    publish_states-Returns willing context itself willing-IsLawful release
      (willing-IsAccepting context images (λ i raw. refl)) states Environment.dev false "" empty
      knows one (refl, (refl, refl)) (inr expects)
  where
    knows : (i : Member) → In i images → In i.name (map (λ e. e.0) states)
    knows i (inl e) = inl (ap (λ x. x.name) e)
    knows i (inr (inl e)) = inr (inl (ap (λ x. x.name) e))
    knows i (inr (inr x)) = absurd x

    one : (i j : Member) → In i images → In j images → i.name ≡ j.name → i.digest ≡ j.digest
    one i j k l h = digest_of_name i k ∙ (ap by_name h ∙ sym (digest_of_name j l))
      where
        by_name : String → String
        by_name name = if str_eq name "node" then "sha256:n" else "sha256:p"

        digest_of_name : (x : Member) → In x images → x.digest ≡ by_name x.name
        digest_of_name x (inl e) = ap (λ y. y.digest) e ∙ sym (ap (λ y. by_name y.name) e)
        digest_of_name x (inr (inl e)) = ap (λ y. y.digest) e ∙ sym (ap (λ y. by_name y.name) e)
        digest_of_name x (inr (inr n)) = absurd n

    expects :
        (name : String) (previous : FrameworkState)
        → In (name, some previous) states
        → (previous.hold ≡ true)
          ⊎ (In name (map (λ i. i.name) images)
              × ((d : String) × (previous.digest ≡ some d) × (none ≡ some d)))
    expects name previous k = absurd (ground (arith, k))
