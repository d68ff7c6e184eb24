-- ===== src/Release/Lifecycle/DevRuns.antt =====
-- What the commands of DEV keep, if their publications lead from the one statement to the other.
use alric_containers_image_b.Base.{
  String, ◌≡◌, refl, ap, ◌∙◌, inl, inr, Bool, true, false, Option, none, some, List, [], ◌∷◌, ok,
  In, arith, if◌then◌else◌,
}
use mathlib.Core.Path.{subst}
use alric_containers_image_b.Base.Membership.{In-map}
use alric_containers_image_b.Base.Act.{Act, pure, ◌>>=◌}
use alric_containers_image_b.Base.Act.Triples.{
  Triple, weaken, bind, chain, attempted, Keeps, Keeps-demand,
}
use alric_containers_image_b.Release.Data.{dev, Member, Manifest, FrameworkState, States, state_of}
use alric_containers_image_b.Release.Choice.{duration, choose}
use alric_containers_image_b.Release.Destination.{Key, Destination, View, IsLawful}
use alric_containers_image_b.Release.Site.{Tools, Site, Event}
use alric_containers_image_b.Release.Lifecycle.{Setting, Order, or_stop}
use alric_containers_image_b.Release.Lifecycle.Dev.{
  approval, persist, complete_dev, execute_unit, execute_all, validate_release, candidate_for,
  choose_now, approve_new, approve_known, finish_approval, finish_promotion, run_approve_dev,
  unapproved, candidates_at, candidate_keys, run_promote_dev,
}
use alric_containers_image_b.Release.Lifecycle.Steps.{
  of_manifest, of_candidate, IsKept, Here, Keeps-or_stop, Keeps-pure, Keeps-stop, Keeps-call,
  Keeps-report, Keeps-validate_destination, Keeps-verify_in,
}
use alric_containers_image_b.Release.Lifecycle.Reads.{
  Keeps-get_manifest, Keeps-find_manifest, Reads-read_states, state_there, Keeps-list_keys,
  Keeps-put_manifest,
}
use alric_containers_image_b.Base.Act.Triples.{Keeps-for_each}
use alric_containers_image_b.Release.Lifecycle.Adds.{Adds-check_again}
use alric_containers_image_b.Release.Lifecycle.Names.{names_of-In}
use alric_containers_image_b.Release.Lifecycle.Warrant.{Chosen, choose-Chosen, or_stop-Gives}
use alric_containers_image_b.Release.Lifecycle.Leads.{Publishes, Leads, Leads-kept, Leads-after}

module _ (D : Destination) (T : Tools) (view : D.State → View) (lawful : IsLawful D view)
    (g : Setting) (o : Order) (J Y : View → List Event → Type 0)
    (weaker : (v : View) (t : List Event) → J v t → Y v t) (kept : IsKept J) (kept_after : IsKept Y)
    (Seen : String → Option FrameworkState → Type 0)
    (sees : (v : View) (t : List Event) → J v t → (name : String) → Seen name (state_there v name))
    (publishes : Publishes D T view lawful g o Seen dev false J Y) where
  abbrev At : (View → List Event → Type 0) → Site D T → Type 0
  At = Here D T view lawful

  abbrev L : {A : Type 0} → Act (Site D T) A → Type 0
  L act = Leads D T view lawful g o J Y weaker act

  after_kept :
      {A B : Type 0} {first : Act (Site D T) A} {next : A → Act (Site D T) B}
      → Keeps (At J) first
      → ((a : A) → L (next a))
      → L (first >>= next)
  after_kept = Leads-after D T view lawful g o J Y weaker

  only : {A : Type 0} {act : Act (Site D T) A} → Keeps (At J) act → L act
  only = Leads-kept D T view lawful g o J Y weaker

  Keeps-persist : (m : Manifest) → Keeps (At Y) (persist D T g o m)
  unfolding persist
  Keeps-persist m =
      attempted
        (bind (Keeps-demand _)
          λ u. Keeps-put_manifest D T view lawful Y kept_after g o _ _ (of_manifest _))
        (bind (Keeps-report D T view lawful Y kept_after) λ u. Keeps-stop _ _) (λ s h. h)

  Leads-complete_dev :
      (candidate : Manifest) (before : States)
      → Chosen g o Seen dev candidate
      → L (complete_dev D T g o candidate before)
  unfolding complete_dev
  Leads-complete_dev candidate before chosen =
      chain ((Adds-check_again D T view lawful g o candidate).0 J kept) (λ s h. weaker _ _ h)
        λ u.
          bind
            (weaken (publishes "" candidate before) (λ s h. (h.0, h.1, chosen)) (λ u s h. h)
              (λ s h. h))
            λ u. bind (Keeps-or_stop (At Y) _) λ u.
              bind (Keeps-persist (approval D T g o candidate))
                λ u. bind (Keeps-report D T view lawful Y kept_after) λ u. Keeps-pure _ _

  Keeps-execute_all :
      (m : Manifest) (units : List (List String)) → Keeps (At J) (execute_all D T g o m units)
  unfolding execute_all execute_unit
  Keeps-execute_all m [] = Keeps-pure _ _
  Keeps-execute_all m (unit ∷ units) =
      bind (one unit) λ results. bind (Keeps-execute_all m units) λ others. Keeps-pure _ _
    where
      one : (unit : List String) → Keeps (At J) (execute_unit D T g o m unit)
      one [] = Keeps-stop _ _
      one (runtime ∷ others) =
          bind (Keeps-call D T view lawful J kept _ _)
            λ first. bind (Keeps-call D T view lawful J kept _ _) λ second. Keeps-pure _ _

  Keeps-candidate_for :
      (m : Manifest) (known : Option Manifest) → Keeps (At J) (candidate_for D T g o m known)
  unfolding candidate_for validate_release
  Keeps-candidate_for m none =
      bind (Keeps-validate_destination D T view lawful J kept g.account dev m) λ u.
        bind (Keeps-demand _) λ u.
          bind (Keeps-for_each m.images _ (λ i k. Keeps-verify_in D T view lawful J kept dev m i))
            λ u. bind (Keeps-execute_all m m.units) λ results. bind (Keeps-or_stop _ _) λ u.
              bind (Keeps-put_manifest D T view lawful J kept g o _ _ (of_candidate _))
                λ u. Keeps-pure _ _
  Keeps-candidate_for m (some candidate) =
      bind (Keeps-or_stop _ _) λ u. bind (Keeps-demand _) λ u. Keeps-pure _ _

  -- What is chosen of one candidate is that candidate.
  Gives-choose_now :
      (candidate : Manifest) (before : States)
      → ((i : Member) → In i candidate.images → Seen i.name (state_of i.name before))
      → Triple
          (At J)
          (choose_now D T g o candidate before)
          (λ a s. At J s × ((m : Manifest) → a ≡ some m → Chosen g o Seen dev candidate))
          (At J)
  unfolding choose_now
  Gives-choose_now candidate before seen = go (g.policy dev).enabled
    where
      chosen :
          (a : Option Manifest) (m : Manifest)
          → choose g.consumers_pass o.now dev
              (g.policy dev)
              before
              false
              (candidate ∷ [])
              (duration (g.policy dev).soak)
              o.now
              none
            ≡ ok a
          → a ≡ some m
          → Chosen g o Seen dev candidate
      chosen a m e f = elim c.0 [
        | inl q ↦ subst (λ x. Chosen g o Seen dev x) q c.1
        | inr q ↦ absurd q
      ]
        where
          only_one :
              (n : Manifest)
              → In n (candidate ∷ [])
              → (i : Member) → In i n.images
              → Seen i.name (state_of i.name before)
          only_one n (inl q) i k = seen i (subst (λ x. In i x.images) q k)
          only_one n (inr q) i k = absurd q

          c : In m (candidate ∷ []) × Chosen g o Seen dev m
          c =
              choose-Chosen g o Seen dev before false (candidate ∷ [])
                (duration (g.policy dev).soak) none m (inr (refl, refl, refl)) only_one
                (e ∙ ap (λ x. ok x) f)

      go :
          (b : Bool)
          → Triple
              (At J)
              (if b
                then or_stop (
                    choose g.consumers_pass o.now dev
                      (g.policy dev)
                      before
                      false
                      (candidate ∷ [])
                      (duration (g.policy dev).soak)
                      o.now
                      none)
                else pure none)
              (λ a s. At J s × ((m : Manifest) → a ≡ some m → Chosen g o Seen dev candidate))
              (At J)
      go true =
          weaken (or_stop-Gives (At J) _) (λ s h. h) (λ a s h. (h.0, λ m f. chosen a m h.1 f))
            (λ s h. h)
      go false = record { run = λ s h. (h, λ m f. absurd (ground arith)) }

  Leads-finish_approval :
      (candidate : Manifest) (before : States) (choice : Option Manifest)
      → Triple
          (λ s. At J s × ((m : Manifest) → choice ≡ some m → Chosen g o Seen dev candidate))
          (finish_approval D T g o candidate before choice)
          (λ a. At Y)
          (At Y)
  unfolding finish_approval
  Leads-finish_approval candidate before none =
      weaken (only (bind (Keeps-report D T view lawful J kept) λ u. Keeps-pure _ _)) (λ s h. h.0)
        (λ a s h. h) (λ s h. h)
  Leads-finish_approval candidate before (some m) = record {
    run = λ s h.
        (bind (Leads-complete_dev candidate before (h.1 m refl)) λ a. Keeps-pure _ _).run s h.0;
  }

  Leads-approve_new : (m : Manifest) → L (approve_new D T g o m)
  unfolding approve_new
  Leads-approve_new m = after_kept (Keeps-find_manifest D T view lawful J kept g o _) λ known.
      after_kept (Keeps-candidate_for m known) λ candidate.
        after_kept (Keeps-report D T view lawful J kept) λ u.
          chain (Reads-read_states D T view lawful J kept g o Seen sees _) (λ s h. weaker _ _ h)
            λ before. record {
              run = λ s h.
                  (chain
                      (Gives-choose_now candidate before
                        (λ i k. h.1 i.name (In-map (λ j. j.name) i candidate.images k)))
                      (λ s h. weaker _ _ h) (Leads-finish_approval candidate before)).run
                    s h.0;
            }

  pub Leads-run_approve_dev : L (run_approve_dev D T g o)
  unfolding run_approve_dev approve_known
  Leads-run_approve_dev = after_kept (Keeps-call D T view lawful J kept _ _) λ m.
      after_kept (Keeps-demand _)
        λ u. after_kept (Keeps-find_manifest D T view lawful J kept g o _) (known m)
    where
      known : (m : Manifest) (existing : Option Manifest) → L (approve_known D T g o m existing)
      known m none = Leads-approve_new m
      known m (some existing) =
          after_kept (Keeps-or_stop _ _) λ u. after_kept (Keeps-demand _) λ u. only (Keeps-pure _ _)

  Keeps-candidates_at : (keys : List Key) → Keeps (At J) (candidates_at D T g o keys)
  unfolding candidates_at
  Keeps-candidates_at [] = Keeps-pure _ _
  Keeps-candidates_at (key ∷ keys) =
      bind (Keeps-get_manifest D T view lawful J kept g o key) λ candidate.
        bind (Keeps-or_stop _ _) λ u. bind (Keeps-demand _) λ u.
          bind (Keeps-find_manifest D T view lawful J kept g o _) λ existing.
            bind (left candidate existing)
              λ these. bind (Keeps-candidates_at keys) λ others. Keeps-pure _ _
    where
      left :
          (candidate : Manifest) (existing : Option Manifest)
          → Keeps (At J) (unapproved D T g o candidate existing)
      left candidate none = Keeps-pure _ _
      left candidate (some existing) =
          bind (Keeps-or_stop _ _) λ u. bind (Keeps-demand _) λ u. Keeps-pure _ _

  Keeps-candidate_keys : (release : Option String) → Keeps (At J) (candidate_keys D T g o release)
  unfolding candidate_keys
  Keeps-candidate_keys (some release) = bind (Keeps-demand _) λ u. Keeps-pure _ _
  Keeps-candidate_keys none =
      bind (Keeps-list_keys D T view lawful J kept g o) λ keys. Keeps-pure _ _

  Leads-finish_promotion :
      (states : States) (choice : Option Manifest)
      → ((m : Manifest) → choice ≡ some m → Chosen g o Seen dev m)
      → L (finish_promotion D T g o states choice)
  unfolding finish_promotion
  Leads-finish_promotion states none chosen =
      after_kept (Keeps-demand _)
        λ u. after_kept (Keeps-report D T view lawful J kept) λ u. only (Keeps-pure _ _)
  Leads-finish_promotion states (some m) chosen =
      bind (Leads-complete_dev m _ (chosen m refl)) λ a. Keeps-pure _ _

  pub Leads-run_promote_dev : L (run_promote_dev D T g o)
  unfolding run_promote_dev
  Leads-run_promote_dev = after_kept (Keeps-candidate_keys o.release) λ keys.
      after_kept (Keeps-candidates_at keys) λ candidates.
        chain (Reads-read_states D T view lawful J kept g o Seen sees _) (λ s h. weaker _ _ h)
          λ states. record {
            run = λ s h.
                (chain (or_stop-Gives (At J) _) (λ s h. weaker _ _ h)
                    λ choice. record {
                      run = λ t k.
                          (Leads-finish_promotion states choice λ m f.
                              (choose-Chosen g o Seen dev states o.resume candidates _ o.release m
                                (inl (refl, refl))
                                (λ n p i q. h.1 i.name (names_of-In n i candidates p q))
                                (k.1 ∙ ap (λ x. ok x) f)).1).run
                            t k.0;
                    }).run
                  s h.0;
          }
