-- ===== src/Release/Lifecycle/HomRuns.antt =====
-- What the commands of HOM and `main` keep, if their publications lead from the one statement to the
-- other.
use alric_containers_image_b.Base.{
  String, ◌≡◌, refl, ap, ◌∙◌, inl, true, false, Option, none, some, List, [], ◌∷◌, ok,
}
use alric_containers_image_b.Base.Act.{Act, demand, ◌>>=◌}
use alric_containers_image_b.Base.Act.Triples.{
  Triple, weaken, bind, chain, demanded, Keeps, Keeps-demand, Keeps-for_each, attempted,
}
use alric_containers_image_b.Release.Data.{hom, Manifest, FrameworkState, States}
use alric_containers_image_b.Release.Choice.{verify_approved}
use alric_containers_image_b.Release.Destination.{Key, promoted_key, Destination, View, IsLawful}
use alric_containers_image_b.Release.Publication.{get}
use alric_containers_image_b.Release.Site.{Tools, Site, Event, remotely}
use alric_containers_image_b.Release.Lifecycle.{
  Setting, Order, Operation, approve_dev, promote_dev, promote_hom, recover_hom,
}
use alric_containers_image_b.Release.Lifecycle.Hom.{
  source_manifest, source_manifests, source_keys, promote_to_hom, finish_promotion, run_promote_hom,
  is_record_of, recover_to, run_recover_hom, environment_of, is_recovery, run_operation, main,
}
use alric_containers_image_b.Release.Lifecycle.Steps.{
  of_manifest, IsKept, Here, Keeps-or_missing, Keeps-pure, Keeps-call, Keeps-report,
}
use alric_containers_image_b.Release.Lifecycle.Reads.{
  get-Reads, Keeps-get_manifest, Keeps-read_states, Reads-read_states, state_there,
  Keeps-put_manifest,
}
use alric_containers_image_b.Release.Lifecycle.Gates.{Gates-IsGrowing, and-IsKept}
use alric_containers_image_b.Release.Lifecycle.Adds.{Adds-check_again, Adds-check_and_copy}
use alric_containers_image_b.Release.Lifecycle.Names.{names_of-In}
use alric_containers_image_b.Release.Lifecycle.Warrant.{
  Chosen, IsProven, IsProven-Wrote, choose-Chosen, or_stop-Gives,
}
use alric_containers_image_b.Release.Lifecycle.DevRuns.{
  Leads-run_approve_dev, Leads-run_promote_dev,
}
use alric_containers_image_b.Release.Lifecycle.Leads.{Publishes, Leads, Leads-kept, Leads-after}

module _ (D : Destination) (T : Tools) (view : D.State → View) (lawful : IsLawful D view)
    (g : Setting) (o : Order) (J Y : View → List Event → Type 0) (kept : IsKept J)
    (kept_after : IsKept Y) (weaker : (v : View) (t : List Event) → J v t → Y v t)
    (Seen : String → Option FrameworkState → Type 0)
    (sees : (v : View) (t : List Event)
      → J v t
      → (name : String) → Seen name (state_there v name)) where
  abbrev At : (View → List Event → Type 0) → Site D T → Type 0
  At = Here D T view lawful

  abbrev L : {A : Type 0} → Act (Site D T) A → Type 0
  L act = Leads D T view lawful g o J Y weaker act

  after_kept :
      {A B : Type 0} {first : Act (Site D T) A} {next : A → Act (Site D T) B}
      → Keeps (At J) first
      → ((a : A) → L (next a))
      → L (first >>= next)
  after_kept = Leads-after D T view lawful g o J Y weaker

  only : {A : Type 0} {act : Act (Site D T) A} → Keeps (At J) act → L act
  only = Leads-kept D T view lawful g o J Y weaker

  Keeps-source_manifests : (keys : List Key) → Keeps (At J) (source_manifests D T g o keys)
  unfolding source_manifests source_manifest
  Keeps-source_manifests [] = Keeps-pure _ _
  Keeps-source_manifests (key ∷ keys) =
      bind
        (bind (Keeps-call D T view lawful J kept _ _)
          λ doc. bind (Keeps-or_missing _ _) λ found. Keeps-or_missing _ _)
        λ m. bind (Keeps-source_manifests keys) λ others. Keeps-pure _ _

  Keeps-source_keys : (release : Option String) → Keeps (At J) (source_keys D T g o release)
  unfolding source_keys
  Keeps-source_keys (some release) = bind (Keeps-demand _) λ u. Keeps-pure _ _
  Keeps-source_keys none =
      bind (Keeps-call D T view lawful J kept _ _)
        λ listed. bind (Keeps-demand _) λ u. Keeps-pure _ _

  module _ (publishes : Publishes D T view lawful g o Seen hom false J Y) where
    Leads-promote_to_hom :
        (m : Manifest) (states : States)
        → Chosen g o Seen hom m
        → L (promote_to_hom D T g o m states)
    unfolding promote_to_hom
    Leads-promote_to_hom m states chosen = after_kept (Keeps-report D T view lawful J kept) λ u.
        chain (Adds-check_and_copy D T view lawful g o m J kept) (λ s h. weaker _ _ h)
          λ u.
            chain (Keeps-demand _) (λ s h. weaker _ _ h.0)
              λ u.
                chain
                  (Keeps-put_manifest D T view lawful _
                    (and-IsKept kept (Gates-IsGrowing g hom false m)) g o _ _ (of_manifest _))
                  (λ s h. weaker _ _ h.0)
                  λ u.
                    bind
                      (weaken (publishes "" m _) (λ s h. (h.0, h.1, chosen)) (λ u s h. h)
                        (λ s h. h))
                      λ u. bind (Keeps-report D T view lawful Y kept_after) λ u. Keeps-pure _ _

    Leads-finish_promotion :
        (states : States) (choice : Option Manifest)
        → ((m : Manifest) → choice ≡ some m → Chosen g o Seen hom m)
        → L (finish_promotion D T g o states choice)
    unfolding finish_promotion
    Leads-finish_promotion states none chosen =
        only (
          bind (Keeps-demand _) λ u. bind (Keeps-report D T view lawful J kept) λ u. Keeps-pure _ _)
    Leads-finish_promotion states (some m) chosen = Leads-promote_to_hom m states (chosen m refl)

    Leads-run_promote_hom : L (run_promote_hom D T g o)
    unfolding run_promote_hom
    Leads-run_promote_hom = after_kept (Keeps-source_keys o.release) λ keys.
        after_kept (Keeps-source_manifests keys) λ manifests.
          after_kept (Keeps-for_each manifests _ (λ m k. Keeps-demand _)) λ u.
            chain (Reads-read_states D T view lawful J kept g o Seen sees _) (λ s h. weaker _ _ h)
              λ states. record {
                run = λ s h.
                    (chain (or_stop-Gives (At J) _) (λ s h. weaker _ _ h)
                        λ choice. record {
                          run = λ t k.
                              (Leads-finish_promotion states choice λ m f.
                                  (choose-Chosen g o Seen hom states o.resume manifests _ o.release
                                    m (inl (refl, refl))
                                    (λ n p i q. h.1 i.name (names_of-In n i manifests p q))
                                    (k.1 ∙ ap (λ x. ok x) f)).1).run
                                t k.0;
                        }).run
                      s h.0;
              }

  -- A proof that the release was promoted lasts as long as the tags are not written.
  IsProven-IsKept : (m : Manifest) → IsKept (λ v t. J v t × IsProven g o m v)
  IsProven-IsKept m = record {
    grows = λ v e t h. (kept.grows v e t h.0, h.1);
    puts = λ v w t key doc r wrote h.
        (kept.puts v w t key doc r wrote h.0, IsProven-Wrote g o Seen r wrote h.1);
  }

  module _ (publishes : Publishes D T view lawful g o Seen hom true J Y) where
    Leads-recover_to :
        (reason : String) (m : Manifest)
        → Triple
            (At (λ v t. J v t × IsProven g o m v))
            (recover_to D T g o reason m)
            (λ a. At Y)
            (At Y)
    unfolding recover_to
    Leads-recover_to reason m =
        chain ((Adds-check_again D T view lawful g o m).1 _ (IsProven-IsKept m))
          (λ s h. weaker _ _ h.0)
          λ u.
            chain
              (Keeps-read_states D T view lawful _
                (and-IsKept (IsProven-IsKept m) (Gates-IsGrowing g hom true m)) g o _)
              (λ s h. weaker _ _ h.0.0)
              λ before.
                bind
                  (weaken (publishes reason m before) (λ s h. (h.0.0, h.1, h.0.1)) (λ u s h. h)
                    (λ s h. h))
                  λ u. Keeps-pure _ _

    Leads-run_recover_hom : L (run_recover_hom D T g o)
    unfolding run_recover_hom
    Leads-run_recover_hom = after_kept (Keeps-or_missing _ _) λ reason.
        after_kept (Keeps-or_missing _ _) λ release. after_kept (Keeps-demand _) λ u.
          after_kept (Keeps-get_manifest D T view lawful J kept g o _) λ m.
            chain (or_stop-Gives (At J) _) (λ s h. weaker _ _ h)
              λ u. record { run = λ s h. (proven reason release m h.1).run s h.0 }
      where
        proven :
            (reason release : String) (m : Manifest)
            → verify_approved g.consumers_pass o.now m ≡ ok tt
            → L (
                remotely D T (get D o.context (promoted_key release)) >>= λ receipt.
                demand (is_record_of o.context m receipt) >>= λ u. recover_to D T g o reason m)
        proven reason release m approves =
            chain (get-Reads D T view lawful J kept g o (promoted_key release))
              (λ s h. weaker _ _ h)
              λ receipt.
                bind (demanded (is_record_of o.context m receipt) (λ s h. weaker _ _ h.0)) λ u.
                  weaken (Leads-recover_to reason m)
                    (λ s h. (
                      h.1.0,
                      record {
                        approves = approves;
                        release = release;
                        doc = receipt;
                        there = h.1.1;
                        its = h.0;
                      },
                    ))
                    (λ a s k. k) (λ s k. k)

  -- Each command, and `main` with its handler.
  Leads-run_operation :
      (operation : Operation)
      → Publishes D T view lawful g o Seen (environment_of operation) (is_recovery operation) J Y
      → L (run_operation D T g o operation)
  unfolding run_operation
  Leads-run_operation approve_dev p =
      Leads-run_approve_dev D T view lawful g o J Y weaker kept kept_after Seen sees p
  Leads-run_operation promote_dev p =
      Leads-run_promote_dev D T view lawful g o J Y weaker kept kept_after Seen sees p
  Leads-run_operation promote_hom p = Leads-run_promote_hom p
  Leads-run_operation recover_hom p = Leads-run_recover_hom p

  pub Leads-main :
      (operation : Operation)
      → Publishes D T view lawful g o Seen (environment_of operation) (is_recovery operation) J Y
      → L (main D T g o operation)
  unfolding main
  Leads-main operation p =
      attempted
        (after_kept (Keeps-demand _)
          λ u. bind (Leads-run_operation operation p) λ outcome. Keeps-pure _ _)
        (Keeps-pure _ _) (λ s h. h)
