-- ===== src/Release/Lifecycle/Approval.antt =====
-- What `complete_dev` leaves when it returns.
use alric_containers_image_b.Base.{◌≡◌, refl, ap, ◌∙◌, false, List, Result, ok, err}
use alric_containers_image_b.Base.Act.{Stop}
use alric_containers_image_b.Base.Act.Triples.{
  Post, Triple, Post-ok, weaken, bind, chain, Keeps-demand, attempted,
}
use alric_containers_image_b.Release.Data.{dev, Manifest, States}
use alric_containers_image_b.Release.Destination.{
  Key, manifest_key, Doc, manifest_doc, Destination, View, IsLawful,
}
use alric_containers_image_b.Release.Publication.Stores.{Stores, put-Stores}
use alric_containers_image_b.Release.Publication.Views.{StateAt-Wrote, Wrote}
use alric_containers_image_b.Release.Publication.Covered.{Confirmed, Released}
use alric_containers_image_b.Release.Publication.Outcome.{publish_states-ok}
use alric_containers_image_b.Release.Site.{Tools, Site, Event, other, report}
use alric_containers_image_b.Release.Lifecycle.{Setting, Order, publish_in, put_manifest}
use alric_containers_image_b.Release.Lifecycle.Dev.{approval, persist, complete_dev}
use alric_containers_image_b.Release.Lifecycle.Steps.{
  IsRelease, of_manifest, IsKept, state_stays, Here, Keeps-report, called, remotely-Triple,
  Keeps-or_stop,
}
use alric_containers_image_b.Release.Lifecycle.Adds.{Adds-check_again}

module _ {S : Type 0} where
  returned :
      (Q : S → Type 0) (r : Result Stop (Unit {0})) (s : S)
      → (r ≡ ok tt → Q s)
      → Post (λ u. Q) (λ t. Unit {0}) r s
  returned Q (ok tt) s h = h refl
  returned Q (err e) s h = tt

module _ (D : Destination) (T : Tools) (view : D.State → View) (lawful : IsLawful D view)
    (g : Setting) (o : Order) (candidate : Manifest) (before : States) where
  abbrev At : (View → List Event → Type 0) → Site D T → Type 0
  At = Here D T view lawful

  -- The tags and the states of the release.
  abbrev pub Stands : View → Type 0
  Stands v =
      Confirmed candidate.images v
      × Released D o.context view lawful candidate before dev false "" v

  abbrev Anything : View → List Event → Type 0
  Anything v t = Unit {0}

  Anything-IsKept : IsKept Anything
  Anything-IsKept = record { grows = λ v e t h. tt; puts = λ v w t key doc r wrote h. tt }

  Stands-Wrote :
      (v w : View) (key : Key) (doc : Doc) → IsRelease key → Wrote v w key doc → Stands v → Stands w
  Stands-Wrote v w key doc r wrote h = (
    λ i k. ap (λ f. f i.name) wrote.tags_same ∙ h.0 i k,
    λ i k. StateAt-Wrote key doc (λ e. absurd (state_stays key i.name r e)) wrote (h.1 i k),
  )

  publishes :
      Triple
        (At Anything)
        (publish_in D T g o dev false "" candidate before)
        (λ u. At (λ v t. Stands v))
        (At Anything)
  unfolding publish_in
  publishes = record {
    run = λ s h.
        returned (At (λ v t. Stands v)) _ _
          (publish_states-ok D o.context view lawful candidate before dev false "" s.run.remote);
  }

  -- The approval stands in the store.
  abbrev pub IsStored : View → Type 0
  IsStored =
      Stores o.context (manifest_key candidate.release_id)
        (manifest_doc (approval D T g o candidate))

  abbrev Finished : View → List Event → Type 0
  Finished v t = Stands v × IsStored v

  stores :
      Triple
        (At (λ v t. Stands v))
        (put_manifest D T g o (manifest_key candidate.release_id) (approval D T g o candidate))
        (λ u. At Finished)
        (At Anything)
  unfolding put_manifest
  stores =
      weaken
        (remotely-Triple D T view lawful (λ v t. Stands v) (λ u. Finished) (λ v t. Stands v) _
          λ t.
            put-Stores D o.context view lawful Stands _ _
              (λ v w wrote. Stands-Wrote v w _ _ (of_manifest _) wrote))
        (λ s h. h) (λ u s h. h) (λ s h. tt)

  persists :
      Triple
        (At (λ v t. Stands v))
        (persist D T g o (approval D T g o candidate))
        (λ u. At Finished)
        (At Anything)
  unfolding persist
  persists =
      attempted (chain (Keeps-demand _) (λ s h. tt) (λ u. stores))
        (bind (Keeps-report D T view lawful Anything Anything-IsKept)
          λ u. record { run = λ s h. tt })
        (λ s h. h)

  complete_dev-Approves :
      Triple
        (At Anything)
        (complete_dev D T g o candidate before)
        (λ a s. (a ≡ approval D T g o candidate) × At Finished s)
        (At Anything)
  unfolding complete_dev report
  complete_dev-Approves =
      chain ((Adds-check_again D T view lawful g o candidate).0 Anything Anything-IsKept)
        (λ s h. tt)
        λ u. bind (weaken publishes (λ s h. tt) (λ u s h. h) (λ s h. h)) λ u.
          chain (Keeps-or_stop (At (λ v t. Stands v)) _) (λ s h. tt)
            λ u. bind persists λ u.
              chain (called D T view lawful Finished (λ u. other) T.report (λ v e t h. h))
                (λ s h. tt) λ u. record { run = λ s h. (refl, h.0) }

  -- On a lawful destination, when complete_dev returns, it returns the approval of the candidate,
  -- the tag stable of every image stands at the digest of the candidate, the state document of
  -- every image names the release and is not held, and under the key of the release's manifest
  -- stands that approval, or a document that compares as equal to it.
  pub complete_dev-ok :
      (s : Site D T) (a : Manifest)
      → (complete_dev D T g o candidate before s).0 ≡ ok a
      → let v = view (complete_dev D T g o candidate before s).1.run.remote in
        (a ≡ approval D T g o candidate) × Stands v × IsStored v
  complete_dev-ok s a e =
      let h =
        Post-ok (λ b t. (b ≡ approval D T g o candidate) × At Finished t) (At Anything) _ _ a e
          (complete_dev-Approves.run s tt) in
      (h.0, h.1.0, h.1.1)
