-- ===== src/Release/Publication/Outcome.antt =====
-- `publish_states` as a whole: what it leaves when it returns, when it raises, and when it is cut off.
use alric_containers_image_b.Base.{
  String, ◌≡◌, refl, ◌⊎◌, inl, inr, Bool, some, all, ◌||◌, List, [], ◌∷◌, Result, ok, true, arith,
}
use alric_containers_image_b.Base.Act.{Stop, pure, for_each}
use alric_containers_image_b.Base.Act.Triples.{
  Post, Triple, weaken, bind, Keeps-demand, Post-ok, Post-any, Keeps, Keeps-for_each, for_each-all,
  attempted,
}
use alric_containers_image_b.Release.Data.{Environment, Member, Manifest, States}
use alric_containers_image_b.Release.Destination.{Phase, Destination, View, IsLawful}
use alric_containers_image_b.Release.Publication.{
  Context, Run, or_text, look_again, confirm, observe, is_expected, check_unchanged, hold,
  put_receipt, write_member, release_member, complete, give_up, publish, publish_states,
}
use alric_containers_image_b.Release.Publication.Steps.{
  At, Keeps-update, Keeps-stable_digest, confirm-Confirms, Keeps-confirm,
}
use alric_containers_image_b.Release.Publication.Views.{StateAt}
use alric_containers_image_b.Release.Publication.Covered.{
  Held, Confirmed, Unchanged, Settled, Released, Covered, hold-Holds, Keeps-hold-hold,
  Keeps-put_receipt, Keeps-mark_promoted, Confirmed-Wrote, Held-Wrote, Covered-Wrote, Covered-hold,
  release_member-Settles, Keeps-release_member, Held-write_member,
}

module _ (D : Destination) (c : Context) (view : D.State → View) (lawful : IsLawful D view)
    (m : Manifest) (before : States) (environment : Environment) (recovery : Bool)
    (reason : String) where
  abbrev On : (View → Type 0) → Run D → Type 0
  On = At D c view lawful

  abbrev Fine : View → Type 0
  Fine = Covered D c view lawful m before environment recovery reason

  abbrev Done : View → Type 0
  Done = Released D c view lawful m before environment recovery reason

  complete-Completes :
      Triple
        (On (Held m.images))
        (complete D c m before environment recovery reason)
        (λ u. On (λ v. Confirmed m.images v × Done v))
        (On Fine)
  unfolding complete
  complete-Completes = bind (weaken writes (λ r h. h) (λ u r h. h) (λ r h. inl h)) λ u.
      bind (weaken confirms (λ r h. h) (λ u r h. h.1) (λ r h. inl h)) λ u.
        weaken
          (bind (Keeps-update D c view lawful (Confirmed m.images) _) λ u.
            bind
              (Keeps-put_receipt D c view lawful m before environment recovery reason
                (Confirmed m.images) Phase.completed
                (λ v w doc. Confirmed-Wrote D c view lawful m before environment recovery reason))
              λ u.
                bind
                  (Keeps-mark_promoted D c view lawful m before environment recovery reason
                    (Confirmed m.images)
                    (λ v w doc.
                      Confirmed-Wrote D c view lawful m before environment recovery reason))
                  λ u. settles)
          (λ r h. h) (λ u r h. h) (λ r h. inr h)
    where
      writes :
          Keeps
            (On (Held m.images))
            (for_each m.images (write_member D c m before environment recovery reason))
      writes =
          Keeps-for_each m.images _
            (λ i k. Held-write_member D c view lawful m before environment recovery reason i)

      confirms :
          Triple
            (On (Held m.images))
            (for_each m.images (confirm D c))
            (λ u r. On (Held m.images) r × On (Confirmed m.images) r)
            (On (Held m.images))
      confirms =
          for_each-all (λ i. On (λ v. v.stable i.name ≡ some i.digest)) m.images (confirm D c)
            (λ i k. confirm-Confirms D c view lawful (Held m.images) i)
            (λ i j k l.
              weaken (Keeps-confirm D c view lawful (λ v. v.stable i.name ≡ some i.digest) j)
                (λ r h. h) (λ u r h. h) (λ r h. tt))

      settles :
          Triple
            (On (Confirmed m.images))
            (for_each m.images (release_member D c m before environment recovery reason))
            (λ u r. On (Confirmed m.images) r × On Done r)
            (On (Confirmed m.images))
      settles =
          for_each-all
            (λ i. On (λ v.
              StateAt (Settled D c view lawful m before environment recovery reason) i.name
                v.objects))
            m.images _
            (λ i k. release_member-Settles D c view lawful m before environment recovery reason i)
            (λ i j k l.
              weaken
                (Keeps-release_member D c view lawful m before environment recovery reason i.name j)
                (λ r h. h) (λ u r h. h) (λ r h. tt))

  Keeps-give_up :
      {Q : Unit {0} → Run D → Type 0}
      → Triple (On Fine) (give_up D c m before environment recovery reason) Q (On Fine)
  unfolding give_up look_again
  Keeps-give_up = bind (Keeps-update D c view lawful Fine _) λ u.
      bind (Keeps-for_each m.images _ (λ i k. looks i)) λ u.
        bind (Keeps-for_each m.images _ (λ i k. attempted (holds i) gone (λ r h. h)))
          λ u. bind (attempted failure gone (λ r h. h)) λ u. record { run = λ r h. h }
    where
      gone : Keeps (On Fine) (pure tt)
      gone = record { run = λ r h. h }

      looks : (i : Member) → Keeps (On Fine) (look_again D c m before environment recovery reason i)
      looks i =
          attempted
            (bind (Keeps-stable_digest D c view lawful Fine i.name)
              (λ d. Keeps-update D c view lawful Fine _))
            (Keeps-update D c view lawful Fine _) (λ r h. h)

      holds :
          (i : Member)
          → Keeps
              (On Fine)
              (hold D c m before environment recovery reason "incomplete stable operation" i)
      holds i = Covered-hold D c view lawful m before environment recovery reason _ i

      failure : Keeps (On Fine) (put_receipt D c m before environment recovery reason Phase.failed)
      failure =
          Keeps-put_receipt D c view lawful m before environment recovery reason Fine Phase.failed
            λ v w doc.
              Covered-Wrote D c view lawful m before environment recovery reason _ doc
                (λ name e. absurd (ground arith))

  pub Keeps-observe :
      (I : View → Type 0) (xs : List Member)
      → Keeps (On I) (observe D c m before environment recovery reason xs)
  unfolding observe
  Keeps-observe I [] = record { run = λ r h. h }
  Keeps-observe I (i ∷ rest) =
      bind (Keeps-stable_digest D c view lawful I i.name)
        λ d. bind (Keeps-observe I rest) λ others. record { run = λ r h. h }

  -- What is left of a publication, from a destination that a reader saw as `u`.
  publish-Publishes :
      (u : View)
      → Triple
          (On (Unchanged u))
          (publish D c m before environment recovery reason)
          (λ x. On (λ v. Confirmed m.images v × Done v))
          (On (λ v. Unchanged u v ⊎ Fine v))
  unfolding publish check_unchanged
  publish-Publishes u =
      bind (weaken (Keeps-observe (Unchanged u) m.images) (λ r h. h) (λ d r h. h) (λ r h. inl h))
        λ seen.
          bind
            (weaken (Keeps-update D c view lawful (Unchanged u) _) (λ r h. h) (λ x r h. h)
              (λ r h. inl h))
            λ x. bind (weaken unchanged (λ r h. h) (λ x r h. h) (λ r h. inl h)) λ x.
              bind (weaken holds (λ r h. h) (λ x r h. h.1) (λ r h. inl h)) λ x.
                weaken
                  (bind (weaken started (λ r h. h) (λ x r h. h) (λ r h. inl h))
                    λ x. attempted complete-Completes Keeps-give_up (λ r h. h))
                  (λ r h. h) (λ x r h. h) (λ r h. inr h)
    where
      unchanged :
          Keeps (On (Unchanged u)) (check_unchanged D c m before environment recovery reason)
      unchanged = record {
        run = λ r h.
            (Keeps-demand (
                recovery
                || all (is_expected D c m before environment recovery reason r.receipt) before)).run
              r h;
      }

      holds :
          Triple
            (On (Unchanged u))
            (for_each m.images (
              hold D c m before environment recovery reason
                (or_text reason "stable write in progress")))
            (λ x r. On (Unchanged u) r × On (Held m.images) r)
            (On (Unchanged u))
      holds =
          for_each-all (λ i. On (λ v. StateAt (λ d. d.hold ≡ true) i.name v.objects)) m.images _
            (λ i k.
              hold-Holds D c view lawful m before environment recovery reason
                (λ f. (name : String) → f name ≡ u.stable name) _ i)
            (λ i j k l.
              weaken
                (Keeps-hold-hold D c view lawful m before environment recovery reason _ i.name j)
                (λ r h. h) (λ x r h. h) (λ r h. tt))

      started :
          Keeps
            (On (Held m.images))
            (put_receipt D c m before environment recovery reason Phase.started)
      started =
          Keeps-put_receipt D c view lawful m before environment recovery reason (Held m.images)
            Phase.started
            λ v w doc.
              Held-Wrote D c view lawful m before environment recovery reason _ doc
                (λ name e. absurd (ground arith))

  -- The run of `publish_states` from a destination.
  abbrev outcome : D.State → Result Stop (Unit {0}) × Run D
  outcome = publish_states D c m before environment recovery reason

  publish_states-Publishes :
      (s : D.State)
      → Post
          (λ x. On (λ v. Confirmed m.images v × Done v))
          (On (λ v. Unchanged (view s) v ⊎ Fine v))
          (outcome s).0
          (outcome s).1
  unfolding publish_states
  publish_states-Publishes s = (publish-Publishes (view s)).run _ (λ name. refl)

  -- On a lawful destination, when publish_states returns, the tag stable of every member stands at
  -- the digest of the manifest, and its state document names the release and is held exactly when
  -- it is a recovery.
  pub publish_states-ok :
      (s : D.State)
      → (outcome s).0 ≡ ok tt
      → Confirmed m.images (view (outcome s).1.remote) × Done (view (outcome s).1.remote)
  publish_states-ok s e =
      Post-ok (λ x. On (λ v. Confirmed m.images v × Done v))
        (On (λ v. Unchanged (view s) v ⊎ Fine v)) (outcome s).0 (outcome s).1 tt e
        (publish_states-Publishes s)

  -- On a lawful destination, however publish_states ends, with an error that it handles or cut off
  -- at any call, either no tag stable is other than before, or the state document of every member
  -- says that it is held, or the tag of every member stands at the digest of the manifest.
  pub publish_states-Covered :
      (s : D.State)
      → Unchanged (view s) (view (outcome s).1.remote)
        ⊎ Held m.images (view (outcome s).1.remote)
        ⊎ Confirmed m.images (view (outcome s).1.remote)
  publish_states-Covered s =
      Post-any (λ x. On (λ v. Confirmed m.images v × Done v))
        (On (λ v. Unchanged (view s) v ⊎ Fine v)) (On (λ v. Unchanged (view s) v ⊎ Fine v))
        (outcome s).0 (outcome s).1 (λ x h. inr (inr h.0)) (λ h. h) (publish_states-Publishes s)
