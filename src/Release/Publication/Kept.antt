-- ===== src/Release/Publication/Kept.antt =====
-- The agreement of the tags with the state documents over `publish_states` as a whole.
use alric_containers_image_b.Base.{String, ◌≡◌, ◌≢◌, Bool, true, ◌||◌, all, some, arith}
use alric_containers_image_b.Base.Act.{pure, for_each}
use alric_containers_image_b.Base.Act.Triples.{
  Triple, weaken, both, bind, Post-any, Keeps, Keeps-for_each, Keeps-demand, for_each-all,
  attempted,
}
use alric_containers_image_b.Release.Data.{Environment, Member, Manifest, States}
use alric_containers_image_b.Release.Destination.{
  Phase, Key, state_key, Doc, Destination, View, IsLawful,
}
use alric_containers_image_b.Release.Publication.{
  Context, Run, or_text, look_again, is_expected, check_unchanged, hold, put_receipt, write_member,
  confirm, complete, give_up, publish, publish_states,
}
use alric_containers_image_b.Release.Publication.Steps.{
  At, Keeps-update, Keeps-stable_digest, Keeps-confirm, confirm-Confirms,
}
use alric_containers_image_b.Release.Publication.Views.{Wrote, StateAt}
use alric_containers_image_b.Release.Publication.Covered.{
  Held, Keeps-put_receipt, Keeps-mark_promoted, hold-Holds, Keeps-hold-hold, Held-Wrote,
}
use alric_containers_image_b.Release.Publication.Outcome.{Keeps-observe}
use alric_containers_image_b.Release.Publication.Agreement.{
  Agrees, Agrees-Wrote, Agrees-hold, Moving, Standing, Moving-write_member, Standing-Wrote,
  Standing-release_member,
}

module _ (D : Destination) (c : Context) (view : D.State → View) (lawful : IsLawful D view)
    (m : Manifest) (before : States) (environment : Environment) (recovery : Bool)
    (reason : String) where
  abbrev On : (View → Type 0) → Run D → Type 0
  On = At D c view lawful

  abbrev Writing : View → Type 0
  Writing = Moving D c view lawful m before environment recovery reason

  abbrev Closing : View → Type 0
  Closing = Standing D c view lawful m before environment recovery reason

  confirms : Triple (On Agrees) (for_each m.images (confirm D c)) (λ u r. On Closing r) (On Agrees)
  confirms =
      for_each-all (λ i. On (λ v. v.stable i.name ≡ some i.digest)) m.images (confirm D c)
        (λ i k. confirm-Confirms D c view lawful Agrees i)
        (λ i j k l.
          weaken (Keeps-confirm D c view lawful (λ v. v.stable i.name ≡ some i.digest) j) (λ r h. h)
            (λ u r h. h) (λ r h. tt))

  Agrees-complete :
      Triple
        (On Writing)
        (complete D c m before environment recovery reason)
        (λ u. On Agrees)
        (On Agrees)
  unfolding complete
  Agrees-complete = bind (weaken writes (λ r h. h) (λ u r h. h.0) (λ r h. h.0)) λ u.
      bind confirms λ u.
        weaken
          (bind (Keeps-update D c view lawful Closing _) λ u.
            bind
              (Keeps-put_receipt D c view lawful m before environment recovery reason Closing
                Phase.completed (λ v w doc. kept (λ name e. ground arith)))
              λ u.
                bind
                  (Keeps-mark_promoted D c view lawful m before environment recovery reason Closing
                    (λ v w doc. kept (λ name e. ground arith)))
                  λ u. Keeps-for_each m.images _ (λ i k.
                    Standing-release_member D c view lawful m before environment recovery reason i
                      k))
          (λ r h. h) (λ u r h. h.0) (λ r h. h.0)
    where
      writes :
          Keeps
            (On Writing)
            (for_each m.images (write_member D c m before environment recovery reason))
      writes =
          Keeps-for_each m.images _
            (λ i k. Moving-write_member D c view lawful m before environment recovery reason i k)

      kept :
          {v w : View} {key : Key} {doc : Doc}
          → ((name : String) → key ≢ state_key name)
          → Wrote v w key doc
          → Closing v
          → Closing w
      kept = Standing-Wrote D c view lawful m before environment recovery reason

  -- A receipt is no state.
  Agrees-put_receipt :
      (phase : Phase)
      → Keeps (On Agrees) (put_receipt D c m before environment recovery reason phase)
  Agrees-put_receipt phase =
      Keeps-put_receipt D c view lawful m before environment recovery reason Agrees phase
        λ v w doc. Agrees-Wrote (λ name e. absurd (ground arith))

  Agrees-give_up :
      {Q : Unit {0} → Run D → Type 0}
      → Triple (On Agrees) (give_up D c m before environment recovery reason) Q (On Agrees)
  unfolding give_up look_again
  Agrees-give_up = bind (Keeps-update D c view lawful Agrees _) λ u.
      bind (Keeps-for_each m.images _ (λ i k. looks i)) λ u.
        bind (Keeps-for_each m.images _ (λ i k. attempted (holds i) gone (λ r h. h))) λ u.
          bind (attempted (Agrees-put_receipt Phase.failed) gone (λ r h. h))
            λ u. record { run = λ r h. h }
    where
      gone : Keeps (On Agrees) (pure tt)
      gone = record { run = λ r h. h }

      looks :
          (i : Member) → Keeps (On Agrees) (look_again D c m before environment recovery reason i)
      looks i =
          attempted
            (bind (Keeps-stable_digest D c view lawful Agrees i.name)
              (λ d. Keeps-update D c view lawful Agrees _))
            (Keeps-update D c view lawful Agrees _) (λ r h. h)

      holds :
          (i : Member)
          → Keeps
              (On Agrees)
              (hold D c m before environment recovery reason "incomplete stable operation" i)
      holds i = Agrees-hold D c view lawful m before environment recovery reason _ i

  Agrees-publish : Keeps (On Agrees) (publish D c m before environment recovery reason)
  unfolding publish check_unchanged
  Agrees-publish =
      bind (Keeps-observe D c view lawful m before environment recovery reason Agrees m.images)
        λ seen. bind (Keeps-update D c view lawful Agrees _) λ x. bind unchanged λ x.
          bind (weaken held (λ r h. h) (λ u r h. h) (λ r h. h.0)) λ x.
            bind (weaken started (λ r h. h) (λ u r h. h) (λ r h. h.0))
              λ x. attempted Agrees-complete Agrees-give_up (λ r h. h)
    where
      unchanged : Keeps (On Agrees) (check_unchanged D c m before environment recovery reason)
      unchanged = record {
        run = λ r h.
            (Keeps-demand (
                recovery
                || all (is_expected D c m before environment recovery reason r.receipt) before)).run
              r h;
      }

      held :
          Triple
            (On Agrees)
            (for_each m.images (
              hold D c m before environment recovery reason
                (or_text reason "stable write in progress")))
            (λ x. On Writing)
            (λ r. On Agrees r × Unit {0})
      held =
          weaken
            (for_each-all (λ i. On (λ v. StateAt (λ d. d.hold ≡ true) i.name v.objects)) m.images _
              (λ i k.
                weaken
                  (both (Agrees-hold D c view lawful m before environment recovery reason _ i) (
                    hold-Holds D c view lawful m before environment recovery reason (λ f. Unit {0})
                      _ i))
                  (λ r h. (h, tt)) (λ u r h. (h.0, h.1.1)) (λ r h. h.0))
              (λ i j k l.
                weaken
                  (Keeps-hold-hold D c view lawful m before environment recovery reason _ i.name j)
                  (λ r h. h) (λ x r h. h) (λ r h. tt)))
            (λ r h. h) (λ u r h. h) (λ r h. (h, tt))

      started :
          Keeps (On Writing) (put_receipt D c m before environment recovery reason Phase.started)
      started =
          weaken
            (both (Agrees-put_receipt Phase.started) (
              Keeps-put_receipt D c view lawful m before environment recovery reason (Held m.images)
                Phase.started
                λ v w doc.
                  Held-Wrote D c view lawful m before environment recovery reason _ doc
                    (λ name e. absurd (ground arith))))
            (λ r h. h) (λ u r h. h) (λ r h. h)

  -- On a lawful destination, if every state document that is not held names the digest of the tag
  -- stable of its framework, then this is so when publish_states ends, however it ends.
  pub publish_states-Agrees :
      (s : D.State)
      → Agrees (view s)
      → Agrees (view (publish_states D c m before environment recovery reason s).1.remote)
  unfolding publish_states
  publish_states-Agrees s h =
      Post-any (λ u. On Agrees) (On Agrees) (On Agrees) _ _ (λ u k. k) (λ k. k)
        (Agrees-publish.run _ h)
