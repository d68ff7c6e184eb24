-- ===== src/Release/Lifecycle/Agreement.antt =====
-- The agreement of the tags with the state documents over runs of the commands, one after the other
-- as the lock of the workflow has them.
use alric_containers_image_b.Base.{Bool, List, [], ◌∷◌}
use alric_containers_image_b.Base.Act.Triples.{Post-any}
use alric_containers_image_b.Release.Data.{Environment}
use alric_containers_image_b.Release.Destination.{Destination, View, IsLawful}
use alric_containers_image_b.Release.Publication.Agreement.{Agrees, Agrees-Wrote}
use alric_containers_image_b.Release.Publication.Kept.{publish_states-Agrees}
use alric_containers_image_b.Release.Site.{Tools, Site}
use alric_containers_image_b.Release.Lifecycle.{Setting, Order, Operation, publish_in}
use alric_containers_image_b.Release.Lifecycle.Hom.{main, environment_of, is_recovery}
use alric_containers_image_b.Release.Lifecycle.Steps.{IsKept, Here, state_stays, Post-always}
use alric_containers_image_b.Release.Lifecycle.Leads.{Publishes}
use alric_containers_image_b.Release.Lifecycle.HomRuns.{Leads-main}

module _ (D : Destination) (T : Tools) (g : Setting) where
  -- Runs of `main`, each with its arguments.
  unfoldable pub invocations : List (Order × Operation) → Site D T → Site D T
  unfolding main
  invocations [] site = site
  invocations ((o, operation) ∷ later) site = invocations later (main D T g o operation site).1

  module _ (view : D.State → View) (lawful : IsLawful D view) where
    Agrees-IsKept : IsKept (λ v t. Agrees v)
    Agrees-IsKept = record {
      grows = λ v e t h. h;
      puts = λ v w t key doc r wrote h.
          Agrees-Wrote (λ name e. absurd (state_stays key name r e)) wrote h;
    }

    publish_in-Agrees :
        (o : Order) (environment : Environment) (recovery : Bool)
        → Publishes D T view lawful g o
            (λ name state. Unit {0})
            environment
            recovery
            (λ v t. Agrees v)
            (λ v t. Agrees v)
    unfolding publish_in
    publish_in-Agrees o environment recovery reason m before = record {
      run = λ s h. Post-always (Here D T view lawful (λ v t. Agrees v)) _ _ (
          publish_states-Agrees D o.context view lawful m before environment recovery reason
            s.run.remote h.0);
    }

    main-Agrees :
        (o : Order) (operation : Operation) (s : Site D T)
        → Agrees (view s.run.remote)
        → Agrees (view (main D T g o operation s).1.run.remote)
    main-Agrees o operation s h =
        Post-any (λ a. Here D T view lawful (λ v t. Agrees v))
          (Here D T view lawful (λ v t. Agrees v)) (Here D T view lawful (λ v t. Agrees v)) _ _
          (λ a k. k) (λ k. k)
          ((Leads-main D T view lawful g o _ _ Agrees-IsKept Agrees-IsKept (λ v t k. k)
              (λ name state. Unit {0}) (λ v t k name. tt) operation
              (publish_in-Agrees o (environment_of operation) (is_recovery operation))).run
            s h)

    -- On a lawful destination, after any runs of main, one after the other, each of any command
    -- with any arguments, with an error or cut off at any call, every state document that is not
    -- held names the digest of the tag stable of its framework, if this was so before the first of
    -- them.
    pub invocations-Agrees :
        (orders : List (Order × Operation)) (s : Site D T)
        → Agrees (view s.run.remote)
        → Agrees (view (invocations orders s).run.remote)
    unfolding invocations
    invocations-Agrees [] s h = h
    invocations-Agrees ((o, operation) ∷ later) s h =
        invocations-Agrees later _ (main-Agrees o operation s h)
