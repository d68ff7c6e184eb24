-- ===== src/Alerts/Delivery/Once.antt =====
-- How many alerts a delivery opens for its event.
use alric_containers_image_b.Base.{
  ℕ, zero, suc, ◌+◌, ◌≤◌, ◌<◌, String, ◌≡◌, ◌≢◌, refl, ◌∙◌, Bool, true, false, not, ◌||◌, Option,
  none, some, Result, ok, err, arith, if◌then◌else◌,
}
use alric_containers_image_b.Base.Act.{pure, ◌>>=◌, ◌>>◌}
use alric_containers_image_b.Base.Act.Triples.{Post, Triple, weaken, bind}
use alric_containers_image_b.Alerts.Data.{
  Event, Record, Failure, transport_timeout, transport_error, http_error, other_error, Class,
  classify, lookup, Dict, Adapter, Settings,
}
use alric_containers_image_b.Alerts.Delivery.{
  Cycle, Round, finished, again, add, retry_or_end, found_there, reconcile, reread, after_failure,
  go_on, answered, round, sleep, attempts, deliver_one,
}
use alric_containers_image_b.Alerts.Delivery.Kept.{InWorld, InWorld-Closed, Keeps-sleep}

-- The destination has answered that it did not process the request, or never got it.
abbrev pub Unprocessed : Failure → Type 0
Unprocessed transport_timeout = ⊥
Unprocessed (transport_error true) = ⊥
Unprocessed (transport_error false) = Unit
Unprocessed (http_error status) = status < 500
Unprocessed other_error = ⊥

-- How many alerts are open for an event, as the calls may change it: a creation opens at most one,
-- and none if it was not processed; what is read is complete.
pub record Counts (A : Adapter) (count : A.World → String → ℕ) : Type 0 where
  pub create :
      (w : A.World) (e : Event) → count (A.deliver w e none).1 e.event_id ≤ suc (count w e.event_id)
  pub create-Unprocessed :
      (w : A.World) (e : Event) (f : Failure)
      → (A.deliver w e none).0 ≡ err f
      → Unprocessed f
      → count (A.deliver w e none).1 e.event_id ≡ count w e.event_id
  pub create_others :
      (w : A.World) (e : Event) (id : String)
      → id ≢ e.event_id
      → count (A.deliver w e none).1 id ≡ count w id
  pub repeat :
      (w : A.World) (e : Event) (known : Record) (id : String)
      → count (A.deliver w e (some known)).1 id ≡ count w id
  pub read : (w : A.World) (id : String) → count (A.open_alerts w).1 id ≡ count w id
  pub read-none :
      (w : A.World) (alerts : Dict Record) (id : String)
      → (A.open_alerts w).0 ≡ ok alerts
      → lookup id alerts ≡ none
      → count w id ≡ 0
  pub acks :
      (w : A.World) (known : Record) (id : String)
      → count (A.acknowledgements w known).1 id ≡ count w id
  pub close :
      (w : A.World) (known : Record) (id : String) → count (A.resolve w known).1 id ≤ count w id

-- A failure that is not ambiguous was not processed.
classify-Unprocessed : (f : Failure) → (classify f).ambiguous ≡ false → Unprocessed f
classify-Unprocessed transport_timeout h = absurd (ground arith)
classify-Unprocessed (transport_error true) h = absurd (ground arith)
classify-Unprocessed (transport_error false) h = tt
classify-Unprocessed (http_error status) h = ground arith
classify-Unprocessed other_error h = absurd (ground arith)

module _ (A : Adapter) where
  module _ (count : A.World → String → ℕ) (lawful : Counts A count) where
    abbrev Open : String → (ℕ → Type 0) → Cycle A → Type 0
    Open id N = InWorld A (λ w. N (count w id))

    -- No alert yet, and at most one.
    abbrev None : String → Cycle A → Type 0
    None id = Open id (λ n. n ≡ 0)

    abbrev One : String → Cycle A → Type 0
    One id = Open id (λ n. n ≤ 1)

    -- After a round that is to be repeated no alert is open.
    abbrev Ended : String → Round → Cycle A → Type 0
    Ended id (finished alert) = One id
    Ended id again = None id

    ended :
        (id : String) (c : Class) (last : Bool) (r : Cycle A)
        → None id r
        → Ended id (retry_or_end A c last) r
    ended id c last r h = go (not c.retryable || last)
      where
        go : (b : Bool) → Ended id (if b then finished none else again) r
        go true = ground arith
        go false = h

    found_there-One :
        (e : Event) (c : Class) (last : Bool) (o : Option Record)
        → Triple
            (λ r. One e.event_id r × (o ≡ none → None e.event_id r))
            (found_there A e c last o)
            (Ended e.event_id)
            (One e.event_id)
    unfolding found_there add ◌>>=◌
    found_there-One e c last none = record { run = λ r h. ended e.event_id c last r (h.1 refl) }
    found_there-One e c last (some alert) = record { run = λ r h. h.0 }

    reread-One :
        (e : Event) (c : Class) (last : Bool)
        → Triple (One e.event_id) (reread A e c last) (Ended e.event_id) (One e.event_id)
    unfolding reread reconcile
    reread-One e c last = record { run = λ r h. go r h (A.open_alerts r.world).0 refl }
      where
        go :
            (r : Cycle A)
            → One e.event_id r
            → (a : Result Failure (Dict Record)) → (A.open_alerts r.world).0 ≡ a
            → Post
                (Ended e.event_id)
                (One e.event_id)
                (reconcile A e c last a (record r { world = (A.open_alerts r.world).1 })).0
                (reconcile A e c last a (record r { world = (A.open_alerts r.world).1 })).1
        go r h (err f) q = ground (arith, lawful.read r.world e.event_id)
        go r h (ok alerts) q =
            (found_there-One e c last (lookup e.event_id alerts)).run
              (record r { world = (A.open_alerts r.world).1 })
              (
                ground (arith, lawful.read r.world e.event_id),
                λ missing.
                    lawful.read r.world e.event_id
                    ∙ lawful.read-none r.world alerts e.event_id q missing,
              )

    after_failure-One :
        (e : Event) (c : Class) (last : Bool)
        → Triple
            (λ r. One e.event_id r × (c.ambiguous ≡ false → None e.event_id r))
            (after_failure A e none c last)
            (Ended e.event_id)
            (One e.event_id)
    unfolding after_failure
    after_failure-One e c last = go c.ambiguous refl
      where
        go :
            (b : Bool)
            → c.ambiguous ≡ b
            → Triple
                (λ r. One e.event_id r × (c.ambiguous ≡ false → None e.event_id r))
                (if b then reread A e c last else pure (retry_or_end A c last))
                (Ended e.event_id)
                (One e.event_id)
        go true q = weaken (reread-One e c last) (λ r h. h.0) (λ x r h. h) (λ r h. h)
        go false q = record { run = λ r h. ended e.event_id c last r (h.1 q) }

    answered-One :
        (e : Event) (n : ℕ) (last : Bool) (a : Result Failure Record)
        → Triple
            (λ r.
              One e.event_id r × ((f : Failure) → a ≡ err f → Unprocessed f → None e.event_id r))
            (answered A e none n last a)
            (Ended e.event_id)
            (One e.event_id)
    unfolding answered add ◌>>=◌
    answered-One e n last (ok alert) = record { run = λ r h. h.0 }
    answered-One e n last (err f) = record {
      run = λ r h.
          (after_failure-One e (classify f) last).run _
            (h.0, λ q. h.1 f refl (classify-Unprocessed f q));
    }

    round-One :
        (e : Event) (n : ℕ) (last : Bool)
        → Triple (None e.event_id) (round A e none n last) (Ended e.event_id) (One e.event_id)
    unfolding round
    round-One e n last = record {
      run = λ r h.
          (answered-One e n last (A.deliver r.world e none).0).run
            (record r { world = (A.deliver r.world e none).1 })
            (
              ground (arith, lawful.create r.world e),
              λ f q u. lawful.create-Unprocessed r.world e f q u ∙ h,
            );
    }

    attempts-One :
        (e : Event) (settings : Settings) (n left : ℕ)
        → Triple
            (None e.event_id)
            (attempts A e none settings n left)
            (λ x. One e.event_id)
            (One e.event_id)
    unfolding attempts
    attempts-One e settings n zero = record { run = λ r h. ground arith }
    attempts-One e settings n (suc left) =
        bind (round-One e n _) (next (attempts-One e settings (n + 1) left))
      where
        next :
            Triple
              (None e.event_id)
              (attempts A e none settings (n + 1) left)
              (λ x. One e.event_id)
              (One e.event_id)
            → (o : Round)
            → Triple
                (Ended e.event_id o)
                (go_on A (sleep A settings n >> attempts A e none settings (n + 1) left) o)
                (λ x. One e.event_id)
                (One e.event_id)
        next later (finished alert) = record { run = λ r h. h }
        next later again =
            bind
              (weaken
                (Keeps-sleep A (None e.event_id)
                  (InWorld-Closed A (λ w. count w e.event_id ≡ 0)
                    (λ w h. lawful.read w e.event_id ∙ h))
                  settings n)
                (λ r h. h) (λ x r h. h) (λ r h. ground arith))
              (λ u. later)

    -- A delivery of an event that has no open alert leaves at most one, whatever each attempt met.
    pub deliver_one-One :
        (e : Event) (settings : Settings)
        → Triple
            (None e.event_id)
            (deliver_one A e none settings)
            (λ x. One e.event_id)
            (One e.event_id)
    unfolding deliver_one
    deliver_one-One e settings = attempts-One e settings 1 settings.max_attempts
