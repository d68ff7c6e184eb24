-- ===== src/Alerts/Send/Bounded.antt =====
-- The attempts of a delivery, and the records that it returns.
use alric_containers_image_b.Base.{
  ℕ, suc, zero, ◌+◌, ◌-◌, ◌≤◌, ◌<◌, String, ◌≡◌, refl, sym, ap, ◌∙◌, Bool, true, false, not, ◌&&◌,
  ◌||◌, inl, inr, Option, none, some, List, [], ◌∷◌, map, length, Result, ok, err, In, arith, ltb,
  leb, Bool-cases, if◌then◌else◌,
}
use mathlib.Core.Path.{subst}
use alric_containers_image_b.Base.Act.{Stop, Act, pure, ◌>>◌}
use alric_containers_image_b.Base.Act.Triples.{Post, Triple, weaken, bind, Post-map}
use alric_containers_image_b.Alerts.Data.{Event, Settings}
use alric_containers_image_b.Alerts.Delivery.{item}
use alric_containers_image_b.Alerts.Send.{
  Answer, timed_out, broken, response, accepted, Attempt, Sent, accepted_or_ambiguous, of_response,
  judge, paused, pause, sent, call, send_from, send_one, deliver,
}

-- What `load_policy` requires of the attempts.
pub record IsValid (settings : Settings) : Type 0 where
  pub one : 1 ≤ settings.max_attempts
  pub pauses : length settings.backoff_seconds + 1 ≡ settings.max_attempts

item-some : (xs : List ℕ) (n : ℕ) → n < length xs → (s : ℕ) × (item xs n ≡ some s)
item-some [] n h = absurd (ground arith)
item-some (x ∷ xs) zero h = (x, refl)
item-some (x ∷ xs) (suc n) h = item-some xs n (ground arith)

Post-total :
    {A S : Type 0} (Q : A → S → Type 0) (r : Result Stop A) (s : S)
    → Post Q (λ t. ⊥) r s
    → (a : A) × (r ≡ ok a) × Q a s
Post-total Q (ok a) s h = (a, refl, h)
Post-total Q (err f) s h = absurd h

module _ (receipt_of : List ℕ → Option String) (idempotent : Bool) where
  accepted_or_ambiguous-receipt :
      (o : Option String) → accepted_or_ambiguous o ≡ accepted → (r : String) × (o ≡ some r)
  accepted_or_ambiguous-receipt none h = absurd (ground arith)
  accepted_or_ambiguous-receipt (some r) h = (r, refl)

  -- An attempt is accepted only with the destination's receipt.
  of_response-receipt :
      (code : ℕ) (body : List ℕ)
      → (of_response receipt_of idempotent code body).status ≡ accepted
      → (r : String) × ((of_response receipt_of idempotent code body).receipt ≡ some r)
  of_response-receipt code body h = elim (Bool-cases (leb 200 code && ltb code 300)) [
    | inl e ↦
        let r = accepted_or_ambiguous-receipt (receipt_of body) (ground (arith, h, e)) in
        (r.0, ground (arith, r.1, e))
    | inr e ↦ absurd (ground (arith, h, e))
  ]

  judge-receipt :
      (http : Option ℕ) (a : Answer)
      → (judge receipt_of idempotent http a).status ≡ accepted
      → (r : String) × ((judge receipt_of idempotent http a).receipt ≡ some r)
  judge-receipt http timed_out h = absurd (ground arith)
  judge-receipt http (broken s) h = absurd (ground arith)
  judge-receipt http (response code body) h = of_response-receipt code body h

  module _ {World : Type 0} (transport : World → Event → Answer × World) (settings : Settings) where
    -- The attempts are within the policy, and only a receipt makes a delivery accepted.
    pub record IsBounded (r : Sent) : Type 0 where
      pub some_attempt : 1 ≤ r.attempts
      pub within : r.attempts ≤ settings.max_attempts
      pub receipted : r.status ≡ accepted → (receipt : String) × (r.receipt ≡ some receipt)

    abbrev Receipted : Attempt → Type 0
    Receipted a = a.status ≡ accepted → (receipt : String) × (a.receipt ≡ some receipt)

    sent-Receipted :
        (e : Event) (n : ℕ) (a : Attempt)
        → Receipted a
        → (sent receipt_of idempotent transport settings e n a).status ≡ accepted
        → (receipt : String) × (a.receipt ≡ some receipt)
    sent-Receipted e n a h q = elim (Bool-cases a.retry) [
      | inl r ↦ absurd (ground (arith, r, q))
      | inr r ↦ h (ground (arith, r, q))
    ]

    abbrev For : Event → Sent → Type 0
    For e r = (r.event_id ≡ e.event_id) × IsBounded r

    send_from-bounded :
        (e : Event) (done left : ℕ) (http : Option ℕ)
        → IsValid settings
        → 1 ≤ left
        → done + left ≡ settings.max_attempts
        → Triple
            (λ w. Unit {0})
            (send_from receipt_of idempotent transport settings e done left http)
            (λ r w. For e r)
            (λ w. ⊥)
    unfolding send_from call pause
    send_from-bounded e done zero http v some_left total = absurd (ground arith)
    send_from-bounded e done (suc left) http v some_left total =
        bind {Q = λ a w. Receipted a} (record { run = λ w h. judge-receipt http (transport w e).0 })
          λ a. go a (not a.retry || leb settings.max_attempts (done + 1)) refl (λ more.
            send_from-bounded e (done + 1) left a.http_status v (ground (arith, more))
              (ground arith))
      where
        rest : Attempt → Act World Sent
        rest a =
            pause receipt_of idempotent transport settings (done + 1)
            >> send_from receipt_of idempotent transport settings e (done + 1) left a.http_status

        pauses :
            done + 1 < settings.max_attempts
            → (o : Option ℕ) → item settings.backoff_seconds (done + 1 - 1) ≡ o
            → Triple
                (λ w. Unit {0})
                (paused receipt_of idempotent transport settings o)
                (λ u w. Unit {0})
                (λ w. ⊥)
        pauses more none q =
            let s =
              item-some settings.backoff_seconds (done + 1 - 1) (ground (arith, more, v.pauses)) in
            absurd (ground (arith, q, s.1))
        pauses more (some s) q = record { run = λ w h. tt }

        go :
            (a : Attempt) (b : Bool)
            → (not a.retry || leb settings.max_attempts (done + 1)) ≡ b
            → (done + 1 < settings.max_attempts
                → Triple
                    (λ w. Unit {0})
                    (send_from receipt_of idempotent transport settings e
                      (done + 1)
                      left
                      a.http_status)
                    (λ r w. For e r)
                    (λ w. ⊥))
            → Triple
                (λ w. Receipted a)
                (if b
                  then pure (sent receipt_of idempotent transport settings e (done + 1) a)
                  else rest a)
                (λ r w. For e r)
                (λ w. ⊥)
        go a true q later = record {
          run = λ w h. (
            refl,
            record {
              some_attempt = ground arith;
              within = ground arith;
              receipted = sent-Receipted e (done + 1) a h;
            },
          );
        }
        go a false q later =
            weaken
              (bind (pauses (ground (arith, q)) (item settings.backoff_seconds (done + 1 - 1)) refl)
                (λ u. later (ground (arith, q))))
              (λ w h. tt) (λ r w h. h) (λ w h. h)

    -- The records are those of the events, in order.
    abbrev Told : List Event → List Sent → Type 0
    Told es rs =
        (map (λ r. r.event_id) rs ≡ map (λ e. e.event_id) es) × ((r : Sent) → In r rs → IsBounded r)

    deliver-Told :
        IsValid settings
        → (es : List Event)
        → Triple
            (λ w. Unit {0})
            (deliver receipt_of idempotent transport settings es)
            (λ rs w. Told es rs)
            (λ w. ⊥)
    unfolding deliver send_one
    deliver-Told v [] = record { run = λ w h. (refl, λ r m. absurd m) }
    deliver-Told v (e ∷ es) = with_rest (deliver-Told v es)
      where
        each :
            (first : Sent) (others : List Sent)
            → IsBounded first
            → ((r : Sent) → In r others → IsBounded r)
            → (r : Sent) → In r (first ∷ others)
            → IsBounded r
        each first others b h r (inl q) = subst IsBounded (sym q) b
        each first others b h r (inr m) = h r m

        with_rest :
            Triple
              (λ w. Unit {0})
              (deliver receipt_of idempotent transport settings es)
              (λ rs w. Told es rs)
              (λ w. ⊥)
            → Triple
                (λ w. Unit {0})
                (deliver receipt_of idempotent transport settings (e ∷ es))
                (λ rs w. Told (e ∷ es) rs)
                (λ w. ⊥)
        with_rest later =
            bind {Q = λ r w. For e r}
              (send_from-bounded e 0 settings.max_attempts none v v.one (ground arith))
              λ first.
                bind {Q = λ rs w. For e first × Told es rs}
                  (record {
                    run = λ w h.
                        Post-map {R = λ rs t. For e first × Told es rs} (λ rs t k. (h, k))
                          (λ t k. k) (deliver receipt_of idempotent transport settings es w).0
                          (deliver receipt_of idempotent transport settings es w).1
                          (later.run w tt);
                  })
                  λ others. record {
                    run = λ w h. (
                      ap (λ x. x ∷ map (λ r. r.event_id) others) h.0.0
                          ∙ ap (λ xs. e.event_id ∷ xs) h.1.0,
                      each first others h.0.1 h.1.1,
                    );
                  }

    -- With attempts and pauses as the policy requires them, deliver never raises and never runs
    -- out of the attempts: it returns one record for each event, in order, each with at least one
    -- and at most the allowed attempts, and accepted only with the receipt of the destination.
    pub deliver-IsBounded :
        IsValid settings
        → (es : List Event) (w : World)
        → (rs : List Sent) × ((deliver receipt_of idempotent transport settings es w).0 ≡ ok rs)
          × ((map (λ r. r.event_id) rs ≡ map (λ e. e.event_id) es)
              × ((r : Sent) → In r rs → IsBounded r))
    deliver-IsBounded v es w =
        Post-total (λ rs t. Told es rs) _ (deliver receipt_of idempotent transport settings es w).1
          ((deliver-Told v es).run w tt)
