-- ===== src/Alerts/Send/Safe.antt =====
-- How often a destination that does not deduplicate processes an event.
use alric_containers_image_b.Base.{
  ℕ, suc, zero, ◌+◌, ◌-◌, ◌≤◌, String, ◌≡◌, ◌∙◌, refl, Bool, true, false, not, ◌||◌, ◌⊎◌, Option,
  none, some, List, arith, leb, if◌then◌else◌,
}
use alric_containers_image_b.Base.Act.{pure, ◌>>◌}
use alric_containers_image_b.Base.Act.Triples.{Triple, weaken, bind, Post-any}
use alric_containers_image_b.Alerts.Data.{Event, Settings}
use alric_containers_image_b.Alerts.Delivery.{item}
use alric_containers_image_b.Alerts.Send.{
  Answer, timed_out, broken, response, Attempt, judge, paused, pause, sent, call, send_from,
  send_one,
}

-- The request never left, or the destination says that it did not process it.
abbrev pub Unprocessed : Answer → Type 0
Unprocessed timed_out = ⊥
Unprocessed (broken true) = ⊥
Unprocessed (broken false) = Unit
Unprocessed (response code body) = (code ≡ 408) ⊎ (code ≡ 429)

-- How often an event was processed: a call processes it at most once, and not at all if it was not
-- processed.
pub record Processes {World : Type 0} (transport : World → Event → Answer × World)
    (count : World → String → ℕ) : Type 0 where
  pub once : (w : World) (e : Event) → count (transport w e).1 e.event_id ≤ suc (count w e.event_id)
  pub not_at_all :
      (w : World) (e : Event)
      → Unprocessed (transport w e).0
      → count (transport w e).1 e.event_id ≡ count w e.event_id

module _ (receipt_of : List ℕ → Option String) where
  -- Without deduplication only such an answer is followed by another attempt.
  judge-Unprocessed :
      (http : Option ℕ) (a : Answer) → (judge receipt_of false http a).retry ≡ true → Unprocessed a
  judge-Unprocessed http timed_out h = absurd (ground arith)
  judge-Unprocessed http (broken true) h = absurd (ground arith)
  judge-Unprocessed http (broken false) h = tt
  judge-Unprocessed http (response code body) h = ground arith

  module _ {World : Type 0} (transport : World → Event → Answer × World) (settings : Settings)
      (count : World → String → ℕ) (lawful : Processes transport count) where
    send_from-once :
        (e : Event) (done left : ℕ) (http : Option ℕ)
        → Triple
            (λ w. count w e.event_id ≡ 0)
            (send_from receipt_of false transport settings e done left http)
            (λ r w. count w e.event_id ≤ 1)
            (λ w. count w e.event_id ≤ 1)
    unfolding send_from call pause
    send_from-once e done zero http = record { run = λ w h. ground arith }
    send_from-once e done (suc left) http =
        bind {Q = λ a w. (count w e.event_id ≤ 1) × (a.retry ≡ true → count w e.event_id ≡ 0)}
          (record {
            run = λ w h. (
              ground (arith, lawful.once w e, h),
              λ again. lawful.not_at_all w e (judge-Unprocessed http (transport w e).0 again) ∙ h,
            );
          })
          λ a.
            go a (not a.retry || leb settings.max_attempts (done + 1)) refl
              (send_from-once e (done + 1) left a.http_status)
      where
        waits :
            (o : Option ℕ)
            → Triple
                (λ w. count w e.event_id ≡ 0)
                (paused receipt_of false transport settings o)
                (λ u w. count w e.event_id ≡ 0)
                (λ w. count w e.event_id ≤ 1)
        waits none = record { run = λ w h. ground arith }
        waits (some s) = record { run = λ w h. h }

        go :
            (a : Attempt) (b : Bool)
            → (not a.retry || leb settings.max_attempts (done + 1)) ≡ b
            → Triple
                (λ w. count w e.event_id ≡ 0)
                (send_from receipt_of false transport settings e (done + 1) left a.http_status)
                (λ r w. count w e.event_id ≤ 1)
                (λ w. count w e.event_id ≤ 1)
            → Triple
                (λ w. (count w e.event_id ≤ 1) × (a.retry ≡ true → count w e.event_id ≡ 0))
                (if b
                  then pure (sent receipt_of false transport settings e (done + 1) a)
                  else (pause receipt_of false transport settings (done + 1)
                      >> send_from receipt_of false transport settings e
                          (done + 1)
                          left
                          a.http_status))
                (λ r w. count w e.event_id ≤ 1)
                (λ w. count w e.event_id ≤ 1)
        go a true q later = record { run = λ w h. h.0 }
        go a false q later =
            weaken (bind (waits (item settings.backoff_seconds (done + 1 - 1))) (λ u. later))
              (λ w h. h.1 (ground (arith, q))) (λ r w h. h) (λ w h. h)

    -- Over a transport whose calls process the event at most once, and not at all when it did not
    -- leave or was refused with 408 or 429, the delivery to a destination without an idempotency
    -- key of an event that was not processed yet leaves it processed at most once, whatever each
    -- attempt met.
    pub send_one_once :
        (e : Event) (w : World)
        → count w e.event_id ≡ 0
        → count (send_one receipt_of false transport settings e w).1 e.event_id ≤ 1
    unfolding send_one
    send_one_once e w h =
        Post-any (λ r t. count t e.event_id ≤ 1) (λ t. count t e.event_id ≤ 1)
          (λ t. count t e.event_id ≤ 1) (send_one receipt_of false transport settings e w).0
          (send_one receipt_of false transport settings e w).1 (λ r k. k) (λ k. k)
          ((send_from-once e 0 settings.max_attempts none).run w h)
