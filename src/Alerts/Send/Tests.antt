-- ===== src/Alerts/Send/Tests.antt =====
-- Deliveries over a transport whose first answers are given.
use alric_containers_image_b.Base.{
  ℕ, suc, ◌+◌, ◌≤◌, String, ◌≡◌, refl, if◌then◌else◌, true, false, ◌||◌, Option, none, some, List,
  [], ◌∷◌, map, ok, In, arith, ◌==◌,
}
use alric_containers_image_b.Base.Act.{◌>>=◌}
use alric_containers_image_b.Alerts.Data.{Event, Settings}
use alric_containers_image_b.Alerts.Send.{
  Answer, timed_out, broken, response, Sent, accepted, call, pause, send_from, send_one, deliver,
}
use alric_containers_image_b.Alerts.Send.Bounded.{IsValid, IsBounded, deliver-IsBounded}
use alric_containers_image_b.Alerts.Send.Safe.{Unprocessed, Processes, send_one_once}

abbrev World : Type 0
World = List Answer × ℕ

-- 1 if the request was processed.
abbrev processed : Answer → ℕ
processed timed_out = 1
processed (broken true) = 1
processed (broken false) = 0
processed (response code body) = if code == 408 || code == 429 then 0 else 1

abbrev transport : World → Event → Answer × World
transport ([], n) e = (response 200 (7 ∷ []), ([], n + 1))
transport (a ∷ later, n) e = (a, (later, n + processed a))

abbrev count : World → String → ℕ
count w id = w.1

processed-le : (a : Answer) → processed a ≤ 1
processed-le timed_out = ground arith
processed-le (broken true) = ground arith
processed-le (broken false) = ground arith
processed-le (response code body) = ground arith

processed-none : (a : Answer) → Unprocessed a → processed a ≡ 0
processed-none timed_out u = absurd u
processed-none (broken true) u = absurd u
processed-none (broken false) u = refl
processed-none (response code body) u = ground (arith, u)

transport_once :
    (w : World) (e : Event) → count (transport w e).1 e.event_id ≤ suc (count w e.event_id)
transport_once ([], n) e = ground arith
transport_once (a ∷ later, n) e = ground (arith, processed-le a)

transport_never :
    (w : World) (e : Event)
    → Unprocessed (transport w e).0
    → count (transport w e).1 e.event_id ≡ count w e.event_id
transport_never ([], n) e u = ground (arith, u)
transport_never (a ∷ later, n) e u = ground (arith, processed-none a u)

transport-Processes : Processes transport count
transport-Processes = record { once = transport_once; not_at_all = transport_never }

abbrev receipt_of : List ℕ → Option String
receipt_of body = some "receipt"

abbrev settings : Settings
settings = record { max_attempts = 3; backoff_seconds = 2 ∷ 8 ∷ [] }

settings-IsValid : IsValid settings
settings-IsValid = record { one = ground arith; pauses = refl }

abbrev fire : Event
fire = record { event_id = "fire"; occurrence_id = "1-1"; severity = "high"; test = false }

-- Two requests that never left, then an accepted one.
retries :
    (send_one receipt_of false transport settings fire (broken false ∷ response 429 [] ∷ [], 0)).0
    ≡ ok (record {
      event_id = "fire";
      occurrence_id = "1-1";
      status = accepted;
      last_failure = none;
      attempts = 3;
      http_status = some 200;
      receipt = some "receipt";
    })
unfolding send_one send_from call pause ◌>>=◌
retries = refl

deliver-IsBounded_example :
    (rs : List Sent) × ((deliver receipt_of false transport settings
        (fire ∷ [])
        (broken false ∷ [], 0)).0
      ≡ ok rs)
    × ((map (λ r. r.event_id) rs ≡ map (λ e. e.event_id) (fire ∷ []))
        × ((r : Sent) → In r rs → IsBounded receipt_of false transport settings r))
deliver-IsBounded_example =
    deliver-IsBounded receipt_of false transport settings settings-IsValid (fire ∷ [])
      (broken false ∷ [], 0)

send_one_once_example :
    count
      (send_one receipt_of false transport settings fire (broken false ∷ timed_out ∷ [], 0)).1
      "fire"
    ≤ 1
send_one_once_example =
    send_one_once receipt_of transport settings count transport-Processes fire
      (broken false ∷ timed_out ∷ [], 0) refl
