-- ===== src/EvidenceStore/Tests.antt =====
-- Requests against the in-memory transport, and a lost response.
use mathlib.Core.Option.{or_else}
use alric_containers_image_b.Base.{◌≡◌, refl, ◌≢◌, some, [], ◌∷◌}
use alric_containers_image_b.Base.Order.{sorted}
use alric_containers_image_b.Base.Decimal.{show}
use alric_containers_image_b.EvidenceStore.{ReadStatus, WriteStatus, create_once, keys}
use alric_containers_image_b.EvidenceStore.Content.{
  FrozenObject, freeze, item_leb, same_content, sorted_set,
}
use alric_containers_image_b.EvidenceStore.Content.Freeze.{freeze_lem, freeze-swap}
use alric_containers_image_b.EvidenceStore.CreateOnce.{Says, create_once-Says, create_once_retry}
use alric_containers_image_b.EvidenceStore.Memory.{
  Memory, empty, memory, memory_view, memory_get, memory_put, memory_keys,
}
use alric_containers_image_b.EvidenceStore.Memory.Refinement.{
  memory-IsLawful, contents, map_status, create_once-status, run, first_request, run-first_write,
}

abbrev one : FrozenObject
one = record { bytes = 1 ∷ []; metadata = ("kind", "log") ∷ [] }

abbrev two : FrozenObject
two = record { bytes = 2 ∷ []; metadata = [] }

abbrev after_one : Memory
after_one = record {
  objects = ("a", record { content = one; version_id = "memory-1" }) ∷ [];
  sequence = 1;
}

first_creates : create_once memory empty "a" one ≡ (
  record {
    status = WriteStatus.created;
    object = some (record { content = one; version_id = "memory-1" });
  },
  after_one,
)
unfolding create_once memory_put memory_get same_content show
first_creates = refl

second_conflicts : (create_once memory after_one "a" two).0.status ≡ WriteStatus.conflict
unfolding create_once memory_put memory_get same_content
second_conflicts = refl

inventory_is_sorted :
    (keys memory after_one "a").0 ≡ record { status = ReadStatus.found; keys = "a" ∷ [] }
unfolding keys memory_keys sorted sorted_set
inventory_is_sorted = refl

create_once-Says_example :
    Says
      (create_once memory after_one "a" two).0
      two
      "a"
      (memory_view after_one)
      (memory_view (create_once memory after_one "a" two).1)
create_once-Says_example = create_once-Says memory memory_view memory-IsLawful after_one "a" two

create_once_retry_example :
    (create_once memory (create_once memory empty "a" one).1 "a" one).0.status
    ≢ WriteStatus.conflict
create_once_retry_example = create_once_retry memory memory_view memory-IsLawful empty "a" one refl

create_once-status_example :
    (create_once memory after_one "a" two).0.status ≡ map_status (contents after_one "a") two
create_once-status_example = create_once-status after_one "a" two

run-first_write_example :
    contents (run empty (("a", one) ∷ ("a", two) ∷ [])) "a"
    ≡ or_else (contents empty "a") (first_request "a" (("a", one) ∷ ("a", two) ∷ []))
run-first_write_example = run-first_write empty (("a", one) ∷ ("a", two) ∷ []) "a"

freeze_lem_example :
    freeze (1 ∷ []) (("kind", "log") ∷ ("id", "7") ∷ [])
    ≡ some
        (record { bytes = 1 ∷ []; metadata = sorted item_leb (("kind", "log") ∷ ("id", "7") ∷ []) })
freeze_lem_example = freeze_lem (1 ∷ []) (("kind", "log") ∷ ("id", "7") ∷ [])

freeze-swap_example :
    freeze (1 ∷ []) (("kind", "log") ∷ ("id", "7") ∷ [])
    ≡ freeze (1 ∷ []) (("id", "7") ∷ ("kind", "log") ∷ [])
freeze-swap_example = freeze-swap (1 ∷ []) [] ("kind", "log") ("id", "7") []
