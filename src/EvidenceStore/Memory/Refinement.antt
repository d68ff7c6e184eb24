-- ===== src/EvidenceStore/Memory/Refinement.antt =====
-- `EvidenceStore` over `MemoryTransport`, and a map in which the first write of a key wins.
use mathlib.Core.Path.{subst}
use mathlib.Core.Option.{or_else}
use Prim.Native.String.{◌++◌ as ◌<>◌}
use alric_containers_image_b.Base.{
  ◌+◌, String, ◌≡◌, refl, ◌≢◌, ◌⊎◌, inl, inr, Option, none, some, List, [], ◌∷◌, arith, str_eq,
  eq_iff, eq_refl, if◌then◌else◌, Option-cases,
}
use alric_containers_image_b.Base.Decimal.{show}
use alric_containers_image_b.EvidenceStore.Content.{
  FrozenObject, StoredObject, same_content, same_content_iff,
}
use alric_containers_image_b.EvidenceStore.Protocol.{
  returned, precondition_failed, Creates, IsLawful,
}
use alric_containers_image_b.EvidenceStore.{WriteStatus, create_once}
use alric_containers_image_b.EvidenceStore.Memory.{
  Memory, find, memory, memory_view, version-ne-nil, memory_put, memory_get,
}

memory_put-view :
    (m : Memory) (k : String) (c : FrozenObject)
    → (find k m.objects ≡ none)
    → Creates
        (memory_view m)
        (memory_view (memory_put m k c).1)
        k
        c
        ("memory-" <> show (m.sequence + 1))
unfolding memory_put
memory_put-view m k c free =
    rw (free, memory_put)
      (record {
        was_absent = free;
        now_there = ground (arith, eq_iff k k);
        others = λ j ne. ground (arith, eq_iff j k, ne);
      })

memory_put-taken :
    (m : Memory) (k : String) (c : FrozenObject) (obj : StoredObject)
    → find k m.objects ≡ some obj
    → memory_put m k c ≡ (precondition_failed, m)
unfolding memory_put
memory_put-taken m k c obj e = rw (e, memory_put)

memory_put-free :
    (m : Memory) (k : String) (c : FrozenObject)
    → find k m.objects ≡ none
    → (memory_put m k c).0 ≡ returned (some ("memory-" <> show (m.sequence + 1)))
unfolding memory_put
memory_put-free m k c e = rw (e, memory_put)

memory-put_view :
    (m : Memory) (k : String) (c : FrozenObject)
    → (memory_view (memory_put m k c).1 ≡ memory_view m)
      ⊎ ((version : String) × Creates
            (memory_view m)
            (memory_view (memory_put m k c).1)
            k
            c
            version)
memory-put_view m k c = elim (Option-cases (find k m.objects)) [
  | inl e ↦ inr ("memory-" <> show (m.sequence + 1), memory_put-view m k c e)
  | inr (obj, e) ↦ inl (rw (memory_put-taken m k c obj e))
]

memory_put-returned :
    (m : Memory) (k : String) (c : FrozenObject) (version : String)
    → (memory_put m k c).0 ≡ returned (some version)
    → Creates (memory_view m) (memory_view (memory_put m k c).1) k c version
memory_put-returned m k c version h = elim (Option-cases (find k m.objects)) [
  | inl e ↦
      subst (λ v. Creates (memory_view m) (memory_view (memory_put m k c).1) k c v)
        (ground (arith, memory_put-free m k c e)) (memory_put-view m k c e)
  | inr (obj, e) ↦ absurd (ground (arith, memory_put-taken m k c obj e))
]

memory_put-precondition :
    (m : Memory) (k : String) (c : FrozenObject)
    → (memory_put m k c).0 ≡ precondition_failed
    → (memory_view (memory_put m k c).1 ≡ memory_view m) × (find k m.objects ≢ none)
memory_put-precondition m k c h = elim (Option-cases (find k m.objects)) [
  | inl e ↦ absurd (ground (arith, memory_put-free m k c e))
  | inr (obj, e) ↦ (rw (memory_put-taken m k c obj e), λ p. ground arith)
]

-- The in-memory transport meets what `EvidenceStore` relies on.
pub memory-IsLawful : IsLawful memory memory_view
unfolding memory_get
memory-IsLawful = record {
  get-view = λ m k v. ground arith;
  get-returned = λ m k v obj h. ground arith;
  put-view = memory-put_view;
  put-returned = memory_put-returned;
  put-precondition = memory_put-precondition;
}

-- What is stored under a key, without its version.
abbrev pub contents : Memory → String → Option FrozenObject
contents m key = elim (find key m.objects) [ none ↦ none | some obj ↦ some obj.content ]

-- The status that a map with immutable entries gives.
abbrev pub map_status : Option FrozenObject → FrozenObject → WriteStatus
map_status none content = WriteStatus.created
map_status (some old) content =
    if same_content old content then WriteStatus.already_present_identical else WriteStatus.conflict

module _ (m : Memory) (key : String) (content : FrozenObject) where
  -- On the in-memory transport create_once never ends in an operational error: its status is
  -- created for a free key, already present for the same content and conflict for other content.
  pub create_once-status :
      (create_once memory m key content).0.status ≡ map_status (contents m key) content
  unfolding create_once memory_put memory_get
  create_once-status = ground (
    arith,
    version-ne-nil (m.sequence + 1),
    eq_refl key,
    eq_refl ("memory-" <> show (m.sequence + 1)),
    (same_content_iff content content).1 refl,
  )

  contents-create_once :
      (j : String)
      → contents (create_once memory m key content).1 j
        ≡ (if str_eq j key then or_else (contents m key) (some content) else contents m j)
  unfolding create_once memory_put memory_get or_else
  contents-create_once j = ground (
    arith,
    version-ne-nil (m.sequence + 1),
    eq_iff j key,
    eq_refl key,
    eq_refl ("memory-" <> show (m.sequence + 1)),
    (same_content_iff content content).1 refl,
  )

-- The requests of a run, in order.
pub run : Memory → List (String × FrozenObject) → Memory
run m [] = m
run m ((key, content) ∷ rest) = run (create_once memory m key content).1 rest

abbrev pub first_request : String → List (String × FrozenObject) → Option FrozenObject
first_request k [] = none
first_request k ((key, content) ∷ rest) =
    if str_eq k key then some content else first_request k rest

-- On the in-memory transport, after any sequence of create_once requests each key holds what it
-- held before, and otherwise the content of the first request that named it.
pub run-first_write :
    (m : Memory) (requests : List (String × FrozenObject)) (k : String)
    → contents (run m requests) k ≡ or_else (contents m k) (first_request k requests)
unfolding run or_else
run-first_write m [] k = ground arith
run-first_write m ((key, content) ∷ rest) k = ground (
  arith,
  run-first_write (create_once memory m key content).1 rest k,
  contents-create_once m key content k,
  eq_iff k key,
)
