-- ===== src/EvidenceStore/Memory.antt =====
-- `MemoryTransport` of release/evidence_store.py. Its lock makes each call one step.
pub mod Refinement
use Prim.Native.String.{◌++◌ as ◌<>◌}
use text.Mathlib.Text.{starts_with}
use alric_containers_image_b.Base.{
  ℕ, ◌+◌, String, ◌≡◌, false, Option, none, some, List, [], ◌∷◌, arith, str_eq, eq_iff, ap, map,
  keep, if◌then◌else◌,
}
use alric_containers_image_b.Base.Order.{str_leb, sorted}
use alric_containers_image_b.Base.Decimal.{show, codes, codes-append}
use alric_containers_image_b.EvidenceStore.Content.{FrozenObject, StoredObject}
use alric_containers_image_b.EvidenceStore.Protocol.{
  Reply, returned, missing, precondition_failed, Transport, View,
}
use alric_containers_image_b.EvidenceStore.{version_fits}

pub record Memory : Type 0 where
  pub objects : List (String × StoredObject)
  pub sequence : ℕ

abbrev pub empty : Memory
empty = record { objects = []; sequence = 0 }

abbrev pub find : String → List (String × StoredObject) → Option StoredObject
find key [] = none
find key ((k, obj) ∷ rest) = if str_eq key k then some obj else find key rest

unfoldable pub memory_get : Memory → String → Option String → Reply (Option StoredObject) × Memory
memory_get m key version = elim (find key m.objects) [
  | none ↦ (missing, m)
  | some obj ↦
      if version_fits version obj.version_id then (returned (some obj), m) else (missing, m)
]

unfoldable pub memory_put : Memory → String → FrozenObject → Reply (Option String) × Memory
memory_put m key content = elim (find key m.objects) [
  | some _ ↦ (precondition_failed, m)
  | none ↦
      let version = "memory-" <> show (m.sequence + 1) in
      (
        returned (some version),
        record {
          objects = (key, record { content = content; version_id = version }) ∷ m.objects;
          sequence = m.sequence + 1;
        },
      )
]

unfoldable pub memory_keys : Memory → String → Reply (Option (List String)) × Memory
memory_keys m prefix = (
  returned (some (sorted str_leb (keep (λ k. starts_with k prefix) (map (λ (k, _). k) m.objects)))),
  m,
)

abbrev pub memory : Transport
memory = record { State = Memory; get = memory_get; put_if_absent = memory_put; keys = memory_keys }

abbrev pub memory_view : Memory → View
memory_view m key = find key m.objects

pub version-ne-nil : (n : ℕ) → str_eq ("memory-" <> show n) "" ≡ false
version-ne-nil n = ground (
  arith,
  eq_iff ("memory-" <> show n) "",
  codes-append "memory-" (show n),
  λ (p : "memory-" <> show n ≡ ""). ap codes p,
)
