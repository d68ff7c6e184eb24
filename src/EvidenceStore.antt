-- ===== src/EvidenceStore.antt =====
-- scripts/pipeline/release/evidence_store.py: create-once byte storage over a transport.
-- A call of the transport returns, or raises one of the exceptions that the module names; every
-- other exception is `failed`. What the transport keeps is a state that the calls pass on.
pub mod Content
pub mod Protocol
pub mod CreateOnce
pub mod Memory
mod Tests
use text.Mathlib.Text.{starts_with}
use alric_containers_image_b.Base.{
  ℕ, String, ◌≡◌, Bool, true, false, ◌&&◌, not, Option, none, some, List, [], str_eq, leb, all,
  length, if◌then◌else◌,
}
use alric_containers_image_b.Base.Order.{str_leb}
use alric_containers_image_b.EvidenceStore.Content.{
  FrozenObject, StoredObject, same_content, same_texts, sorted_set,
}
use alric_containers_image_b.EvidenceStore.Protocol.{
  Reply, returned, missing, precondition_failed, response_lost, failed, Transport,
}

pub data ReadStatus : Type 0 where
  found absent error : ReadStatus

pub data WriteStatus : Type 0 where
  created already_present_identical conflict error : WriteStatus

pub record ReadResult : Type 0 where
  pub status : ReadStatus
  pub object : Option StoredObject

pub record WriteResult : Type 0 where
  pub status : WriteStatus
  pub object : Option StoredObject

pub record InventoryResult : Type 0 where
  pub status : ReadStatus
  pub keys : List String

-- `version_id is None or obj.version_id == version_id`
abbrev pub version_fits : Option String → String → Bool
version_fits none v = true
version_fits (some w) v = str_eq v w

-- What `EvidenceStore.get` makes of the transport's answer; `returned none` is a value that is no
-- `StoredObject`.
unfoldable pub read_result : Option String → Reply (Option StoredObject) → ReadResult
read_result version (returned (some obj)) =
    if version_fits version obj.version_id
    then record { status = ReadStatus.found; object = some obj }
    else record { status = ReadStatus.error; object = none }
read_result version (returned none) = record { status = ReadStatus.error; object = none }
read_result version missing = record { status = ReadStatus.absent; object = none }
read_result version _ = record { status = ReadStatus.error; object = none }

abbrev pub failed_write : WriteResult
failed_write = record { status = WriteStatus.error; object = none }

-- After PreconditionFailed or WriteResponseLost: what the read of the key is compared to.
reconciled : FrozenObject → ReadStatus → Option StoredObject → WriteResult
reconciled content ReadStatus.found (some obj) =
    if same_content obj.content content
    then record { status = WriteStatus.already_present_identical; object = some obj }
    else record { status = WriteStatus.conflict; object = some obj }
reconciled content _ _ = failed_write

-- After a create that returned a version: the read of that version.
read_back : FrozenObject → ReadStatus → Option StoredObject → WriteResult
read_back content ReadStatus.found (some obj) =
    if same_content obj.content content
    then record { status = WriteStatus.created; object = some obj }
    else failed_write
read_back content _ _ = failed_write

-- What `EvidenceStore.keys` makes of the answer: a tuple that is sorted, has no duplicates, at most
-- 4096 members and the prefix on each, or an error.
inventory : String → Reply (Option (List String)) → InventoryResult
inventory prefix (returned (some keys)) =
    if leb (length keys) 4096
      && all (λ k. starts_with k prefix) keys
      && same_texts keys (sorted_set keys)
    then record { status = ReadStatus.found; keys = keys }
    else record { status = ReadStatus.error; keys = [] }
inventory prefix _ = record { status = ReadStatus.error; keys = [] }

module _ (T : Transport) where
  -- `EvidenceStore.get`
  unfoldable pub get : T.State → String → Option String → ReadResult × T.State
  unfolding read_result
  get s key version = let (reply, s') = T.get s key version in (read_result version reply, s')

  -- `EvidenceStore.keys`
  unfoldable pub keys : T.State → String → InventoryResult × T.State
  unfolding inventory
  keys s prefix = let (reply, s') = T.keys s prefix in (inventory prefix reply, s')

  -- The rest of `create_once`, by what `put_if_absent` did.
  after_put : String → FrozenObject → Reply (Option String) → T.State → WriteResult × T.State
  unfolding get reconciled read_back
  after_put key content (returned (some version)) s =
      if str_eq version ""
      then (failed_write, s)
      else (let (r, s') = get s key (some version) in (read_back content r.status r.object, s'))
  after_put key content (returned none) s = (failed_write, s)
  after_put key content precondition_failed s =
      let (r, s') = get s key none in (reconciled content r.status r.object, s')
  after_put key content response_lost s =
      let (r, s') = get s key none in (reconciled content r.status r.object, s')
  after_put key content _ s = (failed_write, s)

  -- `EvidenceStore.create_once`
  unfoldable pub create_once : T.State → String → FrozenObject → WriteResult × T.State
  unfolding after_put
  create_once s key content =
      let (reply, s') = T.put_if_absent s key content in after_put key content reply s'
