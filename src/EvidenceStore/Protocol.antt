-- ===== src/EvidenceStore/Protocol.antt =====
-- The `Transport` protocol of release/evidence_store.py, and what the module relies on of it.
use alric_containers_image_b.Base.{String, ◌≡◌, ◌≢◌, ◌⊎◌, Option, none, some, List}
use alric_containers_image_b.EvidenceStore.Content.{FrozenObject, StoredObject}

-- A return, or the exception: MissingObject, PreconditionFailed, WriteResponseLost, any other.
pub data Reply (A : Type 0) : Type 0 where
  returned : A → Reply A
  missing precondition_failed response_lost failed : Reply A

pub record Transport : Type 1 where
  pub State : Type 0
  pub get : State → String → Option String → Reply (Option StoredObject) × State
  pub put_if_absent : State → String → FrozenObject → Reply (Option String) × State
  pub keys : State → String → Reply (Option (List String)) × State

-- The object under each key, as a reader with no failures would see it.
abbrev pub View : Type 0
View = String → Option StoredObject

-- One object was created under a key that had none, and every other key is as it was.
pub record Creates (before after : View) (key : String) (content : FrozenObject) (version : String)
    : Type 0 where
  pub was_absent : before key ≡ none
  pub now_there : after key ≡ some (record { content = content; version_id = version })
  pub others : (k : String) → k ≢ key → after k ≡ before k

-- Documented behaviour of conditional creates: a read changes nothing and answers from the view or
-- fails; a create leaves the view alone or creates; it returns only if it created, and refuses only
-- if the key is taken. A lost response or a failure says nothing of which of the two happened.
pub record IsLawful (T : Transport) (view : T.State → View) : Type 0 where
  pub get-view : (s : T.State) (k : String) (v : Option String) → view (T.get s k v).1 ≡ view s
  pub get-returned :
      (s : T.State) (k : String) (v : Option String) (obj : StoredObject)
      → (T.get s k v).0 ≡ returned (some obj)
      → view s k ≡ some obj
  pub put-view :
      (s : T.State) (k : String) (c : FrozenObject)
      → (view (T.put_if_absent s k c).1 ≡ view s)
        ⊎ ((version : String) × Creates (view s) (view (T.put_if_absent s k c).1) k c version)
  pub put-returned :
      (s : T.State) (k : String) (c : FrozenObject) (version : String)
      → (T.put_if_absent s k c).0 ≡ returned (some version)
      → Creates (view s) (view (T.put_if_absent s k c).1) k c version
  pub put-precondition :
      (s : T.State) (k : String) (c : FrozenObject)
      → (T.put_if_absent s k c).0 ≡ precondition_failed
      → (view (T.put_if_absent s k c).1 ≡ view s) × (view s k ≢ none)
