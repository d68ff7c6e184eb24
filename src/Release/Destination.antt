-- ===== src/Release/Destination.antt =====
-- The destination of a promotion: its bucket (release/release_store.py) and its registry. S3, ECR
-- and the OCI client are an interface, whose calls return or stop; what the code relies on of them
-- is `IsLawful`.
use alric_containers_image_b.Base.{
  ℕ, String, ◌≡◌, ◌≢◌, ◌⊎◌, Bool, Option, some, List, [], ◌∷◌, Result, ok,
}
use alric_containers_image_b.Base.Act.{Stop}
use alric_containers_image_b.Release.Data.{Environment, Member, Manifest, FrameworkState, States}

-- The object keys that lifecycle.py writes; their formats have no text in common.
pub data Phase : Type 0 where
  started completed failed : Phase

pub data Key : Type 0 where
  state_key : String → Key
  event_key : String → Phase → Key
  promoted_key : String → Key
  manifest_key : String → Key
  candidate_key : String → Key

pub data Status : Type 0 where
  in_progress pass fail : Status

-- What the handler saw of a tag: its digest, or that it could not be read.
pub data Observation : Type 0 where
  seen : Option String → Observation
  unreadable : Observation

-- The receipt of one attempt; the texts of errors, the actor and the run are not kept.
pub record Receipt : Type 0 where
  pub release_id : String
  pub manifest_digest : String
  pub environment : Environment
  pub recovery : Bool
  pub reason : String
  pub started_at : ℕ
  pub before : States
  pub observed_before : List (String × Option String)
  pub writes : List Member
  pub status : Status
  pub completed_at : Option ℕ
  pub observed_after : List (String × Observation)

-- The empty document is `{}`.
pub data Doc : Type 0 where
  state_doc : FrameworkState → Doc
  receipt_doc : Receipt → Doc
  promoted_doc : String → List Member → Doc
  manifest_doc : Manifest → Doc
  empty_doc : Doc

-- One of `imageDetails`.
pub record Detail : Type 0 where
  pub tags : List String
  pub digest : String

-- `describe-images` by the tag: ImageNotFoundException, or the entries.
pub data Described : Type 0 where
  image_not_found : Described
  entries : List Detail → Described

-- A conditional `put-object`, and `put-image`: done, refused because it exists, or a stop.
pub data Put : Type 0 where
  done exists_already : Put
  stopped : Stop → Put

pub record Destination : Type 1 where
  pub State : Type 0
  pub put_object : State → Key → Doc → Bool → Put × State
  pub get_object : State → Key → Result Stop (Option Doc) × State
  pub describe_stable : State → String → Result Stop Described × State
  pub put_image : State → String → String → Put × State
  -- `oras manifest fetch` of the image by digest or by the tag `stable`, in `read_index`.
  pub fetch_index : State → String → Option String → Result Stop (List ℕ) × State
  -- `list-objects-v2` below `releases/`, and that the answer is not cut.
  pub list_releases : State → Result Stop (List Key × Bool) × State

-- What a reader with no failures would see: the objects, and the digest of `stable` by framework.
pub record View : Type 0 where
  pub objects : Key → Option Doc
  pub stable : String → Option String

-- One value was set, and every other one is as it was.
pub record Sets {K V : Type 0} (before after : K → V) (key : K) (value : V) : Type 0 where
  pub now_there : after key ≡ value
  pub others : (k : K) → k ≢ key → after k ≡ before k

-- Reads change nothing. A write that stops or is refused may have happened or not; one that is done
-- has happened. The tag `stable` is read as it stands.
pub record IsLawful (D : Destination) (view : D.State → View) : Type 0 where
  pub view-get : (s : D.State) (k : Key) → view (D.get_object s k).1 ≡ view s
  pub get-objects :
      (s : D.State) (k : Key) (o : Option Doc)
      → (D.get_object s k).0 ≡ ok o
      → (view s).objects k ≡ o
  pub view-describe : (s : D.State) (name : String) → view (D.describe_stable s name).1 ≡ view s
  pub view-fetch :
      (s : D.State) (name : String) (digest : Option String)
      → view (D.fetch_index s name digest).1 ≡ view s
  pub put-stable :
      (s : D.State) (k : Key) (doc : Doc) (conditional : Bool)
      → (view (D.put_object s k doc conditional).1).stable ≡ (view s).stable
  pub put-objects :
      (s : D.State) (k : Key) (doc : Doc) (conditional : Bool)
      → ((view (D.put_object s k doc conditional).1).objects ≡ (view s).objects)
        ⊎ Sets (view s).objects (view (D.put_object s k doc conditional).1).objects k (some doc)
  pub put_done :
      (s : D.State) (k : Key) (doc : Doc) (conditional : Bool)
      → (D.put_object s k doc conditional).0 ≡ done
      → Sets (view s).objects (view (D.put_object s k doc conditional).1).objects k (some doc)
  pub image-objects :
      (s : D.State) (name digest : String)
      → (view (D.put_image s name digest).1).objects ≡ (view s).objects
  pub image-others :
      (s : D.State) (name digest other : String)
      → other ≢ name
      → (view (D.put_image s name digest).1).stable other ≡ (view s).stable other
  pub view-list : (s : D.State) → view (D.list_releases s).1 ≡ view s
  pub describe-stable :
      (s : D.State) (name : String) (e : Detail)
      → (D.describe_stable s name).0 ≡ ok (entries (e ∷ []))
      → (view s).stable name ≡ some e.digest
