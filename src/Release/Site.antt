-- ===== src/Release/Site.antt =====
-- What a command of release/lifecycle.py works on: the destination with its last receipt, the tools
-- and the calls of them that returned. The tools are an interface: the AWS CLI, the trust, scan and
-- copy tools, the runner of the consumers, the store of the source, and the files of the reports.
use alric_containers_image_b.Base.{
  ℕ, String, Bool, Option, List, ◌∷◌, Result, ok, err, str_eq, ◌==◌, not, elem,
}
use alric_containers_image_b.Base.Act.{Stop, Act, demand, for_each, ◌>>=◌, ◌>>◌}
use alric_containers_image_b.Release.Data.{Environment, Member, Manifest}
use alric_containers_image_b.Release.Destination.{Key, Doc, Destination}
use alric_containers_image_b.Release.Publication.{Run}

pub data Arch : Type 0 where
  amd64 arm64 : Arch

pub record Tools : Type 1 where
  pub State : Type 0
  -- `sts get-caller-identity`
  pub caller_account : State → Environment → Result Stop String × State
  -- `ecr describe-repositories` of the framework, with `validate_repository` of the answer.
  pub validate_ecr : State → Environment → String → Result Stop (Unit {0}) × State
  pub verify_image : State → Environment → Manifest → Member → Result Stop (Unit {0}) × State
  pub scan_images : State → Environment → Member → Result Stop ℕ × State
  pub load_quarantined_digests : State → String → Result Stop (List String) × State
  pub copy_image : State → Manifest → Member → Result Stop (Unit {0}) × State
  -- `read_index` of the tag of the item in the registry of HOM.
  pub read_target : State → Manifest → Member → Result Stop (Unit {0}) × State
  -- `execute` of the consumer with `validate_result`: the text of the result.
  pub execute : State → Manifest → String → Arch → Result Stop String × State
  pub from_publications : State → Result Stop Manifest × State
  pub source_get : State → Key → Result Stop (Option Doc) × State
  pub source_list : State → Result Stop (List Key × Bool) × State
  -- `save` and `health_evidence`
  pub report : State → Result Stop (Unit {0}) × State

-- A call that returned, with what it gave.
pub data Event : Type 0 where
  caller : Environment → String → Event
  validated : Environment → Member → Event
  verified : Environment → Manifest → Member → Event
  scanned : Environment → Member → ℕ → Event
  quarantine : Member → List String → Event
  copied target_read : Manifest → Member → Event
  executed : String → Arch → Event
  other : Event

pub record Site (D : Destination) (T : Tools) : Type 0 where
  pub run : Run D
  pub tools : T.State
  -- The latest first.
  pub trail : List Event

module _ (D : Destination) (T : Tools) where
  -- A call of a tool.
  abbrev pub noted :
      {A : Type 0} → (A → Event) → Site D T → Result Stop A × T.State → Result Stop A × Site D T
  noted event site (ok a, s) = (ok a, record site { tools = s; trail = event a ∷ site.trail })
  noted event site (err e, s) = (err e, record site { tools = s })

  unfoldable pub call :
      {A : Type 0} → (A → Event) → (T.State → Result Stop A × T.State) → Act (Site D T) A
  call event tool site = noted event site (tool site.tools)

  -- A step of the destination.
  unfoldable pub remotely : {A : Type 0} → Act (Run D) A → Act (Site D T) A
  remotely act site = let (r, run) = act site.run in (r, record site { run = run })

  unfoldable pub report : Act (Site D T) (Unit {0})
  unfolding call
  report = call (λ u. other) T.report

  module _ (account : Environment → String) (environment : Environment) where
    unfoldable pub validate_destination : Manifest → Act (Site D T) (Unit {0})
    unfolding call
    validate_destination m = do
      id ← call (caller environment) (λ s. T.caller_account s environment)
      demand (str_eq id (account environment))
      for_each m.images
          λ i. call (λ u. validated environment i) (λ s. T.validate_ecr s environment i.name)

  -- `verify_image(manifest, name, registry(environment), …)`
  unfoldable pub verify_in : Environment → Manifest → Member → Act (Site D T) (Unit {0})
  unfolding call
  verify_in environment m i =
      call (λ u. verified environment m i) (λ s. T.verify_image s environment m i)

  -- `require(scan_images('remote', …) == 0, …)`
  unfoldable pub scan_in : Environment → Member → Act (Site D T) (Unit {0})
  unfolding call
  scan_in environment i = do
    status ← call (scanned environment i) (λ s. T.scan_images s environment i)
    demand (status == 0)

  -- The two gates of one image.
  unfoldable pub gate : Environment → Manifest → Member → Act (Site D T) (Unit {0})
  unfolding verify_in scan_in
  gate environment m i = do verify_in environment m i; scan_in environment i

  -- `require(item['digest'] not in load_quarantined_digests(…), 'digest is quarantined')`
  unfoldable pub check_quarantine : Member → Act (Site D T) (Unit {0})
  unfolding call
  check_quarantine i = do
    digests ← call (quarantine i) (λ s. T.load_quarantined_digests s i.name)
    demand (not (elem i.digest digests))

  unfoldable pub copy : Manifest → Member → Act (Site D T) (Unit {0})
  unfolding call
  copy m i = call (λ u. copied m i) (λ s. T.copy_image s m i)

  -- The tag of the copy is read and its image is verified.
  unfoldable pub check_copy : Manifest → Member → Act (Site D T) (Unit {0})
  unfolding call verify_in
  check_copy m i = do
    call (λ u. target_read m i) (λ s. T.read_target s m i)
    verify_in Environment.hom m i
