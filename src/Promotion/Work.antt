-- ===== src/Promotion/Work.antt =====
-- The state of a batch: the outside, what was done there in order, and the unit at work.
use alric_containers_image_b.Base.{
  String, Bool, true, false, Option, none, some, List, [], ◌∷◌, Result, ok, err, str_eq,
  if◌then◌else◌,
}
use alric_containers_image_b.Base.Act.{Stop, Act, pure, stop, ◌>>=◌}
use alric_containers_image_b.Candidate.{Image}
use alric_containers_image_b.Promotion.Evidence.{Binding, Evidence}
use alric_containers_image_b.Promotion.Registry.{Registry}

pub data UnitStatus : Type 0 where
  pending failed skipped authorized : UnitStatus

pub data Phase : Type 0 where
  inventory selection pair_authorization trust scan prewrite_authorized : Phase
  write readback final_pair complete : Phase

-- A framework: its evidence, the file of it, and its entry of `inventories`.
pub record Member : Type 0 where
  pub entry : Evidence
  pub file : Evidence
  pub details : Option (List Image)

-- A unit with the evidence of its frameworks, which no other unit has.
pub record UnitResult : Type 0 where
  pub frameworks : List String
  pub status : UnitStatus
  pub phase : Phase
  pub prewrite : Bool
  pub promoted : Bool
  pub errors : List (Phase × Option String)
  pub members : String → Member

-- The digests that were verified, the answers of the scans, and the writes that were asked for, each
-- with its unit.
pub data Event : Type 0 where
  trusted : String → String → Event
  scanned : String → String → Bool → Event
  wrote : List String → String → String → Event

-- The trace has the latest event first.
pub record Side (D : Registry) : Type 0 where
  pub world : D.World
  pub trace : List Event
  pub authorized_pairs : List Binding
  pub eligible : List String

pub record Work (D : Registry) : Type 0 where
  pub side : Side D
  pub unit : UnitResult

abbrev pub is_failed : UnitStatus → Bool
is_failed failed = true
is_failed _ = false

abbrev pub is_pending : UnitStatus → Bool
is_pending pending = true
is_pending _ = false

abbrev pub is_authorized : UnitStatus → Bool
is_authorized authorized = true
is_authorized _ = false

abbrev pub is_skipped_unit : UnitStatus → Bool
is_skipped_unit skipped = true
is_skipped_unit _ = false

abbrev pub set_member : String → Member → (String → Member) → String → Member
set_member name m members k = if str_eq k name then m else members k

abbrev pub with_entry : String → (Evidence → Evidence) → UnitResult → UnitResult
with_entry name f u = record u {
  members =
      set_member name (record (u.members name) { entry = f (u.members name).entry }) u.members;
}

abbrev pub with_file : String → Evidence → UnitResult → UnitResult
with_file name e u = record u {
  members = set_member name (record (u.members name) { file = e }) u.members;
}

module _ {D : Registry} where
  -- A call of the outside.
  unfoldable pub call : {A : Type 0} → (D.World → Result Stop A × D.World) → Act (Work D) A
  call f w = ((f w.side.world).0, record w { side = record w.side { world = (f w.side.world).1 } })

  unfoldable pub set_unit : (UnitResult → UnitResult) → Act (Work D) (Unit {0})
  set_unit f w = (ok tt, record w { unit = f w.unit })

  unfoldable pub log : Event → Act (Work D) (Unit {0})
  log e w = (ok tt, record w { side = record w.side { trace = e ∷ w.side.trace } })

  -- The evidence, or the file, of a framework of the unit.
  abbrev pub entry_of : String → Act (Work D) Evidence
  entry_of name w = (ok (w.unit.members name).entry, w)

  abbrev pub file_of : String → Act (Work D) Evidence
  file_of name w = (ok (w.unit.members name).file, w)

  unfoldable pub set_entry : String → (Evidence → Evidence) → Act (Work D) (Unit {0})
  unfolding set_unit
  set_entry name f = set_unit (with_entry name f)

  -- A value that is there, or one of ERRORS.
  abbrev pub given : {A : Type 0} → Option A → Act (Work D) A
  given none = stop Stop.failed
  given (some a) = pure a

  abbrev pub granted : {E A : Type 0} → Result E A → Act (Work D) A
  granted (err e) = stop Stop.failed
  granted (ok a) = pure a

  abbrev pub when : Bool → Act (Work D) (Unit {0}) → Act (Work D) (Unit {0})
  when true body = body
  when false body = pure tt

  abbrev pub if_more : Bool → Act (Work D) (Unit {0}) → Act (Work D) (Unit {0})
  if_more true more = more
  if_more false more = pure tt

  -- A loop that the first false leaves.
  unfoldable pub while_ok : List String → (String → Act (Work D) Bool) → Act (Work D) (Unit {0})
  while_ok [] body = pure tt
  while_ok (x ∷ xs) body = body x >>= λ more. if_more more (while_ok xs body)
