-- ===== src/Release/Data.antt =====
-- The documents of a release, as lifecycle.py reads and writes them. Times are microseconds.
use alric_containers_image_b.Base.{
  ℕ, String, Bool, true, false, Option, none, some, List, [], ◌∷◌, str_eq, ltb, leb, ◌==◌,
  if◌then◌else◌,
}

pub data Environment : Type 0 where
  dev hom : Environment

abbrev pub is_dev : Environment → Bool
is_dev dev = true
is_dev hom = false

-- `manifest['images']`: a framework and the digest of its index.
pub record Member : Type 0 where
  pub name : String
  pub digest : String

pub data ManifestState : Type 0 where
  published dev_validated dev_stable : ManifestState

pub record Manifest : Type 0 where
  pub release_id : String
  pub run_id : ℕ
  pub attempt : ℕ
  pub images : List Member
  pub state : ManifestState
  pub dev_validated_at : Option ℕ
  pub dev_stable_at : Option ℕ
  pub dev_readback : List Member
  pub units : List (List String)
  -- By runtime and architecture, the text of the result of its consumer.
  pub consumer_results : List (String × String)
  -- The platforms, tags and SBOMs of the images, and the other fields, as texts: they are only
  -- compared and handed on.
  pub image_details : String
  pub source : String

-- `ordering`, compared as a tuple.
abbrev pub Ordinal : Type 0
Ordinal = ℕ × ℕ

abbrev pub ordering : Manifest → Ordinal
ordering m = (m.run_id, m.attempt)

abbrev pub ordinal_leb : Ordinal → Ordinal → Bool
ordinal_leb (a, b) (c, d) = if a == c then leb b d else ltb a c

-- `state/<framework>.json`; a field that the document lacks is none, and so is an absent hold.
pub record FrameworkState : Type 0 where
  pub release_id : Option String
  pub digest : Option String
  pub high_watermark : Option Ordinal
  pub hold : Bool
  pub pending_release : Option String
  pub reason : Option String
  pub event_key : Option String
  pub updated_at : Option ℕ

-- `{}`
abbrev pub no_state : FrameworkState
no_state = record {
  release_id = none;
  digest = none;
  high_watermark = none;
  hold = false;
  pending_release = none;
  reason = none;
  event_key = none;
  updated_at = none;
}

-- `document or {}`
abbrev pub or_empty : Option FrameworkState → FrameworkState
or_empty none = no_state
or_empty (some s) = s

-- `tuple(state.get('high_watermark', [0, 0]))`
abbrev pub watermark : FrameworkState → Ordinal
watermark s = elim s.high_watermark [ none ↦ (0, 0) | some w ↦ w ]

-- The documents of the destination, by framework.
abbrev pub States : Type 0
States = List (String × Option FrameworkState)

-- `states.get(name)`
abbrev pub state_of : String → States → Option FrameworkState
state_of name [] = none
state_of name ((k, s) ∷ rest) = if str_eq name k then s else state_of name rest

abbrev pub is_text : Option String → String → Bool
is_text none s = false
is_text (some t) s = str_eq t s

-- `governance/configuration.py`, `promotion_policy`
pub record Policy : Type 0 where
  pub enabled : Bool
  pub soak : ℕ
  pub frameworks : List String
