-- ===== src/Release/Publication/Views.antt =====
-- What a write of a document does to the destination as a reader sees it.
use alric_containers_image_b.Base.{
  String, ◌≡◌, ◌≢◌, sym, ap, ◌⊎◌, inl, inr, Option, some, str_eq, arith, eq_iff, ◌∙◌, Bool-cases,
}
use alric_containers_image_b.Release.Data.{FrameworkState}
use alric_containers_image_b.Release.Destination.{
  Key, state_key, event_key, promoted_key, manifest_key, candidate_key, Doc, state_doc, View, Sets,
}

-- A write of a document: the tags are as they were, and at most one object has changed.
pub record Wrote (v w : View) (key : Key) (doc : Doc) : Type 0 where
  pub tags_same : w.stable ≡ v.stable
  pub one_object : (w.objects ≡ v.objects) ⊎ Sets v.objects w.objects key (some doc)

-- The state document of a framework is there and has a property.
pub record StateAt (P : FrameworkState → Type 0) (name : String) (objects : Key → Option Doc)
    : Type 0 where
  pub state : FrameworkState
  pub there : objects (state_key name) ≡ some (state_doc state)
  pub such : P state

pub state_key-cases : (name : String) (k : Key) → (k ≡ state_key name) ⊎ (state_key name ≢ k)
state_key-cases name (state_key other) = elim (Bool-cases (str_eq name other)) [
  | inl e ↦ inl (ground (arith, eq_iff name other, e))
  | inr e ↦ inr (λ h. ground (arith, eq_iff name other, e, h))
]
state_key-cases name (event_key e p) = inr (λ h. ground arith)
state_key-cases name (promoted_key r) = inr (λ h. ground arith)
state_key-cases name (manifest_key r) = inr (λ h. ground arith)
state_key-cases name (candidate_key r) = inr (λ h. ground arith)

-- A write keeps a property of a state document if what it writes there has the property.
pub StateAt-Wrote :
    {P : FrameworkState → Type 0} {name : String} {v w : View} (key : Key) (doc : Doc)
    → (key ≡ state_key name → (d : FrameworkState) × (doc ≡ state_doc d) × P d)
    → Wrote v w key doc
    → StateAt P name v.objects
    → StateAt P name w.objects
StateAt-Wrote {P} {name} {v} {w} key doc fits wrote was = elim wrote.one_object [
  | inl same ↦ record {
    state = was.state;
    there = ap (λ f. f (state_key name)) same ∙ was.there;
    such = was.such;
  }
  | inr sets ↦ elim (state_key-cases name key) [
    | inl e ↦
        let f = fits e in
        record {
          state = f.0;
          there = ap w.objects (sym e) ∙ (sets.now_there ∙ ap (λ d. some d) f.1);
          such = f.2;
        }
    | inr other ↦ record {
      state = was.state;
      there = sets.others (state_key name) other ∙ was.there;
      such = was.such;
    }
  ]
]
