-- ===== src/Release/Lifecycle/Reads.antt =====
-- What the reads and puts of a command keep, and what they find.
use alric_containers_image_b.Base.{
  String, ◌≡◌, refl, sym, ap, ◌∙◌, Bool, true, Option, none, some, List, [], ◌∷◌, Result, ok, err,
  In, inl, inr, false, str_eq, eq_iff, arith, if◌then◌else◌,
}
use mathlib.Core.Path.{subst}
use alric_containers_image_b.Base.Act.{Stop, Act, pure, demand, after, ◌>>◌}
use alric_containers_image_b.Base.Act.Triples.{Post, Triple, weaken, bind, Keeps, Keeps-demand}
use alric_containers_image_b.Release.Data.{Manifest, FrameworkState, States, state_of}
use alric_containers_image_b.Release.Destination.{
  Key, state_key, Doc, manifest_doc, Destination, View, IsLawful,
}
use alric_containers_image_b.Release.Publication.{get}
use alric_containers_image_b.Release.Publication.Steps.{
  Keeps-put, Keeps-get, get-Reads as get-Reads_remote,
}
use alric_containers_image_b.Release.Site.{Tools, Site, Event, remotely}
use alric_containers_image_b.Release.Lifecycle.{
  Setting, Order, get_optional, get_manifest, optional_manifest, find_manifest, optional_state,
  read_states, put_manifest, list_keys, state_in, or_missing,
}
use alric_containers_image_b.Release.Lifecycle.Steps.{
  IsRelease, IsKept, Here, remotely-Triple, Keeps-or_missing, Keeps-pure,
}

-- The state that a document says.
abbrev flat : Option (Option FrameworkState) → Option FrameworkState
flat none = none
flat (some s) = s

abbrev pub said : Option Doc → Option FrameworkState
said none = none
said (some doc) = flat (state_in doc)

-- The recorded state of a framework.
abbrev pub state_there : View → String → Option FrameworkState
state_there v name = said (v.objects (state_key name))

module _ (D : Destination) (T : Tools) (view : D.State → View) (lawful : IsLawful D view)
    (J : View → List Event → Type 0) (kept : IsKept J) (g : Setting) (o : Order) where
  abbrev At : (View → List Event → Type 0) → Site D T → Type 0
  At = Here D T view lawful

  -- A document that was found stands under its key.
  pub get_optional-Reads :
      (key : Key)
      → Triple
          (At J)
          (get_optional D T g o key)
          (λ doc. At (λ v t. J v t × (v.objects key ≡ doc)))
          (At J)
  unfolding get_optional
  get_optional-Reads key = record {
    run = λ s h.
        go s (subst (λ v. J v s.trail) (sym (lawful.view-get s.run.remote key)) h)
          (D.get_object s.run.remote key).0 refl;
  }
    where
      go :
          (s : Site D T)
          → J (view (D.get_object s.run.remote key).1) s.trail
          → (x : Result Stop (Option Doc)) → (D.get_object s.run.remote key).0 ≡ x
          → Post
              (λ doc. At (λ v t. J v t × (v.objects key ≡ doc)))
              (At J)
              x
              (record s { run = record s.run { remote = (D.get_object s.run.remote key).1 } })
      go s h (ok doc) e = (
        h,
        ap (λ v. v.objects key) (lawful.view-get s.run.remote key)
            ∙ lawful.get-objects s.run.remote key doc e,
      )
      go s h (err x) e = h

  pub Keeps-get_optional : (key : Key) → Keeps (At J) (get_optional D T g o key)
  Keeps-get_optional key = weaken (get_optional-Reads key) (λ s h. h) (λ doc s h. h.0) (λ s h. h)

  -- The same of a document that must be there.
  pub get-Reads :
      (key : Key)
      → Triple
          (At J)
          (remotely D T (get D o.context key))
          (λ doc. At (λ v t. J v t × (v.objects key ≡ some doc)))
          (At J)
  get-Reads key =
      remotely-Triple D T view lawful J (λ doc v t. J v t × (v.objects key ≡ some doc)) J _
        (λ t. get-Reads_remote D o.context view lawful (λ v. J v t) key)

  pub Keeps-get_manifest : (key : Key) → Keeps (At J) (get_manifest D T g o key)
  unfolding get_manifest
  Keeps-get_manifest key =
      bind
        (remotely-Triple D T view lawful J (λ doc. J) J _
          (λ t. Keeps-get D o.context view lawful (λ v. J v t) key))
        λ doc. Keeps-or_missing (At J) _

  pub Keeps-find_manifest : (key : Key) → Keeps (At J) (find_manifest D T g o key)
  unfolding find_manifest
  Keeps-find_manifest key = bind (Keeps-get_optional key) optional
    where
      optional : (doc : Option Doc) → Keeps (At J) (optional_manifest D T g o doc)
      optional none = Keeps-pure _ _
      optional (some doc) = Keeps-or_missing (At J) _

  pub Keeps-read_states : (names : List String) → Keeps (At J) (read_states D T g o names)
  unfolding read_states
  Keeps-read_states [] = Keeps-pure _ _
  Keeps-read_states (name ∷ names) =
      bind (Keeps-get_optional (state_key name))
        λ doc. bind (optional doc) λ state. bind (Keeps-read_states names) λ others. Keeps-pure _ _
    where
      optional : (doc : Option Doc) → Keeps (At J) (optional_state D T g o doc)
      optional none = Keeps-pure _ _
      optional (some doc) = Keeps-or_missing (At J) _

  -- The states that are read are those that stand there.
  module _ (Seen : String → Option FrameworkState → Type 0)
      (sees : (v : View) (t : List Event)
        → J v t
        → (name : String) → Seen name (state_there v name)) where
    Reads-or_missing :
        (name : String) (x : Option (Option FrameworkState))
        → Seen name (flat x)
        → Triple (At J) (or_missing x) (λ state s. At J s × Seen name state) (At J)
    Reads-or_missing name none k = record { run = λ s h. h }
    Reads-or_missing name (some state) k = record { run = λ s h. (h, k) }

    Reads-optional_state :
        (name : String) (doc : Option Doc)
        → Triple
            (At (λ v t. J v t × (v.objects (state_key name) ≡ doc)))
            (optional_state D T g o doc)
            (λ state s. At J s × Seen name state)
            (At J)
    Reads-optional_state name none = record {
      run = λ s h. (h.0, subst (λ x. Seen name (said x)) h.1 (sees _ s.trail h.0 name));
    }
    Reads-optional_state name (some doc) = record {
      run = λ s h.
          (Reads-or_missing name (state_in doc)
              (subst (λ x. Seen name (said x)) h.1 (sees _ s.trail h.0 name))).run
            s h.0;
    }

    pub Reads-read_states :
        (names : List String)
        → Triple
            (At J)
            (read_states D T g o names)
            (λ states s.
              At J s × ((name : String) → In name names → Seen name (state_of name states)))
            (At J)
    unfolding read_states
    Reads-read_states [] = record { run = λ s h. (h, λ name m. absurd m) }
    Reads-read_states (first ∷ names) = bind (get_optional-Reads (state_key first)) λ doc.
        bind (Reads-optional_state first doc) λ state. record {
          run = λ s h.
              (bind (Reads-read_states names)
                  λ others. record { run = λ t k. (k.0, found state others h.1 k.1) }).run
                s h.0;
        }
      where
        found :
            (state : Option FrameworkState) (others : States)
            → Seen first state
            → ((name : String) → In name names → Seen name (state_of name others))
            → (name : String) → In name (first ∷ names)
            → Seen name (state_of name ((first, state) ∷ others))
        found state others k later name listed = go (str_eq name first) refl
          where
            go :
                (b : Bool)
                → str_eq name first ≡ b
                → Seen name (if b then state else state_of name others)
            go true e = subst (λ n. Seen n state) (sym ((eq_iff name first).0 e)) k
            go false e = elim listed [
              | inl q ↦ absurd (ground (arith, e, q, eq_iff name first))
              | inr m ↦ later name m
            ]

  pub Keeps-list_keys : Keeps (At J) (list_keys D T g o)
  unfolding list_keys
  Keeps-list_keys = record {
    run = λ s h.
        listed (D.list_releases s.run.remote).0
          (record s { run = record s.run { remote = (D.list_releases s.run.remote).1 } })
          (subst (λ v. J v s.trail) (sym (lawful.view-list s.run.remote)) h);
  }
    where
      pick : (l : List Key × Bool) → Act (Site D T) (List Key)
      pick l = do demand l.1; pure l.0

      listed :
          (x : Result Stop (List Key × Bool)) (s : Site D T)
          → At J s
          → Post (λ a. At J) (At J) (after x pick s).0 (after x pick s).1
      listed (ok l) s h = (bind (Keeps-demand l.1) (λ u. Keeps-pure _ l.0)).run s h
      listed (err e) s h = h

  pub Keeps-put_manifest :
      (key : Key) (m : Manifest) → IsRelease key → Keeps (At J) (put_manifest D T g o key m)
  unfolding put_manifest
  Keeps-put_manifest key m is_release =
      remotely-Triple D T view lawful J (λ u. J) J _
        (λ t.
          Keeps-put D o.context view lawful (λ v. J v t) key (manifest_doc m) true
            (λ v w. kept.puts v w t key (manifest_doc m) is_release))
