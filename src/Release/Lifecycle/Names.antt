-- ===== src/Release/Lifecycle/Names.antt =====
-- The names of the images of each manifest are among those whose states are read.
use alric_containers_image_b.Base.{
  String, ◌≡◌, refl, sym, ap, ◌⊎◌, inl, inr, Bool, true, false, List, [], ◌∷◌, In, In-elem, elem,
  if◌then◌else◌,
}
use mathlib.Core.Path.{subst}
use alric_containers_image_b.Release.Data.{Member, Manifest}
use alric_containers_image_b.Release.Lifecycle.{add_names, names_of}

add_names-later :
    (name : String) (images : List Member) (names : List String)
    → In name names
    → In name (add_names images names)
add_names-later name [] names h = h
add_names-later name (i ∷ rest) names h =
    go (elem i.name (add_names rest names)) (add_names-later name rest names h)
  where
    go :
        (b : Bool)
        → In name (add_names rest names)
        → In name (if b then add_names rest names else i.name ∷ add_names rest names)
    go true k = k
    go false k = inr k

add_names-In :
    (i : Member) (images : List Member) (names : List String)
    → In i images
    → In i.name (add_names images names)
add_names-In i [] names h = absurd h
add_names-In i (j ∷ rest) names h =
    go (elem j.name (add_names rest names)) refl h (add_names-In i rest names)
  where
    go :
        (b : Bool)
        → elem j.name (add_names rest names) ≡ b
        → (i ≡ j) ⊎ In i rest
        → (In i rest → In i.name (add_names rest names))
        → In i.name (if b then add_names rest names else j.name ∷ add_names rest names)
    go true e (inl q) later =
        subst (λ x. In x.name (add_names rest names)) (sym q)
          (In-elem j.name (add_names rest names) e)
    go true e (inr k) later = later k
    go false e (inl q) later = inl (ap (λ x. x.name) q)
    go false e (inr k) later = inr (later k)

pub names_of-In :
    (m : Manifest) (i : Member) (manifests : List Manifest)
    → In m manifests
    → In i m.images
    → In i.name (names_of manifests)
names_of-In m i [] h k = absurd h
names_of-In m i (n ∷ rest) (inl q) k =
    add_names-In i n.images (names_of rest) (subst (λ x. In i x.images) q k)
names_of-In m i (n ∷ rest) (inr h) k =
    add_names-later i.name n.images (names_of rest) (names_of-In m i rest h k)
