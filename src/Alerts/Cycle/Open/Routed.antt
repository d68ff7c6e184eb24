-- ===== src/Alerts/Cycle/Open/Routed.antt =====
-- The dictionary of the routed events: each stands once, under its own name.
use alric_containers_image_b.Base.{
  String, ◌≡◌, ◌≢◌, refl, sym, ap, ◌∙◌, Bool, true, false, ◌⊎◌, inl, inr, List, [], ◌∷◌, In, str_eq,
  eq_iff, arith, if◌then◌else◌,
}
use alric_containers_image_b.Alerts.Data.{Event, Dict, set_item}
use alric_containers_image_b.Alerts.Cycle.{routed_of}

module _ {A : Type 0} where
  abbrev pub Absent : String → Dict A → Type 0
  Absent key d = (x : String × A) → In x d → x.0 ≢ key

  abbrev pub Distinct : Dict A → Type 0
  Distinct [] = Unit
  Distinct ((k, a) ∷ rest) = Absent k rest × Distinct rest

  pub In-set_item :
      (key : String) (a : A) (d : Dict A) (x : String × A)
      → In x (set_item key a d)
      → (x ≡ (key, a)) ⊎ In x d
  In-set_item key a [] x (inl e) = inl e
  In-set_item key a [] x (inr m) = absurd m
  In-set_item key a ((k, b) ∷ rest) x m =
      go (str_eq key k) (eq_iff key k).0 m (In-set_item key a rest x)
    where
      go :
          (c : Bool)
          → (c ≡ true → key ≡ k)
          → In x (if c then (k, a) ∷ rest else (k, b) ∷ set_item key a rest)
          → (In x (set_item key a rest) → (x ≡ (key, a)) ⊎ In x rest)
          → (x ≡ (key, a)) ⊎ In x ((k, b) ∷ rest)
      go true q (inl e) ih = inl (e ∙ ap (λ z. (z, a)) (sym (q refl)))
      go true q (inr m) ih = inr (inr m)
      go false q (inl e) ih = inr (inl e)
      go false q (inr m) ih = elim (ih m) [ inl e ↦ inl e | inr old ↦ inr (inr old) ]

  set_item-Distinct : (key : String) (a : A) (d : Dict A) → Distinct d → Distinct (set_item key a d)
  set_item-Distinct key a [] h = (λ x m. absurd m, tt)
  set_item-Distinct key a ((k, b) ∷ rest) h =
      go (str_eq key k) (eq_iff key k).1 (set_item-Distinct key a rest h.1)
    where
      go :
          (c : Bool)
          → (key ≡ k → c ≡ true)
          → Distinct (set_item key a rest)
          → Distinct (if c then (k, a) ∷ rest else (k, b) ∷ set_item key a rest)
      go true q ih = h
      go false q ih = (
        λ x m. elim (In-set_item key a rest x m) [
          | inl e ↦ λ same. absurd (ground (arith, q (sym (ap (λ z. z.0) e) ∙ same)))
          | inr old ↦ h.0 x old
        ],
        ih,
      )

abbrev pub Named : Dict Event → Type 0
Named d = (id : String) (e : Event) → In (id, e) d → e.event_id ≡ id

routed_of-both :
    (es : List Event) (d : Dict Event)
    → Distinct d
    → Named d
    → Distinct (routed_of es d) × Named (routed_of es d)
routed_of-both [] d h n = (h, n)
routed_of-both (e ∷ es) d h n =
    routed_of-both es (set_item e.event_id e d) (set_item-Distinct e.event_id e d h) λ id f m.
      elim (In-set_item e.event_id e d (id, f) m) [
        | inl q ↦ ap (λ z. z.1.event_id) q ∙ sym (ap (λ z. z.0) q)
        | inr old ↦ n id f old
      ]

pub routed_of-Distinct : (es : List Event) → Distinct (routed_of es [])
routed_of-Distinct es = (routed_of-both es [] tt (λ id e m. absurd m)).0

pub routed_of-Named : (es : List Event) → Named (routed_of es [])
routed_of-Named es = (routed_of-both es [] tt (λ id e m. absurd m)).1
