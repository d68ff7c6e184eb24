-- ===== src/Release/Lifecycle/Gates.antt =====
-- What the gates of a command leave in the trail of its calls.
use alric_containers_image_b.Base.{String, ◌≡◌, Bool, true, false, List, ◌∷◌, elem, In, inr}
use alric_containers_image_b.Release.Data.{Environment, dev, hom, Member, Manifest}
use alric_containers_image_b.Release.Destination.{View}
use alric_containers_image_b.Release.Site.{
  Event, caller, validated, verified, scanned, quarantine, copied, target_read,
}
use alric_containers_image_b.Release.Lifecycle.{Setting}
use alric_containers_image_b.Release.Lifecycle.Steps.{IsKept}

-- A statement about the calls that more calls do not break.
pub record IsGrowing (F : List Event → Type 0) : Type 0 where
  pub grown : (e : Event) (t : List Event) → F t → F (e ∷ t)

pub In-IsGrowing : (e : Event) → IsGrowing (λ t. In e t)
In-IsGrowing e = record { grown = λ f t h. inr h }

pub both-IsGrowing :
    {F G : List Event → Type 0} → IsGrowing F → IsGrowing G → IsGrowing (λ t. F t × G t)
both-IsGrowing f g = record { grown = λ e t h. (f.grown e t h.0, g.grown e t h.1) }

pub all-IsGrowing :
    (images : List Member) (F : Member → List Event → Type 0)
    → ((i : Member) → IsGrowing (F i))
    → IsGrowing (λ t. (i : Member) → In i images → F i t)
all-IsGrowing images F f = record { grown = λ e t h i k. (f i).grown e t (h i k) }

pub and-IsKept :
    {J : View → List Event → Type 0} {F : List Event → Type 0}
    → IsKept J
    → IsGrowing F
    → IsKept (λ v t. J v t × F t)
and-IsKept j f = record {
  grows = λ v e t h. (j.grows v e t h.0, f.grown e t h.1);
  puts = λ v w t key doc r wrote h. (j.puts v w t key doc r wrote h.0, h.1);
}

-- No digest of the quarantine that was read is that of the image.
abbrev pub IsFree : Member → List Event → Type 0
IsFree i t = (digests : List String) × In (quarantine i digests) t × (elem i.digest digests ≡ false)

abbrev pub IsChecked : Environment → Manifest → Member → List Event → Type 0
IsChecked environment m i t = In (verified environment m i) t × In (scanned environment i 0) t

-- The image was copied, its tag was read there, and it was verified.
abbrev pub IsCopied : Manifest → Member → List Event → Type 0
IsCopied m i t = In (copied m i) t × In (target_read m i) t × In (verified hom m i) t

-- The gates of a publication.
abbrev pub Checks : Environment → Bool → Manifest → List Event → Type 0
Checks dev recovery m t = (i : Member) → In i m.images → IsChecked dev m i t
Checks hom true m t = (i : Member) → In i m.images → IsChecked hom m i t
Checks hom false m t =
    ((i : Member) → In i m.images → IsFree i t × IsChecked dev m i t)
    × (((i : Member) → In i m.images → In (copied m i) t)
        × ((i : Member) → In i m.images → In (target_read m i) t × In (verified hom m i) t))

abbrev pub Gates : Setting → Environment → Bool → Manifest → List Event → Type 0
Gates g environment recovery m t =
    (In (caller environment (g.account environment)) t
      × ((i : Member) → In i m.images → In (validated environment i) t))
    × Checks environment recovery m t

pub Gates-IsGrowing :
    (g : Setting) (environment : Environment) (recovery : Bool) (m : Manifest)
    → IsGrowing (Gates g environment recovery m)
Gates-IsGrowing g dev recovery m = record {
  grown = λ e t h. ((inr h.0.0, λ i k. inr (h.0.1 i k)), λ i k. (inr (h.1 i k).0, inr (h.1 i k).1));
}
Gates-IsGrowing g hom true m = record {
  grown = λ e t h. ((inr h.0.0, λ i k. inr (h.0.1 i k)), λ i k. (inr (h.1 i k).0, inr (h.1 i k).1));
}
Gates-IsGrowing g hom false m = record {
  grown = λ e t h. (
    (inr h.0.0, λ i k. inr (h.0.1 i k)),
    (
      λ i k. let c = h.1.0 i k in ((c.0.0, inr c.0.1, c.0.2), (inr c.1.0, inr c.1.1)),
      (λ i k. inr (h.1.1.0 i k), λ i k. let c = h.1.1.1 i k in (inr c.0, inr c.1)),
    ),
  );
}

pub IsFree-IsGrowing : (i : Member) → IsGrowing (IsFree i)
IsFree-IsGrowing i = record { grown = λ e t h. (h.0, inr h.1, h.2) }

pub IsChecked-IsGrowing :
    (environment : Environment) (m : Manifest) (i : Member) → IsGrowing (IsChecked environment m i)
IsChecked-IsGrowing environment m i = both-IsGrowing (In-IsGrowing _) (In-IsGrowing _)
