-- ===== src/Release/Lifecycle/Adds.antt =====
-- What the gates of a command, and their sequences, add to the trail.
use alric_containers_image_b.Base.{
  ℕ, String, ◌≡◌, Bool, true, false, not, List, Result, str_eq, eq_iff, elem, In, ◌==◌, arith,
}
use mathlib.Core.Path.{subst}
use alric_containers_image_b.Base.Act.{Stop, Act, for_each, demand, ◌>>=◌}
use alric_containers_image_b.Base.Act.Triples.{Triple, weaken, bind, demanded, for_each-all}
use alric_containers_image_b.Release.Data.{Environment, dev, hom, Member, Manifest}
use alric_containers_image_b.Release.Destination.{Destination, View, IsLawful}
use alric_containers_image_b.Release.Site.{
  Tools, Site, Event, caller, validated, verified, scanned, quarantine, copied, target_read, call,
  validate_destination, verify_in, scan_in, gate, check_quarantine, copy, check_copy,
}
use alric_containers_image_b.Release.Lifecycle.{Setting, Order}
use alric_containers_image_b.Release.Lifecycle.Dev.{check_again}
use alric_containers_image_b.Release.Lifecycle.Hom.{source_gate, check_and_copy}
use alric_containers_image_b.Release.Lifecycle.Steps.{IsKept, Here, called}
use alric_containers_image_b.Release.Lifecycle.Gates.{
  IsGrowing, In-IsGrowing, both-IsGrowing, all-IsGrowing, and-IsKept, IsFree, IsChecked, Gates,
  IsFree-IsGrowing, IsChecked-IsGrowing,
}

zero_of : (n : ℕ) → (n == 0) ≡ true → n ≡ 0
zero_of n h = ground arith

not-true : (b : Bool) → not b ≡ true → b ≡ false
not-true b h = ground arith

module _ (D : Destination) (T : Tools) (view : D.State → View) (lawful : IsLawful D view) where
  abbrev At : (View → List Event → Type 0) → Site D T → Type 0
  At = Here D T view lawful

  -- What a body adds to the statements that are kept.
  abbrev pub Adds : Act (Site D T) (Unit {0}) → (List Event → Type 0) → Type 1
  Adds act F =
      (J : View → List Event → Type 0)
      → IsKept J
      → Triple (At J) act (λ u. At (λ v t. J v t × F t)) (At J)

  pub Adds-for_each :
      (images : List Member) (body : Member → Act (Site D T) (Unit {0}))
      (F : Member → List Event → Type 0)
      → ((i : Member) → IsGrowing (F i))
      → ((i : Member) → Adds (body i) (F i))
      → Adds (for_each images body) (λ t. (i : Member) → In i images → F i t)
  Adds-for_each images body F growing adds J kept =
      for_each-all (λ i. At (λ v t. F i t)) images body (λ i k. adds i J kept)
        (λ i j k l. weaken (adds j (λ v t. F i t) (alone i)) (λ s h. h) (λ u s h. h.0) (λ s h. tt))
    where
      alone : (i : Member) → IsKept (λ v t. F i t)
      alone i = record {
        grows = λ v e t h. (growing i).grown e t h;
        puts = λ v w t key doc r wrote h. h;
      }

  Adds-call :
      (event : Event) (tool : T.State → Result Stop (Unit {0}) × T.State)
      → Adds (call D T (λ u. event) tool) (λ t. In event t)
  Adds-call event tool J kept = called D T view lawful J (λ u. event) tool kept.grows

  -- One addition after another.
  pub Adds-then :
      (F G : List Event → Type 0) {first second : Act (Site D T) (Unit {0})}
      → IsGrowing F
      → Adds first F
      → Adds second G
      → Adds (first >>= λ u. second) (λ t. F t × G t)
  Adds-then F G f a b J kept =
      bind (weaken (a J kept) (λ s h. h) (λ u s h. h) (λ s h. h)) λ u.
        weaken (b _ (and-IsKept kept f)) (λ s h. h) (λ u s h. (h.0.0, (h.0.1, h.1))) (λ s h. h.0)

  -- A call whose answer is tested.
  Adds-tested :
      {A : Type 0} (event : A → Event) (tool : T.State → Result Stop A × T.State) (test : A → Bool)
      (F : List Event → Type 0)
      → ((a : A) (t : List Event) → test a ≡ true → In (event a) t → F t)
      → Adds (call D T event tool >>= λ a. demand (test a)) F
  Adds-tested event tool test F gives J kept =
      bind (called D T view lawful J event tool kept.grows) λ a.
        weaken (demanded (test a) (λ s h. h.0)) (λ s h. h)
          (λ u s h. (h.1.0, gives a s.trail h.0 h.1.1)) (λ s h. h)

  pub Adds-verify_in :
      (environment : Environment) (m : Manifest) (i : Member)
      → Adds (verify_in D T environment m i) (λ t. In (verified environment m i) t)
  unfolding verify_in
  Adds-verify_in environment m i = Adds-call _ _

  pub Adds-gate :
      (environment : Environment) (m : Manifest) (i : Member)
      → Adds (gate D T environment m i) (IsChecked environment m i)
  unfolding gate scan_in
  Adds-gate environment m i = Adds-then _ _ (In-IsGrowing _) (Adds-verify_in environment m i) (
      Adds-tested (scanned environment i) _ (λ n. n == 0) _
        λ n t h k. subst (λ x. In (scanned environment i x) t) (zero_of n h) k)

  Adds-check_quarantine : (i : Member) → Adds (check_quarantine D T i) (IsFree i)
  unfolding check_quarantine
  Adds-check_quarantine i =
      Adds-tested (quarantine i) _ (λ digests. not (elem i.digest digests)) _
        λ digests t h k. (digests, k, not-true _ h)

  pub Adds-source_gate :
      (g : Setting) (o : Order) (m : Manifest) (i : Member)
      → Adds (source_gate D T g o m i) (λ t. IsFree i t × IsChecked dev m i t)
  unfolding source_gate
  Adds-source_gate g o m i =
      Adds-then _ _ (IsFree-IsGrowing i) (Adds-check_quarantine i) (Adds-gate dev m i)

  pub Adds-copy : (m : Manifest) (i : Member) → Adds (copy D T m i) (λ t. In (copied m i) t)
  unfolding copy
  Adds-copy m i = Adds-call _ _

  pub Adds-check_copy :
      (m : Manifest) (i : Member)
      → Adds (check_copy D T m i) (λ t. In (target_read m i) t × In (verified hom m i) t)
  unfolding check_copy
  Adds-check_copy m i = Adds-then _ _ (In-IsGrowing _) (Adds-call _ _) (Adds-verify_in hom m i)

  pub Adds-validate_destination :
      (account : Environment → String) (environment : Environment) (m : Manifest)
      → Adds (validate_destination D T account environment m) (λ t.
        In (caller environment (account environment)) t
        × ((i : Member) → In i m.images → In (validated environment i) t))
  unfolding validate_destination
  Adds-validate_destination account environment m J kept =
      bind (called D T view lawful J (caller environment) _ kept.grows) λ id.
        bind
          (weaken (demanded (str_eq id (account environment)) (λ s h. h.0)) (λ s h. h)
            (λ u s h. (h.1.0, ours id s.trail h.0 h.1.1)) (λ s h. h))
          λ u.
            weaken
              (Adds-for_each m.images _ (λ i t. In (validated environment i) t)
                (λ i. In-IsGrowing _) (λ i. Adds-call _ _)
                (λ v t. J v t × In (caller environment (account environment)) t)
                (and-IsKept kept (In-IsGrowing _)))
              (λ s h. h) (λ u s h. (h.0.0, (h.0.1, h.1))) (λ s h. h.0)
    where
      ours :
          (id : String) (t : List Event)
          → str_eq id (account environment) ≡ true
          → In (caller environment id) t
          → In (caller environment (account environment)) t
      ours id t h k =
          subst (λ x. In (caller environment x) t)
            (ground (arith, eq_iff id (account environment), h)) k

  destination-IsGrowing :
      (g : Setting) (environment : Environment) (m : Manifest)
      → IsGrowing (λ t.
        In (caller environment (g.account environment)) t
        × ((i : Member) → In i m.images → In (validated environment i) t))
  destination-IsGrowing g environment m =
      both-IsGrowing (In-IsGrowing _) (all-IsGrowing m.images _ (λ i. In-IsGrowing _))

  Adds-gates :
      (environment : Environment) (m : Manifest)
      → Adds
          (for_each m.images (gate D T environment m))
          (λ t. (i : Member) → In i m.images → IsChecked environment m i t)
  Adds-gates environment m =
      Adds-for_each m.images _ (IsChecked environment m) (IsChecked-IsGrowing environment m)
        (Adds-gate environment m)

  pub Adds-check_again :
      (g : Setting) (o : Order) (m : Manifest)
      → Adds (check_again D T g o dev m) (Gates g dev false m)
        × Adds (check_again D T g o hom m) (Gates g hom true m)
  unfolding check_again
  Adds-check_again g o m = (
    Adds-then _ _ (destination-IsGrowing g dev m) (Adds-validate_destination g.account dev m)
        (Adds-gates dev m),
    Adds-then _ _ (destination-IsGrowing g hom m) (Adds-validate_destination g.account hom m)
        (Adds-gates hom m),
  )

  pub Adds-check_and_copy :
      (g : Setting) (o : Order) (m : Manifest)
      → Adds (check_and_copy D T g o m) (Gates g hom false m)
  unfolding check_and_copy
  Adds-check_and_copy g o m =
      Adds-then _ _ (destination-IsGrowing g hom m) (Adds-validate_destination g.account hom m) (
        Adds-then _ _
          (all-IsGrowing m.images _
            (λ i. both-IsGrowing (IsFree-IsGrowing i) (IsChecked-IsGrowing dev m i)))
          (Adds-for_each m.images _ _
            (λ i. both-IsGrowing (IsFree-IsGrowing i) (IsChecked-IsGrowing dev m i))
            (Adds-source_gate g o m))
          (Adds-then _ _ (all-IsGrowing m.images _ (λ i. In-IsGrowing _))
            (Adds-for_each m.images _ _ (λ i. In-IsGrowing _) (Adds-copy m))
            (Adds-for_each m.images _ _ (λ i. both-IsGrowing (In-IsGrowing _) (In-IsGrowing _))
              (Adds-check_copy m))))
