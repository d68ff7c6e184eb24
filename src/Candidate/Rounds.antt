-- ===== src/Candidate/Rounds.antt =====
-- What the rounds of `select_candidate` read and append.
use mathlib.Core.Path.{subst}
use alric_containers_image_b.Base.{
  ℕ, ◌<◌, String, ◌≡◌, refl, ◌≢◌, ◌⊎◌, inl, inr, true, false, Option, none, some, List, [], ◌∷◌,
  Result, ok, arith, keep, map, In, In-elem, ltb, leb, Option-cases, bind-eq-ok,
}
use alric_containers_image_b.Base.Membership.{elem-In, In-keep, keep-In, In-map, map-In}
use alric_containers_image_b.Base.Maximum.{
  max_of, max_of-In, max_of-eq-none, In-le-max_of, TotalPreorder,
}
use alric_containers_image_b.Candidate.{
  Image, SelectionError, Candidate, pushed_at, is_stable, has_stable_digest, push_times,
  stable_time, at_most, newest_tag, is_skipped, candidate_of, cons_some, candidates,
}

pub leb_order : TotalPreorder leb
leb_order = record { total = λ a b h. ground arith; trans = λ a b c h k. ground arith }

-- The digest of an image is that of some `stable` image.
pub has_stable_digest-true :
    (details : List Image) (img : Image)
    → has_stable_digest details img ≡ true
    → (s : Image) × In s details × (is_stable s ≡ true) × (s.digest ≡ img.digest)
has_stable_digest-true details img h =
    let m =
      map-In (λ s. s.digest) img.digest (keep is_stable details)
        (In-elem img.digest (map (λ s. s.digest) (keep is_stable details)) h) in
    let k = keep-In is_stable m.0 details m.1 in (m.0, k.0, k.1, m.2)

pub has_stable_digest-false :
    (details : List Image) (img s : Image)
    → has_stable_digest details img ≡ false
    → In s details
    → is_stable s ≡ true
    → s.digest ≢ img.digest
has_stable_digest-false details img s h listed stable same = ground (
  arith,
  elem-In img.digest (map (λ s. s.digest) (keep is_stable details)) (
      subst (λ d. In d (map (λ s. s.digest) (keep is_stable details))) same
        (In-map (λ s. s.digest) s (keep is_stable details)
          (In-keep is_stable s details listed stable))),
)

-- Where the push times are read, each has its place, and each image has one.
push_times-In :
    (imgs : List Image) (ts : List ℕ) (img : Image)
    → push_times imgs ≡ ok ts
    → In img imgs
    → (t : ℕ) × (img.pushed ≡ some t) × In t ts
unfolding push_times pushed_at
push_times-In [] ts img h k = absurd k
push_times-In (j ∷ rest) ts img h k =
    let p = bind-eq-ok (pushed_at j) _ h in
    let q = bind-eq-ok (push_times rest) _ p.2 in
    pick k p.0 p.1 q.0 (push_times-In rest q.0 img q.1) (ground arith)
  where
    pick :
        (img ≡ j) ⊎ In img rest
        → (t : ℕ) → pushed_at j ≡ ok t
        → (us : List ℕ) → (In img rest → (t : ℕ) × (img.pushed ≡ some t) × In t us)
        → ts ≡ t ∷ us
        → (t : ℕ) × (img.pushed ≡ some t) × In t ts
    pick (inl e) t got us ih split = (t, ground arith, rw split (inl refl))
    pick (inr m) t got us ih split = let r = ih m in (r.0, r.1, rw split (inr r.2))

In-push_times :
    (imgs : List Image) (ts : List ℕ) (t : ℕ)
    → push_times imgs ≡ ok ts
    → In t ts
    → (img : Image) × In img imgs × (img.pushed ≡ some t)
unfolding push_times pushed_at
In-push_times [] ts t h k = absurd (subst (λ l. In t l) {y = []} (ground arith) k)
In-push_times (j ∷ rest) ts t h k =
    let p = bind-eq-ok (pushed_at j) _ h in
    let q = bind-eq-ok (push_times rest) _ p.2 in
    pick p.0 p.1 q.0 (In-push_times rest q.0 t q.1)
      (subst (λ l. In t l) {x = ts} {y = p.0 ∷ q.0} (ground arith) k)
  where
    pick :
        (u : ℕ)
        → pushed_at j ≡ ok u
        → (us : List ℕ) → (In t us → (img : Image) × In img rest × (img.pushed ≡ some t))
        → (t ≡ u) ⊎ In t us
        → (img : Image) × In img (j ∷ rest) × (img.pushed ≡ some t)
    pick u got us ih (inl e) = (j, inl refl, ground arith)
    pick u got us ih (inr m) = let r = ih m in (r.0, inr r.1, r.2)

-- The time that `stable` is measured by is that of a `stable` image.
pub stable_time-some :
    (details : List Image) (limit : ℕ)
    → stable_time details ≡ ok (some limit)
    → (s : Image) × In s details × (is_stable s ≡ true) × (s.pushed ≡ some limit)
unfolding stable_time
stable_time-some details limit h =
    let p = bind-eq-ok (push_times (keep is_stable details)) _ h in
    let m =
      In-push_times (keep is_stable details) p.0 limit p.1
        (max_of-In leb p.0 limit (ground arith)) in
    let k = keep-In is_stable m.0 details m.1 in (m.0, k.0, k.1, m.2)

pub stable_time-bounds :
    (details : List Image) (limit : Option ℕ) (s : Image)
    → stable_time details ≡ ok limit
    → In s details
    → is_stable s ≡ true
    → (u : ℕ) × (s.pushed ≡ some u) × ((t : ℕ) → at_most t limit ≡ false → u < t)
unfolding stable_time
stable_time-bounds details limit s h listed stable =
    let p = bind-eq-ok (push_times (keep is_stable details)) _ h in
    let m =
      push_times-In (keep is_stable details) p.0 s p.1
        (In-keep is_stable s details listed stable) in
    (m.0, m.1, λ t above. below p.0 m.0 t m.2 (limit_is p.0 t p.2 above))
  where
    below : (ts : List ℕ) (u t : ℕ) → In u ts → at_most t (max_of leb ts) ≡ false → u < t
    below ts u t k above = elim (Option-cases (max_of leb ts)) [
      | inl e ↦ absurd (max_of-eq-none leb ts u e k)
      | inr (m, e) ↦ ground (arith, In-le-max_of leb leb_order ts m u e k)
    ]

    limit_is :
        (ts : List ℕ) (t : ℕ)
        → ◌≡◌ {A = Result SelectionError (Option ℕ)} (ok (max_of leb ts)) (ok limit)
        → at_most t limit ≡ false
        → at_most t (max_of leb ts) ≡ false
    limit_is ts t same above = ground arith

module _ (details : List Image) (quarantined : List String) (cutoff : ℕ) (stable : Option ℕ) where
  -- What an image that yields a candidate has passed.
  pub record Yields (img : Image) (c : Candidate) : Type 0 where
    pub considered : is_skipped details quarantined img ≡ false
    pub tag : newest_tag img ≡ some c.tag
    pub pushed : img.pushed ≡ some c.pushed
    pub soaked : ltb cutoff c.pushed ≡ false
    pub newer : at_most c.pushed stable ≡ false
    pub digest : c.digest ≡ img.digest

  candidate_of-some :
      (img : Image) (c : Candidate)
      → candidate_of details quarantined cutoff stable img ≡ ok (some c)
      → Yields img c
  unfolding candidate_of
  candidate_of-some img c h = ground arith

  -- An image that passes every test yields one.
  pub candidate_of-passes :
      (img : Image) (o : Option Candidate) (tag : String) (t : ℕ)
      → candidate_of details quarantined cutoff stable img ≡ ok o
      → is_skipped details quarantined img ≡ false
      → newest_tag img ≡ some tag
      → img.pushed ≡ some t
      → ltb cutoff t ≡ false
      → at_most t stable ≡ false
      → o ≡ some (record { pushed = t; tag = tag; digest = img.digest })
  unfolding candidate_of
  candidate_of-passes img o tag t h a b c d e = ground arith

  In-cons_some :
      (o : Option Candidate) (c : Candidate) (cs : List Candidate)
      → In c (cons_some o cs)
      → (o ≡ some c) ⊎ In c cs
  In-cons_some none c cs k = inr k
  In-cons_some (some d) c cs (inl e) = inl (rw e)
  In-cons_some (some d) c cs (inr k) = inr k

  pub candidates-In :
      (imgs : List Image) (found : List Candidate) (c : Candidate)
      → candidates details quarantined cutoff stable imgs ≡ ok found
      → In c found
      → (img : Image) × In img imgs × Yields img c
  unfolding candidates
  candidates-In [] found c h k = absurd (subst (λ l. In c l) {y = []} (ground arith) k)
  candidates-In (j ∷ rest) found c h k =
      let p = bind-eq-ok (candidate_of details quarantined cutoff stable j) _ h in
      let q = bind-eq-ok (candidates details quarantined cutoff stable rest) _ p.2 in
      pick p.0 p.1 q.0 (candidates-In rest q.0 c q.1) (ground arith)
    where
      choose :
          (o : Option Candidate) (more : List Candidate)
          → candidate_of details quarantined cutoff stable j ≡ ok o
          → (In c more → (img : Image) × In img rest × Yields img c)
          → (o ≡ some c) ⊎ In c more
          → (img : Image) × In img (j ∷ rest) × Yields img c
      choose o more made ih (inl e) = (j, inl refl, candidate_of-some j c (ground arith))
      choose o more made ih (inr m) = let r = ih m in (r.0, inr r.1, r.2)

      pick :
          (o : Option Candidate)
          → candidate_of details quarantined cutoff stable j ≡ ok o
          → (more : List Candidate) → (In c more → (img : Image) × In img rest × Yields img c)
          → found ≡ cons_some o more
          → (img : Image) × In img (j ∷ rest) × Yields img c
      pick o made more ih split =
          choose o more made ih (In-cons_some o c more (subst (λ l. In c l) split k))

  cons_some-In :
      (c : Candidate) (more : List Candidate) (o : Option Candidate)
      → (o ≡ some c) ⊎ In c more
      → In c (cons_some o more)
  cons_some-In c more none (inl e) = cc
  cons_some-In c more none (inr m) = m
  cons_some-In c more (some d) (inl e) = inl (ground arith)
  cons_some-In c more (some d) (inr m) = inr m

  -- Each image of the loop had its round, and what that appended is there.
  pub In-candidates :
      (imgs : List Image) (found : List Candidate) (img : Image)
      → candidates details quarantined cutoff stable imgs ≡ ok found
      → In img imgs
      → (o : Option Candidate) × (candidate_of details quarantined cutoff stable img ≡ ok o)
        × ((c : Candidate) → o ≡ some c → In c found)
  unfolding candidates
  In-candidates [] found img h k = absurd k
  In-candidates (j ∷ rest) found img h k =
      let p = bind-eq-ok (candidate_of details quarantined cutoff stable j) _ h in
      let q = bind-eq-ok (candidates details quarantined cutoff stable rest) _ p.2 in
      pick p.0 p.1 q.0 (In-candidates rest q.0 img q.1) (ground arith) k
    where
      pick :
          (o : Option Candidate)
          → candidate_of details quarantined cutoff stable j ≡ ok o
          → (more : List Candidate)
          → (In img rest
              → (o : Option Candidate) × (candidate_of details quarantined cutoff stable img ≡ ok o)
                × ((c : Candidate) → o ≡ some c → In c more))
          → found ≡ cons_some o more
          → (img ≡ j) ⊎ In img rest
          → (o : Option Candidate) × (candidate_of details quarantined cutoff stable img ≡ ok o)
            × ((c : Candidate) → o ≡ some c → In c found)
      pick o made more ih split (inl e) =
          (o, rw e made, λ c q. rw split (cons_some-In c more o (inl q)))
      pick o made more ih split (inr m) =
          let r = ih m in (r.0, r.1, λ c q. rw split (cons_some-In c more o (inr (r.2 c q))))
