-- ===== src/Candidate/Selection.antt =====
-- `select_candidate` and the eligible builds.
use mathlib.Core.Path.{subst}
use alric_containers_image_b.Base.{
  ℕ, ◌-◌, ◌≤◌, String, ◌≡◌, refl, sym, inl, inr, Bool, true, false, Option, none, some, List, [],
  ◌∷◌, ok, arith, eq_iff, elem, keep, In, In-elem, Bool-cases, Option-cases, bind-eq-ok,
}
use alric_containers_image_b.Base.Order.{str_order}
use alric_containers_image_b.Base.Membership.{elem-In, In-keep, keep-In}
use alric_containers_image_b.Base.Maximum.{
  max_of, max_of-In, max_of-eq-none, In-le-max_of, TotalPreorder,
}
use alric_containers_image_b.Base.Decimal.{codes}
use alric_containers_image_b.BuildTag.{build_tag_order, lex_leb}
use alric_containers_image_b.Candidate.{
  Image, duration, Candidate, tags_build, has_stable_digest, stable_time, at_most, newest_tag,
  is_skipped, candidates, candidate_leb, cutoff_time, select_candidate,
}
use alric_containers_image_b.Candidate.Spec.{IsEligible}
use alric_containers_image_b.Candidate.Rounds.{
  has_stable_digest-true, has_stable_digest-false, stable_time-some, stable_time-bounds, Yields,
  candidate_of-passes, candidates-In, In-candidates,
}

candidate_order : TotalPreorder candidate_leb
unfolding candidate_leb
candidate_order = record {
  total = λ a b h. ground (
    arith,
    eq_iff a.tag b.tag,
    eq_iff b.tag a.tag,
    str_order.total a.tag b.tag,
    str_order.total a.digest b.digest,
  );
  trans = λ a b c h k. ground (
    arith,
    eq_iff a.tag b.tag,
    eq_iff b.tag c.tag,
    eq_iff a.tag c.tag,
    str_order.antisym a.tag b.tag,
    str_order.trans a.tag b.tag c.tag,
    str_order.trans a.digest b.digest c.digest,
  );
}

lex_leb-total : (xs ys : List ℕ) → lex_leb xs ys ≡ false → lex_leb ys xs ≡ true
unfolding lex_leb
lex_leb-total [] ys h = cc
lex_leb-total (x ∷ xs) [] h = refl
lex_leb-total (x ∷ xs) (y ∷ ys) h = ground (arith, lex_leb-total xs ys)

lex_leb_trans :
    (xs ys zs : List ℕ) → lex_leb xs ys ≡ true → lex_leb ys zs ≡ true → lex_leb xs zs ≡ true
unfolding lex_leb
lex_leb_trans [] ys zs h k = refl
lex_leb_trans (x ∷ xs) [] zs h k = cc
lex_leb_trans (x ∷ xs) (y ∷ ys) [] h k = cc
lex_leb_trans (x ∷ xs) (y ∷ ys) (z ∷ zs) h k = ground (arith, lex_leb_trans xs ys zs)

abbrev tag_leb : String → String → Bool
tag_leb a b = lex_leb (build_tag_order (codes a)) (build_tag_order (codes b))

tag_order : TotalPreorder tag_leb
tag_order = record {
  total = λ a b. lex_leb-total (build_tag_order (codes a)) (build_tag_order (codes b));
  trans = λ a b c.
      lex_leb_trans (build_tag_order (codes a)) (build_tag_order (codes b))
        (build_tag_order (codes c));
}

-- An image with a build tag has a newest one.
pub newest_tag-ne-none :
    (img : Image) (tag : String)
    → In tag img.tags
    → tags_build tag ≡ true
    → (newest : String) × (newest_tag img ≡ some newest)
unfolding newest_tag
newest_tag-ne-none img tag m b = elim (Option-cases (newest_tag img)) [
  | inl nothing ↦ absurd (
      max_of-eq-none tag_leb (keep tags_build img.tags) tag nothing
        (In-keep tags_build tag img.tags m b))
  | inr found ↦ found
]

-- The tag that is reported is a build tag of the image, and none of those is ordered above it.
newest_tag-some :
    (img : Image) (tag : String)
    → newest_tag img ≡ some tag
    → In tag img.tags
      × (tags_build tag ≡ true)
      × ((other : String)
          → In other img.tags
          → tags_build other ≡ true
          → lex_leb (build_tag_order (codes other)) (build_tag_order (codes tag)) ≡ true)
unfolding newest_tag
newest_tag-some img tag h =
    let k = keep-In tags_build tag img.tags (max_of-In tag_leb (keep tags_build img.tags) tag h) in
    (
      k.0,
      k.1,
      λ other m b.
          In-le-max_of tag_leb tag_order (keep tags_build img.tags) tag other h
            (In-keep tags_build other img.tags m b),
    )

candidate_leb-pushed : (a b : Candidate) → candidate_leb a b ≡ true → a.pushed ≤ b.pushed
unfolding candidate_leb
candidate_leb-pushed a b h = ground arith

module _ (details : List Image) (soak now : ℕ) (quarantined : List String) where
  -- The values that a successful selection computed on the way.
  pub record Run (r : Option Candidate) : Type 0 where
    pub limit : Option ℕ
    pub found : List Candidate
    pub in_time : soak ≤ now
    pub measured : stable_time details ≡ ok limit
    pub looped : candidates details quarantined (now - soak) limit details ≡ ok found
    pub chosen : r ≡ max_of candidate_leb found

  pub select-Run :
      (r : Option Candidate)
      → select_candidate details (duration soak) now quarantined ≡ ok r
      → Run r
  unfolding select_candidate
  select-Run r h =
      let p = bind-eq-ok (cutoff_time now soak) _ h in
      let q = bind-eq-ok (stable_time details) _ p.2 in
      let c = bind-eq-ok (candidates details quarantined p.0 q.0 details) _ q.2 in
      record {
        limit = q.0;
        found = c.0;
        in_time = ground arith;
        measured = q.1;
        looped =
            subst (λ k. candidates details quarantined k q.0 details ≡ ok c.0) (cut p.0 p.1) c.1;
        chosen = ground arith;
      }
    where
      cut : (cutoff : ℕ) → cutoff_time now soak ≡ ok cutoff → cutoff ≡ now - soak
      cut cutoff e = ground arith

  module _ (img : Image) (t : ℕ) (e : IsEligible details soak now quarantined img t) where
    eligible-considered : is_skipped details quarantined img ≡ false
    unfolding is_skipped
    eligible-considered = elim (Bool-cases (has_stable_digest details img)) [
      | inl yes_stable ↦
          (let s = has_stable_digest-true details img yes_stable in
            absurd (e.not_stable s.0 s.1 s.2 s.3))
      | inr not_stable ↦ elim (Bool-cases (elem img.digest quarantined)) [
        | inl banned ↦ absurd (e.not_quarantined (In-elem img.digest quarantined banned))
        | inr free ↦ ground (arith, e.index)
      ]
    ]

    eligible-tag : (tag : String) × (newest_tag img ≡ some tag)
    eligible-tag = newest_tag-ne-none img e.tagged.0 e.tagged.1 e.tagged.2

    eligible-newer : (limit : Option ℕ) → stable_time details ≡ ok limit → at_most t limit ≡ false
    eligible-newer none h = refl
    eligible-newer (some u) h =
        let s = stable_time-some details u h in ground (arith, e.newer s.0 u s.1 s.2 s.3)

    -- An eligible build is among the candidates of every run.
    eligible-In :
        (r : Option Candidate) (run : Run r) → (c : Candidate) × In c run.found × (c.pushed ≡ t)
    eligible-In r run =
        let round =
          In-candidates details quarantined (now - soak) run.limit details run.found img run.looped
            e.listed in
        let tag = eligible-tag in
        (
          record { pushed = t; tag = tag.0; digest = img.digest },
          round.2 _ (
              candidate_of-passes details quarantined (now - soak) run.limit img round.0 tag.0 t
                round.1 eligible-considered tag.1 e.pushed (ground (arith, e.soaked))
                (eligible-newer run.limit run.measured)),
          refl,
        )

  -- What passed a round is eligible.
  Yields-IsEligible :
      (r : Option Candidate) (run : Run r) (img : Image) (c : Candidate)
      → In img details
      → Yields details quarantined (now - soak) run.limit img c
      → IsEligible details soak now quarantined img c.pushed
  unfolding is_skipped
  Yields-IsEligible r run img c listed y =
      let tag = newest_tag-some img c.tag y.tag in
      record {
        listed = listed;
        pushed = y.pushed;
        index = ground (arith, y.considered);
        tagged = (c.tag, tag.0, tag.1);
        not_stable =
            λ s m st. has_stable_digest-false details img s (ground (arith, y.considered)) m st;
        not_quarantined = λ m. ground (arith, y.considered, elem-In img.digest quarantined m);
        soaked = ground (arith, y.soaked, run.in_time);
        newer = λ s u m st p.
            let b = stable_time-bounds details run.limit s run.measured m st in
            ground (arith, b.1, b.2 c.pushed y.newer);
      }

  -- When the selection returns a candidate, it is the digest and push time of an eligible build
  -- (an index with a build tag, listed, not stable, not in quarantine, past the soak, newer than
  -- every stable image); no eligible build was pushed later; and the reported tag is a build tag
  -- of that image with no build tag of it ordered above.
  pub select_candidate-some :
      (c : Candidate)
      → select_candidate details (duration soak) now quarantined ≡ ok (some c)
      → (img : Image) × IsEligible details soak now quarantined img c.pushed
        × (img.digest ≡ c.digest)
        × In c.tag img.tags
        × (tags_build c.tag ≡ true)
        × ((tag : String)
            → In tag img.tags
            → tags_build tag ≡ true
            → lex_leb (build_tag_order (codes tag)) (build_tag_order (codes c.tag)) ≡ true)
        × ((other : Image) (t : ℕ) → IsEligible details soak now quarantined other t → t ≤ c.pushed)
  select_candidate-some c h =
      let run = select-Run (some c) h in
      let m =
        candidates-In details quarantined (now - soak) run.limit details run.found c run.looped
          (max_of-In candidate_leb run.found c (sym run.chosen)) in
      let tag = newest_tag-some m.0 c.tag m.2.tag in
      (
        m.0,
        Yields-IsEligible (some c) run m.0 c m.1 m.2,
        sym m.2.digest,
        tag.0,
        tag.1,
        tag.2,
        λ other t el.
            (let d = eligible-In other t el (some c) run in
              ground (
                arith,
                d.2,
                candidate_leb-pushed d.0 c (
                    In-le-max_of candidate_leb candidate_order run.found c d.0 (sym run.chosen)
                      d.1),
              )),
      )

  -- When the selection returns no candidate, no image of the repository is eligible.
  pub select_candidate-none :
      select_candidate details (duration soak) now quarantined ≡ ok none
      → (img : Image) (t : ℕ) → ¬ IsEligible details soak now quarantined img t
  select_candidate-none h img t e =
      let run = select-Run none h in
      let c = eligible-In img t e none run in
      max_of-eq-none candidate_leb run.found c.0 (sym run.chosen) c.1
