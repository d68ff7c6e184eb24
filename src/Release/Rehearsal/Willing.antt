-- ===== src/Release/Rehearsal/Willing.antt =====
-- The destination in memory without a limit of writes: it accepts every call.
use alric_containers_image_b.Base.{
  ℕ, List, String, ◌≡◌, refl, sym, ap, ◌∙◌, Bool, true, ◌&&◌, Option, none, some, [], ◌∷◌, ok,
  eq_iff, arith, is_some,
}
use alric_containers_image_b.Base.Decimal.{codes}
use alric_containers_image_b.Promotion.Evidence.{same_codes}
use alric_containers_image_b.Release.Data.{Member}
use alric_containers_image_b.Release.Destination.{Key, Doc, Put, done, Destination, View, IsLawful}
use alric_containers_image_b.Release.Publication.{Context, tagged}
use alric_containers_image_b.Release.Publication.Accepting.{IsAccepting}
use alric_containers_image_b.Release.Rehearsal.{
  with_stable, answer_put, described_now, answered, answer_put-stable, answer_put-objects,
  answer_put-done, described-stable, got, index_of, served, has_digest,
}

abbrev put_into : View → Key → Doc → Bool → Put × View
put_into v k doc conditional =
    let x = answer_put (conditional && is_some (v.objects k)) v 0 k doc in (x.0, x.1.0)

abbrev pub willing : Destination
willing = record {
  State = View;
  put_object = put_into;
  get_object = λ v key. (answered (v.objects key), v);
  describe_stable = λ v name. (described_now (v.stable name), v);
  put_image = λ v name digest. (done, with_stable name digest v);
  fetch_index = λ v name digest. (served v name digest, v);
  list_releases = λ v. (ok ([], true), v);
}

abbrev pub itself : View → View
itself v = v

pub willing-IsLawful : IsLawful willing itself
willing-IsLawful = record {
  view-get = λ v k. refl;
  get-objects = λ v k o h. got (v.objects k) o h;
  view-describe = λ v name. refl;
  view-fetch = λ v name digest. refl;
  view-list = λ v. refl;
  put-stable = λ v k doc b. answer_put-stable _ v 0 k doc;
  put-objects = λ v k doc b. answer_put-objects _ v 0 k doc;
  put_done = λ v k doc b h. answer_put-done _ v 0 k doc h;
  image-objects = λ v name digest. refl;
  image-others = λ v name digest other h. ground (arith, eq_iff other name, h);
  describe-stable = λ v name e h. described-stable (v.stable name) e h;
}

put_new :
    (o : Option Doc) (v : View) (k : Key) (doc : Doc)
    → o ≡ none
    → (answer_put (true && is_some o) v 0 k doc).0 ≡ done
put_new none v k doc h = refl
put_new (some d) v k doc h = absurd (ground arith)

tagged-described : (o : Option String) → tagged (described_now o) ≡ ok o
tagged-described none = refl
tagged-described (some d) = refl

same_codes_refl : (xs : List ℕ) → same_codes xs xs ≡ true
same_codes_refl [] = refl
same_codes_refl (x ∷ xs) = ground (arith, same_codes_refl xs)

served_tag :
    (v : View) (i : Member) (o : Option String)
    → o ≡ some i.digest
    → (raw : List ℕ) × (index_of o ≡ ok raw) × (has_digest i raw ≡ true)
served_tag v i none h = absurd (ground arith)
served_tag v i (some digest) h = (codes digest, refl, matches)
  where
    matches : has_digest i (codes digest) ≡ true
    matches =
        ap (λ d. same_codes (codes digest) (codes d)) (sym (unwrapped h))
        ∙ same_codes_refl (codes digest)
      where
        unwrapped : some digest ≡ some i.digest → digest ≡ i.digest
        unwrapped e = ground (arith, e)

pub willing-IsAccepting :
    (c : Context) (images : List Member)
    → ((i : Member) (raw : List ℕ) → c.index_matches i raw ≡ has_digest i raw)
    → IsAccepting willing c itself images
willing-IsAccepting c images checks = record {
  put_mutable = λ v k doc. refl;
  put_new = λ v k doc h. put_new (v.objects k) v k doc h;
  tags = λ v i m. refl;
  tag_moves = λ v i m. ground (arith, eq_iff i.name i.name);
  describes = λ v name. tagged-described (v.stable name);
  fetches_digest =
      λ v i m. (codes i.digest, refl, checks i (codes i.digest) ∙ same_codes_refl (codes i.digest));
  fetches_tag =
      λ v i m h. let k = served_tag v i (v.stable i.name) h in (k.0, k.1, checks i k.0 ∙ k.2);
}
