-- ===== src/Release/Rehearsal.antt =====
-- A destination in memory that ends the process after a number of writes: the tests run on it.
pub mod Willing
use alric_containers_image_b.Base.{
  ℕ, zero, suc, String, ◌≡◌, ◌≢◌, refl, ◌⊎◌, inl, inr, Bool, true, false, ◌&&◌, Option, none, some,
  List, [], ◌∷◌, Result, ok, err, str_eq, eq_iff, arith, is_some, if◌then◌else◌,
}
use alric_containers_image_b.Base.Decimal.{codes}
use alric_containers_image_b.Base.Act.{Stop}
use alric_containers_image_b.Promotion.Evidence.{same_codes}
use alric_containers_image_b.Release.Data.{Member}
use alric_containers_image_b.Release.Destination.{
  Phase, Key, state_key, event_key, promoted_key, manifest_key, candidate_key, Doc, Detail,
  Described, image_not_found, entries, Put, done, exists_already, stopped, Destination, View, Sets,
  IsLawful,
}

abbrev same_phase : Phase → Phase → Bool
same_phase Phase.started Phase.started = true
same_phase Phase.completed Phase.completed = true
same_phase Phase.failed Phase.failed = true
same_phase _ _ = false

abbrev same_key : Key → Key → Bool
same_key (state_key a) (state_key b) = str_eq a b
same_key (event_key a p) (event_key b q) = str_eq a b && same_phase p q
same_key (promoted_key a) (promoted_key b) = str_eq a b
same_key (manifest_key a) (manifest_key b) = str_eq a b
same_key (candidate_key a) (candidate_key b) = str_eq a b
same_key _ _ = false

same_phase-eq : (p q : Phase) → same_phase p q ≡ true → p ≡ q
same_phase-eq Phase.started Phase.started h = refl
same_phase-eq Phase.completed Phase.completed h = refl
same_phase-eq Phase.failed Phase.failed h = refl
same_phase-eq Phase.started Phase.completed h = ground arith
same_phase-eq Phase.started Phase.failed h = ground arith
same_phase-eq Phase.completed Phase.started h = ground arith
same_phase-eq Phase.completed Phase.failed h = ground arith
same_phase-eq Phase.failed Phase.started h = ground arith
same_phase-eq Phase.failed Phase.completed h = ground arith

same_phase_refl : (p : Phase) → same_phase p p ≡ true
same_phase_refl Phase.started = refl
same_phase_refl Phase.completed = refl
same_phase_refl Phase.failed = refl

same_key-eq : (a b : Key) → same_key a b ≡ true → a ≡ b
same_key-eq (state_key a) (state_key b) h = ground (arith, eq_iff a b)
same_key-eq (event_key a p) (event_key b q) h = ground (arith, eq_iff a b, same_phase-eq p q)
same_key-eq (promoted_key a) (promoted_key b) h = ground (arith, eq_iff a b)
same_key-eq (manifest_key a) (manifest_key b) h = ground (arith, eq_iff a b)
same_key-eq (candidate_key a) (candidate_key b) h = ground (arith, eq_iff a b)
same_key-eq (state_key a) (event_key b q) h = ground arith
same_key-eq (state_key a) (promoted_key b) h = ground arith
same_key-eq (state_key a) (manifest_key b) h = ground arith
same_key-eq (state_key a) (candidate_key b) h = ground arith
same_key-eq (event_key a p) (state_key b) h = ground arith
same_key-eq (event_key a p) (promoted_key b) h = ground arith
same_key-eq (event_key a p) (manifest_key b) h = ground arith
same_key-eq (event_key a p) (candidate_key b) h = ground arith
same_key-eq (promoted_key a) (state_key b) h = ground arith
same_key-eq (promoted_key a) (event_key b q) h = ground arith
same_key-eq (promoted_key a) (manifest_key b) h = ground arith
same_key-eq (promoted_key a) (candidate_key b) h = ground arith
same_key-eq (manifest_key a) (state_key b) h = ground arith
same_key-eq (manifest_key a) (event_key b q) h = ground arith
same_key-eq (manifest_key a) (promoted_key b) h = ground arith
same_key-eq (manifest_key a) (candidate_key b) h = ground arith
same_key-eq (candidate_key a) (state_key b) h = ground arith
same_key-eq (candidate_key a) (event_key b q) h = ground arith
same_key-eq (candidate_key a) (promoted_key b) h = ground arith
same_key-eq (candidate_key a) (manifest_key b) h = ground arith

same_key_refl : (a : Key) → same_key a a ≡ true
same_key_refl (state_key a) = ground (arith, eq_iff a a)
same_key_refl (event_key a p) = ground (arith, eq_iff a a, same_phase_refl p)
same_key_refl (promoted_key a) = ground (arith, eq_iff a a)
same_key_refl (manifest_key a) = ground (arith, eq_iff a a)
same_key_refl (candidate_key a) = ground (arith, eq_iff a a)

-- What is there, and how many writes are left.
abbrev pub World : Type 0
World = View × ℕ

abbrev pub view_of : World → View
view_of w = w.0

abbrev with_object : Key → Doc → View → View
with_object key doc v = record v { objects = λ k. if same_key k key then some doc else v.objects k }

abbrev with_stable : String → String → View → View
with_stable name digest v = record v {
  stable = λ n. if str_eq n name then some digest else v.stable n;
}

abbrev answer_put : Bool → View → ℕ → Key → Doc → Put × World
answer_put true v n key doc = (exists_already, (v, n))
answer_put false v n key doc = (done, (with_object key doc v, n))

abbrev write_object : World → Key → Doc → Bool → Put × World
write_object (v, zero) key doc conditional = (stopped Stop.killed, (v, 0))
write_object (v, suc n) key doc conditional =
    answer_put (conditional && is_some (v.objects key)) v n key doc

abbrev write_tag : World → String → String → Put × World
write_tag (v, zero) name digest = (stopped Stop.killed, (v, 0))
write_tag (v, suc n) name digest = (done, (with_stable name digest v, n))

abbrev described : Option String → Described
described none = image_not_found
described (some digest) = entries (record { tags = "stable" ∷ []; digest = digest } ∷ [])

abbrev described_now : Option String → Result Stop Described
described_now o = ok (described o)

abbrev answered : Option Doc → Result Stop (Option Doc)
answered o = ok o

-- An index has the characters of its digest as its bytes; without a digest it is that of the tag.
abbrev pub index_of : Option String → Result Stop (List ℕ)
index_of none = err Stop.failed
index_of (some digest) = ok (codes digest)

abbrev pub served : View → String → Option String → Result Stop (List ℕ)
served v name none = index_of (v.stable name)
served v name (some digest) = index_of (some digest)

abbrev pub has_digest : Member → List ℕ → Bool
has_digest i raw = same_codes raw (codes i.digest)

abbrev pub rehearsal : Destination
rehearsal = record {
  State = World;
  put_object = write_object;
  get_object = λ w key. (ok (w.0.objects key), w);
  describe_stable = λ w name. (described_now (w.0.stable name), w);
  put_image = write_tag;
  fetch_index = λ w name digest. (served w.0 name digest, w);
  list_releases = λ w. (ok ([], true), w);
}

sets :
    (v : View) (key : Key) (doc : Doc)
    → Sets v.objects (with_object key doc v).objects key (some doc)
sets v key doc = record {
  now_there = ground (arith, same_key_refl key);
  others = λ k other. ground (arith, same_key-eq k key, other);
}

answer_put-stable :
    (refused : Bool) (v : View) (n : ℕ) (k : Key) (doc : Doc)
    → (answer_put refused v n k doc).1.0.stable ≡ v.stable
answer_put-stable true v n k doc = refl
answer_put-stable false v n k doc = refl

answer_put-objects :
    (refused : Bool) (v : View) (n : ℕ) (k : Key) (doc : Doc)
    → ((answer_put refused v n k doc).1.0.objects ≡ v.objects)
      ⊎ Sets v.objects (answer_put refused v n k doc).1.0.objects k (some doc)
answer_put-objects true v n k doc = inl refl
answer_put-objects false v n k doc = inr (sets v k doc)

answer_put-done :
    (refused : Bool) (v : View) (n : ℕ) (k : Key) (doc : Doc)
    → (answer_put refused v n k doc).0 ≡ done
    → Sets v.objects (answer_put refused v n k doc).1.0.objects k (some doc)
answer_put-done true v n k doc h = absurd (ground arith)
answer_put-done false v n k doc h = sets v k doc

write_object-stable :
    (w : World) (k : Key) (doc : Doc) (b : Bool) → (write_object w k doc b).1.0.stable ≡ w.0.stable
write_object-stable (v, zero) k doc b = refl
write_object-stable (v, suc n) k doc b = answer_put-stable _ v n k doc

write_object-objects :
    (w : World) (k : Key) (doc : Doc) (b : Bool)
    → ((write_object w k doc b).1.0.objects ≡ w.0.objects)
      ⊎ Sets w.0.objects (write_object w k doc b).1.0.objects k (some doc)
write_object-objects (v, zero) k doc b = inl refl
write_object-objects (v, suc n) k doc b = answer_put-objects _ v n k doc

write_object-done :
    (w : World) (k : Key) (doc : Doc) (b : Bool)
    → (write_object w k doc b).0 ≡ done
    → Sets w.0.objects (write_object w k doc b).1.0.objects k (some doc)
write_object-done (v, zero) k doc b h = absurd (ground arith)
write_object-done (v, suc n) k doc b h = answer_put-done _ v n k doc h

write_tag-objects :
    (w : World) (name digest : String) → (write_tag w name digest).1.0.objects ≡ w.0.objects
write_tag-objects (v, zero) name digest = refl
write_tag-objects (v, suc n) name digest = refl

write_tag-others :
    (w : World) (name digest other : String)
    → other ≢ name
    → (write_tag w name digest).1.0.stable other ≡ w.0.stable other
write_tag-others (v, zero) name digest other h = refl
write_tag-others (v, suc n) name digest other h = ground (arith, eq_iff other name, h)

got : (a o : Option Doc) → answered a ≡ ok o → a ≡ o
got a o h = ground arith

described-stable :
    (o : Option String) (e : Detail) → described_now o ≡ ok (entries (e ∷ [])) → o ≡ some e.digest
described-stable none e h = ground arith
described-stable (some d) e h = ground arith

pub rehearsal-IsLawful : IsLawful rehearsal view_of
rehearsal-IsLawful = record {
  view-get = λ w k. refl;
  get-objects = λ w k o h. got (w.0.objects k) o h;
  view-describe = λ w name. refl;
  view-fetch = λ w name digest. refl;
  put-stable = write_object-stable;
  put-objects = write_object-objects;
  put_done = write_object-done;
  image-objects = write_tag-objects;
  image-others = write_tag-others;
  view-list = λ w. refl;
  describe-stable = λ w name e h. described-stable (w.0.stable name) e h;
}
