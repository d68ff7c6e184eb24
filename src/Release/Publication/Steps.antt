-- ===== src/Release/Publication/Steps.antt =====
-- What one step of a publication does to the destination as a reader sees it.
use alric_containers_image_b.Base.{
  ℕ, String, ◌≡◌, refl, sym, ap, Bool, true, false, Option, none, some, List, [], ◌∷◌, Result, ok,
  err, arith, eq_iff, ◌∙◌,
}
use mathlib.Core.Path.{subst}
use alric_containers_image_b.Base.Act.{Stop, demand, after}
use alric_containers_image_b.Base.Act.Triples.{
  Post, Triple, weaken, bind, demanded, Keeps, Keeps-demand,
}
use alric_containers_image_b.Release.Data.{Member}
use alric_containers_image_b.Release.Destination.{
  Key, Receipt, Doc, Detail, Described, image_not_found, entries, Put, done, exists_already,
  stopped, Destination, View, IsLawful,
}
use alric_containers_image_b.Release.Publication.{
  Context, Run, stored, tagged, same_digest, update, get, stable_digest, put_answer, put,
  read_index, tag_answer, tag_stable, confirm, write_stable,
}
use alric_containers_image_b.Release.Publication.Views.{Wrote}

tagged-entries :
    (r : Result Stop Described) (digest : String)
    → tagged r ≡ ok (some digest)
    → (e : Detail) × (r ≡ ok (entries (e ∷ []))) × (e.digest ≡ digest)
tagged-entries (ok image_not_found) digest h = absurd (ground arith)
tagged-entries (ok (entries [])) digest h = absurd (ground arith)
tagged-entries (ok (entries (e ∷ []))) digest h = (e, refl, ground arith)
tagged-entries (ok (entries (e ∷ f ∷ es))) digest h = absurd (ground arith)
tagged-entries (err x) digest h = absurd (ground arith)

same_digest-eq : (o : Option String) (b : String) → same_digest o (some b) ≡ true → o ≡ some b
same_digest-eq none b h = absurd (ground arith)
same_digest-eq (some a) b h = ground (arith, eq_iff a b, h)

module _ (D : Destination) (c : Context) (view : D.State → View) (lawful : IsLawful D view) where
  -- A statement about what a reader sees, as one about the run.
  abbrev pub At : (View → Type 0) → Run D → Type 0
  At I run = I (view run.remote)

  pub Keeps-update : (I : View → Type 0) (f : Receipt → Receipt) → Keeps (At I) (update D c f)
  Keeps-update I f = record { run = λ r h. h }

  pub Post-same :
      {A : Type 0} (I : View → Type 0) (a : Result Stop A) (r : Run D)
      → At I r
      → Post (λ x. At I) (At I) a r
  Post-same I (ok x) r h = h
  Post-same I (err e) r h = h

  pub Keeps-get : (I : View → Type 0) (k : Key) → Keeps (At I) (get D c k)
  unfolding get
  Keeps-get I k = record {
    run = λ r h.
        Post-same I (stored (D.get_object r.remote k).0)
          (record r { remote = (D.get_object r.remote k).1 })
          (subst I (sym (lawful.view-get r.remote k)) h);
  }

  -- A document that is read stands there.
  pub get-Reads :
      (I : View → Type 0) (k : Key)
      → Triple (At I) (get D c k) (λ doc r. At I r × At (λ v. v.objects k ≡ some doc) r) (At I)
  unfolding get
  get-Reads I k = record {
    run =
        λ r h. go r (subst I (sym (lawful.view-get r.remote k)) h) (D.get_object r.remote k).0 refl;
  }
    where
      go :
          (r : Run D)
          → I (view (D.get_object r.remote k).1)
          → (a : Result Stop (Option Doc)) → (D.get_object r.remote k).0 ≡ a
          → Post
              (λ doc t. At I t × At (λ v. v.objects k ≡ some doc) t)
              (At I)
              (stored a)
              (record r { remote = (D.get_object r.remote k).1 })
      go r h (ok none) e = h
      go r h (ok (some doc)) e = (
        h,
        ap (λ v. v.objects k) (lawful.view-get r.remote k)
            ∙ lawful.get-objects r.remote k (some doc) e,
      )
      go r h (err x) e = h

  -- What is read of a tag is what stands there.
  stable_digest-Reads :
      (I : View → Type 0) (name : String)
      → Triple
          (At I)
          (stable_digest D c name)
          (λ o r. At I r × ((d : String) → o ≡ some d → At (λ v. v.stable name ≡ some d) r))
          (At I)
  unfolding stable_digest
  stable_digest-Reads I name = record {
    run = λ r h. go r h (D.describe_stable r.remote name).0 refl;
  }
    where
      go :
          (r : Run D)
          → At I r
          → (a : Result Stop Described) → (D.describe_stable r.remote name).0 ≡ a
          → Post
              (λ o t. At I t × ((d : String) → o ≡ some d → At (λ v. v.stable name ≡ some d) t))
              (At I)
              (tagged a)
              (record r { remote = (D.describe_stable r.remote name).1 })
      go r h a e = answer (tagged a) refl
        where
          same : view (D.describe_stable r.remote name).1 ≡ view r.remote
          same = lawful.view-describe r.remote name

          answer :
              (b : Result Stop (Option String))
              → tagged a ≡ b
              → Post
                  (λ o t. At I t × ((d : String) → o ≡ some d → At (λ v. v.stable name ≡ some d) t))
                  (At I)
                  b
                  (record r { remote = (D.describe_stable r.remote name).1 })
          answer (ok o) q = (
            subst I (sym same) h,
            λ d f.
                let t = tagged-entries a d (q ∙ ap (λ x. ok x) f) in
                ap (λ v. v.stable name) same
                ∙ (lawful.describe-stable r.remote name t.0 (e ∙ t.1) ∙ ap (λ x. some x) t.2),
          )
          answer (err x) q = subst I (sym same) h

  pub Keeps-stable_digest :
      (I : View → Type 0) (name : String) → Keeps (At I) (stable_digest D c name)
  Keeps-stable_digest I name =
      weaken (stable_digest-Reads I name) (λ r h. h) (λ o r h. h.0) (λ r h. h)

  -- The confirmation of a member establishes that its tag is at its digest.
  pub confirm-Confirms :
      (I : View → Type 0) (i : Member)
      → Triple
          (At I)
          (confirm D c i)
          (λ u r. At I r × At (λ v. v.stable i.name ≡ some i.digest) r)
          (At I)
  unfolding confirm
  confirm-Confirms I i = bind (stable_digest-Reads I i.name) λ o.
      weaken (demanded (same_digest o (some i.digest)) (λ r h. h.0)) (λ r h. h)
        (λ u r h. (h.1.0, h.1.1 i.digest (same_digest-eq o i.digest h.0))) (λ r h. h)

  pub Keeps-confirm : (I : View → Type 0) (i : Member) → Keeps (At I) (confirm D c i)
  Keeps-confirm I i = weaken (confirm-Confirms I i) (λ r h. h) (λ u r h. h.0) (λ r h. h)

  pub Keeps-read_index :
      (I : View → Type 0) (i : Member) (reference : Option String)
      → Keeps (At I) (read_index D c i reference)
  unfolding read_index
  Keeps-read_index I i reference = record {
    run = λ r h.
        verified (D.fetch_index r.remote i.name reference).0
          (record r { remote = (D.fetch_index r.remote i.name reference).1 })
          (subst I (sym (lawful.view-fetch r.remote i.name reference)) h);
  }
    where
      verified :
          (a : Result Stop (List ℕ)) (r : Run D)
          → At I r
          → Post
              (λ u. At I)
              (At I)
              (after a (λ raw. demand (c.index_matches i raw)) r).0
              (after a (λ raw. demand (c.index_matches i raw)) r).1
      verified (ok raw) r h = (Keeps-demand (c.index_matches i raw)).run r h
      verified (err e) r h = h

  -- Tagging changes no object.
  Keeps-tag_stable :
      (O : (Key → Option Doc) → Type 0) (i : Member)
      → Keeps (At (λ v. O v.objects)) (tag_stable D c i)
  unfolding tag_stable
  Keeps-tag_stable O i = record {
    run = λ r h.
        Post-same (λ v. O v.objects) (tag_answer (D.put_image r.remote i.name i.digest).0)
          (record r { remote = (D.put_image r.remote i.name i.digest).1 })
          (subst O (sym (lawful.image-objects r.remote i.name i.digest)) h);
  }

  pub Keeps-write_stable :
      (O : (Key → Option Doc) → Type 0) (i : Member)
      → Keeps (At (λ v. O v.objects)) (write_stable D c i)
  unfolding write_stable
  Keeps-write_stable O i = bind (Keeps-read_index (λ v. O v.objects) i (some i.digest)) λ u.
      bind (Keeps-tag_stable O i) λ u.
        bind (Keeps-confirm (λ v. O v.objects) i) λ u. Keeps-read_index (λ v. O v.objects) i none

  Keeps-put_answer :
      (I : View → Type 0) (k : Key) (doc : Doc) (immutable : Bool) (a : Put)
      → Keeps (At I) (put_answer D c k doc immutable a)
  unfolding put_answer
  Keeps-put_answer I k doc immutable done = record { run = λ r h. h }
  Keeps-put_answer I k doc true exists_already =
      bind (Keeps-get I k) λ old. Keeps-demand (c.same_doc old doc)
  Keeps-put_answer I k doc false exists_already = record { run = λ r h. h }
  Keeps-put_answer I k doc immutable (stopped e) = record { run = λ r h. h }

  pub wrote :
      (s : D.State) (k : Key) (doc : Doc) (b : Bool)
      → Wrote (view s) (view (D.put_object s k doc b).1) k doc
  wrote s k doc b = record {
    tags_same = lawful.put-stable s k doc b;
    one_object = lawful.put-objects s k doc b;
  }

  -- A statement that no write of the document breaks.
  pub Keeps-put :
      (I : View → Type 0) (k : Key) (doc : Doc) (immutable : Bool)
      → ((v w : View) → Wrote v w k doc → I v → I w)
      → Keeps (At I) (put D c k doc immutable)
  unfolding put
  Keeps-put I k doc immutable kept = record {
    run = λ r h.
        (Keeps-put_answer I k doc immutable (D.put_object r.remote k doc immutable).0).run
          (record r { remote = (D.put_object r.remote k doc immutable).1 })
          (kept _ _ (wrote r.remote k doc immutable) h);
  }

  -- A mutable document that was put without an error is there.
  pub put-Puts :
      (I : View → Type 0) (k : Key) (doc : Doc)
      → ((v w : View) → Wrote v w k doc → I v → I w)
      → Triple
          (At I)
          (put D c k doc false)
          (λ u r. At I r × At (λ v. v.objects k ≡ some doc) r)
          (At I)
  unfolding put put_answer
  put-Puts I k doc kept = record {
    run = λ r h.
        go r (kept _ _ (wrote r.remote k doc false) h) (D.put_object r.remote k doc false).0 refl;
  }
    where
      go :
          (r : Run D)
          → I (view (D.put_object r.remote k doc false).1)
          → (a : Put) → (D.put_object r.remote k doc false).0 ≡ a
          → Post
              (λ u t. At I t × At (λ v. v.objects k ≡ some doc) t)
              (At I)
              (put_answer D c k doc false a
                (record r { remote = (D.put_object r.remote k doc false).1 })).0
              (put_answer D c k doc false a
                (record r { remote = (D.put_object r.remote k doc false).1 })).1
      go r h done e = (h, (lawful.put_done r.remote k doc false e).now_there)
      go r h exists_already e = h
      go r h (stopped x) e = h
