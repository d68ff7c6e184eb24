-- ===== src/Release/Publication/Accepting.antt =====
-- A destination that accepts every call, and the steps of a publication on it.
use alric_containers_image_b.Base.{
  ℕ, String, ◌≡◌, ◌≢◌, refl, sym, ap, ◌∙◌, Bool, true, false, Option, none, some, List, Result, ok,
  err, In, eq_iff, arith,
}
use mathlib.Core.Path.{subst}
use alric_containers_image_b.Base.Act.{Stop, Act, demand, after}
use alric_containers_image_b.Base.Act.Triples.{Post, Triple, weaken, bind}
use alric_containers_image_b.Release.Data.{Member}
use alric_containers_image_b.Release.Destination.{
  Key, Doc, Put, done, exists_already, stopped, Destination, View, IsLawful,
}
use alric_containers_image_b.Release.Publication.{
  Context, Run, tagged, tag_answer, same_digest, stable_digest, put_answer, put, read_index,
  tag_stable, confirm, write_stable,
}
use alric_containers_image_b.Release.Publication.Views.{Wrote}
use alric_containers_image_b.Release.Publication.Steps.{At, wrote}

-- Mutable documents are put, immutable ones where there is none yet, and the tags of the images are
-- moved. What is read of a tag is what stands there; the index that is fetched of an image by its
-- digest, or by its tag when it stands at that digest, is that of the image.
pub record IsAccepting (D : Destination) (c : Context) (view : D.State → View)
    (images : List Member) : Type 0 where
  pub put_mutable : (s : D.State) (k : Key) (doc : Doc) → (D.put_object s k doc false).0 ≡ done
  pub put_new :
      (s : D.State) (k : Key) (doc : Doc)
      → (view s).objects k ≡ none
      → (D.put_object s k doc true).0 ≡ done
  pub tags :
      (s : D.State) (i : Member)
      → In i images
      → tag_answer (D.put_image s i.name i.digest).0 ≡ ok tt
  pub tag_moves :
      (s : D.State) (i : Member)
      → In i images
      → (view (D.put_image s i.name i.digest).1).stable i.name ≡ some i.digest
  pub describes :
      (s : D.State) (name : String)
      → tagged (D.describe_stable s name).0 ≡ ok ((view s).stable name)
  pub fetches_digest :
      (s : D.State) (i : Member)
      → In i images
      → (raw : List ℕ) × ((D.fetch_index s i.name (some i.digest)).0 ≡ ok raw)
        × (c.index_matches i raw ≡ true)
  pub fetches_tag :
      (s : D.State) (i : Member)
      → In i images
      → (view s).stable i.name ≡ some i.digest
      → (raw : List ℕ) × ((D.fetch_index s i.name none).0 ≡ ok raw) × (c.index_matches i raw ≡ true)

module _ {S A : Type 0} where
  -- An action that returns.
  abbrev pub Live : (S → Type 0) → Act S A → (A → S → Type 0) → Type 0
  Live P act Q = Triple P act Q (λ s. ⊥)

  pub Post-of-ok :
      (Q : A → S → Type 0) (r : Result Stop A) (s : S) (a : A)
      → r ≡ ok a
      → Q a s
      → Post Q (λ t. ⊥) r s
  Post-of-ok Q r s a e h = subst (λ x. Post Q (λ t. ⊥) x s) (sym e) h

  pub Post-returns :
      (Q : A → S → Type 0) (r : Result Stop A) (s : S) → Post Q (λ t. ⊥) r s → (a : A) × (r ≡ ok a)
  Post-returns Q (ok a) s h = (a, refl)
  Post-returns Q (err e) s h = absurd h

module _ {S : Type 0} where
  pub Live-demand : (P : S → Type 0) (b : Bool) → b ≡ true → Live P (demand b) (λ u. P)
  Live-demand P true e = record { run = λ s h. h }
  Live-demand P false e = absurd (ground arith)

pub same_digest_refl : (d : String) → same_digest (some d) (some d) ≡ true
same_digest_refl d = ground (arith, eq_iff d d)

module _ (D : Destination) (c : Context) (view : D.State → View) (lawful : IsLawful D view)
    (images : List Member) (accepts : IsAccepting D c view images) where
  abbrev On : (View → Type 0) → Run D → Type 0
  On = At D c view lawful

  pub Live-stable_digest :
      (u : View) (name : String)
      → Live
          (On (λ v. v ≡ u))
          (stable_digest D c name)
          (λ o r. On (λ v. v ≡ u) r × (o ≡ u.stable name))
  unfolding stable_digest
  Live-stable_digest u name = record {
    run = λ r h.
        Post-of-ok (λ o t. On (λ v. v ≡ u) t × (o ≡ u.stable name)) _ _ _
          (accepts.describes r.remote name)
          (lawful.view-describe r.remote name ∙ h, ap (λ v. v.stable name) h);
  }

  -- A tag that stands at the digest is confirmed.
  pub Live-confirm :
      (I : View → Type 0) (i : Member)
      → ((v : View) → I v → v.stable i.name ≡ some i.digest)
      → Live (On I) (confirm D c i) (λ u. On I)
  unfolding confirm
  Live-confirm I i stands = record {
    run = λ r h.
        (bind (Live-stable_digest (view r.remote) i.name) λ o. record {
          run = λ t k.
              (Live-demand (On I) (same_digest o (some i.digest)) (
                  ap (λ x. same_digest x (some i.digest)) (k.1 ∙ stands (view r.remote) h)
                  ∙ same_digest_refl i.digest)).run
                t (subst I (sym k.0) h);
        }).run
          r refl;
  }

  pub Live-read_index :
      (I : View → Type 0) (i : Member) (reference : Option String)
      → ((s : D.State)
          → I (view s)
          → (raw : List ℕ) × ((D.fetch_index s i.name reference).0 ≡ ok raw)
            × (c.index_matches i raw ≡ true))
      → Live (On I) (read_index D c i reference) (λ u. On I)
  unfolding read_index
  Live-read_index I i reference fetches = record {
    run = λ r h.
        verified (D.fetch_index r.remote i.name reference).0
          (record r { remote = (D.fetch_index r.remote i.name reference).1 }) (fetches r.remote h)
          (subst I (sym (lawful.view-fetch r.remote i.name reference)) h);
  }
    where
      verified :
          (a : Result Stop (List ℕ)) (r : Run D)
          → (raw : List ℕ) × (a ≡ ok raw) × (c.index_matches i raw ≡ true)
          → On I r
          → Post
              (λ u. On I)
              (λ t. ⊥)
              (after a (λ raw. demand (c.index_matches i raw)) r).0
              (after a (λ raw. demand (c.index_matches i raw)) r).1
      verified (ok raw) r f h =
          (Live-demand (On I) (c.index_matches i raw) (fits (ok raw) refl f)).run r h
        where
          fits :
              (b : Result Stop (List ℕ))
              → b ≡ ok raw
              → (x : List ℕ) × (b ≡ ok x) × (c.index_matches i x ≡ true)
              → c.index_matches i raw ≡ true
          fits b e f = ground (arith, f)
      verified (err e) r f h = absurd (ground (arith, f))

  -- A document that is put, from a statement that the write leads to another one.
  pub Live-put_mutable :
      (I J : View → Type 0) (k : Key) (doc : Doc)
      → ((v w : View) → Wrote v w k doc → I v → J w)
      → Live (On I) (put D c k doc false) (λ u. On J)
  unfolding put put_answer
  Live-put_mutable I J k doc leads = record {
    run = λ r h.
        go (D.put_object r.remote k doc false).0
          (record r { remote = (D.put_object r.remote k doc false).1 })
          (accepts.put_mutable r.remote k doc)
          (leads _ _ (wrote D c view lawful r.remote k doc false) h);
  }
    where
      go :
          (a : Put) (r : Run D)
          → a ≡ done
          → On J r
          → Post
              (λ u. On J)
              (λ t. ⊥)
              (put_answer D c k doc false a r).0
              (put_answer D c k doc false a r).1
      go done r e h = h
      go exists_already r e h = absurd (ground arith)
      go (stopped x) r e h = absurd (ground arith)

  pub Live-put_new :
      (I J : View → Type 0) (k : Key) (doc : Doc)
      → ((v : View) → I v → v.objects k ≡ none)
      → ((v w : View) → Wrote v w k doc → I v → J w)
      → Live (On I) (put D c k doc true) (λ u. On J)
  unfolding put put_answer
  Live-put_new I J k doc free leads = record {
    run = λ r h.
        go (D.put_object r.remote k doc true).0
          (record r { remote = (D.put_object r.remote k doc true).1 })
          (accepts.put_new r.remote k doc (free _ h))
          (leads _ _ (wrote D c view lawful r.remote k doc true) h);
  }
    where
      go :
          (a : Put) (r : Run D)
          → a ≡ done
          → On J r
          → Post
              (λ u. On J)
              (λ t. ⊥)
              (put_answer D c k doc true a r).0
              (put_answer D c k doc true a r).1
      go done r e h = h
      go exists_already r e h = absurd (ground arith)
      go (stopped x) r e h = absurd (ground arith)

  -- A member is written and read back; a statement that the move of its tag keeps is kept.
  pub Live-write_stable :
      (I : View → Type 0) (i : Member)
      → In i images
      → ((v w : View)
          → w.objects ≡ v.objects
          → w.stable i.name ≡ some i.digest
          → ((name : String) → name ≢ i.name → w.stable name ≡ v.stable name)
          → I v
          → I w)
      → Live
          (On I)
          (write_stable D c i)
          (λ u r. On I r × On (λ v. v.stable i.name ≡ some i.digest) r)
  unfolding write_stable tag_stable
  Live-write_stable I i m moves =
      bind (Live-read_index I i (some i.digest) (λ s h. accepts.fetches_digest s i m)) λ u.
        bind tags λ u. bind (Live-confirm Standing i (λ v h. h.1)) λ u.
          weaken (Live-read_index Standing i none (λ s h. accepts.fetches_tag s i m h.1)) (λ r h. h)
            (λ u r h. h) (λ r h. h)
    where
      Standing : View → Type 0
      Standing v = I v × (v.stable i.name ≡ some i.digest)

      tags : Live (On I) (tag_stable D c i) (λ u. On Standing)
      tags = record {
        run = λ r h.
            Post-of-ok (λ u. On Standing) _ _ tt (accepts.tags r.remote i m)
              (
                moves _ _ (lawful.image-objects r.remote i.name i.digest)
                    (accepts.tag_moves r.remote i m)
                    (λ name e. lawful.image-others r.remote i.name i.digest name e) h,
                accepts.tag_moves r.remote i m,
              );
      }
