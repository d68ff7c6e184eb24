-- ===== src/Release/Publication/Stores.antt =====
-- What an immutable document leaves when it was put.
use alric_containers_image_b.Base.{◌≡◌, refl, ◌⊎◌, inl, inr, true, some}
use alric_containers_image_b.Base.Act.{demand, ◌>>=◌}
use alric_containers_image_b.Base.Act.Triples.{Post, Triple, weaken, bind, demanded}
use alric_containers_image_b.Release.Destination.{
  Key, Doc, Put, done, exists_already, stopped, Destination, View, IsLawful,
}
use alric_containers_image_b.Release.Publication.{Context, Run, get, put_answer, put}
use alric_containers_image_b.Release.Publication.Views.{Wrote}
use alric_containers_image_b.Release.Publication.Steps.{At, wrote, get-Reads}

-- A document stands under the key, or one that compares as equal to it.
abbrev pub Stores : Context → Key → Doc → View → Type 0
Stores c k doc v =
    (old : Doc) × (v.objects k ≡ some old) × ((old ≡ doc) ⊎ (c.same_doc old doc ≡ true))

module _ (D : Destination) (c : Context) (view : D.State → View) (lawful : IsLawful D view) where
  -- An immutable document that was put without an error is there.
  pub put-Stores :
      (I : View → Type 0) (k : Key) (doc : Doc)
      → ((v w : View) → Wrote v w k doc → I v → I w)
      → Triple
          (At D c view lawful I)
          (put D c k doc true)
          (λ u r. At D c view lawful I r × At D c view lawful (Stores c k doc) r)
          (At D c view lawful I)
  unfolding put put_answer
  put-Stores I k doc kept = record {
    run = λ r h.
        go r (kept _ _ (wrote D c view lawful r.remote k doc true) h)
          (D.put_object r.remote k doc true).0 refl;
  }
    where
      compared :
          Triple
            (At D c view lawful I)
            (get D c k >>= λ old. demand (c.same_doc old doc))
            (λ u r. At D c view lawful I r × At D c view lawful (Stores c k doc) r)
            (At D c view lawful I)
      compared = bind (get-Reads D c view lawful I k) λ old.
          weaken (demanded (c.same_doc old doc) (λ r h. h.0)) (λ r h. h)
            (λ u r h. (h.1.0, (old, h.1.1, inr h.0))) (λ r h. h)

      go :
          (r : Run D)
          → I (view (D.put_object r.remote k doc true).1)
          → (a : Put) → (D.put_object r.remote k doc true).0 ≡ a
          → Post
              (λ u t. At D c view lawful I t × At D c view lawful (Stores c k doc) t)
              (At D c view lawful I)
              (put_answer D c k doc true a
                (record r { remote = (D.put_object r.remote k doc true).1 })).0
              (put_answer D c k doc true a
                (record r { remote = (D.put_object r.remote k doc true).1 })).1
      go r h done e = (h, (doc, (lawful.put_done r.remote k doc true e).now_there, inl refl))
      go r h exists_already e =
          compared.run (record r { remote = (D.put_object r.remote k doc true).1 }) h
      go r h (stopped x) e = h
