-- ===== src/Base/Act/Triples.antt =====
-- What holds before an action, after it returns, and after it stops.
use mathlib.Core.Path.{◌≡◌, refl, sym, subst}
use mathlib.Core.Logic.{inl, inr}
use mathlib.Core.Bool.{Bool, true, false}
use mathlib.Core.List.{List, [], ◌∷◌}
use native.Mathlib.Omega.{arith}
use alric_containers_image_b.Base.Results.{Result, ok, err}
use alric_containers_image_b.Base.Lists.{In}
use alric_containers_image_b.Base.Act.{
  Stop, failed, killed, Act, after, recover, demand, for_each, attempt, ◌>>=◌,
}

module _ {S A : Type 0} where
  abbrev pub Post : (A → S → Type 0) → (S → Type 0) → Result Stop A → S → Type 0
  Post Q X (ok a) s = Q a s
  Post Q X (err e) s = X s

  -- What a result that is known leaves, and what holds whatever the result is.
  pub Post-ok :
      (Q : A → S → Type 0) (X : S → Type 0) (r : Result Stop A) (s : S) (a : A)
      → r ≡ ok a
      → Post Q X r s
      → Q a s
  Post-ok Q X (ok b) s a e h = subst (λ x. Q x s) (ground arith) h
  Post-ok Q X (err x) s a e h = absurd (ground arith)

  pub Post-any :
      (Q : A → S → Type 0) (X Y : S → Type 0) (r : Result Stop A) (s : S)
      → ((a : A) → Q a s → Y s)
      → (X s → Y s)
      → Post Q X r s
      → Y s
  Post-any Q X Y (ok a) s f g h = f a h
  Post-any Q X Y (err x) s f g h = g h

  pub record Triple (P : S → Type 0) (m : Act S A) (Q : A → S → Type 0) (X : S → Type 0)
      : Type 0 where
    pub run : (s : S) → P s → Post Q X (m s).0 (m s).1

  pub Post-map :
      {Q R : A → S → Type 0} {X Y : S → Type 0} (f : (a : A) (s : S) → Q a s → R a s)
      (g : (s : S) → X s → Y s) (r : Result Stop A) (s : S)
      → Post Q X r s
      → Post R Y r s
  Post-map f g (ok a) s h = f a s h
  Post-map f g (err e) s h = g s h

  pub weaken :
      {P P' : S → Type 0} {m : Act S A} {Q Q' : A → S → Type 0} {X X' : S → Type 0}
      → Triple P m Q X
      → ((s : S) → P' s → P s)
      → ((a : A) (s : S) → Q a s → Q' a s)
      → ((s : S) → X s → X' s)
      → Triple P' m Q' X'
  weaken {m} t p q x = record { run = λ s h. Post-map q x (m s).0 (m s).1 (t.run s (p s h)) }

  Post-both :
      (Q R : A → S → Type 0) (X Y : S → Type 0) (r : Result Stop A) (s : S)
      → Post Q X r s
      → Post R Y r s
      → Post (λ a t. Q a t × R a t) (λ t. X t × Y t) r s
  Post-both Q R X Y (ok a) s h k = (h, k)
  Post-both Q R X Y (err e) s h k = (h, k)

  pub both :
      {P P' : S → Type 0} {m : Act S A} {Q Q' : A → S → Type 0} {X X' : S → Type 0}
      → Triple P m Q X
      → Triple P' m Q' X'
      → Triple (λ s. P s × P' s) m (λ a s. Q a s × Q' a s) (λ s. X s × X' s)
  both {m} {Q} {Q'} {X} {X'} t u = record {
    run = λ s h. Post-both Q Q' X X' (m s).0 (m s).1 (t.run s h.0) (u.run s h.1);
  }

module _ {S A B : Type 0} where
  Post-after :
      {Q : A → S → Type 0} {R : B → S → Type 0} {X : S → Type 0} (next : A → Act S B)
      (later : (a : A) → Triple (Q a) (next a) R X) (r : Result Stop A) (s : S)
      → Post Q X r s
      → Post R X (after r next s).0 (after r next s).1
  Post-after next later (ok a) s h = (later a).run s h
  Post-after next later (err e) s h = h

  pub bind :
      {P : S → Type 0} {Q : A → S → Type 0} {R : B → S → Type 0} {X : S → Type 0} {first : Act S A}
      {next : A → Act S B}
      → Triple P first Q X
      → ((a : A) → Triple (Q a) (next a) R X)
      → Triple P (first >>= next) R X
  unfolding ◌>>=◌
  bind {first} {next} t later = record {
    run = λ s h. Post-after next later (first s).0 (first s).1 (t.run s h);
  }

  -- The same, where the first action stops in a stronger state.
  pub chain :
      {P : S → Type 0} {Q : A → S → Type 0} {R : B → S → Type 0} {X Y : S → Type 0}
      {first : Act S A} {next : A → Act S B}
      → Triple P first Q Y
      → ((s : S) → Y s → X s)
      → ((a : A) → Triple (Q a) (next a) R X)
      → Triple P (first >>= next) R X
  chain t stops later = bind (weaken t (λ s h. h) (λ a s h. h) stops) later

module _ {S : Type 0} where
  pub demanded :
      (b : Bool) {P : S → Type 0} {X : S → Type 0}
      → ((s : S) → P s → X s)
      → Triple P (demand b) (λ u s. (b ≡ true) × P s) X
  demanded true x = record { run = λ s h. (refl, h) }
  demanded false x = record { run = λ s h. x s h }

  -- A body that keeps an invariant, whether it returns or stops.
  abbrev pub Keeps : {A : Type 0} → (S → Type 0) → Act S A → Type 0
  Keeps I m = Triple I m (λ a. I) I

  pub Keeps-demand : (b : Bool) {I : S → Type 0} → Keeps I (demand b)
  Keeps-demand true = record { run = λ s h. h }
  Keeps-demand false = record { run = λ s h. h }

  pub Keeps-for_each :
      {A : Type 0} {I : S → Type 0} (xs : List A) (body : A → Act S (Unit {0}))
      → ((x : A) → In x xs → Keeps I (body x))
      → Keeps I (for_each xs body)
  unfolding for_each
  Keeps-for_each [] body k = record { run = λ s h. h }
  Keeps-for_each (x ∷ xs) body k =
      bind (k x (inl refl)) (λ u. Keeps-for_each xs body (λ y m. k y (inr m)))

  -- The same, for a body that stops in another state.
  pub Keeps-rounds :
      {A : Type 0} {I X : S → Type 0} (xs : List A) (body : A → Act S (Unit {0}))
      → ((x : A) → In x xs → Triple I (body x) (λ u. I) X)
      → Triple I (for_each xs body) (λ u. I) X
  unfolding for_each
  Keeps-rounds [] body k = record { run = λ s h. h }
  Keeps-rounds (x ∷ xs) body k =
      bind (k x (inl refl)) (λ u. Keeps-rounds xs body (λ y m. k y (inr m)))

  -- A fact that every round keeps while it returns.
  for_each-fact :
      {A : Type 0} (P : S → Type 0) (xs : List A) (body : A → Act S (Unit {0}))
      → ((y : A) → In y xs → Triple P (body y) (λ u. P) (λ s. Unit {0}))
      → Triple P (for_each xs body) (λ u. P) (λ s. Unit {0})
  unfolding for_each
  for_each-fact P [] body k = record { run = λ s h. h }
  for_each-fact P (x ∷ xs) body k =
      bind (k x (inl refl)) (λ u. for_each-fact P xs body (λ y m. k y (inr m)))

  -- Each round adds a fact about its element that the other rounds keep.
  pub for_each-all :
      {A : Type 0} {I X : S → Type 0} (R : A → S → Type 0) (xs : List A)
      (body : A → Act S (Unit {0}))
      → ((x : A) → In x xs → Triple I (body x) (λ u s. I s × R x s) X)
      → ((x y : A) → In x xs → In y xs → Triple (R x) (body y) (λ u. R x) (λ s. Unit {0}))
      → Triple I (for_each xs body) (λ u s. I s × ((x : A) → In x xs → R x s)) X
  unfolding for_each
  for_each-all R [] body makes keeps = record { run = λ s h. (h, λ x m. absurd m) }
  for_each-all {A} {I} {X} R (x ∷ xs) body makes keeps = bind (makes x (inl refl)) λ u.
      weaken
        (both
          (for_each-all R xs body (λ y m. makes y (inr m)) (λ y z m n. keeps y z (inr m) (inr n)))
          (for_each-fact (R x) xs body (λ y m. keeps x y (inl refl) (inr m))))
        (λ s h. h) (λ v s h. (h.0.0, each s h.1 h.0.1)) (λ s h. h.0)
    where
      each : (s : S) → R x s → ((y : A) → In y xs → R y s) → (y : A) → In y (x ∷ xs) → R y s
      each s here later y (inl e) = subst (λ z. R z s) (sym e) here
      each s here later y (inr m) = later y m

  Post-recover :
      {A : Type 0} {Q : A → S → Type 0} {X Y : S → Type 0} (handler : Act S A)
      → Triple X handler Q Y
      → ((s : S) → X s → Y s)
      → (r : Result Stop A) (s : S) → Post Q X r s
      → Post Q Y (recover r handler s).0 (recover r handler s).1
  Post-recover handler t x (ok a) s h = h
  Post-recover handler t x (err failed) s h = t.run s h
  Post-recover handler t x (err killed) s h = x s h

  pub attempted :
      {A : Type 0} {P : S → Type 0} {Q : A → S → Type 0} {X Y : S → Type 0} {body handler : Act S A}
      → Triple P body Q X
      → Triple X handler Q Y
      → ((s : S) → X s → Y s)
      → Triple P (attempt body handler) Q Y
  unfolding attempt
  attempted {body} {handler} t u x = record {
    run = λ s h. Post-recover handler u x (body s).0 (body s).1 (t.run s h);
  }
