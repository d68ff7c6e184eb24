-- ===== src/Promotion/Run/Rules.antt =====
-- Rules for the actions on a unit, and for the loops over names and over units.
use alric_containers_image_b.Base.{
  ℕ, some, String, ◌≡◌, refl, sym, Bool, true, false, ◌⊎◌, inl, inr, List, [], ◌∷◌, Result, ok, err,
  In, arith,
}
use mathlib.Core.Path.{subst}
use alric_containers_image_b.Base.Act.{Stop, Act, ◌>>=◌}
use alric_containers_image_b.Base.Act.Triples.{
  Post, Triple, weaken, both, bind, attempted, Keeps, Post-map,
}
use alric_containers_image_b.Promotion.Registry.{Registry}
use alric_containers_image_b.Promotion.Work.{
  failed, Phase, UnitResult, Event, Work, call, set_unit, log, if_more, while_ok,
}
use alric_containers_image_b.Promotion.Batch.{failed_unit, saved_unit, fail, save, guarded}

-- A statement about the trace and the unit.
abbrev pub Statement : Type 1
Statement = List Event → UnitResult → Type 0

abbrev pub On : {D : Registry} → Statement → Work D → Type 0
On P w = P w.side.trace w.unit

-- A trace that has all of another, the units of a batch, and a statement that outlives new events.
abbrev pub Grows : List Event → List Event → Type 0
Grows s t = (e : Event) → In e s → In e t

abbrev pub Each : Statement → List Event → List UnitResult → Type 0
Each P t us = (u : UnitResult) → In u us → P t u

abbrev pub Stays : Statement → Type 0
Stays P = (s t : List Event) (u : UnitResult) → Grows s t → P s u → P t u

module _ {D : Registry} where
  pub Keeps-call :
      {A : Type 0} (P : Statement) (f : D.World → Result Stop A × D.World)
      → Keeps (On P) (call {D = D} f)
  unfolding call
  Keeps-call {A} P f = record { run = λ w h. go (f w.side.world).0 w h }
    where
      go :
          (r : Result Stop A) (w : Work D)
          → On P w
          → Post
              (λ a. On P)
              (On P)
              r
              (record w { side = record w.side { world = (f w.side.world).1 } })
      go (ok a) w h = h
      go (err e) w h = h

  pub set_unit-Sets :
      (P : Statement) {X : Work D → Type 0} (f : UnitResult → UnitResult)
      → Triple (On (λ t u. P t (f u))) (set_unit {D = D} f) (λ x. On P) X
  unfolding set_unit
  set_unit-Sets P f = record { run = λ w h. h }

  pub log-Logs :
      (P : Statement) {X : Work D → Type 0} (e : Event)
      → Triple (On (λ t u. P (e ∷ t) u)) (log {D = D} e) (λ x. On P) X
  unfolding log
  log-Logs P e = record { run = λ w h. h }

  abbrev pub Failed : Work D → Type 0
  Failed w = w.unit.status ≡ failed

  Every : (String → Work D → Type 0) → List String → Work D → Type 0
  Every R xs w = (x : String) → In x xs → R x w

  Post-Every :
      {A : Type 0} (Q : String → A → Work D → Type 0) (xs : List String) (r : Result Stop A)
      (w : Work D)
      → ((x : String) → In x xs → Post (Q x) (λ v. Unit {0}) r w)
      → Post (λ a v. (x : String) → In x xs → Q x a v) (λ v. Unit {0}) r w
  Post-Every Q xs (ok a) w h = h
  Post-Every Q xs (err e) w h = tt

  -- The loop, when the facts of the names of `done` are there.
  while_ok-from :
      {I X : Work D → Type 0} (R : String → Work D → Type 0) (all done xs : List String)
      (body : String → Act (Work D) Bool)
      → ((w : Work D) → I w → X w)
      → ((x : String)
          → In x all
          → Triple I (body x) (λ more w. I w × (more ≡ true → R x w) × (more ≡ false → Failed w)) X)
      → ((x y : String)
          → In y all
          → Triple (λ w. I w × R x w) (body y) (λ more w. more ≡ true → R x w) (λ w. Unit {0}))
      → ((x : String) → In x xs → In x all)
      → Triple
          (λ w. I w × Every R done w)
          (while_ok xs body)
          (λ u w. I w × (Failed w ⊎ (Every R done w × Every R xs w)))
          X
  unfolding while_ok Every
  while_ok-from R all done [] body keep makes keeps inside = record {
    run = λ w h. (h.0, inr (h.1, λ x m. absurd m));
  }
  while_ok-from {I} {X} R all done (x ∷ xs) body keep makes keeps inside =
      bind
        {Q = λ more w.
          (I w × (more ≡ true → R x w) × (more ≡ false → Failed w))
          × ((y : String) → In y done → more ≡ true → R y w)}
        (weaken (both (makes x (inside x (inl refl))) facts) (λ w h. (h.0, h)) (λ more w h. h)
          (λ w h. h.0))
        (λ more. record {
          run = λ w h.
              go more w h
                (while_ok-from R all (x ∷ done) xs body keep makes keeps (λ y m. inside y (inr m)));
        })
    where
      facts :
          Triple
            (λ w. I w × Every R done w)
            (body x)
            (λ more w. (y : String) → In y done → more ≡ true → R y w)
            (λ w. Unit {0})
      facts = record {
        run = λ w h.
            Post-Every (λ y more v. more ≡ true → R y v) done (body x w).0 (body x w).1
              (λ y m. (keeps y x (inside x (inl refl))).run w (h.0, h.1 y m));
      }

      with_first : (w : Work D) → R x w → Every R done w → Every R (x ∷ done) w
      with_first w here old y (inl e) = subst (λ z. R z w) (sym e) here
      with_first w here old y (inr m) = old y m

      regroup :
          (w : Work D)
          → I w × (Failed w ⊎ (Every R (x ∷ done) w × Every R xs w))
          → I w × (Failed w ⊎ (Every R done w × Every R (x ∷ xs) w))
      regroup w (i, inl f) = (i, inl f)
      regroup w (i, inr (old, new)) = (
        i,
        inr (
          λ y m. old y (inr m),
          λ y m. elim m [ inl e ↦ subst (λ z. R z w) (sym e) (old x (inl refl)) | inr k ↦ new y k ],
        ),
      )

      go :
          (more : Bool) (w : Work D)
          → (I w × (more ≡ true → R x w) × (more ≡ false → Failed w))
            × ((y : String) → In y done → more ≡ true → R y w)
          → Triple
              (λ w. I w × Every R (x ∷ done) w)
              (while_ok xs body)
              (λ u w. I w × (Failed w ⊎ (Every R (x ∷ done) w × Every R xs w)))
              X
          → Post
              (λ u w. I w × (Failed w ⊎ (Every R done w × Every R (x ∷ xs) w)))
              X
              (if_more more (while_ok xs body) w).0
              (if_more more (while_ok xs body) w).1
      go true w h rest =
          Post-map (λ u v k. regroup v k) (λ v k. k) (while_ok xs body w).0 (while_ok xs body w).1
            (rest.run w (h.0.0, with_first w (h.0.1 refl) (λ y m. h.1 y m refl)))
      go false w h rest = (h.0.0, inl (h.0.2 refl))

  -- A loop that a false leaves: then the unit has failed, or each round has added its fact.
  pub while_ok-all :
      {I X : Work D → Type 0} (R : String → Work D → Type 0) (xs : List String)
      (body : String → Act (Work D) Bool)
      → ((w : Work D) → I w → X w)
      → ((x : String)
          → In x xs
          → Triple I (body x) (λ more w. I w × (more ≡ true → R x w) × (more ≡ false → Failed w)) X)
      → ((x y : String)
          → In y xs
          → Triple (λ w. I w × R x w) (body y) (λ more w. more ≡ true → R x w) (λ w. Unit {0}))
      → Triple I (while_ok xs body) (λ u w. I w × (Failed w ⊎ ((x : String) → In x xs → R x w))) X
  unfolding Every
  while_ok-all R xs body keep makes keeps =
      weaken (while_ok-from R xs [] xs body keep makes keeps (λ x m. m))
        (λ w h. (h, λ x m. absurd m)) (λ u w h. (h.0, elim h.1 [ inl f ↦ inl f | inr e ↦ inr e.1 ]))
        (λ w h. h)

  -- `try: … except ERRORS: fail(…); break`
  pub guarded-Guards :
      {I X : Work D → Type 0} (registry : String) (soak now : ℕ) (phase : Phase) (name : String)
      (body : Act (Work D) (Unit {0})) (R : Work D → Type 0)
      → Triple I body (λ u w. I w × R w) I
      → ((w : Work D) → I w → I (record w { unit = failed_unit phase (some name) w.unit }))
      → ((w : Work D) → I w → X w)
      → Triple I
          (guarded D registry soak now phase name body)
          (λ more w. I w × (more ≡ true → R w) × (more ≡ false → Failed w))
          X
  unfolding guarded fail set_unit ◌>>=◌
  guarded-Guards {I} {X} registry soak now phase name body R works fails keep =
      attempted {X = I}
        (bind works λ u. record { run = λ w h. (h.0, λ e. h.1, λ e. absurd (ground (arith, e))) })
        (record { run = λ w h. (fails w h, λ e. absurd (ground (arith, e)), λ e. refl) }) keep

  -- While the body returns, a fact of another round is kept.
  pub guarded-Passes :
      (I R : Work D → Type 0) (registry : String) (soak now : ℕ) (phase : Phase) (name : String)
      (body : Act (Work D) (Unit {0}))
      → Triple I body (λ u. R) (λ w. Unit {0})
      → Triple I
          (guarded D registry soak now phase name body)
          (λ more w. more ≡ true → R w)
          (λ w. Unit {0})
  unfolding guarded fail set_unit ◌>>=◌
  guarded-Passes I R registry soak now phase name body works =
      attempted {X = λ w. Unit {0}} (bind works λ u. record { run = λ w h e. h })
        (record { run = λ w h e. absurd (ground (arith, e)) }) (λ w h. h)

  -- Statements that the actions keep.
  pub Keeps-set_unit :
      (P : Statement) (f : UnitResult → UnitResult)
      → ((t : List Event) (u : UnitResult) → P t u → P t (f u))
      → Keeps (On P) (set_unit {D = D} f)
  unfolding set_unit
  Keeps-set_unit P f h = record { run = λ w k. h w.side.trace w.unit k }

  pub Keeps-while_ok :
      {I : Work D → Type 0} (xs : List String) (body : String → Act (Work D) Bool)
      → ((x : String) → In x xs → Keeps I (body x))
      → Keeps I (while_ok xs body)
  unfolding while_ok
  Keeps-while_ok [] body k = record { run = λ w h. h }
  Keeps-while_ok {I} (x ∷ xs) body k =
      bind (k x (inl refl)) λ more. go more (Keeps-while_ok xs body (λ y m. k y (inr m)))
    where
      go : (more : Bool) → Keeps I (while_ok xs body) → Keeps I (if_more more (while_ok xs body))
      go true later = later
      go false later = record { run = λ w h. h }

  pub Keeps-guarded :
      (P : Statement) (registry : String) (soak now : ℕ) (phase : Phase) (name : String)
      (body : Act (Work D) (Unit {0}))
      → Keeps (On P) body
      → ((t : List Event) (u : UnitResult) → P t u → P t (failed_unit phase (some name) u))
      → Keeps (On P) (guarded D registry soak now phase name body)
  unfolding guarded fail
  Keeps-guarded P registry soak now phase name body k fails =
      attempted (bind k λ u. record { run = λ w h. h })
        (bind (Keeps-set_unit P (failed_unit phase (some name)) fails)
          λ u. record { run = λ w h. h })
        (λ w h. h)

  pub Keeps-save :
      (P : Statement) (registry : String) (soak now : ℕ)
      → ((t : List Event) (u : UnitResult) → P t u → P t (saved_unit u))
      → Keeps (On P) (save D registry soak now)
  unfolding save
  Keeps-save P registry soak now h =
      bind (Keeps-call P D.file_access) λ u. Keeps-set_unit P saved_unit h
