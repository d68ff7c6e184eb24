-- ===== src/Base/Act.antt =====
-- Actions that change a state and may stop: what was done before a stop stays done.
-- `failed` is an exception that the code handles (its ERRORS); `killed` ends the process.
pub mod Triples
use mathlib.Core.Bool.{Bool, true, false}
use mathlib.Core.List.{List, [], ◌∷◌}
use alric_containers_image_b.Base.Results.{Result, ok, err}

pub data Stop : Type 0 where
  failed killed : Stop

abbrev pub Act : Type 0 → Type 0 → Type 0
Act S A = S → Result Stop A × S

module _ {S A : Type 0} where
  abbrev pub pure : A → Act S A
  pure a s = (ok a, s)

  abbrev pub stop : Stop → Act S A
  stop e s = (err e, s)

module _ {S A B : Type 0} where
  abbrev pub after : Result Stop A → (A → Act S B) → Act S B
  after (ok a) next s = next a s
  after (err e) next s = (err e, s)

  infixl 10 ◌>>=◌
  unfoldable pub ◌>>=◌ : Act S A → (A → Act S B) → Act S B
  ◌>>=◌ first next s = let (r, t) = first s in after r next t

module _ {S B : Type 0} where
  infixl 10 ◌>>◌
  abbrev pub ◌>>◌ : Act S (Unit {0}) → Act S B → Act S B
  first >> next = first >>= λ done. next

module _ {S : Type 0} where
  -- `require(condition, message)`, whose exception is one of ERRORS.
  abbrev pub demand : Bool → Act S (Unit {0})
  demand true s = (ok tt, s)
  demand false s = (err failed, s)

  -- `for x in xs: …`
  unfoldable pub for_each : {A : Type 0} → List A → (A → Act S (Unit {0})) → Act S (Unit {0})
  for_each [] body = pure tt
  for_each (x ∷ xs) body = body x >>= λ done. for_each xs body

  abbrev pub recover : {A : Type 0} → Result Stop A → Act S A → Act S A
  recover (ok a) handler s = (ok a, s)
  recover (err failed) handler s = handler s
  recover (err killed) handler s = (err killed, s)

  -- `try: … except ERRORS: …`
  unfoldable pub attempt : {A : Type 0} → Act S A → Act S A → Act S A
  attempt body handler s = let (r, t) = body s in recover r handler t
