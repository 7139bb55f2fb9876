-- ===== src/Exec.antt =====
-- Code that may throw and that reads and writes what lies outside it: the runtime store that the
-- bridge adapters share, and the chains behind the RPC endpoints. What was written before an
-- exception stays written.
use governance_seatbelt.Prelude.{
  Result, ok, throw, Exception, ok-injective, ap, ◌≡◌, refl, ◌⊎◌, inl, inr,
}

abbrev pub Exec : Type 0 → Type 0 → Type 0
Exec S A = S → Result A × S

module _ {S A : Type 0} where
  abbrev pub pure : A → Exec S A
  pure a s = (ok a, s)

  abbrev pub raise : Exception → Exec S A
  raise e s = (throw e, s)

  abbrev pub lift : Result A → Exec S A
  lift r s = (r, s)

module _ {S A B : Type 0} where
  abbrev pub continue : Result A → (A → Exec S B) → Exec S B
  continue (ok a) f s = f a s
  continue (throw e) f s = (throw e, s)

  infixl 5 ◌>>=◌
  abbrev pub ◌>>=◌ : Exec S A → (A → Exec S B) → Exec S B
  ◌>>=◌ m f s = continue (m s).0 f (m s).1

  abbrev pub caught : Result A → (A → Exec S B) → (Exception → Exec S B) → Exec S B
  caught (ok a) f g s = f a s
  caught (throw e) f g s = g e s

  -- `try { a = await m } catch (e) { return g(e) } … f(a)`
  abbrev pub try_catch : Exec S A → (A → Exec S B) → (Exception → Exec S B) → Exec S B
  try_catch m f g s = caught (m s).0 f g (m s).1

  pub continue-eq-ok :
      (r : Result A) (f : A → Exec S B) (s : S) {b : B} {t : S}
      → continue r f s ≡ (ok b, t)
      → (a : A) × (r ≡ ok a) × (f a s ≡ (ok b, t))
  continue-eq-ok (ok a) f s h = (a, refl, h)
  continue-eq-ok (throw e) f s h = cc

pub Result-cases :
    {A : Type 0} (r : Result A) → ((a : A) × (r ≡ ok a)) ⊎ ((e : Exception) × (r ≡ throw e))
Result-cases (ok a) = inl (a, refl)
Result-cases (throw e) = inr (e, refl)

module _ {S A B : Type 0} where
  pub try_catch_of_ok :
      (m : Exec S A) (f : A → Exec S B) (g : Exception → Exec S B) (s : S) {a : A}
      → (m s).0 ≡ ok a
      → try_catch m f g s ≡ f a (m s).1
  try_catch_of_ok m f g s h = rw h

  pub try_catch_of_throw :
      (m : Exec S A) (f : A → Exec S B) (g : Exception → Exec S B) (s : S) {e : Exception}
      → (m s).0 ≡ throw e
      → try_catch m f g s ≡ g e (m s).1
  try_catch_of_throw m f g s h = rw h

pub pure-injective : {S A : Type 0} {a b : A} {s t : S} → pure a s ≡ (ok b, t) → a ≡ b
pure-injective h = ok-injective (ap (λ p. p.0) h)
