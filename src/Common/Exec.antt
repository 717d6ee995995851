-- ===== src/Common/Exec.antt =====
-- Python code that mutates state and may raise. What was written before a raise stays written, so
-- the state comes back beside the exception too. `blocked` is a task that waits for an event that
-- only another task can set.
use mathlib.Core.Path.{◌≡◌, refl, sym, ap}
use mathlib.Core.Bool.{Bool, true, false}
use Prim.Native.String.{String}

-- the exceptions that the modelled code raises
pub data Exn : Type 0 where
  value_error : String → Exn
  assertion_error : String → Exn
  authorization_error : String → String → Exn
  key_error : Exn

pub data Result {ℓ} (A : Type ℓ) : Type ℓ where
  ok : A → Result A
  raised : Exn → Result A
  blocked : Result A

abbrev pub Exec {ℓ κ} : Type ℓ → Type κ → Type (ℓ ⊔ κ)
Exec S A = S → Result A × S

module _ {ℓ κ} {S : Type ℓ} {A : Type κ} where
  abbrev pub pure : A → Exec S A
  pure a s = (ok a, s)

  abbrev pub raise : Exn → Exec S A
  raise e s = (raised e, s)

  abbrev pub gets : (S → A) → Exec S A
  gets f s = (ok (f s), s)

  abbrev pub lift : Result A → Exec S A
  lift r s = (r, s)

module _ {ℓ κ μ} {S : Type ℓ} {A : Type κ} {B : Type μ} where
  abbrev pub continue : Result A → (A → Exec S B) → Exec S B
  continue (ok a) f s = f a s
  continue (raised e) f s = (raised e, s)
  continue blocked f s = (blocked, s)

  infixl 10 ◌>>=◌ ◌>>◌
  abbrev pub ◌>>=◌ : Exec S A → (A → Exec S B) → Exec S B
  ◌>>=◌ m f s = let (r, s') = m s in continue r f s'

  abbrev pub ◌>>◌ : Exec S A → Exec S B → Exec S B
  m >> n = m >>= λ _. n

-- `if b: raise e`
abbrev pub raise_if {ℓ} : {S : Type ℓ} → Bool → Exn → Exec S (Unit {0})
raise_if true e s = (raised e, s)
raise_if false e s = (ok tt, s)

module _ {ℓ κ μ} {S : Type ℓ} {A : Type κ} {B : Type μ} where
  continue-eq-ok :
      (r : Result A) (f : A → Exec S B) (s : S) {b : B}
      → (continue r f s).0 ≡ ok b
      → (a : A) × (r ≡ ok a)
  continue-eq-ok (ok a) f s h = (a, refl)
  continue-eq-ok (raised e) f s h = cc
  continue-eq-ok blocked f s h = cc

  -- Inversion of a sequence that returned: its first part returned, and the rest ran after it.
  pub >>=-eq-ok :
      (m : Exec S A) (f : A → Exec S B) (s : S) {b : B}
      → ((m >>= f) s).0 ≡ ok b
      → (a : A) × ((m s).0 ≡ ok a) × ((m >>= f) s ≡ f a (m s).1)
  >>=-eq-ok m f s h =
      let (a, e) = continue-eq-ok (m s).0 f (m s).1 h in (a, e, ap (λ r. continue r f (m s).1) e)

  bound :
      (x : Result A × S) (f : A → Exec S B) {b : B} {t : S}
      → continue x.0 f x.1 ≡ (ok b, t)
      → (a : A) × (u : S) × (x ≡ (ok a, u)) × (f a u ≡ (ok b, t))
  bound (ok a, u) f h = (a, u, refl, h)
  bound (raised e, u) f {b} h = let k : ◌≡◌ {A = Result B} (raised e) (ok b) = ap (λ p. p.0) h in cc
  bound (blocked, u) f {b} h = let k : ◌≡◌ {A = Result B} blocked (ok b) = ap (λ p. p.0) h in cc

  -- Inversion of a sequence that returned, with the states between its parts.
  pub bind_ok :
      (m : Exec S A) (f : A → Exec S B) (s : S) {b : B} {t : S}
      → (m >>= f) s ≡ (ok b, t)
      → (a : A) × (u : S) × (m s ≡ (ok a, u)) × (f a u ≡ (ok b, t))
  bind_ok m f s h = bound (m s) f h

module _ {ℓ} {S : Type ℓ} where
  -- A guard that passed has no effect.
  pub guard_ok :
      (b : Bool) (e : Exn) (s : S) {x : Unit} {t : S}
      → raise_if b e s ≡ (ok x, t)
      → (b ≡ false) × (t ≡ s)
  guard_ok true e s {x} h = let k : ◌≡◌ {A = Result Unit} (raised e) (ok x) = ap (λ p. p.0) h in cc
  guard_ok false e s h = (refl, ap (λ p. p.1) (sym h))

module _ {ℓ κ} {S : Type ℓ} {A : Type κ} where
  -- A step that has no effect gave what was lifted.
  pub lift_ok : (r : Result A) (s : S) {x : A} {t : S} → lift r s ≡ (ok x, t) → (r ≡ ok x) × (t ≡ s)
  lift_ok r s h = (ap (λ p. p.0) h, ap (λ p. p.1) (sym h))

  -- What a step that changes nothing returned.
  pub pure_ok :
      (a : A) (s : S) {b : A} {t : S}
      → ◌≡◌ {A = Result A × S} (ok a, s) (ok b, t)
      → (a ≡ b) × (t ≡ s)
  pure_ok a s {b} h = let k : ok a ≡ ok b = ap (λ p. p.0) h in (cc, ap (λ p. p.1) (sym h))

module _ {ℓ κ} {S : Type ℓ} {B : Type κ} where
  -- A check that passed before what ran.
  pub check_ok :
      (r : Result (Unit {0})) (n : Exec S B) (s : S) {b : B} {t : S}
      → (lift r >> n) s ≡ (ok b, t)
      → (r ≡ ok tt) × (n s ≡ (ok b, t))
  check_ok r n s h =
      let (a, u, e, rest) = bind_ok (lift r) (λ _. n) s h in
      let (is, same) = lift_ok r s e in (is, rw (← same) rest)

  -- A guard that passed before what ran.
  pub guard_then :
      (b : Bool) (e : Exn) (n : Exec S B) (s : S) {x : B} {t : S}
      → (raise_if b e >> n) s ≡ (ok x, t)
      → (b ≡ false) × (n s ≡ (ok x, t))
  guard_then true e n s {x} h = let k : ◌≡◌ {A = Result B} (raised e) (ok x) = ap (λ p. p.0) h in cc
  guard_then false e n s h = (refl, h)
