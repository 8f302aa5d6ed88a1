-- ===== src/State/Inversion.antt =====
-- What a successful chain of calls went through.
use pulse_notify.Prelude.{◌≡◌, refl}
use pulse_notify.Errors.{Error, Result, ok, err, map_error}
use pulse_notify.State.{State, M, ◌>>=◌, on_error}

module _ {W A : Type 0} where
  map_error-eq-ok :
      (f : Error → Error) (r : Result A × State W) {a : A} {s' : State W}
      → ◌≡◌ {A = Result A × State W} (map_error f r.0, r.1) (ok a, s')
      → r ≡ (ok a, s')
  map_error-eq-ok f (ok b, s1) h = h
  map_error-eq-ok f (err e, s1) h = cc

  pub on_error-eq-ok :
      (f : Error → Error) (m : M W A) (s : State W) {a : A} {s' : State W}
      → on_error f m s ≡ (ok a, s')
      → m s ≡ (ok a, s')
  on_error-eq-ok f m s h = map_error-eq-ok f (m s) h

module _ {W A B : Type 0} where
  next-eq-ok :
      (r : Result A × State W) (k : A → M W B) {b : B} {s' : State W}
      → ◌>>=◌ (λ (s : State W). r) k r.1 ≡ (ok b, s')
      → (a : A) × (s1 : State W) × (r ≡ (ok a, s1)) × (k a s1 ≡ (ok b, s'))
  next-eq-ok (ok a, s1) k h = (a, s1, refl, h)
  next-eq-ok (err e, s1) k h = cc

  -- Each call of the chain succeeded.
  pub >>=-eq-ok :
      (m : M W A) (k : A → M W B) (s : State W) {b : B} {s' : State W}
      → (m >>= k) s ≡ (ok b, s')
      → (a : A) × (s1 : State W) × (m s ≡ (ok a, s1)) × (k a s1 ≡ (ok b, s'))
  >>=-eq-ok m k s h = next-eq-ok (m s) k h

module _ {ℓ} {W A B : Type 0} (P : State W → Type ℓ) where
  next-keeps :
      (r : Result A × State W) (k : A → M W B)
      → P r.1
      → ((a : A) (s : State W) → P s → P (k a s).1)
      → P (◌>>=◌ (λ (s : State W). r) k r.1).1
  next-keeps (ok a, s) k p keep = keep a s p
  next-keeps (err e, s) k p keep = p

  -- What the first call establishes and the rest keeps.
  pub >>=-keeps :
      (m : M W A) (k : A → M W B) (s : State W)
      → P (m s).1
      → ((a : A) (s1 : State W) → P s1 → P (k a s1).1)
      → P ((m >>= k) s).1
  >>=-keeps m k s p keep = next-keeps (m s) k p keep
