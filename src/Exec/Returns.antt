-- ===== src/Exec/Returns.antt =====
-- What holds where an action returns (and not where it raises).
use hub_meta_conversion_serv.Base.{Option, none, some, ◌≡◌, refl, ap, subst, subst₂, arith}
use hub_meta_conversion_serv.Exec.{
  Result, ok, err, Exec, pure, or_raise, ◌>>=◌, continue, handle, catch,
}
use hub_meta_conversion_serv.Exec.Keeps.{Keeps}

-- From a state with `P`, a return of `a` leaves a state with `Q a`.
pub record Returns {S E A : Type 0} (P : S → Type 0) (m : Exec S E A) (Q : A → S → Type 0)
    : Type 0 where
  pub at : (s : S) → P s → (a : A) (s' : S) → m s ≡ (ok a, s') → Q a s'

-- The exception that an action always raises.
abbrev pub Raises : {S E A : Type 0} → Exec S E A → Type 0
Raises {S} {E} m = (s : S) → (e : E) × ((m s).0 ≡ err e)

module _ {S E A : Type 0} where
  handle-Returns :
      (r : Result E A) (s : S) (h : E → Exec S E A)
      → ((e : E) → Raises (h e))
      → (a : A) (s' : S) → handle r h s ≡ (ok a, s')
      → ◌≡◌ {A = Result E A × S} (r, s) (ok a, s')
  handle-Returns (ok b) s h never a s' e = e
  handle-Returns (err x) s h never a s' e = let (y, r) = never x s in ground arith

module _ {S E A B : Type 0} where
  continue-Returns :
      (r : Result E A) (s : S) (f : A → Exec S E B) (Q : A → S → Type 0) (R : B → S → Type 0)
      → ((a : A) → r ≡ ok a → Q a s)
      → ((a : A) → Returns (Q a) (f a) R)
      → (b : B) (s' : S) → continue r f s ≡ (ok b, s')
      → R b s'
  continue-Returns (ok a) s f Q R q k b s' e = (k a).at s (q a refl) b s' e
  continue-Returns (err x) s f Q R q k b s' e = ground arith

module _ {S E A : Type 0} {P : S → Type 0} where
  pub Returns_of_Keeps : (m : Exec S E A) → Keeps P m → Returns P m (λ a. P)
  Returns_of_Keeps m k = record { at = λ s p a s' e. subst (λ r. P r.1) e (k.at s p) }

  pub Returns-strengthen :
      {P' : S → Type 0} (m : Exec S E A) (Q : A → S → Type 0)
      → ((s : S) → P s → P' s)
      → Returns P' m Q
      → Returns P m Q
  Returns-strengthen m Q f k = record { at = λ s p. k.at s (f s p) }

  pub Returns-pure :
      (a : A) (Q : A → S → Type 0) → ((s : S) → P s → Q a s) → Returns {E = E} P (pure a) Q
  unfolding pure
  Returns-pure a Q h = record {
    at = λ s p b s' e.
        let x : Path A a b = ground arith in
        let y : Path S s s' = ground arith in subst₂ Q x y (h s p);
  }

  -- A handler that always raises adds no way to return.
  pub Returns-catch :
      (m : Exec S E A) (h : E → Exec S E A) (Q : A → S → Type 0)
      → Returns P m Q
      → ((e : E) → Raises (h e))
      → Returns P (catch m h) Q
  unfolding catch
  Returns-catch m h Q k never = record {
    at = λ s p a s' e. k.at s p a s' (handle-Returns (m s).0 (m s).1 h never a s' e);
  }

module _ {S E A B : Type 0} {P : S → Type 0} where
  pub Returns-bind :
      (m : Exec S E A) (f : A → Exec S E B) (Q : A → S → Type 0) (R : B → S → Type 0)
      → Returns P m Q
      → ((a : A) → Returns (Q a) (f a) R)
      → Returns P (m >>= f) R
  unfolding ◌>>=◌
  Returns-bind m f Q R km kf = record {
    at = λ s p b s' e.
        continue-Returns (m s).0 (m s).1 f Q R
          (λ a x. km.at s p a (m s).1 (ap (λ r. (r, (m s).1)) x)) kf b s' e;
  }

-- A return behind `or_raise` has passed it.
module _ {S E A B : Type 0} where
  pub or_raise-passed :
      (o : Option A) (x : E) (f : A → Exec S E B) (s s' : S) (b : B)
      → (or_raise o x >>= f) s ≡ (ok b, s')
      → (a : A) × (f a s ≡ (ok b, s'))
  unfolding or_raise ◌>>=◌
  or_raise-passed none x f s s' b e = ground arith
  or_raise-passed (some a) x f s s' b e = (a, e)
