-- ===== src/Exec/Keeps.antt =====
-- Properties of the state that an action keeps, one rule for each way to build an action.
use hub_meta_conversion_serv.Base.{Bool, true, false, Option, none, some, if◌then◌else◌}
use hub_meta_conversion_serv.Exec.{
  Result, ok, err, Exec, pure, raise, gets, or_raise, ◌>>=◌, continue, handle, catch,
}

-- `m` keeps `P`, whether it returns or raises.
pub record Keeps {ℓ} {S E A : Type 0} (P : S → Type ℓ) (m : Exec S E A) : Type ℓ where
  pub at : (s : S) → P s → P (m s).1

module _ {ℓ} {S E A : Type 0} {P : S → Type ℓ} where
  pub Keeps-pure : (a : A) → Keeps {E = E} P (pure a)
  unfolding pure
  Keeps-pure a = record { at = λ s h. h }

  pub Keeps-raise : (e : E) → Keeps {A = A} P (raise e)
  unfolding raise
  Keeps-raise e = record { at = λ s h. h }

  pub Keeps-gets : (f : S → A) → Keeps {E = E} P (gets f)
  unfolding gets
  Keeps-gets f = record { at = λ s h. h }

  pub Keeps-or_raise : (o : Option A) (e : E) → Keeps P (or_raise o e)
  unfolding or_raise
  Keeps-or_raise none e = record { at = λ s h. h }
  Keeps-or_raise (some a) e = record { at = λ s h. h }

  pub Keeps-if :
      (b : Bool) (m n : Exec S E A) → Keeps P m → Keeps P n → Keeps P (if b then m else n)
  Keeps-if true m n km kn = km
  Keeps-if false m n km kn = kn

  pub Keeps-handle :
      (r : Result E A) (h : E → Exec S E A) → ((e : E) → Keeps P (h e)) → Keeps P (handle r h)
  Keeps-handle (ok a) h k = record { at = λ s p. p }
  Keeps-handle (err e) h k = record { at = λ s p. (k e).at s p }

  pub Keeps-catch :
      (m : Exec S E A) (h : E → Exec S E A)
      → Keeps P m
      → ((e : E) → Keeps P (h e))
      → Keeps P (catch m h)
  unfolding catch
  Keeps-catch m h km kh = record { at = λ s p. (Keeps-handle (m s).0 h kh).at (m s).1 (km.at s p) }

module _ {ℓ} {S E A B : Type 0} {P : S → Type ℓ} where
  pub Keeps-continue :
      (r : Result E A) (f : A → Exec S E B) → ((a : A) → Keeps P (f a)) → Keeps P (continue r f)
  Keeps-continue (ok a) f k = record { at = λ s p. (k a).at s p }
  Keeps-continue (err e) f k = record { at = λ s p. p }

  pub Keeps-bind :
      (m : Exec S E A) (f : A → Exec S E B)
      → Keeps P m
      → ((a : A) → Keeps P (f a))
      → Keeps P (m >>= f)
  unfolding ◌>>=◌
  Keeps-bind m f km kf = record { at = λ s p. (Keeps-continue (m s).0 f kf).at (m s).1 (km.at s p) }

pub ruleset keeps_rules =
    (Keeps-pure, Keeps-raise, Keeps-gets, Keeps-or_raise, Keeps-bind, Keeps-catch)
