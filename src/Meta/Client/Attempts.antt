-- ===== src/Meta/Client/Attempts.antt =====
-- Attempts that end in exceptions which are retried (tenacity in app/integrations/meta/client.py).
use hub_meta_conversion_serv.Base.{
  ℕ, zero, suc, ◌≤◌, ◌≡◌, refl, sym, ap, ◌∙◌, arith, true, Bool-cases, inl, inr, if◌then◌else◌,
}
use hub_meta_conversion_serv.Exec.{Result, ok, err, Exec, catch, handle, raise}
use hub_meta_conversion_serv.Meta.Adapter.{Raised}
use hub_meta_conversion_serv.Meta.Client.{attempts, is_retried}

-- From a state, that many attempts end in exceptions that are retried, and the next one returns.
pub data Recovers {R A : Type 0} (m : Exec R Raised A) (a : A) (s' : R) : ℕ → R → Type 0 where
  now : (s : R) → m s ≡ (ok a, s') → Recovers m a s' 0 s
  later :
      (n : ℕ) (s between : R) (e : Raised)
      → m s ≡ (err e, between)
      → is_retried e ≡ true
      → Recovers m a s' n between
      → Recovers m a s' (suc n) s

module _ {R A : Type 0} (m : Exec R Raised A) (a : A) (s' : R) where
  attempt-again :
      (n : ℕ) (s between : R) (e : Raised)
      → m s ≡ (err e, between)
      → is_retried e ≡ true
      → attempts (suc n) is_retried m s ≡ attempts n is_retried m between
  unfolding attempts catch
  attempt-again n s between e failed retried = rw (failed, retried) refl

  attempt-returns : (n : ℕ) (s : R) → m s ≡ (ok a, s') → attempts n is_retried m s ≡ (ok a, s')
  unfolding attempts catch
  attempt-returns zero s e = e
  attempt-returns (suc n) s e = rw e refl

  pub recovered :
      (n k : ℕ) (s : R) → k ≤ n → Recovers m a s' k s → attempts n is_retried m s ≡ (ok a, s')
  recovered n k s le (now u e) = attempt-returns n s e
  recovered zero k s le (later i u between e failed retried rest) = absurd (omega arith)
  recovered (suc n) k s le (later i u between e failed retried rest) =
      attempt-again n s between e failed retried ∙ recovered n i between (omega arith) rest

  abbrev pub Within : ℕ → R → Type 0
  Within n s = (k : ℕ) × (k ≤ n) × Recovers m a s' k s

  pub recovers : (n : ℕ) (s : R) → attempts n is_retried m s ≡ (ok a, s') → Within n s
  unfolding attempts catch raise
  recovers zero s e = (0, omega arith, now s e)
  recovers (suc n) s e = first (m s).0 (m s).1 refl e (λ p. recovers n (m s).1 p)
    where
      first :
          (r : Result Raised A) (between : R)
          → m s ≡ (r, between)
          → handle r (λ x. if is_retried x then attempts n is_retried m else raise x) between
            ≡ (ok a, s')
          → (attempts n is_retried m between ≡ (ok a, s') → Within n between)
          → Within (suc n) s
      first (ok b) between q p more = (0, omega arith, now s (q ∙ p))
      first (err x) between q p more = elim (Bool-cases (is_retried x)) [
        | inl retried ↦
            let (k, le, rest) = more (
              ap (λ b. (if b then attempts n is_retried m else raise x) between) (sym retried)
              ∙ p) in
            (suc k, omega arith, later k s between x q retried rest)
        | inr refused ↦ absurd (ground (arith, refused, p))
      ]
