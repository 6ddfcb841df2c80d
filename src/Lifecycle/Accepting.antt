-- ===== src/Lifecycle/Accepting.antt =====
-- What an accepted command ensures, carried through the chain of its guards.
use parallelplay.Prelude.{◌≡◌, refl, String}
use parallelplay.Decide.{Result, ok, failure, thrown, ◌>>=◌, ◌>>◌, DomainErrorCode}

module _ {ℓ} {A : Type ℓ} where
  -- A value holds a property, if it is a value.
  unfoldable pub Ensures : (A → Type 0) → Result A → Type 0
  Ensures P (ok a) = P a
  Ensures P (failure c m) = Unit
  Ensures P (thrown m) = Unit

  pub Ensures-ok : (P : A → Type 0) (a : A) → P a → Ensures P (ok a)
  unfolding Ensures
  Ensures-ok P a h = h

  pub Ensures-failure :
      (P : A → Type 0) (c : DomainErrorCode) (m : String) → Ensures P (failure c m)
  unfolding Ensures
  Ensures-failure P c m = tt

  pub Ensures-inv : (P : A → Type 0) (m : Result A) (a : A) → Ensures P m → m ≡ ok a → P a
  unfolding Ensures
  Ensures-inv P m a h e = rw e at h

  pub Ensures-elim : {P : A → Type 0} (m : Result A) → ((a : A) → m ≡ ok a → P a) → Ensures P m
  unfolding Ensures
  Ensures-elim (ok a) h = h a refl
  Ensures-elim (failure c m) h = tt
  Ensures-elim (thrown m) h = tt

  pub Ensures->>= {κ} :
      {B : Type κ} (P : A → Type 0) (m : Result B) (f : B → Result A)
      → ((b : B) → m ≡ ok b → Ensures P (f b))
      → Ensures P (m >>= f)
  unfolding Ensures
  Ensures->>= P (ok b) f h = h b refl
  Ensures->>= P (failure c m) f h = tt
  Ensures->>= P (thrown m) f h = tt

  pub Ensures->> :
      (P : A → Type 0) (m : Result (Unit {0})) (k : Result A) → Ensures P k → Ensures P (m >> k)
  unfolding Ensures
  Ensures->> P (ok tt) k h = h
  Ensures->> P (failure c m) k h = tt
  Ensures->> P (thrown m) k h = tt
