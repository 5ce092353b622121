-- ===== src/Base/Raises.antt =====
-- Python's exceptions as values: a computation returns or raises.
use Prim.Native.Nat.{ℕ}
use mathlib.Core.Path.{◌≡◌, refl}
use mathlib.Core.Logic.{◌⊎◌, ◌↔◌, inl, inr}
use mathlib.Core.Bool.{Bool, true, false}
use url_crawler.Base.Tests.{Text}

-- The classes of exception that the modelled code tells apart. `unexpected` is any other `Exception`.
pub data Exn : Type 0 where
  value_error : Text → Exn
  seed_error : Text → ℕ → Exn
  broken_pipe : Exn
  unexpected : Text → Exn

pub data Result {ℓ} (A : Type ℓ) : Type ℓ where
  ok : A → Result A
  raise : Exn → Result A

infixl 5 ◌>>=◌
abbrev pub ◌>>=◌ {ℓ κ} : {A : Type ℓ} {B : Type κ} → Result A → (A → Result B) → Result B
ok a >>= f = f a
raise e >>= f = raise e

pub Result-cases {ℓ} :
    {A : Type ℓ} (r : Result A) → ((a : A) × (r ≡ ok a)) ⊎ ((e : Exn) × (r ≡ raise e))
Result-cases (ok a) = inl (a, refl)
Result-cases (raise e) = inr (e, refl)

infixl 5 ◌>>◌
abbrev pub ◌>>◌ {ℓ} : {A : Type ℓ} → Result (Unit {0}) → Result A → Result A
m >> k = m >>= λ _. k

-- `if refused: raise e`.
abbrev pub check : Bool → Exn → Result (Unit {0})
check true e = raise e
check false e = ok tt

-- A chain of checks returns the value exactly when `P` holds, and raises otherwise.
abbrev pub Decided {ℓ} : {A : Type ℓ} → Type 0 → Result A → A → Type ℓ
Decided P r a = ((r ≡ ok a) × P) ⊎ ((e : Exn) × (r ≡ raise e) × (¬ P))

pub check-Decided {ℓ} :
    {A : Type ℓ} {P Q : Type 0} (b : Bool) (x : Exn) (k : Result A) (a : A)
    → (b ≡ false) ↔ Q
    → Decided P k a
    → Decided (Q × P) (check b x >> k) a
check-Decided false x k a q (inl (e, p)) = inl (e, (q.0 refl, p))
check-Decided false x k a q (inr (y, e, n)) = inr (y, e, (λ h. n h.1))
check-Decided true x k a q d = inr (x, refl, (λ h. cc (q.1 h.0)))

-- What is returned satisfies `P`.
abbrev pub Returns {ℓ κ} : {A : Type ℓ} → (A → Type κ) → Result A → Type κ
Returns P (ok a) = P a
Returns P (raise e) = Unit

pub >>=-Returns {ℓ κ μ} :
    {A : Type ℓ} {B : Type κ} (P : B → Type μ) (m : Result A) (f : A → Result B)
    → ((a : A) → Returns P (f a))
    → Returns P (m >>= f)
>>=-Returns P (ok a) f h = h a
>>=-Returns P (raise e) f h = tt

pub Returns-imp {ℓ κ μ} :
    {A : Type ℓ} (P : A → Type κ) (Q : A → Type μ) (r : Result A)
    → ((a : A) → P a → Q a)
    → Returns P r
    → Returns Q r
Returns-imp P Q (ok a) f h = f a h
Returns-imp P Q (raise e) f h = tt
