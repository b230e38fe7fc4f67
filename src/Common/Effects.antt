-- ===== src/Common/Effects.antt =====
-- Rust's control effects as values. `ret` is a normal return, `panic` a panic (an index out of
-- bounds, `unwrap` of a `None`, `unreachable!`), and `spins` a loop that used up its fuel.
use mathlib.Core.Path.{◌≡◌, refl, subst}
use mathlib.Core.Logic.{◌⊎◌, inl, inr}
use mathlib.Core.Option.{Option, none, some}
use Prim.Native.Nat.{ℕ}
use mathlib.Core.List.{List}
use lora_rs.Common.Lists.{length, get_elem?, set}
use lora_rs.Common.Tests.{ltb, if◌then◌else◌}

pub data Exec {ℓ} (A : Type ℓ) : Type ℓ where
  ret : A → Exec A
  panic : Exec A
  spins : Exec A

infixl 5 ◌>>=◌ ◌>>◌
abbrev pub ◌>>=◌ {ℓ κ} : {A : Type ℓ} {B : Type κ} → Exec A → (A → Exec B) → Exec B
ret a >>= f = f a
panic >>= f = panic
spins >>= f = spins

abbrev pub ◌>>◌ {ℓ κ} : {A : Type ℓ} {B : Type κ} → Exec A → Exec B → Exec B
m >> k = m >>= λ _. k

-- `Option::unwrap`.
abbrev pub unwrap {ℓ} : {A : Type ℓ} → Option A → Exec A
unwrap none = panic
unwrap (some a) = ret a

-- Rust's `Result`.
pub data Result {ℓ κ} (A : Type ℓ) (E : Type κ) : Type (ℓ ⊔ κ) where
  ok : A → Result A E
  err : E → Result A E

pub Result-cases {ℓ κ} :
    {A : Type ℓ} {E : Type κ} (r : Result A E) → ((a : A) × (r ≡ ok a)) ⊎ ((e : E) × (r ≡ err e))
Result-cases (ok a) = inl (a, refl)
Result-cases (err e) = inr (e, refl)

pub ok-eq {ℓ κ} : {A : Type ℓ} {E : Type κ} {a b : A} → ◌≡◌ {A = Result A E} (ok a) (ok b) → a ≡ b
ok-eq h = cc

pub ret-eq {ℓ} : {A : Type ℓ} {a b : A} → ret a ≡ ret b → a ≡ b
ret-eq h = cc

-- Inversion of a bind that returns.
pub >>=-eq-ret {ℓ κ} :
    {A : Type ℓ} {B : Type κ} (m : Exec A) (f : A → Exec B) {b : B}
    → (m >>= f) ≡ ret b
    → (a : A) × (m ≡ ret a) × (f a ≡ ret b)
>>=-eq-ret (ret a) f h = (a, refl, h)
>>=-eq-ret panic f h = cc
>>=-eq-ret spins f h = cc

-- A computation that returns: it neither panics nor runs on.
abbrev pub Returns {ℓ} : {A : Type ℓ} → Exec A → Type ℓ
Returns {A = A} m = (a : A) × (m ≡ ret a)

pub >>=-Returns {ℓ κ} :
    {A : Type ℓ} {B : Type κ} (m : Exec A) (f : A → Exec B)
    → Returns m
    → ((a : A) → m ≡ ret a → Returns (f a))
    → Returns (m >>= f)
>>=-Returns m f (a, e) k = rw e (k a e)

-- Whatever a computation returns has a property.
abbrev pub Ensures {ℓ κ} : {A : Type ℓ} → Exec A → (A → Type κ) → Type (ℓ ⊔ κ)
Ensures {A = A} m P = (a : A) → m ≡ ret a → P a

pub >>=-Ensures {ℓ κ μ} :
    {A : Type ℓ} {B : Type κ} (m : Exec A) (f : A → Exec B) (P : B → Type μ)
    → ((a : A) → m ≡ ret a → Ensures (f a) P)
    → Ensures (m >>= f) P
>>=-Ensures (ret a) f P k b h = k a refl b h
>>=-Ensures panic f P k b h = cc
>>=-Ensures spins f P k b h = cc

pub ret-Ensures {ℓ κ} : {A : Type ℓ} (a : A) (P : A → Type κ) → P a → Ensures (ret a) P
ret-Ensures a P p b h = subst P (ret-eq h) p

-- `v[i]` and `v[i] = a`, which panic out of bounds.
abbrev pub index {ℓ} : {A : Type ℓ} → List A → ℕ → Exec A
index v i = unwrap (get_elem? v i)

abbrev pub index_set {ℓ} : {A : Type ℓ} → List A → ℕ → A → Exec (List A)
index_set v i a = if ltb i (length v) then ret (set v i a) else panic
