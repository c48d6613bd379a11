-- ===== src/Prelude/Results.antt =====
-- A Python call that returns or raises, and the chains of such calls.
use mathlib.Core.Path.{◌≡◌, refl}
use mathlib.Core.Logic.{◌⊎◌, inl, inr}
use native.Mathlib.Omega.{arith}
use mathlib.Core.Bool.{Bool, true, false}

pub data Result {ℓ} (E : Type 0) (A : Type ℓ) : Type ℓ where
  ok : A → Result E A
  raise : E → Result E A

-- `if bad: raise e`
abbrev pub raise_if : {E : Type 0} → Bool → E → Result E (Unit {0})
raise_if true e = raise e
raise_if false e = ok tt

infixl 5 ◌>>=◌
abbrev pub ◌>>=◌ {i j} :
    {E : Type 0} {X : Type i} {Y : Type j} → Result E X → (X → Result E Y) → Result E Y
raise e >>= next = raise e
ok x >>= next = next x

infixl 5 ◌>>◌
abbrev pub ◌>>◌ {j} : {E : Type 0} {Y : Type j} → Result E (Unit {0}) → Result E Y → Result E Y
check >> rest = check >>= λ _. rest

-- A chain that returned: its first call did, and the rest on its result.
pub >>=-eq-ok {i j} :
    {E : Type 0} {X : Type i} {Y : Type j} (first : Result E X) (next : X → Result E Y) {y : Y}
    → (first >>= next) ≡ ok y
    → (x : X) × (first ≡ ok x) × (next x ≡ ok y)
>>=-eq-ok (raise e) next q = cc
>>=-eq-ok (ok x) next q = (x, refl, q)

pub ok-injective {ℓ} :
    {E : Type 0} {A : Type ℓ} {a b : A} → ◌≡◌ {A = Result E A} (ok a) (ok b) → a ≡ b
ok-injective h = cc

-- A chain whose first call returned.
pub >>=-ok {i j} :
    {E : Type 0} {X : Type i} {Y : Type j} {first : Result E X} (next : X → Result E Y) {x : X}
    → first ≡ ok x
    → (first >>= next) ≡ next x
>>=-ok next e = rw e refl

-- A chain that raised: its first call did, or the rest on its result.
pub >>=-eq-raise {i j} :
    {E : Type 0} {X : Type i} {Y : Type j} (first : Result E X) (next : X → Result E Y) {e : E}
    → (first >>= next) ≡ raise e
    → (first ≡ raise e) ⊎ ((x : X) × (first ≡ ok x) × (next x ≡ raise e))
>>=-eq-raise (raise a) next q = inl (ground (arith, q))
>>=-eq-raise (ok x) next q = inr (x, refl, q)

-- A check that passed.
pub raise_if-eq-ok {j} :
    {E : Type 0} {Y : Type j} (b : Bool) (e : E) (rest : Result E Y) {y : Y}
    → (raise_if b e >> rest) ≡ ok y
    → (b ≡ false) × (rest ≡ ok y)
raise_if-eq-ok true e rest q = cc
raise_if-eq-ok false e rest q = (refl, q)

pub Result-cases {ℓ} :
    {E : Type 0} {A : Type ℓ} (r : Result E A) → ((a : A) × (r ≡ ok a)) ⊎ ((e : E) × (r ≡ raise e))
Result-cases (ok a) = inl (a, refl)
Result-cases (Result.raise e) = inr (e, refl)
