-- ===== src/Common/Result.antt =====
-- Fallible computations, and those that run inside a database transaction. An error drops the new
-- state, as an uncommitted transaction is rolled back when the code returns early by `?`.
use chain_rail.Base.{Bool, true, false, ◌≡◌, refl, Option, none, some, ◌⊎◌, inl, inr}
use chain_rail.Common.Error.{Error}

pub data Result {ℓ} (A : Type ℓ) : Type ℓ where
  ok : A → Result A
  err : Error → Result A

abbrev pub and_then {ℓ κ} : {A : Type ℓ} {B : Type κ} → Result A → (A → Result B) → Result B
and_then (ok a) f = f a
and_then (err e) f = err e

-- `Option::ok_or`
abbrev pub ok_or {ℓ} : {A : Type ℓ} → Option A → Error → Result A
ok_or none e = err e
ok_or (some a) e = ok a

-- A computation in a transaction over the tables `S`.
abbrev pub M : Type 0 → Type 0 → Type 0
M S A = S → Result (A × S)

infixl 5 ◌>>=◌ ◌>>◌
abbrev pub ◌>>=◌ : {S A B : Type 0} → M S A → (A → M S B) → M S B
◌>>=◌ m f s = elim (m s) [ ok (a, s') ↦ f a s' | err e ↦ err e ]

abbrev pub ◌>>◌ : {S B : Type 0} → M S (Unit {0}) → M S B → M S B
m >> k = m >>= λ _. k

abbrev pub pure : {S A : Type 0} → A → M S A
pure a s = ok (a, s)

abbrev pub throw : {S A : Type 0} → Error → M S A
throw e s = err e

abbrev pub lift : {S A : Type 0} → Result A → M S A
lift (ok a) s = ok (a, s)
lift (err e) s = err e

abbrev pub gets : {S A : Type 0} → (S → A) → M S A
gets f s = ok (f s, s)

abbrev pub modify : {S : Type 0} → (S → S) → M S (Unit {0})
modify f s = ok (tt, f s)

-- An early return with an error, unless the test holds.
abbrev pub guard : {S : Type 0} → Bool → Error → M S (Unit {0})
guard true e s = ok (tt, s)
guard false e s = err e

pub Result-cases {ℓ} :
    {A : Type ℓ} (r : Result A) → ((a : A) × (r ≡ ok a)) ⊎ ((e : Error) × (r ≡ err e))
Result-cases (ok a) = inl (a, refl)
Result-cases (err e) = inr (e, refl)

-- A successful sequence is two successful parts.
pub >>=-eq-ok :
    {S A B : Type 0} (m : M S A) (f : A → M S B) (s : S) {b : B} {s'' : S}
    → (m >>= f) s ≡ ok (b, s'')
    → (a : A) × (s' : S) × (m s ≡ ok (a, s')) × (f a s' ≡ ok (b, s''))
>>=-eq-ok {S} {A} {B} m f s {b} {s''} h = go (m s) refl h
  where
    go :
        (r : Result (A × S))
        → m s ≡ r
        → ◌≡◌ {A = Result (B × S)} (elim r [ ok (a, s') ↦ f a s' | err e ↦ err e ]) (ok (b, s''))
        → (a : A) × (s' : S) × (m s ≡ ok (a, s')) × (f a s' ≡ ok (b, s''))
    go (ok (a, s')) e k = (a, s', e, k)
    go (err e) p k = cc

pub >>=-ok :
    {S A B : Type 0} (m : M S A) (f : A → M S B) (s : S) (a : A) (s' : S)
    → m s ≡ ok (a, s')
    → (m >>= f) s ≡ f a s'
>>=-ok m f s a s' h = rw (◌>>=◌, h) refl

pub >>=-err :
    {S A B : Type 0} (m : M S A) (f : A → M S B) (s : S) (e : Error)
    → m s ≡ err e
    → (m >>= f) s ≡ err e
>>=-err m f s e h = rw (◌>>=◌, h) refl
