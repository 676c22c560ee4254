-- ===== src/Outcome.antt =====
-- How a call of the program ends: with a value, with an `Err`, or with a panic. `hang` is the
-- model's own: a loop has used up the rounds that it was given.
use bewallet.Common.{◌≡◌, ◌≢◌, refl, Option, none, some, Bool, true, false, List, [], ◌∷◌}
use bewallet.Error.{Error}

pub data Outcome {ℓ} (A : Type ℓ) : Type ℓ where
  ok : A → Outcome A
  err : Error → Outcome A
  panic hang : Outcome A

-- `m?` and what follows it.
abbrev pub ◌>>=◌ {ℓ κ} : {X : Type ℓ} {Y : Type κ} → Outcome X → (X → Outcome Y) → Outcome Y
hang >>= next = hang
panic >>= next = panic
err c >>= next = err c
ok x >>= next = next x

abbrev pub ◌>>◌ {ℓ} : {Y : Type ℓ} → Outcome (Unit {0}) → Outcome Y → Outcome Y
first >> second = first >>= λ _. second

infixl 5 ◌>>=◌ ◌>>◌
-- `if test { return Err(e) }`
abbrev pub fail_if : Bool → Error → Outcome (Unit {0})
fail_if false e = ok tt
fail_if true e = err e

-- `assert!(test)`
abbrev pub assert : Bool → Outcome (Unit {0})
assert true = ok tt
assert false = panic

-- `Option::ok_or`
abbrev pub ok_or {ℓ} : {A : Type ℓ} → Option A → Error → Outcome A
ok_or none e = err e
ok_or (some a) e = ok a

-- `Option::unwrap`, and indexing of a vector by a read that may miss
abbrev pub unwrap {ℓ} : {A : Type ℓ} → Option A → Outcome A
unwrap none = panic
unwrap (some a) = ok a

-- `Result::map_err(|_| e)`
abbrev pub map_err {ℓ} : {A : Type ℓ} → Outcome A → Error → Outcome A
map_err (ok a) e = ok a
map_err (err _) e = err e
map_err panic e = panic
map_err hang e = hang

-- Inversion of a successful bind, for proofs where the parts stay shut.
pub >>=-eq-ok {ℓ κ} :
    {X : Type ℓ} {Y : Type κ} (call : Outcome X) (next : X → Outcome Y) {y : Y}
    → (call >>= next) ≡ ok y
    → (x : X) × (call ≡ ok x) × (next x ≡ ok y)
>>=-eq-ok hang next run = cc
>>=-eq-ok panic next run = cc
>>=-eq-ok (err c) next run = cc
>>=-eq-ok (ok x) next run = (x, refl, run)

pub ok_inj {ℓ} : {A : Type ℓ} {a b : A} → ok a ≡ ok b → a ≡ b
ok_inj e = cc

-- A fallible step on each element of a list, left to right.
abbrev pub traverse {ℓ κ} : {A : Type ℓ} {B : Type κ} → (A → Outcome B) → List A → Outcome (List B)
traverse f [] = ok []
traverse f (x ∷ xs) = do y ← f x; ys ← traverse f xs; ok (y ∷ ys)

pub traverse-cons {ℓ κ} :
    {A : Type ℓ} {B : Type κ} (f : A → Outcome B) (x : A) (xs : List A) {zs : List B}
    → traverse f (x ∷ xs) ≡ ok zs
    → (y : B) × (ys : List B) × (f x ≡ ok y) × (traverse f xs ≡ ok ys) × (zs ≡ y ∷ ys)
traverse-cons f x xs h =
    let (y, fy, rest) = >>=-eq-ok (f x) (λ z. traverse f xs >>= λ ys. ok (z ∷ ys)) h in
    let (ys, fys, e) = >>=-eq-ok (traverse f xs) (λ zs. ok (y ∷ zs)) rest in (y, ys, fy, fys, cc)

-- A call that comes back, followed by one that does.
pub >>=-ne-hang :
    {A B : Type 0} (m : Outcome A) (f : A → Outcome B)
    → m ≢ hang
    → ((a : A) → f a ≢ hang)
    → (m >>= f) ≢ hang
>>=-ne-hang (ok a) f h k = k a
>>=-ne-hang (err e) f h k = λ q. cc
>>=-ne-hang panic f h k = λ q. cc
>>=-ne-hang hang f h k = λ q. h refl
