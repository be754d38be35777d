-- ===== src/Prelude/Result.antt =====
-- `Result<A, E>` of Rust, with `?` as the bind of a `do` block.
use mathlib.Core.Path.{◌≡◌, refl}
use mathlib.Core.Bool.{Bool, true, false}
use mathlib.Core.Option.{Option, none, some}

pub data Result (E A : Type 0) : Type 0 where
  ok : A → Result E A
  err : E → Result E A

infixl 5 ◌>>=◌ ◌>>◌
abbrev pub ◌>>=◌ : {E A B : Type 0} → Result E A → (A → Result E B) → Result E B
err refusal >>= next = err refusal
ok value >>= next = next value

abbrev pub ◌>>◌ : {E B : Type 0} → Result E (Unit {0}) → Result E B → Result E B
check >> rest = check >>= λ done. rest

-- `if bad { return Err(e) }`
abbrev pub refuse_if : {E : Type 0} → Bool → E → Result E (Unit {0})
refuse_if true e = err e
refuse_if false e = ok tt

-- `ok_or`
abbrev pub ok_or : {E A : Type 0} → Option A → E → Result E A
ok_or none e = err e
ok_or (some a) e = ok a

-- `map_err`
abbrev pub map_err : {E F A : Type 0} → (E → F) → Result E A → Result F A
map_err f (ok a) = ok a
map_err f (err e) = err (f e)

-- What `m?` has handed on in a run that ends well.
pub >>=-eq-ok :
    {E A B : Type 0} (first : Result E A) (next : A → Result E B) {b : B}
    → (first >>= next) ≡ ok b
    → (a : A) × (first ≡ ok a) × (next a ≡ ok b)
>>=-eq-ok (err refusal) next run = cc
>>=-eq-ok (ok a) next run = (a, refl, run)

-- Inversion of a guard that did not refuse.
pub >>-eq-ok :
    {E B : Type 0} (c : Bool) (e : E) (m : Result E B) {b : B}
    → (refuse_if c e >> m) ≡ ok b
    → (c ≡ false) × (m ≡ ok b)
>>-eq-ok true e m h = cc
>>-eq-ok false e m h = (refl, h)

-- A result is a value or an error.
pub data Outcome {E A : Type 0} (m : Result E A) : Type 0 where
  value : (a : A) → m ≡ ok a → Outcome m
  error : (e : E) → m ≡ err e → Outcome m

pub outcome : {E A : Type 0} (m : Result E A) → Outcome m
outcome (ok a) = value a refl
outcome (err e) = error e refl

pub map_err-eq-ok :
    {E F A : Type 0} (f : E → F) (m : Result E A) {a : A} → map_err f m ≡ ok a → m ≡ ok a
map_err-eq-ok f (ok a) h = cc
map_err-eq-ok f (err e) h = cc

pub ok_eq : {E A : Type 0} {a b : A} → (let m : Result E A = ok a in m ≡ ok b) → a ≡ b
ok_eq h = cc
