-- ===== src/Prelude/Result.antt =====
-- What a Rust call gives back: `Ok`, `Err`, or a panic (`unwrap`, `expect`, `panic!`).
use mathlib.Core.Path.{◌≡◌, refl}
use mathlib.Core.Logic.{◌⊎◌, ◌↔◌, inl, inr}
use mathlib.Core.Option.{Option, none, some}
use mathlib.Core.Bool.{Bool, true, false}

pub data Result {ℓ κ} (E : Type ℓ) (A : Type κ) : Type (ℓ ⊔ κ) where
  ok : A → Result E A
  err : E → Result E A
  panicked : Result E A

-- The value of a call that returns `()`.
abbrev pub Done : Type 0
Done = Unit {0}

infixl 5 ◌>>=◌ ◌>>◌
abbrev pub ◌>>=◌ {ℓ κ ι} :
    {E : Type ℓ} {A : Type κ} {B : Type ι} → Result E A → (A → Result E B) → Result E B
ok a >>= f = f a
err e >>= f = err e
panicked >>= f = panicked

abbrev pub ◌>>◌ {ℓ κ} : {E : Type ℓ} {B : Type κ} → Result E (Done) → Result E B → Result E B
m >> k = m >>= λ _. k

-- `if b { return Err(e) }`
abbrev pub fail_if {ℓ} : {E : Type ℓ} → Bool → E → Result E (Done)
fail_if true e = err e
fail_if false e = ok tt

-- `Option::ok_or`
abbrev pub ok_or {ℓ κ} : {E : Type ℓ} {A : Type κ} → Option A → E → Result E A
ok_or none e = err e
ok_or (some a) e = ok a

-- `Result::map_err`, and the conversion that `?` makes
abbrev pub map_err {ℓ κ ι} :
    {E : Type ℓ} {F : Type κ} {A : Type ι} → (E → F) → Result E A → Result F A
map_err f (ok a) = ok a
map_err f (err e) = err (f e)
map_err f panicked = panicked

-- `is_ok`
abbrev pub is_ok {ℓ κ} : {E : Type ℓ} {A : Type κ} → Result E A → Bool
is_ok (ok a) = true
is_ok (err e) = false
is_ok panicked = false

pub Result-cases {ℓ κ} :
    {E : Type ℓ} {A : Type κ} (r : Result E A)
    → ((a : A) × (r ≡ ok a)) ⊎ ((e : E) × (r ≡ err e)) ⊎ (r ≡ panicked)
Result-cases (ok a) = inl (a, refl)
Result-cases (err e) = inr (inl (e, refl))
Result-cases panicked = inr (inr refl)

pub ok_or_iff {ℓ κ} :
    {E : Type ℓ} {A : Type κ} (o : Option A) (e : E) (a : A) → (ok_or o e ≡ ok a) ↔ (o ≡ some a)
ok_or_iff none e a = (λ h. absurd (cc), λ h. absurd (cc))
ok_or_iff (some b) e a = (λ h. cc, λ h. cc)

pub fail_if_iff {ℓ} : {E : Type ℓ} (b : Bool) (e : E) → (fail_if b e ≡ ok tt) ↔ (b ≡ false)
fail_if_iff true e = (λ h. absurd (cc), λ h. absurd (cc))
fail_if_iff false e = (λ h. refl, λ h. refl)

-- What a chain of two calls gives back was given by both.
pub bind_iff {ℓ κ ι} :
    {E : Type ℓ} {A : Type κ} {B : Type ι} (r : Result E A) (f : A → Result E B) (b : B)
    → ((r >>= f) ≡ ok b) ↔ ((a : A) × (r ≡ ok a) × (f a ≡ ok b))
bind_iff (ok a) f b = (λ h. (a, refl, h), λ h. let same : a ≡ h.0 = cc (h.1) in rw same h.2)
bind_iff (err e) f b = (λ h. absurd (cc), λ h. absurd (cc h.1))
bind_iff panicked f b = (λ h. absurd (cc), λ h. absurd (cc h.1))

pub map_err_iff {ℓ κ ι} :
    {E : Type ℓ} {F : Type κ} {A : Type ι} (f : E → F) (r : Result E A) (a : A)
    → (map_err f r ≡ ok a) ↔ (r ≡ ok a)
map_err_iff f (ok b) a = (λ h. cc, λ h. cc)
map_err_iff f (err e) a = (λ h. absurd (cc), λ h. absurd (cc))
map_err_iff f panicked a = (λ h. absurd (cc), λ h. absurd (cc))
