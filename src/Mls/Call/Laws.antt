-- ===== src/Mls/Call/Laws.antt =====
-- svalin_pki/src/mls: a call after a call.
use svalin.Prelude.{◌≡◌, ◌↔◌, refl}
use svalin.Prelude.Result.{Result, ok, err, panicked}
use svalin.Mls.Call.{MlsError, Call, resume, given}

-- The second call runs where the first ends.
pub resume_iff {ℓ} :
    {S : Type ℓ} {A B : Type 0} (f : A → Call S B) (r : Result MlsError A) (s : S) (b : B)
    → ((resume f r s).0 ≡ ok b) ↔ ((a : A) × (r ≡ ok a) × ((f a s).0 ≡ ok b))
unfolding resume
resume_iff f (ok a) s b = (λ h. (a, refl, h), λ h. let same : a ≡ h.0 = cc (h.1) in rw same h.2)
resume_iff f (err e) s b = (λ h. absurd (cc), λ h. absurd (cc h.1))
resume_iff f panicked s b = (λ h. absurd (cc), λ h. absurd (cc h.1))

pub resume-ok {ℓ} :
    {S : Type ℓ} {A B : Type 0} (f : A → Call S B) (r : Result MlsError A) (s : S) (a : A)
    → r ≡ ok a
    → resume f r s ≡ f a s
unfolding resume
resume-ok f r s a e = rw e refl

pub resume-given {ℓ} :
    {S : Type ℓ} {A B : Type 0} (f : A → Result MlsError B) (r : Result MlsError A) (s : S)
    → (resume (λ a. given (f a)) r s).1 ≡ s
unfolding resume
resume-given f (ok a) s = refl
resume-given f (err e) s = refl
resume-given f panicked s = refl

-- Calls that keep to a relation between the state before and after.
module _ {ℓ κ} {S : Type ℓ} (R : S → S → Type κ) (R-trans : (s t u : S) → R s t → R t u → R s u)
    (R-refl : (s : S) → R s s) where
  abbrev pub Keeps : {A : Type 0} → Call S A → Type (ℓ ⊔ κ)
  Keeps m = (s : S) → R s (m s).1

  pub resume-Keeps :
      {A B : Type 0} (f : A → Call S B) (r : Result MlsError A) (s t : S)
      → R s t
      → ((a : A) → Keeps (f a))
      → R s (resume f r t).1
  unfolding resume
  resume-Keeps f (ok a) s t h k = R-trans s t _ h (k a t)
  resume-Keeps f (err e) s t h k = h
  resume-Keeps f panicked s t h k = h

-- What holds of the state where the first call ends, and of that where the second does, holds at the
-- end.
module _ {ℓ} {S : Type 0} {A B : Type 0} (Q : S → Type ℓ) where
  pub resume-leaves :
      (f : A → Call S B) (r : Result MlsError A) (t : S)
      → Q t
      → ((a : A) → r ≡ ok a → Q (f a t).1)
      → Q (resume f r t).1
  unfolding resume
  resume-leaves f (ok a) t h k = k a refl
  resume-leaves f (err e) t h k = h
  resume-leaves f panicked t h k = h

-- By the result of the first call
module _ {ℓ κ} {S : Type ℓ} {A B : Type 0} (Q : Result MlsError B × S → Type κ) where
  pub resume-cases :
      (f : A → Call S B) (r : Result MlsError A) (t : S)
      → ((e : MlsError) → r ≡ err e → Q (err e, t))
      → (r ≡ panicked → Q (panicked, t))
      → ((a : A) → r ≡ ok a → Q (f a t))
      → Q (resume f r t)
  unfolding resume
  resume-cases f (ok a) t failed broken k = k a refl
  resume-cases f (err e) t failed broken k = failed e refl
  resume-cases f panicked t failed broken k = broken refl
