-- ===== src/Effects.antt =====
-- What an asynchronous method of the services does: it reads and changes a state, and returns or
-- throws. A throw keeps the changes made before it.
pub mod Keeps
use microsanbox_cloud.Prelude.{ℕ, ◌≡◌, refl, Bool, true, false, Option, none, some, Text}

-- The exceptions, one constructor for each place that throws, with the texts that go into the
-- message. `backend` is an error of the sandbox backend, with its message.
pub data Error : Type 0 where
  sandbox_id_required no_free_ports constraint volume_name_required : Error
  sandbox_name_exists sandbox_not_found not_running volume_name_exists volume_not_found :
      Text → Error
  subpath_unsupported image_required no_port_binding : Error
  preview_token_not_found invalid_preview_token missing_preview_token : Error
  port_not_exposed : ℕ → Text → Error
  uri_malformed unauthorized : Error
  backend : Text → Error

pub data Outcome {ℓ} (A : Type ℓ) : Type ℓ where
  ok : A → Outcome A
  err : Error → Outcome A

abbrev pub Eff : Type 0 → Type 0 → Type 0
Eff S A = S → Outcome A × S

abbrev pub pure : {S A : Type 0} → A → Eff S A
pure a s = (ok a, s)

abbrev pub throw : {S A : Type 0} → Error → Eff S A
throw e s = (err e, s)

unfoldable pub after : {S A B : Type 0} → Outcome A × S → (A → Eff S B) → Outcome B × S
after (ok a, s) f = f a s
after (err e, s) f = (err e, s)

infixl 5 ◌>>=◌ ◌>>◌
abbrev pub ◌>>=◌ : {S A B : Type 0} → Eff S A → (A → Eff S B) → Eff S B
◌>>=◌ m f s = after (m s) f

abbrev pub ◌>>◌ : {S A B : Type 0} → Eff S A → Eff S B → Eff S B
m >> k = m >>= λ _. k

unfoldable pub recover : {S A : Type 0} → Outcome A × S → (Error → Eff S A) → Outcome A × S
recover (ok a, s) h = (ok a, s)
recover (err e, s) h = h e s

-- `try { m } catch (e) { h }`
abbrev pub catch : {S A : Type 0} → Eff S A → (Error → Eff S A) → Eff S A
catch m h s = recover (m s) h

-- `throw` where a lookup found nothing.
abbrev pub or_throw : {S A : Type 0} → Option A → Error → Eff S A
or_throw none e = throw e
or_throw (some a) e = pure a

abbrev pub guard : {S : Type 0} → Bool → Error → Eff S (Unit {0})
guard true e = pure tt
guard false e = throw e

-- A conditional between effects. It stays shut where a proof splits on the test.
infix 1 when◌then◌else◌
unfoldable pub when◌then◌else◌ : {S A : Type 0} → Bool → Eff S A → Eff S A → Eff S A
when true then m else n = m
when false then m else n = n

-- Two results are equal by their outcomes and by their states.
module _ {S A : Type 0} where
  pub ok_parts :
      {a b : A} {s t : S} → ◌≡◌ {A = Outcome A × S} (ok a, s) (ok b, t) → (a ≡ b) × (s ≡ t)
  ok_parts {a} {b} {s} {t} h =
      let o : ok a ≡ ok b = λ i. (h i).0 in let u : s ≡ t = λ i. (h i).1 in (cc, u)

  pub err_parts :
      {e f : Error} {s t : S} → ◌≡◌ {A = Outcome A × S} (err e, s) (err f, t) → (e ≡ f) × (s ≡ t)
  err_parts {e} {f} {s} {t} h =
      let o : ◌≡◌ {A = Outcome A} (err e) (err f) = λ i. (h i).0 in
      let u : s ≡ t = λ i. (h i).1 in (cc, u)

  pub err_ne_ok : {e : Error} {a : A} {s t : S} → ◌≡◌ {A = Outcome A × S} (err e, s) (ok a, t) → ⊥
  err_ne_ok {e} {a} h = let o : err e ≡ ok a = λ i. (h i).0 in cc

  pub ok_ne_err : {e : Error} {a : A} {s t : S} → ◌≡◌ {A = Outcome A × S} (ok a, s) (err e, t) → ⊥
  ok_ne_err {e} {a} h = let o : ok a ≡ err e = λ i. (h i).0 in cc

-- A call that returned, returned at each of its steps.
pub after-eq-ok :
    {S A B : Type 0} (m : Outcome A × S) (f : A → Eff S B) {b : B} {s' : S}
    → after m f ≡ (ok b, s')
    → (a : A) × (s : S) × (m ≡ (ok a, s)) × (f a s ≡ (ok b, s'))
unfolding after
after-eq-ok (ok a, s) f h = (a, s, refl, h)
after-eq-ok (err e, s) f h = absurd (err_ne_ok h)
