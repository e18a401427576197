-- ===== src/Effects/Keeps.antt =====
-- What an effect leaves true of the state, whether it returns or throws.
use microsanbox_cloud.Prelude.{Bool, true, false, Option, none, some, if◌then◌else◌}
use microsanbox_cloud.Effects.{
  when◌then◌else◌, Error, Outcome, Eff, ok, err, after, recover, ◌>>=◌, catch, or_throw, guard,
}

abbrev pub Keeps : {S A : Type 0} → (S → Type 0) → Eff S A → Type 0
Keeps P m = (s : _) → P s → P (m s).1

module _ {S : Type 0} (P : S → Type 0) where
  pub Keeps-after :
      {A B : Type 0} (r : Outcome A × S) (f : A → Eff S B)
      → P r.1
      → ((a : A) → Keeps P (f a))
      → P (after r f).1
  unfolding after
  Keeps-after (ok a, s) f p k = k a s p
  Keeps-after (err e, s) f p k = p

  pub Keeps-recover :
      {A : Type 0} (r : Outcome A × S) (h : Error → Eff S A)
      → P r.1
      → ((e : Error) → Keeps P (h e))
      → P (recover r h).1
  unfolding recover
  Keeps-recover (ok a, s) h p k = p
  Keeps-recover (err e, s) h p k = k e s p

  pub Keeps-bind :
      {A B : Type 0} (m : Eff S A) (f : A → Eff S B)
      → Keeps P m
      → ((a : A) → Keeps P (f a))
      → Keeps P (m >>= f)
  Keeps-bind m f k l s p = Keeps-after (m s) f (k s p) l

  pub Keeps-catch :
      {A : Type 0} (m : Eff S A) (h : Error → Eff S A)
      → Keeps P m
      → ((e : Error) → Keeps P (h e))
      → Keeps P (catch m h)
  Keeps-catch m h k l s p = Keeps-recover (m s) h (k s p) l

  pub Keeps-or_throw :
      {A : Type 0} (o : Option A) (e : Error) → Keeps P (or_throw {S = S} {A = A} o e)
  Keeps-or_throw none e s p = p
  Keeps-or_throw (some a) e s p = p

  pub Keeps-guard : (b : Bool) (e : Error) → Keeps P (guard {S = S} b e)
  Keeps-guard true e s p = p
  Keeps-guard false e s p = p

  pub Keeps-choice :
      {A : Type 0} (b : Bool) (m n : Eff S A) (s : S)
      → P (m s).1
      → P (n s).1
      → P ((when b then m else n) s).1
  unfolding when◌then◌else◌
  Keeps-choice true m n s k l = k
  Keeps-choice false m n s k l = l
