-- ===== src/Adapter/Counting.antt =====
-- How often the adapter has opened a sandbox and called `detach`, and how an effect changes this.
use microsanbox_cloud.Prelude.{ℕ, ◌+◌, ◌≡◌, refl, sym, subst, Bool, true, false, List, Text, arith}
use microsanbox_cloud.Effects.{
  Error, catch, throw, Outcome, ok, err, Eff, pure, ◌>>=◌, after, when◌then◌else◌,
}
use microsanbox_cloud.Effects.Keeps.{Keeps-catch, Keeps, Keeps-bind, Keeps-choice}
use microsanbox_cloud.Adapter.Library.{Library, SandboxConfig, finally, settled, best_effort}

abbrev pub added : {A : Type 0} → Outcome A → ℕ
added (ok a) = 1
added (err e) = 0

-- How many calls that open a sandbox have returned, and how many calls of `detach` were made.
pub record Calls : Type 0 where
  pub opens : ℕ
  pub detaches : ℕ

-- Since the numbers were `from`, there were `n` more openings than calls of `detach`.
unfoldable pub Balance : Calls → ℕ → Calls → Type 0
Balance from n c = c.opens + from.detaches ≡ c.detaches + from.opens + n

-- With `n` sandboxes open before, the call opens one if it returns, and none if it throws.
unfoldable pub Opens : {W A : Type 0} → (ℕ → W → Type 0) → Eff W A → Type 0
Opens {W} Open m = (n : ℕ) (w : W) → Open n w → Open (n + added (m w).0) (m w).1

unfoldable pub Closes : {W : Type 0} → (ℕ → W → Type 0) → Eff W (Unit {0}) → Type 0
Closes {W} Open m = (n : ℕ) (w : W) → Open (n + 1) w → Open n (m w).1

unfoldable pub KeepsCount : {W A : Type 0} → (ℕ → W → Type 0) → Eff W A → Type 0
KeepsCount Open m = (n : ℕ) → Keeps (Open n) m

-- The calls of the library leave both numbers as they are.
abbrev pub KeepsCalls : {W A : Type 0} → (W → Calls) → (W → A × W) → Type 0
KeepsCalls {W} calls m = (w : W) → calls (m w).1 ≡ calls w

-- The call is an opening if it returns.
abbrev pub IsOpening : {W A : Type 0} → (W → Calls) → Eff W A → Type 0
IsOpening {W} calls m =
    (w : W)
    → calls (m w).1
      ≡ record { opens = (calls w).opens + added (m w).0; detaches = (calls w).detaches }

-- The numbers count the calls: `connect`, `start_detached` and `create` where they return, and
-- `detach` whatever it comes to. Other calls are not counted.
pub record IsCounted {W H B : Type 0} (lib : Library W H B) (calls : W → Calls) : Type 0 where
  pub connect : (h : H) → IsOpening calls (lib.connect h)
  pub start_detached : (h : H) → IsOpening calls (lib.start_detached h)
  pub create : (c : SandboxConfig) → IsOpening calls (lib.create c)
  pub detach :
      (b : B) (w : W)
      → calls (lib.detach b w).1
        ≡ record { opens = (calls w).opens; detaches = (calls w).detaches + 1 }
  pub get_sandbox : (name : Text) → KeepsCalls calls (lib.get_sandbox name)
  pub exec :
      (b : B) (command : Text) (args : List Text) → KeepsCalls calls (lib.exec b command args)
  pub shell : (b : B) (script : Text) → KeepsCalls calls (lib.shell b script)
  pub write : (b : B) (path content : Text) → KeepsCalls calls (lib.write b path content)
  pub mkdir : (b : B) (path : Text) → KeepsCalls calls (lib.mkdir b path)
  pub read : (b : B) (path : Text) → KeepsCalls calls (lib.read b path)
  pub read_file : (path : Text) → KeepsCalls calls (lib.read_file path)
  pub delay : (ms : ℕ) (w : W) → calls (lib.delay ms w) ≡ calls w

-- How the calls of the library change the number of sandboxes that are still to be detached from.
pub record IsTracked {W H B : Type 0} (lib : Library W H B) (Open : ℕ → W → Type 0) : Type 0 where
  pub connect : (h : H) → Opens Open (lib.connect h)
  pub start_detached : (h : H) → Opens Open (lib.start_detached h)
  pub create : (c : SandboxConfig) → Opens Open (lib.create c)
  pub detach : (b : B) → Closes Open (lib.detach b)
  pub get_sandbox : (name : Text) → KeepsCount Open (lib.get_sandbox name)
  pub exec : (b : B) (command : Text) (args : List Text) → KeepsCount Open (lib.exec b command args)
  pub shell : (b : B) (script : Text) → KeepsCount Open (lib.shell b script)
  pub write : (b : B) (path content : Text) → KeepsCount Open (lib.write b path content)
  pub mkdir : (b : B) (path : Text) → KeepsCount Open (lib.mkdir b path)
  pub read : (b : B) (path : Text) → KeepsCount Open (lib.read b path)
  pub read_file : (path : Text) → KeepsCount Open (lib.read_file path)
  pub delay : (ms n : ℕ) (w : W) → Open n w → Open n (lib.delay ms w)

module _ {W : Type 0} (calls : W → Calls) (from : Calls) where
  abbrev pub Balanced : ℕ → W → Type 0
  Balanced n w = Balance from n (calls w)

  pub kept : {u w : W} → calls u ≡ calls w → (n : ℕ) → Balanced n w → Balanced n u
  kept e n p = subst (Balance from n) (sym e) p

  opening : {A : Type 0} (m : Eff W A) → IsOpening calls m → Opens Balanced m
  unfolding Opens Balance
  opening m h n w p = subst (Balance from (n + added (m w).0)) (sym (h w)) (omega (arith, p))

  pub counted-IsTracked :
      {H B : Type 0} (lib : Library W H B) → IsCounted lib calls → IsTracked lib Balanced
  unfolding KeepsCount Closes Balance
  counted-IsTracked lib counted = record {
    connect = λ h. opening (lib.connect h) (counted.connect h);
    start_detached = λ h. opening (lib.start_detached h) (counted.start_detached h);
    create = λ c. opening (lib.create c) (counted.create c);
    detach = λ b n w p. subst (Balance from n) (sym (counted.detach b w)) (omega (arith, p));
    get_sandbox = λ name n w p. kept (counted.get_sandbox name w) n p;
    exec = λ b command args n w p. kept (counted.exec b command args w) n p;
    shell = λ b script n w p. kept (counted.shell b script w) n p;
    write = λ b path content n w p. kept (counted.write b path content w) n p;
    mkdir = λ b path n w p. kept (counted.mkdir b path w) n p;
    read = λ b path n w p. kept (counted.read b path w) n p;
    read_file = λ path n w p. kept (counted.read_file path w) n p;
    delay = λ ms n w p. kept (counted.delay ms w) n p;
  }

module _ {W : Type 0} (Open : ℕ → W → Type 0) where
  pub settled-state :
      {A : Type 0} (o : Outcome A) (r : Outcome (Unit {0}) × W) → (settled o r).1 ≡ r.1
  unfolding settled
  settled-state o (ok u, w) = refl
  settled-state o (err e, w) = refl

  -- A sandbox for the time of one use, that ends with an effect that gives it up.
  pub closed :
      {A B : Type 0} (n : ℕ) (r : Outcome B × W) (use_it : B → Eff W A)
      (last : B → Eff W (Unit {0}))
      → Open (n + added r.0) r.1
      → ((b : B) → KeepsCount Open (use_it b))
      → ((b : B) → Closes Open (last b))
      → Open n (after r (λ b. finally (use_it b) (last b))).1
  unfolding after finally KeepsCount Closes
  closed n (err e, w) use_it last h k l = subst (λ m. Open m w) (omega arith) h
  closed n (ok b, w) use_it last h k l =
      rw (settled-state (use_it b w).0 (last b (use_it b w).1))
        (l b n (use_it b w).1 (k b (n + 1) w h))

  pub Opens-after :
      {A B : Type 0} (n : ℕ) (r : Outcome A × W) (f : A → Eff W B)
      → Open n r.1
      → ((a : A) → Opens Open (f a))
      → Open (n + added (after r f).0) (after r f).1
  unfolding after Opens
  Opens-after n (err e, w) f h k = subst (λ m. Open m w) (omega arith) h
  Opens-after n (ok a, w) f h k = k a n w h

  pub Opens-choice :
      {A : Type 0} (b : Bool) (m n : Eff W A)
      → Opens Open m
      → Opens Open n
      → Opens Open (when b then m else n)
  unfolding when◌then◌else◌ Opens
  Opens-choice true m n h k = h
  Opens-choice false m n h k = k

  pub KeepsCount-best_effort :
      (m : Eff W (Unit {0})) → KeepsCount Open m → KeepsCount Open (best_effort m)
  unfolding best_effort KeepsCount
  KeepsCount-best_effort m k n w h = k n w h

  pub KeepsCount-pure : {A : Type 0} (a : A) → KeepsCount Open (pure a)
  unfolding KeepsCount
  KeepsCount-pure a n w h = h

  pub KeepsCount-throw : (A : Type 0) (e : Error) → KeepsCount {A = A} Open (throw e)
  unfolding KeepsCount
  KeepsCount-throw A e n w h = h

  pub KeepsCount-bind :
      {A B : Type 0} (m : Eff W A) (f : A → Eff W B)
      → KeepsCount Open m
      → ((a : A) → KeepsCount Open (f a))
      → KeepsCount Open (m >>= f)
  unfolding KeepsCount
  KeepsCount-bind m f k l n = Keeps-bind (Open n) m f (k n) (λ a. l a n)

  pub KeepsCount-catch :
      {A : Type 0} (m : Eff W A) (f : Error → Eff W A)
      → KeepsCount Open m
      → ((e : Error) → KeepsCount Open (f e))
      → KeepsCount Open (catch m f)
  unfolding KeepsCount
  KeepsCount-catch m f k l n = Keeps-catch (Open n) m f (k n) (λ e. l e n)

  pub KeepsCount-choice :
      {A : Type 0} (b : Bool) (m n : Eff W A)
      → KeepsCount Open m
      → KeepsCount Open n
      → KeepsCount Open (when b then m else n)
  unfolding KeepsCount
  KeepsCount-choice b m n k l c w h = Keeps-choice (Open c) b m n w (k c w h) (l c w h)
