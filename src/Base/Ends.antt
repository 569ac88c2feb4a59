-- ===== src/Base/Ends.antt =====
-- How an action ends: with a value, with an error where errors are allowed, never with a panic.
use mathlib.Core.Path.{◌≡◌, refl}
use mathlib.Core.Bool.{Bool, true, false}
use native.Mathlib.Omega.{arith}
use Prim.Native.String.{String}
use cloudflare_tunnel_operat.Base.Tests.{if◌then◌else◌}
use cloudflare_tunnel_operat.Base.Exec.{
  Exec, Error, Result, ok, err, panic, wrap, flat, on_error, continue, pure, raise, lift, wrapping,
  flattening, handle, ◌>>=◌, ◌>>◌,
}

-- The values meet `Q`; an error needs a proof of `F`, which is `Unit` where errors are allowed and
-- `⊥` where none is.
abbrev pub Outcome : {A : Type 0} → Type 0 → (A → Type 0) → Result A → Type 0
Outcome F Q (ok a) = Q a
Outcome F Q (err e) = F
Outcome F Q (panic m) = ⊥

-- From every world that meets `I`, the action ends that way in a world that meets `I` again.
pub record Ends {W A : Type 0} (I : W → Type 0) (F : Type 0) (Q : A → Type 0) (x : Exec W A)
    : Type 0 where
  pub stays : (w : W) → I w → I (x w).1
  pub outcome : (w : W) → I w → Outcome F Q (x w).0

-- Any value will do.
abbrev pub Any : {A : Type 0} → A → Type 0
Any a = Unit {0}

module _ {A : Type 0} (Q : A → Type 0) where
  pub Outcome-ok : (r : Result A) → Outcome ⊥ Q r → (a : A) × (r ≡ ok a) × Q a
  Outcome-ok (ok a) o = (a, refl, o)
  Outcome-ok (err e) o = absurd o
  Outcome-ok (panic m) o = absurd o

  module _ (F : Type 0) where
    pub Outcome-panic : (r : Result A) (m : String) → Outcome F Q r → r ≡ panic m → ⊥
    Outcome-panic (ok a) m o e = ground (arith, e)
    Outcome-panic (err a) m o e = ground (arith, e)
    Outcome-panic (panic n) m o e = o

    Outcome-on_error :
        (f : Error → Error) (r : Result A) → Outcome F Q r → Outcome F Q (on_error f r)
    Outcome-on_error f (ok a) o = o
    Outcome-on_error f (err e) o = o
    Outcome-on_error f (panic m) o = o

module _ {W : Type 0} {I : W → Type 0} {F : Type 0} where
  pub ends_pure : {A : Type 0} {Q : A → Type 0} (a : A) → Q a → Ends I F Q (pure {W = W} a)
  ends_pure a q = record { stays = λ w i. i; outcome = λ w i. q }

  pub ends_raise : {A : Type 0} {Q : A → Type 0} (e : Error) → F → Ends I F Q (raise {W = W} e)
  ends_raise e f = record { stays = λ w i. i; outcome = λ w i. f }

  pub ends_lift :
      {A : Type 0} {Q : A → Type 0} (r : Result A) → Outcome F Q r → Ends I F Q (lift {W = W} r)
  ends_lift r o = record { stays = λ w i. i; outcome = λ w i. o }

  pub ends_wrapping :
      {A : Type 0} {Q : A → Type 0} (m : String) {x : Exec W A}
      → Ends I F Q x
      → Ends I F Q (wrapping m x)
  ends_wrapping {Q = Q} m {x} k = record {
    stays = k.stays;
    outcome = λ w i. Outcome-on_error Q F (wrap m) (x w).0 (k.outcome w i);
  }

  pub ends_flattening :
      {A : Type 0} {Q : A → Type 0} (m : String) {x : Exec W A}
      → Ends I F Q x
      → Ends I F Q (flattening m x)
  ends_flattening {Q = Q} m {x} k = record {
    stays = k.stays;
    outcome = λ w i. Outcome-on_error Q F (flat m) (x w).0 (k.outcome w i);
  }

  pub ends_if :
      {A : Type 0} {Q : A → Type 0} (b : Bool) {x y : Exec W A}
      → (b ≡ true → Ends I F Q x)
      → (b ≡ false → Ends I F Q y)
      → Ends I F Q (if b then x else y)
  ends_if true k l = k refl
  ends_if false k l = l refl

  module _ {A B : Type 0} {P : A → Type 0} {Q : B → Type 0} {f : A → Exec W B} where
    continue-stays :
        {g : Error → Exec W B} (r : Result A) (w : W)
        → Outcome F P r
        → I w
        → ((a : A) → P a → Ends I F Q (f a))
        → ((e : Error) → F → Ends I F Q (g e))
        → I (continue f g r w).1
    continue-stays (ok a) w o i k l = (k a o).stays w i
    continue-stays (err e) w o i k l = (l e o).stays w i
    continue-stays (panic m) w o i k l = i

    continue-outcome :
        {g : Error → Exec W B} (r : Result A) (w : W)
        → Outcome F P r
        → I w
        → ((a : A) → P a → Ends I F Q (f a))
        → ((e : Error) → F → Ends I F Q (g e))
        → Outcome F Q (continue f g r w).0
    continue-outcome (ok a) w o i k l = (k a o).outcome w i
    continue-outcome (err e) w o i k l = (l e o).outcome w i
    continue-outcome (panic m) w o i k l = o

    pub ends_handle :
        {x : Exec W A} {g : Error → Exec W B}
        → Ends I F P x
        → ((a : A) → P a → Ends I F Q (f a))
        → ((e : Error) → F → Ends I F Q (g e))
        → Ends I F Q (handle x f g)
    ends_handle {x} h k l = record {
      stays = λ w i. continue-stays (x w).0 (x w).1 (h.outcome w i) (h.stays w i) k l;
      outcome = λ w i. continue-outcome (x w).0 (x w).1 (h.outcome w i) (h.stays w i) k l;
    }

    pub ends_bind :
        {x : Exec W A} → Ends I F P x → ((a : A) → P a → Ends I F Q (f a)) → Ends I F Q (x >>= f)
    ends_bind h k = ends_handle h k ends_raise

  pub ends_then :
      {A B : Type 0} {P : A → Type 0} {Q : B → Type 0} {x : Exec W A} {y : Exec W B}
      → Ends I F P x
      → Ends I F Q y
      → Ends I F Q (x >> y)
  ends_then h k = ends_bind h (λ a p. k)
