-- ===== src/Base/Keeps.antt =====
-- Code that leaves a part of the world alone, whatever it answers.
use mathlib.Core.Path.{◌≡◌, refl}
use mathlib.Core.Logic.{inl, inr}
use mathlib.Core.Bool.{Bool, true, false}
use native.Mathlib.Omega.{arith}
use Prim.Native.String.{String}
use cloudflare_tunnel_operat.Base.Tests.{if◌then◌else◌}
use cloudflare_tunnel_operat.Base.Exec.{
  Exec, Error, Result, pure, raise, lift, wrapping, handle, ◌>>=◌, ◌>>◌, Result-cases,
}

-- `P` is the part.
pub record Keeps {W X A : Type 0} (P : W → X) (x : Exec W A) : Type 0 where
  pub same : (w : W) → P (x w).1 ≡ P w

module _ {W X : Type 0} (P : W → X) where
  pub keeps_pure : {A : Type 0} (a : A) → Keeps P (pure {W = W} a)
  keeps_pure a = record { same = λ w. refl }

  pub keeps_raise : {A : Type 0} (e : Error) → Keeps P (raise {W = W} {A = A} e)
  keeps_raise e = record { same = λ w. refl }

  pub keeps_lift : {A : Type 0} (r : Result A) → Keeps P (lift {W = W} r)
  keeps_lift r = record { same = λ w. refl }

  pub keeps_wrapping : {A : Type 0} (m : String) {x : Exec W A} → Keeps P x → Keeps P (wrapping m x)
  keeps_wrapping m k = record { same = k.same }

  pub keeps_if :
      {A : Type 0} (b : Bool) {x y : Exec W A}
      → Keeps P x
      → Keeps P y
      → Keeps P (if b then x else y)
  keeps_if true k l = k
  keeps_if false k l = l

  pub keeps_handle :
      {A B : Type 0} {x : Exec W A} {f : A → Exec W B} {g : Error → Exec W B}
      → Keeps P x
      → ((a : A) → Keeps P (f a))
      → ((e : Error) → Keeps P (g e))
      → Keeps P (handle x f g)
  keeps_handle {x} {f} {g} k l m = record {
    same = λ w. elim (Result-cases (x w).0) [
      | inl (a, q) ↦ ground (arith, q, k.same w, (l a).same (x w).1)
      | inr (inl (e, q)) ↦ ground (arith, q, k.same w, (m e).same (x w).1)
      | inr (inr (s, q)) ↦ ground (arith, q, k.same w)
    ];
  }

  pub keeps_bind :
      {A B : Type 0} {x : Exec W A} {f : A → Exec W B}
      → Keeps P x
      → ((a : A) → Keeps P (f a))
      → Keeps P (x >>= f)
  keeps_bind k l = keeps_handle k l keeps_raise

  pub keeps_then :
      {A B : Type 0} {x : Exec W A} {y : Exec W B} → Keeps P x → Keeps P y → Keeps P (x >> y)
  keeps_then k l = keeps_bind k (λ _. l)
