-- ===== src/Base/Exec.antt =====
-- Code that changes a world `W` and may fail. What was done before an error stays done, so the
-- world comes back beside the error too. A Go panic is a third outcome: it is no error value, so
-- no `if err != nil` catches it.
use Prim.Native.String.{String}
use mathlib.Core.Path.{◌≡◌, refl}
use mathlib.Core.Logic.{◌⊎◌, inl, inr}
use mathlib.Core.Bool.{Bool, true, false}
use native.Mathlib.Omega.{arith}

-- The sentinels that the code compares errors with. `not_found` is the API server's answer that
-- `apierrors.IsNotFound` recognises.
pub data Sentinel : Type 0 where
  not_found tunnel_not_found cloudflare_tunnel_not_found default_not_exists : Sentinel

-- `sentinel` is one of these, `other` any other error; `wrap` is fmt.Errorf with %w, which keeps
-- the chain, and `flat` is fmt.Errorf with %v, which keeps the text alone.
pub data Error : Type 0 where
  sentinel : Sentinel → Error
  other : String → Error
  wrap : String → Error → Error
  flat : String → Error → Error

pub data Result {ℓ} (A : Type ℓ) : Type ℓ where
  ok : A → Result A
  err : Error → Result A
  panic : String → Result A

-- To split on a result and keep the equation.
pub Result-cases {ℓ} :
    {A : Type ℓ} (r : Result A)
    → ((a : A) × (r ≡ ok a)) ⊎ (((e : Error) × (r ≡ err e)) ⊎ ((m : String) × (r ≡ panic m)))
Result-cases (ok a) = inl (a, refl)
Result-cases (err e) = inr (inl (e, refl))
Result-cases (panic m) = inr (inr (m, refl))

abbrev same : Sentinel → Sentinel → Bool
same not_found not_found = true
same tunnel_not_found tunnel_not_found = true
same cloudflare_tunnel_not_found cloudflare_tunnel_not_found = true
same default_not_exists default_not_exists = true
same _ _ = false

-- errors.Is, and apierrors.IsNotFound at `not_found`: a walk down the chain of %w.
abbrev pub errors_is : Error → Sentinel → Bool
errors_is (sentinel s) t = same s t
errors_is (other m) t = false
errors_is (wrap m e) t = errors_is e t
errors_is (flat m e) t = false

abbrev pub Exec {ℓ} : Type ℓ → Type ℓ → Type ℓ
Exec W A = W → Result A × W

abbrev pub on_error {ℓ} : {A : Type ℓ} → (Error → Error) → Result A → Result A
on_error f (ok a) = ok a
on_error f (err e) = err (f e)
on_error f (panic m) = panic m

module _ {ℓ} {W A : Type ℓ} where
  abbrev pub pure : A → Exec W A
  pure a w = (ok a, w)

  abbrev pub raise : Error → Exec W A
  raise e w = (err e, w)

  abbrev pub lift : Result A → Exec W A
  lift r w = (r, w)

  -- `if err != nil { return fmt.Errorf("message: %w", err) }`, and the same with %v.
  abbrev pub wrapping : String → Exec W A → Exec W A
  wrapping m x w = let (r, w') = x w in (on_error (wrap m) r, w')

  abbrev pub flattening : String → Exec W A → Exec W A
  flattening m x w = let (r, w') = x w in (on_error (flat m) r, w')

module _ {ℓ} {W A B : Type ℓ} where
  abbrev pub continue : (A → Exec W B) → (Error → Exec W B) → Result A → Exec W B
  continue f g (ok a) w = f a w
  continue f g (err e) w = g e w
  continue f g (panic m) w = (panic m, w)

  -- `x, err := m()`, with what follows if `err == nil` and what follows if not.
  abbrev pub handle : Exec W A → (A → Exec W B) → (Error → Exec W B) → Exec W B
  handle x f g w = let (r, w') = x w in continue f g r w'

  infixl 10 ◌>>=◌ ◌>>◌
  abbrev pub ◌>>=◌ : Exec W A → (A → Exec W B) → Exec W B
  x >>= f = handle x f raise

  abbrev pub ◌>>◌ : Exec W A → Exec W B → Exec W B
  x >> y = x >>= λ _. y

  -- A chain that succeeds: its first step did, and the chain goes on from there.
  pub bind_ok :
      (x : Exec W A) (f : A → Exec W B) (w : W) (b : B)
      → ((x >>= f) w).0 ≡ ok b
      → (a : A) × (w' : W) × (x w ≡ (ok a, w')) × ((x >>= f) w ≡ f a w') × ((f a w').0 ≡ ok b)
  bind_ok x f w b h = elim (Result-cases (x w).0) [
    | inl (a, q) ↦ (a, (x w).1, ground (arith, q), ground (arith, q), ground (arith, q))
    | inr (inl (e, q)) ↦ ground (arith, q)
    | inr (inr (m, q)) ↦ ground (arith, q)
  ]

  -- A call whose answer is only mapped: the world is the call's, and so is the success.
  pub mapped_world :
      (m : String) (x : Exec W A) (f : A → B) (w : W)
      → ((flattening m x >>= λ a. pure (f a)) w).1 ≡ (x w).1
  mapped_world m x f w = elim (Result-cases (x w).0) [
    | inl (a, q) ↦ ground (arith, q)
    | inr (inl (e, q)) ↦ ground (arith, q)
    | inr (inr (s, q)) ↦ ground (arith, q)
  ]

  pub mapped_ok :
      (m : String) (x : Exec W A) (f : A → B) (w : W) (b : B)
      → ((flattening m x >>= λ a. pure (f a)) w).0 ≡ ok b
      → (a : A) × ((x w).0 ≡ ok a) × (b ≡ f a)
  mapped_ok m x f w b h = elim (Result-cases (x w).0) [
    | inl (a, q) ↦ (a, q, ground (arith, q))
    | inr (inl (e, q)) ↦ ground (arith, q)
    | inr (inr (s, q)) ↦ ground (arith, q)
  ]
