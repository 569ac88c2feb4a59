-- ===== src/Api/DeepCopy/Copier.antt =====
-- What a deep copy is: it ends with a struct that has the content of the original and lies where
-- nothing was before, and it leaves what was there alone.
use cloudflare_tunnel_operat.Base.{ℕ, suc, ◌≤◌, ◌<◌, ◌≡◌, refl, ◌∙◌, arith}
use cloudflare_tunnel_operat.Base.Exec.{Exec, ok, pure, ◌>>=◌}
use cloudflare_tunnel_operat.Api.ApplyConfiguration.{update}
use cloudflare_tunnel_operat.Api.ApplyConfiguration.Copies.{update_other}
use cloudflare_tunnel_operat.Api.DeepCopy.Structs.{Cell, Memory}

-- The first address that may be used, among the cells and among the arrays.
pub record Bounds : Type 0 where
  pub cell : ℕ
  pub array : ℕ

abbrev pub anywhere : Bounds
anywhere = record { cell = 0; array = 0 }

abbrev pub free : {A : Type 0} → Memory A → Bounds
free m = record { cell = m.next_cell; array = m.next_array }

-- A later memory: more is in use, and what was in use is as it was.
pub record Extends {A : Type 0} (m m' : Memory A) : Type 0 where
  pub cells : (i : ℕ) → i < m.next_cell → m'.cells i ≡ m.cells i
  pub arrays : (i : ℕ) → i < m.next_array → m'.arrays i ≡ m.arrays i
  pub next_cell : m.next_cell ≤ m'.next_cell
  pub next_array : m.next_array ≤ m'.next_array

-- What is in use from `b` on is as it was; the rest may differ.
pub record Agrees {A : Type 0} (b : Bounds) (m m' : Memory A) : Type 0 where
  pub cells : (i : ℕ) → b.cell ≤ i → i < m.next_cell → m'.cells i ≡ m.cells i
  pub arrays : (i : ℕ) → b.array ≤ i → i < m.next_array → m'.arrays i ≡ m.arrays i
  pub next_cell : m.next_cell ≤ m'.next_cell
  pub next_array : m.next_array ≤ m'.next_array

pub within : {A : Type 0} {b : Bounds} {m m' : Memory A} → Extends m m' → Agrees b m m'
within e = record {
  cells = λ i f l. e.cells i l;
  arrays = λ i f l. e.arrays i l;
  next_cell = e.next_cell;
  next_array = e.next_array;
}

pub record IsBehind {A : Type 0} (b : Bounds) (m : Memory A) : Type 0 where
  pub cell : b.cell ≤ m.next_cell
  pub array : b.array ≤ m.next_array

-- `Holds b m p v`: in the memory `m` the struct `p` has the content `v`, and each address that it
-- leads to is in use and none is before `b`.
abbrev pub Representation : Type 0 → Type 0 → Type 0 → Type 1
Representation A P V = Bounds → Memory A → P → V → Type 0

abbrev pub IsStable : {A P V : Type 0} → Representation A P V → Type 0
IsStable {A} {P} {V} Holds =
    (b : Bounds) (m m' : Memory A) (p : P) (v : V) → Agrees b m m' → Holds b m p v → Holds b m' p v

pub record IsCopier {A P V : Type 0} (Holds : Representation A P V) (copy : P → Exec (Memory A) P)
    : Type 0 where
  pub stable : IsStable Holds
  pub run :
      (b : Bounds) (m : Memory A) (p : P) (v : V)
      → IsBehind b m
      → Holds anywhere m p v
      → (q : P) × (m' : Memory A) × (copy p m ≡ (ok q, m')) × Extends m m' × Holds b m' q v

module _ {A : Type 0} where
  pub Extends-refl : (m : Memory A) → Extends m m
  Extends-refl m = record {
    cells = λ i l. refl;
    arrays = λ i l. refl;
    next_cell = omega arith;
    next_array = omega arith;
  }

  pub Extends-trans : (k m n : Memory A) → Extends k m → Extends m n → Extends k n
  Extends-trans k m n d e = record {
    cells = λ i l. e.cells i (omega (arith, l, d.next_cell)) ∙ d.cells i l;
    arrays = λ i l. e.arrays i (omega (arith, l, d.next_array)) ∙ d.arrays i l;
    next_cell = omega (arith, d.next_cell, e.next_cell);
    next_array = omega (arith, d.next_array, e.next_array);
  }

  pub IsBehind-later : (b : Bounds) (m m' : Memory A) → Extends m m' → IsBehind b m → IsBehind b m'
  IsBehind-later b m m' e h = record {
    cell = omega (arith, e.next_cell, h.cell);
    array = omega (arith, e.next_array, h.array);
  }

  pub IsBehind-free : (m : Memory A) → IsBehind (free m) m
  IsBehind-free m = record { cell = omega arith; array = omega arith }

  -- A new cell.
  abbrev pub with_cell : Memory A → Cell A → Memory A
  with_cell m c = record m { cells = update m.cells m.next_cell c; next_cell = suc m.next_cell }

  pub Extends-with_cell : (m : Memory A) (c : Cell A) → Extends m (with_cell m c)
  Extends-with_cell m c = record {
    cells = λ i l. update_other m.cells m.next_cell i c l;
    arrays = λ i l. refl;
    next_cell = omega arith;
    next_array = omega arith;
  }

-- Copying field after field. `Γ` is what the copies made so far hold, from the memory `m₀` on.
module _ {A B : Type 0} (b : Bounds) (m₀ : Memory A) (Post : B → Memory A → Type 0) where
  pub record Continues (Γ : Memory A → Type 0) (x : Exec (Memory A) B) : Type 0 where
    pub onward :
        ((m m' : Memory A) → Extends m m' → Γ m → Γ m')
        → (m : Memory A) → Extends m₀ m
        → Γ m
        → (a : B) × (m' : Memory A) × (x m ≡ (ok a, m')) × Extends m₀ m' × Post a m'

  pub finish :
      {Γ : Memory A → Type 0} (a : B) → ((m : Memory A) → Γ m → Post a m) → Continues Γ (pure a)
  finish a f = record { onward = λ s m e g. (a, m, refl, e, f m g) }

  pub field :
      {P V : Type 0} {Holds : Representation A P V} {copy : P → Exec (Memory A) P}
      {Γ : Memory A → Type 0} {x : P → Exec (Memory A) B} {p : P} {v : V}
      → IsBehind b m₀
      → IsCopier Holds copy
      → Holds anywhere m₀ p v
      → ((q : P) → Continues (λ m. Holds b m q v × Γ m) (x q))
      → Continues Γ (copy p >>= x)
  field {x} {p} {v} h C r k = record {
    onward = λ s m e g.
        let (q, m', run, later, made) =
          C.run b m p v (IsBehind-later b m₀ m e h) (C.stable anywhere m₀ m p v (within e) r) in
        let (a, m'', rest, end, post) =
          (k q).onward (λ m m' d hg. (C.stable b m m' q v (within d) hg.0, s m m' d hg.1)) m'
            (Extends-trans m₀ m m' e later) (made, s m m' later g) in
        (a, m'', ground (arith, run, rest), end, post);
  }

-- A copy that goes field after field.
pub IsCopier-fields :
    {A P V : Type 0} {Holds : Representation A P V} {copy : P → Exec (Memory A) P}
    → IsStable Holds
    → ((b : Bounds) (m : Memory A) (p : P) (v : V)
        → IsBehind b m
        → Holds anywhere m p v
        → Continues b m (λ q m'. Holds b m' q v) (λ m'. Unit {0}) (copy p))
    → IsCopier Holds copy
IsCopier-fields s k = record {
  stable = s;
  run = λ b m p v h r.
      let (q, m', run, later, made) =
        (k b m p v h r).onward (λ m m' e g. tt) m (Extends-refl m) tt in
      (q, m', run, later, made);
}
