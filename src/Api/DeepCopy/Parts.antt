-- ===== src/Api/DeepCopy/Parts.antt =====
-- The parts that the generated copies are made of: values, cells, pointers that may be nil, slices
-- and maps.
use cloudflare_tunnel_operat.Base.{
  ℕ, String, ◌≤◌, ◌<◌, ◌≡◌, refl, ap, ◌∙◌, Option, none, some, List, [], ◌∷◌, arith,
}
use cloudflare_tunnel_operat.Base.Dict.{Dict, lookup, lookup-put}
use cloudflare_tunnel_operat.Base.Exec.{Exec, Result, ok, pure}
use cloudflare_tunnel_operat.Api.{IntOrString}
use cloudflare_tunnel_operat.Api.ApplyConfiguration.{Pointer, new_cell}
use cloudflare_tunnel_operat.Api.ApplyConfiguration.Copies.{update_at}
use cloudflare_tunnel_operat.Api.DeepCopy.Steps.{
  load, unless_nil, copy_cell, copy_each, make, copy_over, copy_entries, copy_string,
  copy_int_or_string, copy_strings, copy_references, copy_map,
}
use cloudflare_tunnel_operat.Api.DeepCopy.Structs.{
  Cell, Memory, a_string, an_int_or_string, strings, local_object_references, string_map,
  read_string, read_int_or_string, read_strings, read_references, read_map,
}
use cloudflare_tunnel_operat.Api.DeepCopy.Copier.{
  Bounds, anywhere, within, Extends, IsBehind, Representation, IsStable, IsBehind-later, IsCopier,
  Extends-refl, Extends-trans, with_cell, Extends-with_cell,
}

-- A struct without addresses, by a relation to its content.
abbrev pub Value : {A P V : Type 0} → (P → V → Type 0) → Representation A P V
Value R b m p v = R p v

pub IsCopier-value :
    {A P V : Type 0} {R : P → V → Type 0} (f : P → P)
    → ((p : P) (v : V) → R p v → R (f p) v)
    → IsCopier {A = A} (Value R) (λ p. pure (f p))
IsCopier-value f k = record {
  stable = λ b m m' p v e r. r;
  run = λ b m p v h r. (f p, m, refl, Extends-refl m, k p v r);
}

-- What lies at an address.
pub record At {A X V : Type 0} (wrap : X → Cell A) (Holds : Representation A X V) (b : Bounds)
    (m : Memory A) (i : ℕ) (v : V) : Type 0 where
  pub after : b.cell ≤ i
  pub used : i < m.next_cell
  pub struct : X
  pub stored : m.cells i ≡ wrap struct
  pub holds : Holds b m struct v

pub At-IsStable :
    {A X V : Type 0} {wrap : X → Cell A} {Holds : Representation A X V}
    → IsStable Holds
    → IsStable (At wrap Holds)
At-IsStable S b m m' i v e r = record {
  after = r.after;
  used = omega (arith, r.used, e.next_cell);
  struct = r.struct;
  stored = e.cells i r.after r.used ∙ r.stored;
  holds = S b m m' r.struct v e r.holds;
}

pub IsCopier-copy_cell :
    {A X V : Type 0} (read : Cell A → Result X) {wrap : X → Cell A} {f : X → Exec (Memory A) X}
    {Holds : Representation A X V}
    → ((x : X) → read (wrap x) ≡ ok x)
    → IsCopier Holds f
    → IsCopier (At wrap Holds) (copy_cell read wrap f)
unfolding copy_cell load new_cell
IsCopier-copy_cell read {wrap} {f} same C = record {
  stable = At-IsStable C.stable;
  run = λ b m i v h r.
      let (y, m', run, e, made) = C.run b m r.struct v h r.holds in
      let new = Extends-with_cell m' (wrap y) in
      (
        m'.next_cell,
        with_cell m' (wrap y),
        ground (arith, r.stored, same r.struct, run),
        Extends-trans m m' (with_cell m' (wrap y)) e new,
        record {
          after = omega (arith, h.cell, e.next_cell);
          used = omega arith;
          struct = y;
          stored = update_at m'.cells m'.next_cell (wrap y);
          holds = C.stable b m' (with_cell m' (wrap y)) y v (within new) made;
        },
      );
}

-- Behind a pointer that may be nil.
abbrev pub Behind : {A V : Type 0} → Representation A ℕ V → Representation A Pointer (Option V)
Behind Holds b m none none = Unit {0}
Behind Holds b m none (some v) = ⊥
Behind Holds b m (some i) none = ⊥
Behind Holds b m (some i) (some v) = Holds b m i v

pub Behind-IsStable :
    {A V : Type 0} {Holds : Representation A ℕ V} → IsStable Holds → IsStable (Behind Holds)
Behind-IsStable S b m m' none none e r = tt
Behind-IsStable S b m m' none (some v) e r = absurd r
Behind-IsStable S b m m' (some i) none e r = absurd r
Behind-IsStable S b m m' (some i) (some v) e r = S b m m' i v e r

module _ {A V : Type 0} {f : ℕ → Exec (Memory A) ℕ} {Holds : Representation A ℕ V}
    (C : IsCopier Holds f) where
  unless_nil-runs :
      (b : Bounds) (m : Memory A) (p : Pointer) (v : Option V)
      → IsBehind b m
      → Behind Holds anywhere m p v
      → (q : Pointer) × (m' : Memory A) × (unless_nil f p m ≡ (ok q, m'))
        × Extends m m'
        × Behind Holds b m' q v
  unfolding unless_nil
  unless_nil-runs b m none none h r = (none, m, refl, Extends-refl m, tt)
  unless_nil-runs b m none (some v) h r = absurd r
  unless_nil-runs b m (some i) none h r = absurd r
  unless_nil-runs b m (some i) (some v) h r =
      let (j, m', run, e, made) = C.run b m i v h r in (some j, m', ground (arith, run), e, made)

  pub IsCopier-unless_nil : IsCopier (Behind Holds) (unless_nil f)
  IsCopier-unless_nil = record { stable = Behind-IsStable C.stable; run = unless_nil-runs }

-- One content for each element.
abbrev pub Each : {A P V : Type 0} → Representation A P V → Representation A (List P) (List V)
Each Holds b m [] [] = Unit {0}
Each Holds b m [] (v ∷ vs) = ⊥
Each Holds b m (p ∷ ps) [] = ⊥
Each Holds b m (p ∷ ps) (v ∷ vs) = Holds b m p v × Each Holds b m ps vs

pub Each-IsStable :
    {A P V : Type 0} {Holds : Representation A P V} → IsStable Holds → IsStable (Each Holds)
Each-IsStable S b m m' [] [] e r = tt
Each-IsStable S b m m' [] (v ∷ vs) e r = absurd r
Each-IsStable S b m m' (p ∷ ps) [] e r = absurd r
Each-IsStable S b m m' (p ∷ ps) (v ∷ vs) e r =
    (S b m m' p v e r.0, Each-IsStable S b m m' ps vs e r.1)

module _ {A P V : Type 0} {f : P → Exec (Memory A) P} {Holds : Representation A P V}
    (C : IsCopier Holds f) where
  copy_each-runs :
      (b : Bounds) (m : Memory A) (ps : List P) (vs : List V)
      → IsBehind b m
      → Each Holds anywhere m ps vs
      → (qs : List P) × (m' : Memory A) × (copy_each f ps m ≡ (ok qs, m'))
        × Extends m m'
        × Each Holds b m' qs vs
  unfolding copy_each
  copy_each-runs b m [] [] h r = ([], m, refl, Extends-refl m, tt)
  copy_each-runs b m [] (v ∷ vs) h r = absurd r
  copy_each-runs b m (p ∷ ps) [] h r = absurd r
  copy_each-runs b m (p ∷ ps) (v ∷ vs) h r =
      let (q, m₁, run, e, made) = C.run b m p v h r.0 in
      let (qs, m₂, rest, d, all) =
        copy_each-runs b m₁ ps vs (IsBehind-later b m m₁ e h)
          (Each-IsStable C.stable anywhere m m₁ ps vs (within e) r.1) in
      (
        q ∷ qs,
        m₂,
        ground (arith, run, rest),
        Extends-trans m m₁ m₂ e d,
        (C.stable b m₁ m₂ q v (within d) made, all),
      )

  pub IsCopier-copy_each : IsCopier (Each Holds) (copy_each f)
  IsCopier-copy_each = record { stable = Each-IsStable C.stable; run = copy_each-runs }

-- copy(make([]T, len(xs)), xs)
copy_over-make : {X : Type 0} (z : X) (xs : List X) → copy_over (make z xs) xs ≡ xs
unfolding copy_over make
copy_over-make z [] = refl
copy_over-make z (x ∷ xs) = ap (◌∷◌ x) (copy_over-make z xs)

lookup-copy_entries : (d : Dict String) (k : String) → lookup k (copy_entries d) ≡ lookup k d
unfolding copy_entries lookup
lookup-copy_entries [] k = refl
lookup-copy_entries ((j, v) ∷ d) k =
    rw (lookup-put j k v (copy_entries d), lookup-copy_entries d k) refl

-- The content of a map is what its keys lead to.
abbrev pub MapOf : Dict String → (String → Option String) → Type 0
MapOf d c = (k : String) → lookup k d ≡ c k

module _ {A : Type 0} where
  abbrev pub HoldsString : Representation A ℕ String
  HoldsString = At a_string (Value ◌≡◌)

  pub IsCopier-copy_string : IsCopier HoldsString copy_string
  unfolding copy_string
  IsCopier-copy_string =
      IsCopier-copy_cell read_string (λ x. refl) (IsCopier-value (λ x. x) (λ p v r. r))

  abbrev pub HoldsIntOrString : Representation A ℕ IntOrString
  HoldsIntOrString = At an_int_or_string (Value ◌≡◌)

  pub IsCopier-copy_int_or_string : IsCopier HoldsIntOrString copy_int_or_string
  unfolding copy_int_or_string
  IsCopier-copy_int_or_string =
      IsCopier-copy_cell read_int_or_string (λ x. refl) (IsCopier-value (λ x. x) (λ p v r. r))

  abbrev pub HoldsStrings : Representation A ℕ (List String)
  HoldsStrings = At strings (Value ◌≡◌)

  pub IsCopier-copy_strings : IsCopier HoldsStrings copy_strings
  unfolding copy_strings
  IsCopier-copy_strings =
      IsCopier-copy_cell read_strings (λ x. refl)
        (IsCopier-value (λ xs. copy_over (make "" xs) xs) (λ xs v r. copy_over-make "" xs ∙ r))

  abbrev pub HoldsReferences : Representation A ℕ (List String)
  HoldsReferences = At local_object_references (Value ◌≡◌)

  pub IsCopier-copy_references : IsCopier HoldsReferences copy_references
  unfolding copy_references
  IsCopier-copy_references =
      IsCopier-copy_cell read_references (λ x. refl)
        (IsCopier-value (λ xs. copy_over (make "" xs) xs) (λ xs v r. copy_over-make "" xs ∙ r))

  abbrev pub HoldsMap : Representation A ℕ (String → Option String)
  HoldsMap = At string_map (Value MapOf)

  pub IsCopier-copy_map : IsCopier HoldsMap copy_map
  unfolding copy_map
  IsCopier-copy_map =
      IsCopier-copy_cell read_map (λ x. refl)
        (IsCopier-value copy_entries (λ d c r k. lookup-copy_entries d k ∙ r k))
