-- ===== src/Api/DeepCopy/Wrapped.antt =====
-- The wrapped apply configurations inside a resource: copies through JSON, of lists and of structs.
use cloudflare_tunnel_operat.Base.{
  ℕ, suc, ◌≤◌, ◌<◌, ◌≡◌, refl, sym, ap, ◌∙◌, subst, false, Option, none, some, List, [], ◌∷◌, arith,
}
use cloudflare_tunnel_operat.Base.Value.{null, Elements, no_elements, element}
use cloudflare_tunnel_operat.Base.Value as Json
use cloudflare_tunnel_operat.Base.Exec.{ok}
use cloudflare_tunnel_operat.Api.ApplyConfiguration.{
  Pointer, Slice, Codec, is_null, new_cell, new_array, update, marshal_pointer, marshal_elements,
  marshal_list, unmarshal_pointer, unmarshal_elements, unmarshal_list, unmarshal_struct,
  deep_copy_list, deep_copy_struct,
}
use cloudflare_tunnel_operat.Api.ApplyConfiguration.Copies.{update_at, update_other}
use cloudflare_tunnel_operat.Api.DeepCopy.{
  Library, Applied, cell_codec, deep_copy_applied, copy_applied,
}
use cloudflare_tunnel_operat.Api.DeepCopy.Structs.{Memory, applied}
use cloudflare_tunnel_operat.Api.DeepCopy.Copier.{
  Bounds, anywhere, within, Extends, IsBehind, Representation, IsStable, IsCopier, Extends-refl,
  Extends-trans, IsBehind-later, with_cell, Extends-with_cell,
}
use cloudflare_tunnel_operat.Api.DeepCopy.Parts.{
  Value, At, At-IsStable, Behind, Behind-IsStable, Each, Each-IsStable,
}

-- The structs of one type, and that they survive JSON.
pub record IsRoundTripOn {A : Type 0} (T : A → Type 0) (C : Codec A) : Type 0 where
  pub back :
      (a : A)
      → T a
      → (v : Json.Value) × (C.marshal a ≡ ok v)
        × (is_null v ≡ false)
        × (C.unmarshal v C.zero_value ≡ ok a)

module _ {A : Type 0} where
  abbrev pub Typed : (A → Type 0) → Representation A ℕ A
  Typed T = At applied (Value (λ a v. (a ≡ v) × T v))

  Typed-IsStable : (T : A → Type 0) → IsStable (Typed T)
  Typed-IsStable T = At-IsStable (λ b m m' p v e r. r)

  abbrev pub Elems : (A → Type 0) → Representation A (List Pointer) (List (Option A))
  Elems T = Each (Behind (Typed T))

  Elems-IsStable : (T : A → Type 0) → IsStable (Elems T)
  Elems-IsStable T = Each-IsStable (Behind-IsStable (Typed-IsStable T))

  -- A list of pointers to structs of the type.
  pub record InArray (T : A → Type 0) (b : Bounds) (m : Memory A) (i : ℕ) (vs : List (Option A))
      : Type 0 where
    pub after : b.array ≤ i
    pub used : i < m.next_array
    pub elements : Elems T b m (m.arrays i) vs

  InArray-IsStable : (T : A → Type 0) → IsStable (InArray T)
  InArray-IsStable T b m m' i vs e r = record {
    after = r.after;
    used = omega (arith, r.used, e.next_array);
    elements =
        subst (λ (ps : List Pointer). Elems T b m' ps vs) (sym (e.arrays i r.after r.used))
          (Elems-IsStable T b m m' (m.arrays i) vs e r.elements);
  }

  abbrev pub Listed : (A → Type 0) → Representation A Slice (Option (List (Option A)))
  Listed T = Behind (InArray T)

  abbrev with_array : Memory A → List Pointer → Memory A
  with_array m ps = record m {
    arrays = update m.arrays m.next_array ps;
    next_array = suc m.next_array;
  }

  Extends-with_array : (m : Memory A) (ps : List Pointer) → Extends m (with_array m ps)
  Extends-with_array m ps = record {
    cells = λ i l. refl;
    arrays = λ i l. update_other m.arrays m.next_array i ps l;
    next_cell = omega arith;
    next_array = omega arith;
  }

  Typed-new :
      (T : A → Type 0) (b : Bounds) (m : Memory A) (a : A)
      → IsBehind b m
      → T a
      → Typed T b (with_cell m (applied a)) m.next_cell a
  Typed-new T b m a h t = record {
    after = h.cell;
    used = omega arith;
    struct = a;
    stored = update_at m.cells m.next_cell (applied a);
    holds = (refl, t);
  }

module _ {A : Type 0} {T : A → Type 0} {C : Codec A} (R : IsRoundTripOn T C) where
  -- What is read from the elements can be written to any later memory.
  Decodes : (b : Bounds) (es : Elements) (vs : List (Option A)) → Type 0
  Decodes b es vs =
      (m : Memory A)
      → IsBehind b m
      → (qs : List Pointer) × (m' : Memory A) × (unmarshal_elements (cell_codec C) es m
          ≡ (ok qs, m'))
        × Extends m m'
        × Elems T b m' qs vs

  encoded :
      (b : Bounds) (m : Memory A) (ps : List Pointer) (vs : List (Option A))
      → Elems T anywhere m ps vs
      → (es : Elements) × (marshal_elements (cell_codec C) m ps ≡ ok es) × Decodes b es vs
  unfolding marshal_elements unmarshal_elements unmarshal_pointer marshal_pointer new_cell Decodes
  encoded b m [] [] r = (no_elements, refl, λ m h. ([], m, refl, Extends-refl m, tt))
  encoded b m [] (v ∷ vs) r = absurd r
  encoded b m (p ∷ ps) [] r = absurd r
  encoded b m (none ∷ ps) (some v ∷ vs) r = absurd r.0
  encoded b m (some i ∷ ps) (none ∷ vs) r = absurd r.0
  encoded b m (none ∷ ps) (none ∷ vs) r =
      let (es, run, go) = encoded b m ps vs r.1 in
      (
        element null es,
        rw run refl,
        λ m' h.
            let (qs, m'', rest, e, all) = go m' h in
            (none ∷ qs, m'', ground (arith, rest), e, (tt, all)),
      )
  encoded b m (some i ∷ ps) (some v ∷ vs) r =
      let (es, run, go) = encoded b m ps vs r.1 in
      let (j, out, n, back) = R.back v r.0.holds.1 in
      let at : m.cells i ≡ applied v = r.0.stored ∙ ap applied r.0.holds.0 in
      (
        element j es,
        ground (arith, at, out, run),
        λ m' h.
            let new = with_cell m' (applied v) in
            let (qs, m'', rest, e, all) =
              go new (IsBehind-later b m' new (Extends-with_cell m' (applied v)) h) in
            (
              some m'.next_cell ∷ qs,
              m'',
              ground (arith, n, back, rest),
              Extends-trans m' new m'' (Extends-with_cell m' (applied v)) e,
              (
                Typed-IsStable T b new m'' m'.next_cell v (within e)
                    (Typed-new T b m' v h r.0.holds.1),
                all,
              ),
            ),
      )

  deep_copy_list-runs :
      (b : Bounds) (m : Memory A) (p : Slice) (vs : Option (List (Option A)))
      → IsBehind b m
      → Listed T anywhere m p vs
      → (q : Slice) × (m' : Memory A) × (deep_copy_list (cell_codec C) p m ≡ (ok q, m'))
        × Extends m m'
        × Listed T b m' q vs
  unfolding deep_copy_list marshal_list unmarshal_list new_array Decodes
  deep_copy_list-runs b m none none h r = (none, m, refl, Extends-refl m, tt)
  deep_copy_list-runs b m none (some v) h r = absurd r
  deep_copy_list-runs b m (some i) none h r = absurd r
  deep_copy_list-runs b m (some i) (some vs) h r =
      let (es, out, go) = encoded b m (m.arrays i) vs r.elements in
      let (qs, m₁, back, e, all) = go m h in
      let m₂ = with_array m₁ qs in
      let d = Extends-with_array m₁ qs in
      (
        some m₁.next_array,
        m₂,
        ground (arith, out, back),
        Extends-trans m m₁ m₂ e d,
        record {
          after = omega (arith, h.array, e.next_array);
          used = omega arith;
          elements =
              subst (λ (ps : List Pointer). Elems T b m₂ ps vs)
                (sym (update_at m₁.arrays m₁.next_array qs))
                (Elems-IsStable T b m₁ m₂ qs vs (within d) all);
        },
      )

module _ {A : Type 0} (L : Library A) (k : Applied) {T : A → Type 0}
    (R : IsRoundTripOn T (L.codec k)) where
  copy_applied-runs :
      (b : Bounds) (m : Memory A) (p : Pointer) (v : Option A)
      → IsBehind b m
      → Behind (Typed T) anywhere m p v
      → (q : Pointer) × (m' : Memory A) × (copy_applied L k p m ≡ (ok q, m'))
        × Extends m m'
        × Behind (Typed T) b m' q v
  unfolding copy_applied deep_copy_struct marshal_pointer unmarshal_struct new_cell
  copy_applied-runs b m none none h r = (none, m, refl, Extends-refl m, tt)
  copy_applied-runs b m none (some v) h r = absurd r
  copy_applied-runs b m (some i) none h r = absurd r
  copy_applied-runs b m (some i) (some v) h r =
      let (j, out, n, back) = R.back v r.holds.1 in
      let at : m.cells i ≡ applied v = r.stored ∙ ap applied r.holds.0 in
      (
        some m.next_cell,
        with_cell m (applied v),
        ground (arith, at, out, n, back),
        Extends-with_cell m (applied v),
        Typed-new T b m v h r.holds.1,
      )

  pub IsCopier-copy_applied : IsCopier (Behind (Typed T)) (copy_applied L k)
  IsCopier-copy_applied = record {
    stable = Behind-IsStable (Typed-IsStable T);
    run = copy_applied-runs;
  }

  pub IsCopier-deep_copy_applied : IsCopier (Listed T) (deep_copy_applied L k)
  unfolding deep_copy_applied
  IsCopier-deep_copy_applied = record {
    stable = Behind-IsStable (InArray-IsStable T);
    run = deep_copy_list-runs R;
  }
