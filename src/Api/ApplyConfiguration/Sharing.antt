-- ===== src/Api/ApplyConfiguration/Sharing.antt =====
-- What Ref shares with the original, and the copies of a single struct.
use cloudflare_tunnel_operat.Base.{
  ℕ, suc, ◌≤◌, ◌<◌, ◌≡◌, refl, sym, ap, ◌∙◌, none, some, List, map, arith,
}
use cloudflare_tunnel_operat.Base.Exec.{ok}
use cloudflare_tunnel_operat.Api.ApplyConfiguration.{
  Pointer, Slice, Heap, update, Codec, new_cell, new_array, write_cell, write_array, ref_list,
  marshal_pointer, unmarshal_struct, deep_copy_struct,
}
use cloudflare_tunnel_operat.Api.ApplyConfiguration.Copies.{
  IsRoundTrip, read, pointers, contents, IsUsed, update_at, update_other,
}

below_some : (n i k : ℕ) → ◌≡◌ {A = Slice} (some n) (some k) → i < n → i < k
below_some n i k e l = ground (arith, e, l)

module _ {A : Type 0} where
  -- A slice with an array of its own and the original's structs.
  pub record IsShared (c d : Slice) (h h' : Heap A) : Type 0 where
    pub same_pointers : pointers h' d ≡ pointers h c
    pub original : contents h' c ≡ contents h c
    pub written_alike :
        (j : ℕ) (a : A) → contents (write_cell j a h') d ≡ contents (write_cell j a h') c
    pub own_array :
        (i : ℕ) (ps : List Pointer) → d ≡ some i → contents (write_array i ps h') c ≡ contents h c

  abbrev with_array : Heap A → List Pointer → Heap A
  with_array h ps = record h {
    arrays = update h.arrays h.next_array ps;
    next_array = suc h.next_array;
  }

  -- Ref of a list gives a slice with the same pointers, nil for nil: a write to a struct is seen
  -- through both, and a write to the new slice's array leaves the original as it was.
  pub ref_list-IsShared :
      (c : Slice) (h : Heap A)
      → IsUsed h c
      → (d : Slice) × (h' : Heap A) × (ref_list c h ≡ (ok d, h')) × IsShared c d h h'
  unfolding ref_list new_array write_cell write_array
  ref_list-IsShared none h u = (
    none,
    h,
    refl,
    record {
      same_pointers = refl;
      original = refl;
      written_alike = λ j a. refl;
      own_array = λ i ps e. refl;
    },
  )
  ref_list-IsShared (some i) h u =
      let h' = with_array h (h.arrays i) in
      let old = update_other h.arrays h.next_array i (h.arrays i) u.slice in
      let new = update_at h.arrays h.next_array (h.arrays i) in
      (
        some h.next_array,
        h',
        refl,
        record {
          same_pointers = new;
          original = ap some (ap (map (read h')) old);
          written_alike = λ j a. ap some (ap (map (read (write_cell j a h'))) (new ∙ sym old));
          own_array = λ k ps e. ap some (
              ap (map (read h))
                (update_other h'.arrays k i ps (below_some h.next_array i k e u.slice) ∙ old));
        },
      )

abbrev pub struct_at : {A : Type 0} → Codec A → Heap A → Pointer → A
struct_at C h none = C.zero_value
struct_at C h (some i) = h.cells i

module _ {A : Type 0} (C : Codec A) (T : IsRoundTrip C) where
  abbrev with_cell : Heap A → A → Heap A
  with_cell h a = record h { cells = update h.cells h.next_cell a; next_cell = suc h.next_cell }

  -- DeepCopy of a struct answers a new struct with the same content, and the zero struct for nil;
  -- no struct that was in use is changed.
  pub deep_copy_struct_lem :
      (p : Pointer) (h : Heap A)
      → (i : ℕ) × (h' : Heap A) × (deep_copy_struct C p h ≡ (ok (some i), h'))
        × (h.next_cell ≤ i)
        × (h'.cells i ≡ struct_at C h p)
        × ((j : ℕ) → j < h.next_cell → h'.cells j ≡ h.cells j)
  unfolding deep_copy_struct marshal_pointer unmarshal_struct new_cell
  deep_copy_struct_lem none h = (
    h.next_cell,
    with_cell h C.zero_value,
    refl,
    omega arith,
    update_at h.cells h.next_cell C.zero_value,
    λ j l. update_other h.cells h.next_cell j C.zero_value l,
  )
  deep_copy_struct_lem (some i) h =
      let (v, m, n, u) = T (h.cells i) in
      (
        h.next_cell,
        with_cell h (h.cells i),
        ground (arith, m, n, u),
        omega arith,
        update_at h.cells h.next_cell (h.cells i),
        λ j l. update_other h.cells h.next_cell j (h.cells i) l,
      )
