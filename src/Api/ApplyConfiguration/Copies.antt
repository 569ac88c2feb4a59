-- ===== src/Api/ApplyConfiguration/Copies.antt =====
-- What the two kinds of copies share with the original.
use cloudflare_tunnel_operat.Base.{
  ℕ, zero, suc, ◌≤◌, ◌<◌, ◌≡◌, refl, sym, ap, ◌∙◌, false, Option, none, some, List, [], ◌∷◌, map,
  All, get_elem?, arith,
}
use cloudflare_tunnel_operat.Base.Value.{Value, null, Elements, no_elements, element}
use cloudflare_tunnel_operat.Base.Exec.{ok}
use cloudflare_tunnel_operat.Api.ApplyConfiguration.{
  Pointer, Slice, Heap, update, Codec, is_null, new_array, write_cell, marshal_elements,
  marshal_list, unmarshal_elements, unmarshal_list, deep_copy_list,
}

-- A struct that is marshalled and unmarshalled is as it was.
abbrev pub IsRoundTrip : {A : Type 0} → Codec A → Type 0
IsRoundTrip {A} C =
    (a : A)
    → (v : Value) × (C.marshal a ≡ ok v) × (is_null v ≡ false) × (C.unmarshal v C.zero_value ≡ ok a)

abbrev pub IsBelow : ℕ → Pointer → Type 0
IsBelow n none = Unit {0}
IsBelow n (some i) = i < n

abbrev pub IsFrom : ℕ → Pointer → Type 0
IsFrom n none = Unit {0}
IsFrom n (some i) = n ≤ i

from_later : (m n : ℕ) → m ≤ n → (qs : List Pointer) → All (IsFrom n) qs → All (IsFrom m) qs
from_later m n l [] a = tt
from_later m n l (none ∷ qs) a = (tt, from_later m n l qs a.1)
from_later m n l (some i ∷ qs) a = (omega (arith, a.0), from_later m n l qs a.1)

pub update_at : {A : Type 0} (f : ℕ → A) (i : ℕ) (a : A) → update f i a i ≡ a
update_at f i a = ground arith

pub update_other : {A : Type 0} (f : ℕ → A) (i j : ℕ) (a : A) → j < i → update f i a j ≡ f j
update_other f i j a l = ground (arith, l)

from_index :
    (n : ℕ) (qs : List Pointer) (k j : ℕ)
    → All (IsFrom n) qs
    → get_elem? qs k ≡ some (some j)
    → n ≤ j
from_index n [] k j a e = ground (arith, e)
from_index n (none ∷ qs) zero j a e = ground (arith, e)
from_index n (some i ∷ qs) zero j a e = ground (arith, e, a.0)
from_index n (q ∷ qs) (suc k) j a e = from_index n qs k j a.1 e

module _ {A : Type 0} where
  abbrev pub read : Heap A → Pointer → Option A
  read h none = none
  read h (some i) = some (h.cells i)

  abbrev pub pointers : Heap A → Slice → List Pointer
  pointers h none = []
  pointers h (some i) = h.arrays i

  -- The structs that a slice leads to; a nil slice differs from an empty one.
  abbrev pub contents : Heap A → Slice → Option (List (Option A))
  contents h none = none
  contents h (some i) = some (map (read h) (h.arrays i))

  -- Nothing that is in use is free.
  pub record IsUsed (h : Heap A) (s : Slice) : Type 0 where
    pub slice : IsBelow h.next_array s
    pub elements : All (IsBelow h.next_cell) (pointers h s)

  -- A copy that shares nothing with the original: it has the same contents; the original is as it
  -- was; and a write to a struct of the copy does not reach the original.
  pub record IsApartFrom (c d : Slice) (h h' : Heap A) : Type 0 where
    pub same_contents : contents h' d ≡ contents h c
    pub original : contents h' c ≡ contents h c
    pub apart :
        (j : ℕ) (a : A) (k : ℕ)
        → get_elem? (pointers h' d) k ≡ some (some j)
        → contents (write_cell j a h') c ≡ contents h c

  record IsDecoded (h₀ h h' : Heap A) (ps qs : List Pointer) : Type 0 where
    same_values : map (read h') qs ≡ map (read h₀) ps
    fresh : All (IsFrom h.next_cell) qs
    kept : (i : ℕ) → i < h.next_cell → h'.cells i ≡ h.cells i
    same_arrays : h'.arrays ≡ h.arrays
    same_next : h'.next_array ≡ h.next_array
    grows : h.next_cell ≤ h'.next_cell

  pub read-kept :
      (n : ℕ) (h h' : Heap A) (ps : List Pointer)
      → ((i : ℕ) → i < n → h'.cells i ≡ h.cells i)
      → All (IsBelow n) ps
      → map (read h') ps ≡ map (read h) ps
  read-kept n h h' [] k b = refl
  read-kept n h h' (none ∷ ps) k b = ap (◌∷◌ none) (read-kept n h h' ps k b.1)
  read-kept n h h' (some i ∷ ps) k b =
      rw (k i b.0) (ap (◌∷◌ (some (h.cells i))) (read-kept n h h' ps k b.1))

module _ {A : Type 0} (C : Codec A) (T : IsRoundTrip C) where
  IsDecoded-empty : (h₀ h : Heap A) → IsDecoded h₀ h h [] []
  IsDecoded-empty h₀ h = record {
    same_values = refl;
    fresh = tt;
    kept = λ i l. refl;
    same_arrays = refl;
    same_next = refl;
    grows = omega arith;
  }

  IsDecoded-nil :
      (h₀ h h' : Heap A) (ps qs : List Pointer)
      → IsDecoded h₀ h h' ps qs
      → IsDecoded h₀ h h' (none ∷ ps) (none ∷ qs)
  IsDecoded-nil h₀ h h' ps qs d = record {
    same_values = ap (◌∷◌ none) d.same_values;
    fresh = (tt, d.fresh);
    kept = d.kept;
    same_arrays = d.same_arrays;
    same_next = d.same_next;
    grows = d.grows;
  }

  abbrev allocated : Heap A → A → Heap A
  allocated h a = record h { cells = update h.cells h.next_cell a; next_cell = suc h.next_cell }

  IsDecoded-cell :
      (h₀ h h' : Heap A) (i : ℕ) (ps qs : List Pointer)
      → IsDecoded h₀ (allocated h (h₀.cells i)) h' ps qs
      → IsDecoded h₀ h h' (some i ∷ ps) (some h.next_cell ∷ qs)
  IsDecoded-cell h₀ h h' i ps qs d = record {
    same_values =
        ap (λ (a : A). some a ∷ map (read h') qs)
          (d.kept h.next_cell (omega arith) ∙ update_at h.cells h.next_cell (h₀.cells i))
        ∙ ap (◌∷◌ (some (h₀.cells i))) d.same_values;
    fresh = (omega arith, from_later h.next_cell (suc h.next_cell) (omega arith) qs d.fresh);
    kept = λ j l. d.kept j (omega (arith, l)) ∙ update_other h.cells h.next_cell j (h₀.cells i) l;
    same_arrays = d.same_arrays;
    same_next = d.same_next;
    grows = omega (arith, d.grows);
  }

  decoded :
      (h₀ : Heap A) (ps : List Pointer)
      → (es : Elements) × (marshal_elements C h₀ ps ≡ ok es)
        × ((h : Heap A)
            → (qs : List Pointer) × (h' : Heap A) × (unmarshal_elements C es h ≡ (ok qs, h'))
              × IsDecoded h₀ h h' ps qs)
  unfolding marshal_elements unmarshal_elements
  decoded h₀ [] = (no_elements, refl, λ h. ([], h, refl, IsDecoded-empty h₀ h))
  decoded h₀ (none ∷ ps) =
      let (es, e, go) = decoded h₀ ps in
      (
        element null es,
        rw e refl,
        λ h.
            let (qs, h', r, d) = go h in
            (none ∷ qs, h', ground (arith, r), IsDecoded-nil h₀ h h' ps qs d),
      )
  decoded h₀ (some i ∷ ps) =
      let (es, e, go) = decoded h₀ ps in
      let (v, m, n, u) = T (h₀.cells i) in
      (
        element v es,
        rw (m, e) refl,
        λ h.
            let (qs, h', r, d) = go (allocated h (h₀.cells i)) in
            (some h.next_cell ∷ qs, h', ground (arith, n, u, r), IsDecoded-cell h₀ h h' i ps qs d),
      )

  contents_kept :
      (i : ℕ) (h h' : Heap A)
      → IsUsed h (some i)
      → h'.arrays i ≡ h.arrays i
      → ((j : ℕ) → j < h.next_cell → h'.cells j ≡ h.cells j)
      → contents h' (some i) ≡ contents h (some i)
  contents_kept i h h' u e k =
      ap some (ap (map (read h')) e ∙ read-kept h.next_cell h h' (h.arrays i) k u.elements)

  abbrev added : Heap A → List Pointer → Heap A
  added h qs = record h { arrays = update h.arrays h.next_array qs; next_array = suc h.next_array }

  array_kept :
      (i : ℕ) (h h₁ : Heap A) (qs : List Pointer)
      → IsUsed h (some i)
      → IsDecoded h h h₁ (h.arrays i) qs
      → (added h₁ qs).arrays i ≡ h.arrays i
  array_kept i h h₁ qs u d =
      update_other h₁.arrays h₁.next_array i qs (rw d.same_next u.slice)
      ∙ ap (λ (f : ℕ → List Pointer). f i) d.same_arrays

  -- The JSON copies share nothing.
  pub deep_copy_list-IsApartFrom :
      (c : Slice) (h : Heap A)
      → IsUsed h c
      → (d : Slice) × (h' : Heap A) × (deep_copy_list C c h ≡ (ok d, h')) × IsApartFrom c d h h'
  unfolding deep_copy_list marshal_list unmarshal_list new_array write_cell
  deep_copy_list-IsApartFrom none h u =
      (none, h, refl, record { same_contents = refl; original = refl; apart = λ j a k e. refl })
  deep_copy_list-IsApartFrom (some i) h u =
      let (es, e, go) = decoded h (h.arrays i) in
      let (qs, h₁, r, d) = go h in
      let still = array_kept i h h₁ qs u d in
      (
        some h₁.next_array,
        added h₁ qs,
        ground (arith, e, r),
        record {
          same_contents =
              ap some (ap (map (read h₁)) (update_at h₁.arrays h₁.next_array qs) ∙ d.same_values);
          original = contents_kept i h (added h₁ qs) u still d.kept;
          apart = λ j a k q.
              let far =
                from_index h.next_cell qs k j d.fresh
                  (sym (ap (λ rs. get_elem? rs k) (update_at h₁.arrays h₁.next_array qs)) ∙ q) in
              contents_kept i h (write_cell j a (added h₁ qs)) u still
                (λ x l. update_other h₁.cells j x a (omega (arith, far, l)) ∙ d.kept x l);
        },
      )
