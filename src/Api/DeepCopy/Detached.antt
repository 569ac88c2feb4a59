-- ===== src/Api/DeepCopy/Detached.antt =====
-- What DeepCopy and DeepCopyObject answer for whole resources and lists of them.
use cloudflare_tunnel_operat.Base.{
  ℕ, ◌≤◌, ◌<◌, ◌≡◌, ◌∙◌, ap, ◌≢◌, refl, Option, none, some, List, arith,
}
use cloudflare_tunnel_operat.Base.Exec.{Exec, ok}
use cloudflare_tunnel_operat.Api.ApplyConfiguration.{
  Pointer, write_cell, write_array, new_cell, marshal_pointer, unmarshal_struct, deep_copy_struct,
}
use cloudflare_tunnel_operat.Api.ApplyConfiguration.Copies.{update_at, update_other}
use cloudflare_tunnel_operat.Api.DeepCopy.{
  Library, Foreign, Applied, object_of, new_tunnel, new_tunnel_list, list_object, deep_copy_into,
}
use cloudflare_tunnel_operat.Api.DeepCopy.Structs.{
  Cell, Memory, applied, a_tunnel, read_tunnel, a_list, read_list,
}
use cloudflare_tunnel_operat.Api.DeepCopy.Copier.{
  anywhere, free, within, Agrees, Extends, Representation, IsCopier, IsBehind-free, with_cell,
}
use cloudflare_tunnel_operat.Api.DeepCopy.Parts.{
  At, Behind, IsCopier-copy_cell, IsCopier-unless_nil,
}
use cloudflare_tunnel_operat.Api.DeepCopy.Wrapped.{IsRoundTripOn, Typed}
use cloudflare_tunnel_operat.Api.DeepCopy.Resource.{TunnelContent, ListContent}
use cloudflare_tunnel_operat.Api.DeepCopy.Whole.{
  IsDeep, HoldsTunnel, HoldsList, IsCopier-tunnel, IsCopier-list,
}

-- `q` in `m'` is a copy of `p` in `m`, of content `v`, that shares no memory with it: everything of
-- the copy lies where `m` was free; the original is as it was; and a write to any cell or array of
-- the one leaves the other as it is.
pub record IsDetached {A P V : Type 0} (Holds : Representation A P V) (p q : P) (v : V)
    (m m' : Memory A) : Type 0 where
  pub copied : Holds (free m) m' q v
  pub original : Holds anywhere m' p v
  pub copy_written : (i : ℕ) (c : Cell A) → m.next_cell ≤ i → Holds anywhere (write_cell i c m') p v
  pub copy_array_written :
      (i : ℕ) (ps : List Pointer) → m.next_array ≤ i → Holds anywhere (write_array i ps m') p v
  pub original_written :
      (i : ℕ) (c : Cell A) → i < m.next_cell → Holds (free m) (write_cell i c m') q v
  pub original_array_written :
      (i : ℕ) (ps : List Pointer) → i < m.next_array → Holds (free m) (write_array i ps m') q v

module _ {A : Type 0} where
  after_copy :
      (m m' : Memory A) (i : ℕ) (c : Cell A)
      → Extends m m'
      → m.next_cell ≤ i
      → Extends m (write_cell i c m')
  unfolding write_cell
  after_copy m m' i c e l = record {
    cells = λ j k. update_other m'.cells i j c (omega (arith, k, l)) ∙ e.cells j k;
    arrays = e.arrays;
    next_cell = e.next_cell;
    next_array = e.next_array;
  }

  before_copy :
      (m m' : Memory A) (i : ℕ) (c : Cell A)
      → i < m.next_cell
      → Agrees (free m) m' (write_cell i c m')
  unfolding write_cell
  before_copy m m' i c l = record {
    cells = λ j f k. ground (arith, f, l);
    arrays = λ j f k. refl;
    next_cell = omega arith;
    next_array = omega arith;
  }

module _ {A : Type 0} where
  after_array :
      (m m' : Memory A) (i : ℕ) (ps : List Pointer)
      → Extends m m'
      → m.next_array ≤ i
      → Extends m (write_array i ps m')
  unfolding write_array
  after_array m m' i ps e l = record {
    cells = e.cells;
    arrays = λ j k. update_other m'.arrays i j ps (omega (arith, k, l)) ∙ e.arrays j k;
    next_cell = e.next_cell;
    next_array = e.next_array;
  }

  before_array :
      (m m' : Memory A) (i : ℕ) (ps : List Pointer)
      → i < m.next_array
      → Agrees (free m) m' (write_array i ps m')
  unfolding write_array
  before_array m m' i ps l = record {
    cells = λ j f k. refl;
    arrays = λ j f k. ground (arith, f, l);
    next_cell = omega arith;
    next_array = omega arith;
  }

-- A pointer as an interface value: nil for nil, and never an interface that holds nil.
abbrev pub IsObject : Pointer → Option Pointer → Type 0
IsObject none none = Unit {0}
IsObject none (some q) = ⊥
IsObject (some i) none = ⊥
IsObject (some i) (some none) = ⊥
IsObject (some i) (some (some j)) = i ≡ j

IsObject-object_of : (p : Pointer) → IsObject p (object_of p)
IsObject-object_of none = tt
IsObject-object_of (some i) = refl

-- A copier detaches.
pub IsCopier-detaches :
    {A P V : Type 0} {Holds : Representation A P V} {copy : P → Exec (Memory A) P}
    → IsCopier Holds copy
    → (m : Memory A) (p : P) (v : V) → Holds anywhere m p v
    → (q : P) × (m' : Memory A) × (copy p m ≡ (ok q, m')) × IsDetached Holds p q v m m'
IsCopier-detaches C m p v r =
    let (q, m', run, e, made) = C.run (free m) m p v (IsBehind-free m) r in
    (
      q,
      m',
      run,
      record {
        copied = made;
        original = C.stable anywhere m m' p v (within e) r;
        copy_written = λ i c l.
            C.stable anywhere m (write_cell i c m') p v (within (after_copy m m' i c e l)) r;
        copy_array_written = λ i ps l.
            C.stable anywhere m (write_array i ps m') p v (within (after_array m m' i ps e l)) r;
        original_written =
            λ i c l. C.stable (free m) m' (write_cell i c m') q v (before_copy m m' i c l) made;
        original_array_written = λ i ps l.
            C.stable (free m) m' (write_array i ps m') q v (before_array m m' i ps l) made;
      },
    )

module _ {A C : Type 0} {L : Library A} {Holds : Foreign → Representation A A C}
    {T : Applied → A → Type 0} (D : IsDeep L Holds T) where
  -- DeepCopy of a CloudflareTunnel never panics; it answers nil for nil, and otherwise a new resource
  -- with the content of the original that shares no memory with it: a write to any cell or array
  -- of one of them leaves the other as it is. The copies of other packages are taken to copy, and the wrapped
  -- structs to survive JSON.
  pub new_tunnel-IsDetached :
      (m : Memory A) (p : Pointer) (v : Option (TunnelContent A C))
      → Behind (At a_tunnel (HoldsTunnel Holds T)) anywhere m p v
      → (q : Pointer) × (m' : Memory A) × (new_tunnel L p m ≡ (ok q, m'))
        × IsDetached (Behind (At a_tunnel (HoldsTunnel Holds T))) p q v m m'
  unfolding new_tunnel
  new_tunnel-IsDetached =
      IsCopier-detaches
        (IsCopier-unless_nil (IsCopier-copy_cell read_tunnel (λ x. refl) (IsCopier-tunnel D)))

  -- DeepCopyObject of a list of CloudflareTunnels never panics; it answers the nil interface for nil,
  -- and otherwise a pointer that is not nil to a new list, with the content of the original and
  -- sharing no memory with it, under the same conditions.
  pub list_object-IsDetached :
      (m : Memory A) (p : Pointer) (v : Option (ListContent A C))
      → Behind (At a_list (HoldsList Holds T)) anywhere m p v
      → (q : Pointer) × (o : Option Pointer) × (m' : Memory A) × (list_object L p m ≡ (ok o, m'))
        × IsObject q o
        × IsDetached (Behind (At a_list (HoldsList Holds T))) p q v m m'
  unfolding list_object new_tunnel_list
  list_object-IsDetached m p v r =
      let (q, m', run, detached) =
        IsCopier-detaches
          (IsCopier-unless_nil (IsCopier-copy_cell read_list (λ x. refl) (IsCopier-list D))) m p v
          r in
      (q, object_of q, m', ground (arith, run), IsObject-object_of q, detached)

module _ {A : Type 0} (L : Library A) (k : Applied) {T : A → Type 0}
    (R : IsRoundTripOn T (L.codec k)) where
  -- DeepCopyInto of a wrapped struct writes its content to `out` and to no other cell in use.
  pub deep_copy_into_lem :
      (m : Memory A) (i out : ℕ) (v : A)
      → Typed T anywhere m i v
      → (m' : Memory A) × (deep_copy_into L k (some i) out m ≡ (ok tt, m'))
        × (m'.cells out ≡ applied v)
        × ((j : ℕ) → j < m.next_cell → j ≢ out → m'.cells j ≡ m.cells j)
  unfolding deep_copy_into deep_copy_struct marshal_pointer unmarshal_struct new_cell write_cell
  deep_copy_into_lem m i out v r =
      let (j, written, n, back) = R.back v r.holds.1 in
      let at : m.cells i ≡ applied v = r.stored ∙ ap applied r.holds.0 in
      let m₁ = with_cell m (applied v) in
      (
        write_cell out (m₁.cells m.next_cell) m₁,
        ground (arith, at, written, n, back),
        update_at m₁.cells out (m₁.cells m.next_cell) ∙ update_at m.cells m.next_cell (applied v),
        λ x l d. ground (arith, l, d),
      )
