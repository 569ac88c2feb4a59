-- ===== src/Api/ApplyConfiguration.antt =====
-- The wrappers around client-go's apply configurations (api/v1beta1/apply_configuration.go): the
-- copies through JSON of DeepCopy, and the shallow ones of Ref. Lists and structs are the same code
-- for each type. What encoding/json does with the fields of a client-go type is a parameter.
pub mod Copies
pub mod Sharing
mod Types
use cloudflare_tunnel_operat.Base.{
  ℕ, suc, String, Bool, true, false, Option, none, some, List, [], ◌∷◌, eqb, if◌then◌else◌,
}
use cloudflare_tunnel_operat.Base.Value.{
  Value, object, array, text, number, boolean, null, Elements, no_elements, element,
}
use cloudflare_tunnel_operat.Base.Exec.{
  Exec, Result, ok, err, panic, other, pure, raise, lift, ◌>>=◌, ◌>>◌,
}

-- A pointer to a struct, or nil; and a slice of such pointers, by its backing array, or nil.
abbrev pub Pointer : Type 0
Pointer = Option ℕ

abbrev pub Slice : Type 0
Slice = Option ℕ

-- The structs of one type and the arrays of pointers to them, by address. Addresses from `next` on
-- are free, among the structs and among the arrays.
pub record Heap (A : Type 0) : Type 0 where
  pub cells : ℕ → A
  pub next_cell : ℕ
  pub arrays : ℕ → List Pointer
  pub next_array : ℕ

abbrev pub update : {A : Type 0} → (ℕ → A) → ℕ → A → ℕ → A
update f i a j = if eqb i j then a else f j

-- json.Marshal on a struct; json.Unmarshal of a value that is not null into a struct with some
-- content; the zero struct.
pub record Codec (A : Type 0) : Type 0 where
  pub marshal : A → Result Value
  pub unmarshal : Value → A → Result A
  pub zero_value : A

abbrev pub is_null : Value → Bool
is_null null = true
is_null (object ms) = false
is_null (array es) = false
is_null (text s) = false
is_null (number z) = false
is_null (boolean b) = false

-- `if err != nil { panic(message) }`
abbrev pub panicking : {W A : Type 0} → String → Exec W A → Exec W A
panicking m x w = elim (x w).0 [
  | ok a ↦ (ok a, (x w).1)
  | err e ↦ (panic m, (x w).1)
  | panic n ↦ (panic n, (x w).1)
]

abbrev pub cons_value : Result Value → Result Elements → Result Elements
cons_value (ok v) (ok es) = ok (element v es)
cons_value (ok v) (err e) = err e
cons_value (ok v) (panic m) = panic m
cons_value (err e) rest = err e
cons_value (panic m) rest = panic m

abbrev pub array_of : Result Elements → Result Value
array_of (ok es) = ok (array es)
array_of (err e) = err e
array_of (panic m) = panic m

-- Ref of the structs: a conversion of the pointer's type.
unfoldable pub ref_struct : Pointer → Pointer
ref_struct p = p

module _ {A : Type 0} where
  -- new
  unfoldable pub new_cell : A → Exec (Heap A) ℕ
  new_cell a h = (
    ok h.next_cell,
    record h { cells = update h.cells h.next_cell a; next_cell = suc h.next_cell },
  )

  -- make
  unfoldable pub new_array : List Pointer → Exec (Heap A) ℕ
  new_array ps h = (
    ok h.next_array,
    record h { arrays = update h.arrays h.next_array ps; next_array = suc h.next_array },
  )

  unfoldable pub write_cell : ℕ → A → Heap A → Heap A
  write_cell i a h = record h { cells = update h.cells i a }

  unfoldable pub write_array : ℕ → List Pointer → Heap A → Heap A
  write_array i ps h = record h { arrays = update h.arrays i ps }

  -- Ref of the lists: a copy of the backing array.
  unfoldable pub ref_list : Slice → Exec (Heap A) Slice
  unfolding new_array
  ref_list none h = (ok none, h)
  ref_list (some i) h = (do j ← new_array (h.arrays i); pure (some j)) h

module _ {A : Type 0} (C : Codec A) where
  unfoldable pub marshal_pointer : Heap A → Pointer → Result Value
  marshal_pointer h none = ok null
  marshal_pointer h (some i) = C.marshal (h.cells i)

  unfoldable pub marshal_elements : Heap A → List Pointer → Result Elements
  unfolding marshal_pointer
  marshal_elements h [] = ok no_elements
  marshal_elements h (p ∷ ps) = cons_value (marshal_pointer h p) (marshal_elements h ps)

  unfoldable pub marshal_list : Slice → Heap A → Result Value
  unfolding marshal_elements
  marshal_list none h = ok null
  marshal_list (some i) h = array_of (marshal_elements h (h.arrays i))

  unfoldable pub unmarshal_pointer : Value → Exec (Heap A) Pointer
  unfolding new_cell
  unmarshal_pointer v =
      if is_null v
      then pure none
      else (do a ← lift (C.unmarshal v C.zero_value); i ← new_cell a; pure (some i))

  unfoldable pub unmarshal_elements : Elements → Exec (Heap A) (List Pointer)
  unfolding unmarshal_pointer
  unmarshal_elements no_elements = pure []
  unmarshal_elements (element v es) = do
    p ← unmarshal_pointer v
    ps ← unmarshal_elements es
    pure (p ∷ ps)

  unfoldable pub unmarshal_list : Value → Exec (Heap A) Slice
  unfolding unmarshal_elements new_array
  unmarshal_list null = pure none
  unmarshal_list (array es) = do ps ← unmarshal_elements es; j ← new_array ps; pure (some j)
  unmarshal_list (object ms) = raise (other "cannot unmarshal")
  unmarshal_list (text s) = raise (other "cannot unmarshal")
  unmarshal_list (number z) = raise (other "cannot unmarshal")
  unmarshal_list (boolean b) = raise (other "cannot unmarshal")

  -- DeepCopy of the lists; a nil receiver is like a nil slice.
  unfoldable pub deep_copy_list : Slice → Exec (Heap A) Slice
  unfolding marshal_list unmarshal_list
  deep_copy_list c h =
      (do
        bytes ← panicking "Failed to marshal" (lift (marshal_list c h))
        panicking "Failed to unmarshal" (unmarshal_list bytes))
        h

  -- Unmarshal into a new struct, which null leaves as it is.
  unfoldable pub unmarshal_struct : Value → Exec (Heap A) ℕ
  unfolding new_cell
  unmarshal_struct v =
      if is_null v
      then new_cell C.zero_value
      else (do a ← lift (C.unmarshal v C.zero_value); new_cell a)

  -- DeepCopy of the structs.
  unfoldable pub deep_copy_struct : Pointer → Exec (Heap A) Pointer
  unfolding marshal_pointer unmarshal_struct
  deep_copy_struct c h =
      (do
        bytes ← panicking "Failed to marshal" (lift (marshal_pointer h c))
        out ← panicking "Failed to unmarshal" (unmarshal_struct bytes)
        pure (some out))
        h
