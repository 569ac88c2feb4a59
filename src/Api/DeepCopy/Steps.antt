-- ===== src/Api/DeepCopy/Steps.antt =====
-- The steps that the generated copies repeat (api/v1beta1/zz_generated.deepcopy.go): new structs,
-- slices and maps, behind pointers that may be nil.
use cloudflare_tunnel_operat.Base.{ℕ, String, none, some, List, [], ◌∷◌}
use cloudflare_tunnel_operat.Base.Dict.{Dict, put}
use cloudflare_tunnel_operat.Base.Exec.{Exec, Result, pure, ◌>>=◌}
use cloudflare_tunnel_operat.Api.ApplyConfiguration.{Pointer, new_cell}
use cloudflare_tunnel_operat.Api.DeepCopy.Structs.{
  Cell, Memory, a_string, an_int_or_string, strings, local_object_references, string_map,
  read_string, read_int_or_string, read_strings, read_references, read_map,
}

module _ {A : Type 0} where
  -- `if in.F != nil { ... }`, where the block ends with a new address in `out.F`.
  unfoldable pub unless_nil : (ℕ → Exec (Memory A) ℕ) → Pointer → Exec (Memory A) Pointer
  unless_nil f none = pure none
  unless_nil f (some i) = do j ← f i; pure (some j)

module _ {A X : Type 0} where
  -- *p
  unfoldable pub load : (Cell A → Result X) → ℕ → Exec (Memory A) X
  load read i h = (read (h.cells i), h)

  -- A new cell for a copy of the struct at an address: new(T) and (*in).DeepCopyInto(*out).
  unfoldable pub copy_cell :
      (Cell A → Result X) → (X → Cell A) → (X → Exec (Memory A) X) → ℕ → Exec (Memory A) ℕ
  unfolding load new_cell
  copy_cell read wrap f i = do x ← load read i; y ← f x; new_cell (wrap y)

  -- `for i := range *in { (*in)[i].DeepCopyInto(&(*out)[i]) }`
  unfoldable pub copy_each : (X → Exec (Memory A) X) → List X → Exec (Memory A) (List X)
  copy_each f [] = pure []
  copy_each f (x ∷ xs) = do y ← f x; ys ← copy_each f xs; pure (y ∷ ys)

module _ {X : Type 0} where
  -- make([]T, len(xs)), of zero values
  unfoldable pub make : X → List X → List X
  make zero_value [] = []
  make zero_value (x ∷ xs) = zero_value ∷ make zero_value xs

  -- copy(dst, src)
  unfoldable pub copy_over : List X → List X → List X
  copy_over [] src = []
  copy_over (d ∷ ds) [] = d ∷ ds
  copy_over (d ∷ ds) (s ∷ ss) = s ∷ copy_over ds ss

-- `for key, val := range *in { (*out)[key] = val }`; Go walks a map in any order, here from the end.
unfoldable pub copy_entries : Dict String → Dict String
copy_entries [] = []
copy_entries ((k, v) ∷ d) = put k v (copy_entries d)

module _ {A : Type 0} where
  unfoldable pub copy_string : ℕ → Exec (Memory A) ℕ
  unfolding copy_cell
  copy_string = copy_cell read_string a_string (λ s. pure s)

  unfoldable pub copy_int_or_string : ℕ → Exec (Memory A) ℕ
  unfolding copy_cell
  copy_int_or_string = copy_cell read_int_or_string an_int_or_string (λ s. pure s)

  unfoldable pub copy_strings : ℕ → Exec (Memory A) ℕ
  unfolding copy_cell
  copy_strings = copy_cell read_strings strings (λ xs. pure (copy_over (make "" xs) xs))

  unfoldable pub copy_references : ℕ → Exec (Memory A) ℕ
  unfolding copy_cell
  copy_references =
      copy_cell read_references local_object_references (λ xs. pure (copy_over (make "" xs) xs))

  unfoldable pub copy_map : ℕ → Exec (Memory A) ℕ
  unfolding copy_cell
  copy_map = copy_cell read_map string_map (λ d. pure (copy_entries d))
