-- ===== src/Base/Value.antt =====
-- JSON values: what the operator passes on without reading it.
use Prim.Native.String.{String}
use mathlib.Core.Bool.{Bool}
use cloudflare_tunnel_operat.Base.Int.{ℤ}

mutual
  pub data Members : Type 0 where
    no_members : Members
    member : String → Value → Members → Members

  pub data Elements : Type 0 where
    no_elements : Elements
    element : Value → Elements → Elements

  pub data Value : Type 0 where
    object : Members → Value
    array : Elements → Value
    text : String → Value
    number : ℤ → Value
    boolean : Bool → Value
    null : Value
