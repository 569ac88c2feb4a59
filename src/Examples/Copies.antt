-- ===== src/Examples/Copies.antt =====
-- Copies of a list of two pointers, one of them nil, and a text of InsecureString.
use cloudflare_tunnel_operat.Base.{ℕ, String, ◌≡◌, refl, none, some, [], ◌∷◌, arith}
use cloudflare_tunnel_operat.Base.Value.{Value, text}
use cloudflare_tunnel_operat.Base.Exec.{Exec, Result, ok, err, other}
use cloudflare_tunnel_operat.Api.ApplyConfiguration.{Slice, Heap, Codec, deep_copy_list, ref_list}
use cloudflare_tunnel_operat.Api.ApplyConfiguration.Copies.{
  IsRoundTrip, IsUsed, IsApartFrom, deep_copy_list-IsApartFrom,
}
use cloudflare_tunnel_operat.Api.ApplyConfiguration.Sharing.{IsShared, ref_list-IsShared}

abbrev unmarshal_text : Value → String → Result String
unmarshal_text (text s) old = ok s
unmarshal_text _ old = err (other "not a text")

-- Structs of one text.
abbrev pub codec : Codec String
codec = record { marshal = λ s. ok (text s); unmarshal = unmarshal_text; zero_value = "" }

pub round_trip : IsRoundTrip codec
round_trip a = (text a, refl, refl, refl)

abbrev heap : Heap String
heap = record {
  cells = λ i. "zone";
  next_cell = 1;
  arrays = λ i. some 0 ∷ none ∷ [];
  next_array = 1;
}

used : IsUsed heap (some 0)
used = record { slice = omega arith; elements = (omega arith, (tt, tt)) }

deep_copy_list-IsApartFrom_example :
    (d : Slice) × (h' : Heap String) × (deep_copy_list codec (some 0) heap ≡ (ok d, h'))
    × IsApartFrom (some 0) d heap h'
deep_copy_list-IsApartFrom_example = deep_copy_list-IsApartFrom codec round_trip (some 0) heap used

ref_list-IsShared_example :
    (d : Slice) × (h' : Heap String) × (ref_list (some 0) heap ≡ (ok d, h'))
    × IsShared (some 0) d heap h'
ref_list-IsShared_example = ref_list-IsShared (some 0) heap used

-- A dice that always shows 0, in a world of one state.
abbrev dice : ℕ → Exec ℕ ℕ
dice m w = (ok 0, w)
