-- ===== src/Ingress/Annotations.antt =====
-- The annotations of an Ingress: `detectCloudflareTunnelName` and `checkToBeIgnored` of
-- internal/controller/ingress_watcher.go, with strings.Split and strings.ToLower as far as the
-- code uses them.
pub mod Names
use Prim.Native.Char.{Char, code}
use cloudflare_tunnel_operat.Base.{
  ℕ, ◌+◌, String, Bool, true, false, ◌&&◌, not, Option, none, some, List, [], ◌∷◌, ◌==◌, eqb, leb,
  if◌then◌else◌,
}
use cloudflare_tunnel_operat.Base.Dict.{Dict, lookup}
use cloudflare_tunnel_operat.Base.Exec.{Result, ok, err, other}
use cloudflare_tunnel_operat.Api.{NamespacedName}

abbrev pub cf_tunnel_annotation : String
cf_tunnel_annotation = "cf-tunnel-operator.walnuts.dev/cloudflare-tunnel"

abbrev pub ignore_annotation : String
ignore_annotation = "cf-tunnel-operator.walnuts.dev/ignore"

-- A missing key reads as the empty text.
abbrev pub text_or_empty : Option String → String
text_or_empty none = ""
text_or_empty (some v) = v

abbrev pub is_slash : Char → Bool
is_slash c = eqb (code c) b'/'

unfoldable pub push : Char → List String → List String
push c [] = String.◌∷◌ c String.[] ∷ []
push c (p ∷ ps) = String.◌∷◌ c p ∷ ps

-- strings.Split(v, "/")
unfoldable pub split : String → List String
unfolding push
split String.[] = "" ∷ []
split (String.◌∷◌ c s) = let rest = split s in if is_slash c then "" ∷ rest else push c rest

abbrev pub namespaced : List String → Result NamespacedName
namespaced (ns ∷ name ∷ []) = ok (record { namespace = ns; name = name })
namespaced _ = err (other "invalid annotation value, expected format: namespace/name")

unfoldable pub detect_cloudflare_tunnel_name : Dict String → Result NamespacedName
unfolding lookup split
detect_cloudflare_tunnel_name annotations =
    let v = text_or_empty (lookup cf_tunnel_annotation annotations) in
    if v == "" then ok (record { namespace = ""; name = "" }) else namespaced (split v)

-- strings.ToLower, on code points. No character outside ASCII has a lower case among the letters
-- of "false", so the comparison with it is that of the source.
to_lower : ℕ → ℕ
to_lower c = if leb b'A' c && leb c b'Z' then c + 32 else c

equals_folded : String → String → Bool
unfolding to_lower
equals_folded String.[] String.[] = true
equals_folded String.[] (String.◌∷◌ d t) = false
equals_folded (String.◌∷◌ c s) String.[] = false
equals_folded (String.◌∷◌ c s) (String.◌∷◌ d t) =
    eqb (to_lower (code c)) (code d) && equals_folded s t

abbrev ignored_value : Option String → Bool
unfolding equals_folded
ignored_value none = false
ignored_value (some v) = not (equals_folded v "false") && not (v == "0")

unfoldable pub check_to_be_ignored : Dict String → Bool
unfolding lookup ignored_value equals_folded
check_to_be_ignored annotations = ignored_value (lookup ignore_annotation annotations)
