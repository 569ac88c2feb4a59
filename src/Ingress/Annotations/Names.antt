-- ===== src/Ingress/Annotations/Names.antt =====
-- The annotation that names a tunnel is read exactly: `detect` accepts the texts
-- `namespace/name` with one slash, and returns the two parts.
use Prim.Native.Char.{Char}
use text.Mathlib.TextLemmas.{nil-append, cons-append}
use text.Mathlib.TextEquality.{Char-path}
use cloudflare_tunnel_operat.Base.{All}
use cloudflare_tunnel_operat.Base.{
  String, ◌<>◌, ◌≡◌, refl, ap, ◌∙◌, Bool, true, false, ◌||◌, ◌↔◌, List, [], ◌∷◌, ◌==◌, arith,
  Bool-cases, inl, inr, some, ◌≢◌,
}
use cloudflare_tunnel_operat.Base.Dict.{Dict, lookup}
use cloudflare_tunnel_operat.Base.Exec.{ok}
use cloudflare_tunnel_operat.Api.{NamespacedName}
use cloudflare_tunnel_operat.Ingress.Annotations.{
  is_slash, push, split, namespaced, detect_cloudflare_tunnel_name, cf_tunnel_annotation,
}

-- A text with no slash in it.
unfoldable pub has_slash : String → Bool
has_slash String.[] = false
has_slash (String.◌∷◌ c s) = is_slash c || has_slash s

split_plain : (s : String) → has_slash s ≡ false → split s ≡ s ∷ []
unfolding split has_slash push
split_plain String.[] h = refl
split_plain (String.◌∷◌ c s) h = ground (arith, split_plain s)

abbrev slash : Char
slash = "/"

slash-append : (s : String) → "/" <> s ≡ String.◌∷◌ slash s
slash-append s = cons-append slash "" s ∙ ap (String.◌∷◌ slash) (nil-append s)

split_slash : (s : String) → split ("/" <> s) ≡ "" ∷ split s
unfolding split
split_slash s = rw slash-append

split_pair :
    (ns name : String)
    → has_slash ns ≡ false
    → has_slash name ≡ false
    → split (ns <> ("/" <> name)) ≡ ns ∷ name ∷ []
unfolding split has_slash push
split_pair String.[] name h k =
    rw (nil-append ("/" <> name), split_slash name) (ap (◌∷◌ "") (split_plain name k))
split_pair (String.◌∷◌ c s) name h k = rw cons-append (ground (arith, split_pair s name))

-- The pieces with a slash between each two of them.
abbrev join : List String → String
join [] = ""
join (p ∷ []) = p
join (p ∷ q ∷ ps) = p <> ("/" <> join (q ∷ ps))

is_slash→slash : (c : Char) → is_slash c ≡ true → c ≡ slash
is_slash→slash c h = Char-path c slash (ground arith)

join-push : (c : Char) (ps : List String) → ps ≢ [] → join (push c ps) ≡ String.◌∷◌ c (join ps)
unfolding push
join-push c [] n = absurd (n refl)
join-push c (p ∷ []) n = refl
join-push c (p ∷ q ∷ ps) n = cons-append c p ("/" <> join (q ∷ ps))

split-ne-nil : (s : String) → split s ≢ []
unfolding split push
split-ne-nil String.[] e = ground arith
split-ne-nil (String.◌∷◌ c s) e = ground (arith, split-ne-nil s)

join-slash : (ps : List String) → ps ≢ [] → join ("" ∷ ps) ≡ String.◌∷◌ slash (join ps)
join-slash [] n = absurd (n refl)
join-slash (p ∷ ps) n = nil-append _ ∙ slash-append _

join-split : (s : String) → join (split s) ≡ s
unfolding split
join-split String.[] = refl
join-split (String.◌∷◌ c s) = elim (Bool-cases (is_slash c)) [
  | inl e ↦ rw e (join-slash (split s) (split-ne-nil s) ∙ cc (join-split s, is_slash→slash c e))
  | inr n ↦ rw n (join-push c (split s) (split-ne-nil s) ∙ ap (String.◌∷◌ c) (join-split s))
]

-- No piece has a slash.
split_pieces : (s : String) → All (λ p. has_slash p ≡ false) (split s)
unfolding split has_slash
split_pieces String.[] = (refl, tt)
split_pieces (String.◌∷◌ c s) = elim (Bool-cases (is_slash c)) [
  | inl e ↦ rw e (refl, split_pieces s)
  | inr n ↦ rw n (pushed (split s) n (split_pieces s))
]
  where
    pushed :
        (ps : List String)
        → is_slash c ≡ false
        → All (λ p. has_slash p ≡ false) ps
        → All (λ p. has_slash p ≡ false) (push c ps)
    pushed [] n k = (ground arith, tt)
    pushed (p ∷ ps) n k = (ground (arith, k.0), k.1)

abbrev Annotated : String → Dict String → Type 0
Annotated v annotations = lookup cf_tunnel_annotation annotations ≡ some v

-- For an annotation with a value that is not empty, a tunnel is named exactly when the value is the
-- namespace, one slash and the name, where neither part has a slash.
pub detect_exact :
    (annotations : Dict String) (v : String) (n : NamespacedName)
    → Annotated v annotations
    → (v == "") ≡ false
    → (detect_cloudflare_tunnel_name annotations ≡ ok n) ↔ (
        (v ≡ n.namespace <> ("/" <> n.name))
        × (has_slash n.namespace ≡ false)
        × (has_slash n.name ≡ false))
unfolding detect_cloudflare_tunnel_name
detect_exact annotations v n here filled = rw (here, filled) (parts, whole)
  where
    parts_of :
        (ps : List String)
        → join ps ≡ v
        → All (λ p. has_slash p ≡ false) ps
        → namespaced ps ≡ ok n
        → (v ≡ n.namespace <> ("/" <> n.name))
          × (has_slash n.namespace ≡ false)
          × (has_slash n.name ≡ false)
    parts_of [] j a e = absurd (cc)
    parts_of (p ∷ []) j a e = absurd (cc)
    parts_of (p ∷ q ∷ []) j a e = (ground (arith, a, j), ground (arith, a), ground (arith, a))
    parts_of (p ∷ q ∷ r ∷ ps) j a e = absurd (cc)

    parts :
        namespaced (split v) ≡ ok n
        → (v ≡ n.namespace <> ("/" <> n.name))
          × (has_slash n.namespace ≡ false)
          × (has_slash n.name ≡ false)
    parts = parts_of (split v) (join-split v) (split_pieces v)

    whole :
        (v ≡ n.namespace <> ("/" <> n.name))
          × (has_slash n.namespace ≡ false)
          × (has_slash n.name ≡ false)
        → namespaced (split v) ≡ ok n
    whole (e, a, b) = rw (e, split_pair n.namespace n.name a b)
