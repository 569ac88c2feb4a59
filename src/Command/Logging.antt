-- ===== src/Command/Logging.antt =====
-- `createLogger` (cmd/main.go). A text is the list of its characters' codes.
use Prim.Native.Char.{code}
use cloudflare_tunnel_operat.Base.{
  ℕ, ◌+◌, ◌-◌, String, ◌≡◌, refl, ap, Bool, true, false, ◌&&◌, List, [], ◌∷◌, arith, eqb, leb,
  if◌then◌else◌,
}

abbrev pub codes : String → List ℕ
codes String.[] = []
codes (String.◌∷◌ c s) = code c ∷ codes s

-- unicode.ToLower on ASCII and on the two other characters whose lower case is in ASCII. The rest
-- have a lower case outside ASCII, which no name below can be equal to, and stay as they are here.
abbrev lower : ℕ → ℕ
lower c =
    if leb 65 c && leb c 90
    then c + 32
    else if eqb c 304
    then 105
    else if eqb c 8490
    then 107
    else c

-- strings.ToLower
unfoldable pub to_lower : List ℕ → List ℕ
to_lower [] = []
to_lower (c ∷ cs) = lower c ∷ to_lower cs

unfoldable pub same_codes : List ℕ → List ℕ → Bool
same_codes [] [] = true
same_codes [] (d ∷ ds) = false
same_codes (c ∷ cs) [] = false
same_codes (c ∷ cs) (d ∷ ds) = let rest = same_codes cs ds in eqb c d && rest

pub data Level : Type 0 where
  debug info warn error : Level

pub data LogType : Type 0 where
  log_json log_text : LogType

-- The handler writes to standard output: the console handler for text, slog's for JSON.
pub record Logger : Type 0 where
  pub type : LogType
  pub level : Level
  pub add_source : Bool

unfoldable pub level_of : List ℕ → Level
level_of s =
    if same_codes s (codes "debug")
    then debug
    else if same_codes s (codes "info")
    then info
    else if same_codes s (codes "warn")
    then warn
    else if same_codes s (codes "error")
    then error
    else info

unfoldable pub type_of : List ℕ → LogType
type_of s =
    if same_codes s (codes "json")
    then log_json
    else if same_codes s (codes "text")
    then log_text
    else log_json

abbrev pub is_debug : Level → Bool
is_debug debug = true
is_debug info = false
is_debug warn = false
is_debug error = false

unfoldable pub create_logger : List ℕ → List ℕ → Logger
unfolding to_lower level_of type_of
create_logger level type = record {
  type = type_of (to_lower type);
  level = level_of (to_lower level);
  add_source = is_debug (level_of (to_lower level));
}

-- A spelling of a text: the small ASCII letters that a list of marks picks, in capitals.
abbrev pub upper : ℕ → ℕ
upper c = if leb 97 c && leb c 122 then c - 32 else c

abbrev pub respell : List Bool → List ℕ → List ℕ
respell [] s = s
respell (b ∷ bs) [] = []
respell (b ∷ bs) (c ∷ cs) = let rest = respell bs cs in (if b then upper c else c) ∷ rest

lower-upper : (c : ℕ) → lower (upper c) ≡ lower c
lower-upper c = ground arith

to_lower-respell : (bs : List Bool) (s : List ℕ) → to_lower (respell bs s) ≡ to_lower s
unfolding to_lower
to_lower-respell [] s = refl
to_lower-respell (b ∷ bs) [] = refl
to_lower-respell (true ∷ bs) (c ∷ cs) = rw (lower-upper c, to_lower-respell bs cs) refl
to_lower-respell (false ∷ bs) (c ∷ cs) = ap (◌∷◌ (lower c)) (to_lower-respell bs cs)

-- The flags for the level and the type of the log are read alike in small letters and in capitals:
-- any choice of letters to capitalise gives the same logger.
pub create_logger-respell :
    (ms bs : List Bool) (level type : List ℕ)
    → create_logger (respell ms level) (respell bs type) ≡ create_logger level type
unfolding create_logger
create_logger-respell ms bs level type =
    rw (to_lower-respell ms level, to_lower-respell bs type) refl
