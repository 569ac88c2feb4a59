-- ===== src/External/Comment.antt =====
-- The comment that marks a DNS record as the operator's: encoding/json on DNSComment
-- (pkg/external/cloudflare.go). Escapes are those of json.Marshal for a text.
use Prim.Native.Char.{Char, code}
use cloudflare_tunnel_operat.Base.{ℕ, ◌-◌, String, ◌<>◌, eqb, ltb, if◌then◌else◌}

-- A hexadecimal digit below 16.
hex_digit : ℕ → String
hex_digit n =
    if eqb n 0
    then "0"
    else if eqb n 1
    then "1"
    else if eqb n 2
    then "2"
    else if eqb n 3
    then "3"
    else if eqb n 4
    then "4"
    else if eqb n 5
    then "5"
    else if eqb n 6
    then "6"
    else if eqb n 7
    then "7"
    else if eqb n 8
    then "8"
    else if eqb n 9
    then "9"
    else if eqb n 10
    then "a"
    else if eqb n 11
    then "b"
    else if eqb n 12
    then "c"
    else if eqb n 13
    then "d"
    else if eqb n 14
    then "e"
    else "f"

-- Control characters with no short escape.
control_escape : ℕ → String
unfolding hex_digit
control_escape n = if ltb n 16 then "\\u000" <> hex_digit n else "\\u001" <> hex_digit (n - 16)

unfoldable pub escape_char : Char → String
unfolding control_escape
escape_char c =
    let n = code c in
    if eqb n 34
    then "\\\""
    else if eqb n 92
    then "\\\\"
    else if eqb n 8
    then "\\b"
    else if eqb n 12
    then "\\f"
    else if eqb n 10
    then "\\n"
    else if eqb n 13
    then "\\r"
    else if eqb n 9
    then "\\t"
    else if ltb n 32
    then control_escape n
    else if eqb n 60
    then "\\u003c"
    else if eqb n 62
    then "\\u003e"
    else if eqb n 38
    then "\\u0026"
    else if eqb n 8232
    then "\\u2028"
    else if eqb n 8233
    then "\\u2029"
    else String.◌∷◌ c String.[]

unfoldable pub escape : String → String
unfolding escape_char
escape String.[] = ""
escape (String.◌∷◌ c s) = escape_char c <> escape s

unfoldable pub dns_comment : String → String
unfolding escape
dns_comment tunnel_id =
    "{\"managed-by\":\"cloudflare-tunnel-operator\",\"tunnelID\":\"" <> escape tunnel_id <> "\"}"
