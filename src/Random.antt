-- ===== src/Random.antt =====
-- Random texts (pkg/utils/random/random.go). A text is the list of its characters' codes, which
-- its bytes encode in UTF-8; the bytes of crypto/rand and the numbers of math/rand are parameters,
-- over an unknown world. A Go string that is not valid UTF-8 is not a text of the model.
pub mod Drawn
use cloudflare_tunnel_operat.Base.{
  ℕ, zero, suc, eqb, if◌then◌else◌, ◌%◌, ◌/◌, ◌+◌, ◌++◌, ltb, Option, none, some, List, [], ◌∷◌,
  length, get_elem?,
}
use cloudflare_tunnel_operat.Base.Exec.{Exec, Result, ok, err, panic, pure, lift, wrapping, ◌>>=◌}

abbrev cons_result : ℕ → Result (List ℕ) → Result (List ℕ)
cons_result c (ok cs) = ok (c ∷ cs)
cons_result c (err e) = err e
cons_result c (panic m) = panic m

abbrev cons_letter : Option ℕ → Result (List ℕ) → Result (List ℕ)
cons_letter none rest = panic "integer divide by zero"
cons_letter (some c) rest = cons_result c rest

-- The bytes of a character in UTF-8.
abbrev pub encode_rune : ℕ → List ℕ
encode_rune c =
    if ltb c 128
    then c ∷ []
    else if ltb c 2048
    then (192 + c / 64) ∷ (128 + c % 64) ∷ []
    else if ltb c 65536
    then (224 + c / 4096) ∷ (128 + (c / 64) % 64) ∷ (128 + c % 64) ∷ []
    else (240 + c / 262144) ∷ (128 + (c / 4096) % 64) ∷ (128 + (c / 64) % 64) ∷ (128 + c % 64) ∷ []

-- The bytes of a text.
unfoldable pub bytes_of : List ℕ → List ℕ
bytes_of [] = []
bytes_of (c ∷ cs) = encode_rune c ++ bytes_of cs

-- `for _, v := range b { result += string(base[int(v)%len(base)]) }` on the bytes of `base`: an index
-- is that of a byte, and `string` of a byte is the character with the byte's value as its code.
unfoldable pub letters : List ℕ → List ℕ → Result (List ℕ)
letters base [] = ok []
letters base (v ∷ vs) = cons_letter (get_elem? base (v % length base)) (letters base vs)

-- `read n` is rand.Read on n bytes.
unfoldable pub secure_string : {W : Type 0} → (ℕ → Exec W (List ℕ)) → ℕ → List ℕ → Exec W (List ℕ)
unfolding letters bytes_of
secure_string read n base = do
  b ← wrapping "failed to read random" (read n)
  lift (letters (bytes_of base) b)

abbrev element_or_panic : Option ℕ → Result ℕ
element_or_panic none = panic "index out of range"
element_or_panic (some c) = ok c

module _ {W : Type 0} (int_n : ℕ → Exec W ℕ) where
  -- `runes[mathrand.IntN(len(runes))]`; IntN panics at 0, and so does the text `base` if it is empty.
  unfoldable draw : List ℕ → Exec W ℕ
  draw base =
      if eqb (length base) 0
      then lift (panic "invalid argument to IntN")
      else (do i ← int_n (length base); lift (element_or_panic (get_elem? base i)))

  -- `for i := range result`
  unfoldable pub insecure_string : ℕ → List ℕ → Exec W (List ℕ)
  unfolding draw
  insecure_string zero base = pure []
  insecure_string (suc n) base = do c ← draw base; cs ← insecure_string n base; pure (c ∷ cs)

-- random.Random
pub record Random (W : Type 0) : Type 0 where
  pub insecure : ℕ → List ℕ → Exec W (List ℕ)
  pub secure : ℕ → List ℕ → Exec W (List ℕ)

unfoldable pub new_secure : {W : Type 0} → (ℕ → Exec W ℕ) → (ℕ → Exec W (List ℕ)) → Random W
unfolding insecure_string secure_string
new_secure int_n read = record { insecure = insecure_string int_n; secure = secure_string read }

-- The codes of "dummy".
abbrev dummy_text : List ℕ
dummy_text = 100 ∷ 117 ∷ 109 ∷ 109 ∷ 121 ∷ []

unfoldable pub new_dummy : {W : Type 0} → Random W
new_dummy = record { insecure = λ n base. pure dummy_text; secure = λ n base. pure dummy_text }
