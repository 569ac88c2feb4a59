-- ===== src/Random/Drawn.antt =====
-- What a random text is made of.
use cloudflare_tunnel_operat.Base.{
  ℕ, zero, suc, ◌%◌, ◌<◌, ◌≡◌, refl, ap, ◌∙◌, some, List, [], ◌∷◌, arith, length, get_elem?, All,
  subst, ltb, true,
}
use cloudflare_tunnel_operat.Base.Exec.{Exec, ok}
use cloudflare_tunnel_operat.Random.{letters, bytes_of, secure_string, insecure_string}

get_elem?-some : (xs : List ℕ) (i : ℕ) → i < length xs → (c : ℕ) × (get_elem? xs i ≡ some c)
get_elem?-some [] i h = ground arith
get_elem?-some (x ∷ xs) zero h = (x, refl)
get_elem?-some (x ∷ xs) (suc i) h = get_elem?-some xs i (omega arith)

-- Each letter is the one of the alphabet that the byte at its place picks.
pub data IsDrawn (base : List ℕ) : List ℕ → List ℕ → Type 0 where
  drawn_none : IsDrawn base [] []
  drawn :
      (v c : ℕ) (vs cs : List ℕ)
      → get_elem? base (v % length base) ≡ some c
      → IsDrawn base vs cs
      → IsDrawn base (v ∷ vs) (c ∷ cs)

letters_ok :
    (base vs : List ℕ)
    → 0 < length base
    → (cs : List ℕ) × (letters base vs ≡ ok cs) × (length cs ≡ length vs) × IsDrawn base vs cs
unfolding letters
letters_ok base [] n = ([], refl, refl, drawn_none)
letters_ok base (v ∷ vs) n =
    let (c, e) = get_elem?-some base (v % length base) (omega arith) in
    let (cs, r, l, d) = letters_ok base vs n in
    (c ∷ cs, ground (arith, e, r), ap suc l, drawn v c vs cs e d)

abbrev pub IsAscii : ℕ → Type 0
IsAscii c = c < 128

-- An ASCII text is its bytes.
bytes_of_ascii : (cs : List ℕ) → All IsAscii cs → bytes_of cs ≡ cs
unfolding bytes_of
bytes_of_ascii [] a = refl
bytes_of_ascii (c ∷ cs) a =
    let rest = bytes_of_ascii cs a.1 in
    let small : ltb c 128 ≡ true = ground (arith, a.0) in rw (small, rest) refl

element-IsAscii :
    (base : List ℕ) (i c : ℕ) → All IsAscii base → get_elem? base i ≡ some c → IsAscii c
element-IsAscii [] i c a e = ground (arith, e)
element-IsAscii (x ∷ xs) zero c a e = let same : x ≡ c = ground (arith, e) in subst IsAscii same a.0
element-IsAscii (x ∷ xs) (suc i) c a e = element-IsAscii xs i c a.1 e

drawn-IsAscii :
    (base : List ℕ) → All IsAscii base → {vs cs : List ℕ} → IsDrawn base vs cs → All IsAscii cs
drawn-IsAscii base a drawn_none = tt
drawn-IsAscii base a (drawn v c vs cs e d) =
    (element-IsAscii base (v % length base) c a e, drawn-IsAscii base a d)

module _ {W : Type 0} (read : ℕ → Exec W (List ℕ)) where
  -- Where the alphabet is not empty and all ASCII and rand.Read fills the bytes that it is asked for,
  -- SecureString answers a text of the length in bytes that was asked for, with no panic, and each of
  -- its letters is the letter of the alphabet at the byte modulo the alphabet's length.
  pub secure_string-IsDrawn :
      (n : ℕ) (base bytes : List ℕ) (w w' : W)
      → 0 < length base
      → All IsAscii base
      → read n w ≡ (ok bytes, w')
      → length bytes ≡ n
      → (cs : List ℕ) × (secure_string read n base w ≡ (ok cs, w'))
        × (length (bytes_of cs) ≡ n)
        × IsDrawn base bytes cs
  unfolding secure_string
  secure_string-IsDrawn n base bytes w w' h a r l =
      let (cs, e, k, d) = letters_ok base bytes h in
      let same = bytes_of_ascii base a in
      (
        cs,
        ground (arith, r, e, same),
        ap length (bytes_of_ascii cs (drawn-IsAscii base a d)) ∙ k ∙ l,
        d,
      )

abbrev pub IsLetter : List ℕ → ℕ → Type 0
IsLetter base c = (i : ℕ) × (get_elem? base i ≡ some c)

module _ {W : Type 0} (int_n : ℕ → Exec W ℕ) where
  -- IntN(m) answers a number below m.
  abbrev pub IsBounded : Type 0
  IsBounded = (m : ℕ) → 0 < m → (w : W) → (i : ℕ) × (w' : W) × (int_n m w ≡ (ok i, w')) × (i < m)

  -- Where the alphabet is not empty, InsecureString ends with no panic in a text of the length that
  -- was asked for, each of its letters one of the alphabet's.
  pub insecure_string-IsLetter :
      (n : ℕ) (base : List ℕ) (w : W)
      → IsBounded
      → 0 < length base
      → (cs : List ℕ) × (w' : W) × (insecure_string int_n n base w ≡ (ok cs, w'))
        × (length cs ≡ n)
        × All (IsLetter base) cs
  unfolding insecure_string
  insecure_string-IsLetter zero base w b h = ([], w, refl, refl, tt)
  insecure_string-IsLetter (suc n) base w b h =
      let (i, w₁, e, l) = b (length base) h w in
      let (c, q) = get_elem?-some base i l in
      let (cs, w₂, r, k, a) = insecure_string-IsLetter n base w₁ b h in
      (c ∷ cs, w₂, ground (arith, e, q, r, h), ap suc k, ((i, q), a))
