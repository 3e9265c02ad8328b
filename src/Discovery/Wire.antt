-- ===== src/Discovery/Wire.antt =====
-- encoding/binary's big-endian words, as internal/discovery/discovery.go uses them.
use telegram_server.Common.{
  ℕ, ◌+◌, ◌*◌, ◌/◌, ◌%◌, ◌^◌, ◌<◌, ◌≡◌, Option, none, some, [], ◌∷◌, ◌++◌, All, arith,
}
use telegram_server.Common.Text.{Text}

-- `PutUint32` and `PutUint16`.
unfoldable pub put32 : ℕ → Text
put32 n = n / 2 ^ 24 % 256 ∷ n / 2 ^ 16 % 256 ∷ n / 2 ^ 8 % 256 ∷ n % 256 ∷ []

unfoldable pub put16 : ℕ → Text
put16 n = n / 2 ^ 8 % 256 ∷ n % 256 ∷ []

-- `Uint32` and `Uint16` of the first bytes, with the others.
unfoldable pub get32 : Text → Option (ℕ × Text)
get32 (a ∷ b ∷ c ∷ d ∷ rest) = some (a * 2 ^ 24 + b * 2 ^ 16 + c * 2 ^ 8 + d, rest)
get32 short = none

unfoldable pub get16 : Text → Option (ℕ × Text)
get16 (a ∷ b ∷ rest) = some (a * 2 ^ 8 + b, rest)
get16 short = none

abbrev pub IsBytes : Text → Type 0
IsBytes s = All (λ c. c < 256) s

pub get32-put32 : (n : ℕ) (rest : Text) → n < 2 ^ 32 → get32 (put32 n ++ rest) ≡ some (n, rest)
unfolding get32 put32
get32-put32 n rest h = ground arith

pub get16-put16 : (n : ℕ) (rest : Text) → n < 2 ^ 16 → get16 (put16 n ++ rest) ≡ some (n, rest)
unfolding get16 put16
get16-put16 n rest h = ground arith

-- Bytes that are read are those that the word is written with.
pub put32-get32 :
    (s : Text) (n : ℕ) (rest : Text)
    → IsBytes s
    → get32 s ≡ some (n, rest)
    → (s ≡ put32 n ++ rest) × (n < 2 ^ 32)
unfolding get32 put32
put32-get32 [] n rest b e = cc
put32-get32 (a ∷ []) n rest b e = cc
put32-get32 (a ∷ b ∷ []) n rest bytes e = cc
put32-get32 (a ∷ b ∷ c ∷ []) n rest bytes e = cc
put32-get32 (a ∷ b ∷ c ∷ d ∷ s) n rest bytes e =
    let value : a * 2 ^ 24 + b * 2 ^ 16 + c * 2 ^ 8 + d ≡ n = ground (arith, e) in
    let same : s ≡ rest = ground (arith, e) in
    let la : a < 256 = bytes.0 in
    let lb : b < 256 = bytes.1.0 in
    let lc : c < 256 = bytes.1.1.0 in
    let ld : d < 256 = bytes.1.1.1.0 in
    let ea : a ≡ n / 2 ^ 24 % 256 = omega (arith, value) in
    let eb : b ≡ n / 2 ^ 16 % 256 = omega (arith, value) in
    let ec : c ≡ n / 2 ^ 8 % 256 = omega (arith, value) in
    let ed : d ≡ n % 256 = omega (arith, value) in (cc (ea, eb, ec, ed, same), omega (arith, value))

pub put16-get16 :
    (s : Text) (n : ℕ) (rest : Text)
    → IsBytes s
    → get16 s ≡ some (n, rest)
    → (s ≡ put16 n ++ rest) × (n < 2 ^ 16)
unfolding get16 put16
put16-get16 [] n rest b e = cc
put16-get16 (a ∷ []) n rest b e = cc
put16-get16 (a ∷ b ∷ s) n rest bytes e =
    let value : a * 2 ^ 8 + b ≡ n = ground (arith, e) in
    let same : s ≡ rest = ground (arith, e) in
    let la : a < 256 = bytes.0 in
    let lb : b < 256 = bytes.1.0 in
    let ea : a ≡ n / 2 ^ 8 % 256 = omega (arith, value) in
    let eb : b ≡ n % 256 = omega (arith, value) in (cc (ea, eb, same), omega (arith, value))
