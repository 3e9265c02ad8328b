-- ===== src/Discovery/Tests.antt =====
-- Runs of the discovery request and response, with keys that are their own DER form.
use telegram_server.Common.{ℕ, ◌+◌, ◌^◌, ◌≡◌, ◌↔◌, refl, Option, none, some, [], ◌∷◌, ◌++◌, arith}
use telegram_server.Common.Text.{Text, codes}
use telegram_server.Discovery.{Keys, build_response, parse_response, response_magic}
use telegram_server.Discovery.Wire.{IsBytes}
use telegram_server.Discovery.Inverse.{parse_response_lem}

abbrev byte_key : Text → Option ℕ
byte_key (k ∷ []) = some k
byte_key other = none

byte_key_own : (key : ℕ) (der : Text) → some (key ∷ []) ≡ some der → byte_key der ≡ some key
byte_key_own key der e = let same : key ∷ [] ≡ der = cc e in rw (← same) refl

abbrev byte_keys : Keys
byte_keys = record {
  Key = ℕ;
  modulus = λ key. 2 ^ 2047 + 1;
  exponent = λ key. 65_537;
  marshal = λ key. some (key ∷ []);
  parse = byte_key;
  parse-marshal = byte_key_own;
}

abbrev nonce : Text
nonce = codes "abcdefghijklmnopqrstuvwxyz012345"

abbrev response : Text
response = response_magic ++ (nonce ++ (0 ∷ 0 ∷ 0 ∷ 7 ∷ 0 ∷ 0 ∷ 0 ∷ 2 ∷ 0 ∷ 1 ∷ 77 ∷ []))

bytes : IsBytes response
bytes = ground arith

parse_response_lem_example :
    (parse_response byte_keys response nonce ≡ some (2, 77))
    ↔ (build_response byte_keys 2 77 nonce ≡ some response)
parse_response_lem_example = parse_response_lem byte_keys 2 77 nonce response bytes
