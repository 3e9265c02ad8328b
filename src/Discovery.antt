-- ===== src/Discovery.antt =====
-- internal/discovery/discovery.go: the preflight request and response. crypto/x509 and crypto/rsa are a
-- parameter: a key with its modulus and exponent, its DER form, and the parsing of that.
pub mod Wire
pub mod Slices
pub mod Body
pub mod Inverse
mod Tests
use telegram_server.Common.{
  ℕ, ◌+◌, ◌*◌, ◌/◌, ◌%◌, ◌^◌, ◌-◌, ◌≡◌, Bool, true, false, not, ◌&&◌, ◌||◌, Option, none, some,
  List, [], ◌∷◌, ◌++◌, length, take, drop, ltb, leb, ◌==◌, ◌!=◌, if◌then◌else◌, is_pos, signed_lt,
}
use telegram_server.Common.Text.{Text, codes, text_beq}
use telegram_server.Discovery.Wire.{put32, put16, get32, get16}

abbrev pub request_magic : Text
request_magic = codes "telegramd-key-v1"

abbrev pub response_magic : Text
response_magic = codes "telegramd-key-r1"

abbrev pub nonce_size : ℕ
nonce_size = 32

abbrev pub max_spki_length : ℕ
max_spki_length = 4_096

-- RSA keys and x509's MarshalPKIXPublicKey and ParsePKIXPublicKey, the latter with the test that its
-- key is RSA: a key that is marshalled is parsed back.
pub record Keys : Type 1 where
  pub Key : Type 0
  pub modulus : Key → ℕ
  pub exponent : Key → ℕ
  pub marshal : Key → Option Text
  pub parse : Text → Option Key
  pub parse-marshal : (key : Key) (der : Text) → marshal key ≡ some der → parse der ≡ some key

-- `BuildPreflightRequest`.
unfoldable pub build_request : Text → Option Text
build_request nonce = if length nonce != nonce_size then none else some (request_magic ++ nonce)

-- `ValidateDCID` of an int.
unfoldable pub validate_dc_id : ℕ → Bool
validate_dc_id dc_id = is_pos dc_id && leb dc_id 2_147_483_647

-- `int(int32(n))` of a uint32.
unfoldable pub widen : ℕ → ℕ
widen n = if ltb n (2 ^ 31) then n else n + (2 ^ 64 - 2 ^ 32)

-- A length between 1 and `MaxSPKILength`.
abbrev pub is_spki_length : ℕ → Bool
is_spki_length n = leb 1 n && leb n max_spki_length

module _ (keys : Keys) where
  open keys use {Key, modulus, exponent, marshal, parse}

  -- `ValidatePublicKey` of a key whose modulus is not negative.
  unfoldable pub validate_public_key : Key → Bool
  validate_public_key key =
      leb (2 ^ 2047) (modulus key)
      && ltb (modulus key) (2 ^ 2048)
      && modulus key % 2 == 1
      && not (signed_lt (exponent key) 3)
      && exponent key % 2 == 1
      && not (signed_lt 2_147_483_647 (exponent key))

  -- `MarshalSPKI`.
  unfoldable pub marshal_spki : Key → Option Text
  marshal_spki key = if validate_public_key key then marshal key else none

  -- `ParseSPKI` of a key that was parsed.
  unfoldable pub parsed_spki : Text → Key → Option Key
  parsed_spki der key = if not (validate_public_key key) then none else elim (marshal key) [
    | none ↦ none
    | some canonical ↦ if text_beq canonical der then some key else none
  ]

  -- `ParseSPKI`.
  unfoldable pub parse_spki : Text → Option Key
  unfolding parsed_spki
  parse_spki der =
      if not (is_spki_length (length der))
      then none
      else elim (parse der) [ none ↦ none | some key ↦ parsed_spki der key ]

  -- `BuildPreflightResponse`.
  unfoldable pub build_response : ℕ → Key → Text → Option Text
  unfolding validate_dc_id
  build_response dc_id key nonce =
      if length nonce != nonce_size
      then none
      else if not (validate_dc_id dc_id)
      then none
      else elim (marshal_spki key) [
        | none ↦ none
        | some der ↦
            if not (is_spki_length (length der))
            then none
            else some (
                response_magic
                ++ (nonce
                    ++ (put32 (6 + length der)
                        ++ (put32 (dc_id % 2 ^ 32) ++ (put16 (length der) ++ der)))))
      ]

  -- `ParsePreflightResponse` from the key's length on: `rest` is what follows the length.
  unfoldable pub parse_key : ℕ → ℕ → ℕ → Text → Option (ℕ × Key)
  parse_key body_len dc_id spki_len rest =
      if not (is_spki_length spki_len) || body_len != 6 + spki_len
      then none
      else elim (parse_spki (take spki_len rest)) [ none ↦ none | some key ↦ some (dc_id, key) ]

  abbrev pub parse_dc_id : ℕ → Option (ℕ × Text) → Option (ℕ × Key)
  parse_dc_id body_len none = none
  parse_dc_id body_len (some (n, rest)) =
      if not (validate_dc_id (widen n)) then none else elim (get16 rest) [
        | none ↦ none
        | some (spki_len, der) ↦ parse_key body_len (widen n) spki_len der
      ]

  -- From the body's length on. `none` of a read is a slice out of range, which the lengths exclude.
  unfoldable pub parse_body : Option (ℕ × Text) → Option (ℕ × Key)
  parse_body none = none
  parse_body (some (body_len, body)) =
      if ltb body_len 6 || ltb (max_spki_length + 6) body_len
      then none
      else if length body != body_len
      then none
      else parse_dc_id body_len (get32 body)

  -- `ParsePreflightResponse`.
  unfoldable pub parse_response : Text → Text → Option (ℕ × Key)
  unfolding parse_body
  parse_response response nonce =
      if ltb (length response) 58
      then none
      else if not (text_beq (take 16 response) response_magic)
      then none
      else if length nonce != nonce_size || not (text_beq (take 32 (drop 16 response)) nonce)
      then none
      else parse_body (get32 (drop 48 response))
