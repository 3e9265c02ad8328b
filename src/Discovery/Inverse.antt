-- ===== src/Discovery/Inverse.antt =====
-- internal/discovery/discovery.go: the response that is built and the one that is accepted.
use telegram_server.Common.{
  ℕ, ◌+◌, ◌≡◌, ◌↔◌, refl, sym, ap, ◌∙◌, true, false, not, ◌||◌, some, ◌++◌, length, length-append,
  take, drop, ltb, ◌!=◌, Bool-cases, Option-cases, inl, inr, arith,
}
use telegram_server.Common.Text.{Text, text_beq, text_beq_iff}
use telegram_server.Discovery.{
  Keys, nonce_size, response_magic, is_spki_length, validate_dc_id, marshal_spki, build_response,
  parse_body, parse_response,
}
use telegram_server.Discovery.Wire.{put32, get32, IsBytes, get32-put32, put32-get32}
use telegram_server.Discovery.Slices.{
  take-append_len, drop-append_len, drop-IsBytes, All-append_right, length-put32, framed,
}
use telegram_server.Discovery.Body.{body-parse, body_inv, body_of, length-body_of}

module _ (keys : Keys) where
  open keys use {Key, marshal, parse, parse-marshal}

  -- The response before its body.
  abbrev response_of : ℕ → Text → Text → Text
  response_of dc_id der nonce =
      response_magic ++ (nonce ++ (put32 (6 + length der) ++ body_of keys dc_id der))

  length-response_of :
      (dc_id : ℕ) (der nonce : Text)
      → length (response_of dc_id der nonce) ≡ 16 + (length nonce + (4 + (6 + length der)))
  length-response_of dc_id der nonce = omega (
    arith,
    length-append nonce (put32 (6 + length der) ++ body_of keys dc_id der),
    length-append (put32 (6 + length der)) (body_of keys dc_id der),
    length-put32 (6 + length der),
    length-body_of keys dc_id der,
  )

  build-parse :
      (dc_id : ℕ) (key : Key) (nonce der : Text)
      → (length nonce != nonce_size) ≡ false
      → validate_dc_id dc_id ≡ true
      → marshal_spki keys key ≡ some der
      → is_spki_length (length der) ≡ true
      → parse_response keys (response_of dc_id der nonce) nonce ≡ some (dc_id, key)
  unfolding parse_response
  build-parse dc_id key nonce der n v m l =
      let size : length nonce ≡ 32 = ground (arith, n) in
      let tail = put32 (6 + length der) ++ body_of keys dc_id der in
      let long : ltb (length (response_of dc_id der nonce)) 58 ≡ false =
        ground (arith, length-response_of dc_id der nonce, size, l) in
      let got : take 32 (nonce ++ tail) ≡ nonce = take-append_len nonce tail 32 size in
      let left : drop 32 (nonce ++ tail) ≡ tail = drop-append_len nonce tail 32 size in
      let word = get32-put32 (6 + length der) (body_of keys dc_id der) (ground (arith, l)) in
      let magic : text_beq response_magic response_magic ≡ true =
        (text_beq_iff response_magic response_magic).1 refl in
      let echoed : text_beq nonce nonce ≡ true = (text_beq_iff nonce nonce).1 refl in
      rw (long, magic, n, got, echoed, left, word) (body-parse keys dc_id key der v m l)

  tail_inv :
      (rest : Text) (dc : ℕ) (key : Key)
      → IsBytes rest
      → parse_body keys (get32 rest) ≡ some (dc, key)
      → (der : Text) × (rest ≡ put32 (6 + length der) ++ body_of keys dc der)
        × (validate_dc_id dc ≡ true)
        × (marshal_spki keys key ≡ some der)
        × (is_spki_length (length der) ≡ true)
  tail_inv rest dc key bytes e = elim (Option-cases (get32 rest)) [
    | inl n ↦ unfold parse_body in absurd (ground (arith, rw n at e))
    | inr ((body_len, body), g) ↦
        let (word, small) = put32-get32 rest body_len body bytes g in
        let body_bytes : IsBytes body = All-append_right (put32 body_len) body (rw word at bytes) in
        let (der, at, len, v, m, l) = body_inv keys body_len body dc key body_bytes (rw g at e) in
        (
          der,
          word ∙ ap (λ t. put32 t ++ body) len ∙ ap (λ t. put32 (6 + length der) ++ t) at,
          v,
          m,
          l,
        )
  ]

  parse_inv :
      (response nonce : Text) (dc_id : ℕ) (key : Key)
      → IsBytes response
      → parse_response keys response nonce ≡ some (dc_id, key)
      → (length nonce ≡ 32)
        × ((der : Text) × (response ≡ response_of dc_id der nonce)
            × (validate_dc_id dc_id ≡ true)
            × (marshal_spki keys key ≡ some der)
            × (is_spki_length (length der) ≡ true))
  unfolding parse_response
  parse_inv response nonce dc_id key bytes e = elim (Bool-cases (ltb (length response) 58)) [
    | inl bad ↦ absurd (ground (arith, rw (bad, parse_response) at e))
    | inr long ↦ elim (Bool-cases (text_beq (take 16 response) response_magic)) [
      | inr bad ↦ absurd (ground (arith, rw (long, bad, parse_response) at e))
      | inl magic ↦
          elim (Bool-cases
            (length nonce != nonce_size || not (text_beq (take 32 (drop 16 response)) nonce))) [
              | inl bad ↦ absurd (ground (arith, rw (long, magic, bad, parse_response) at e))
              | inr echoed ↦
                  let size : length nonce ≡ 32 = ground (arith, echoed) in
                  let same : take 32 (drop 16 response) ≡ nonce =
                    (text_beq_iff (take 32 (drop 16 response)) nonce).0 (ground (arith, echoed)) in
                  let whole =
                    framed response nonce ((text_beq_iff (take 16 response) response_magic).0 magic)
                      same in
                  let (der, at, v, m, l) =
                    tail_inv (drop 48 response) dc_id key (drop-IsBytes 48 response bytes)
                      (rw (long, magic, echoed, parse_response) at e) in
                  (size, (der, whole ∙ ap (λ t. response_magic ++ (nonce ++ t)) at, v, m, l))
            ]
    ]
  ]

  build_inv :
      (dc_id : ℕ) (key : Key) (nonce response : Text)
      → build_response keys dc_id key nonce ≡ some response
      → parse_response keys response nonce ≡ some (dc_id, key)
  unfolding build_response
  build_inv dc_id key nonce response e = elim (Bool-cases (length nonce != nonce_size)) [
    | inl bad ↦ absurd (ground (arith, rw (bad, build_response) at e))
    | inr n ↦ elim (Bool-cases (validate_dc_id dc_id)) [
      | inr bad ↦ absurd (ground (arith, rw (n, bad, build_response) at e))
      | inl v ↦ elim (Option-cases (marshal_spki keys key)) [
        | inl bad ↦ absurd (ground (arith, rw (n, v, bad, build_response) at e))
        | inr (der, m) ↦ elim (Bool-cases (is_spki_length (length der))) [
          | inr bad ↦ absurd (ground (arith, rw (n, v, m, bad, build_response) at e))
          | inl l ↦
              let made : response_of dc_id der nonce ≡ response =
                cc (rw (n, v, m, l, build_response) at e) in
              rw (← made) (build-parse dc_id key nonce der n v m l)
        ]
      ]
    ]
  ]

  build_made :
      (dc_id : ℕ) (key : Key) (nonce der : Text)
      → length nonce ≡ 32
      → validate_dc_id dc_id ≡ true
      → marshal_spki keys key ≡ some der
      → is_spki_length (length der) ≡ true
      → build_response keys dc_id key nonce ≡ some (response_of dc_id der nonce)
  unfolding build_response
  build_made dc_id key nonce der size v m l =
      let n : (length nonce != nonce_size) ≡ false = ground (arith, size) in rw (n, v, m, l)

  -- For every key library that parses the keys that it marshals: a client accepts a response with its
  -- nonce, as that of a server with some data centre and key, exactly if it is byte for byte the
  -- response that the server builds for them. So what is built is read back, and no other bytes,
  -- trailing, shortened or encoded otherwise, are accepted.
  pub parse_response_lem :
      (dc_id : ℕ) (key : Key) (nonce response : Text)
      → IsBytes response
      → (parse_response keys response nonce ≡ some (dc_id, key))
        ↔ (build_response keys dc_id key nonce ≡ some response)
  parse_response_lem dc_id key nonce response bytes = (
    λ e.
        let (size, (der, at, v, m, l)) = parse_inv response nonce dc_id key bytes e in
        build_made dc_id key nonce der size v m l ∙ ap some (sym at),
    build_inv dc_id key nonce response,
  )
