-- ===== src/Discovery/Body.antt =====
-- internal/discovery/discovery.go: the body of a response, its data centre and its key.
use telegram_server.Common.{
  ℕ, ◌+◌, ◌%◌, ◌^◌, ◌≤◌, ◌<◌, ◌≡◌, refl, sym, ap, ◌∙◌, true, false, not, ◌||◌, some, ◌++◌, length,
  length-append, take, ltb, ◌!=◌, Bool-cases, Option-cases, inl, inr, arith,
}
use telegram_server.Common.Text.{Text, text_beq, text_beq_iff}
use telegram_server.Discovery.{
  Keys, max_spki_length, is_spki_length, validate_dc_id, widen, validate_public_key, marshal_spki,
  parsed_spki, parse_spki, parse_key, parse_dc_id, parse_body,
}
use telegram_server.Discovery.Wire.{
  put32, put16, get32, get16, IsBytes, get32-put32, get16-put16, put32-get32, put16-get16,
}
use telegram_server.Discovery.Slices.{
  take_all, All-append_right, length-put32, length-put16, widen_same,
}

module _ (keys : Keys) where
  open keys use {Key, marshal, parse, parse-marshal}

  pub parsed-marshal :
      (der : Text) (k key : Key)
      → parsed_spki keys der k ≡ some key
      → marshal_spki keys key ≡ some der
  unfolding parsed_spki marshal_spki
  parsed-marshal der k key e = elim (Bool-cases (validate_public_key keys k)) [
    | inr v ↦ absurd (ground (arith, rw (v, parsed_spki) at e))
    | inl v ↦ elim (Option-cases (marshal k)) [
      | inl m ↦ absurd (ground (arith, rw (v, m, parsed_spki) at e))
      | inr (canonical, m) ↦ elim (Bool-cases (text_beq canonical der)) [
        | inr d ↦ absurd (ground (arith, rw (v, m, d, parsed_spki) at e))
        | inl d ↦
            let same : canonical ≡ der = (text_beq_iff canonical der).0 d in
            let whole : k ≡ key = cc (rw (v, m, d, parsed_spki) at e) in
            rw (← whole) (rw (v, m) (ap some same))
      ]
    ]
  ]

  pub parse-marshal_spki :
      (key : Key) (der : Text)
      → parse_spki keys der ≡ some key
      → (marshal_spki keys key ≡ some der) × (is_spki_length (length der) ≡ true)
  unfolding parse_spki
  parse-marshal_spki key der e = elim (Bool-cases (is_spki_length (length der))) [
    | inr l ↦ absurd (ground (arith, rw (l, parse_spki) at e))
    | inl l ↦ elim (Option-cases (parse der)) [
      | inl p ↦ absurd (ground (arith, rw (l, p, parse_spki) at e))
      | inr (k, p) ↦ (parsed-marshal der k key (rw (l, p, parse_spki) at e), l)
    ]
  ]

  pub marshal-parse_spki :
      (key : Key) (der : Text)
      → marshal_spki keys key ≡ some der
      → is_spki_length (length der) ≡ true
      → parse_spki keys der ≡ some key
  unfolding parse_spki parsed_spki marshal_spki
  marshal-parse_spki key der e l = elim (Bool-cases (validate_public_key keys key)) [
    | inr v ↦ absurd (ground (arith, rw (v, marshal_spki) at e))
    | inl v ↦
        let m : marshal key ≡ some der = rw (v, marshal_spki) at e in
        rw (l, parse-marshal key der m, v, m, (text_beq_iff der der).1 refl)
  ]

  pub key-parse :
      (dc_id : ℕ) (key : Key) (der : Text)
      → marshal_spki keys key ≡ some der
      → is_spki_length (length der) ≡ true
      → parse_key keys (6 + length der) dc_id (length der) der ≡ some (dc_id, key)
  unfolding parse_key
  key-parse dc_id key der m l =
      let all : take (length der) der ≡ der = take_all der (length der) refl in
      let same : (6 + length der != 6 + length der) ≡ false = ground arith in
      rw (l, same, all, marshal-parse_spki key der m l)

  abbrev pub body_of : ℕ → Text → Text
  body_of dc_id der = put32 (dc_id % 2 ^ 32) ++ (put16 (length der) ++ der)

  pub length-body_of : (dc_id : ℕ) (der : Text) → length (body_of dc_id der) ≡ 6 + length der
  unfolding put32 put16
  length-body_of dc_id der = omega arith

  pub body-parse :
      (dc_id : ℕ) (key : Key) (der : Text)
      → validate_dc_id dc_id ≡ true
      → marshal_spki keys key ≡ some der
      → is_spki_length (length der) ≡ true
      → parse_body keys (some (6 + length der, body_of dc_id der)) ≡ some (dc_id, key)
  unfolding parse_body
  body-parse dc_id key der v m l =
      let small : length der ≤ 4_096 = ground (arith, l) in
      let inside : (ltb (6 + length der) 6 || ltb (max_spki_length + 6) (6 + length der)) ≡ false =
        ground (arith, small) in
      let whole : (length (body_of dc_id der) != 6 + length der) ≡ false =
        ground (arith, length-body_of dc_id der) in
      let first = get32-put32 (dc_id % 2 ^ 32) (put16 (length der) ++ der) (omega arith) in
      let second = get16-put16 (length der) der (omega (arith, small)) in
      rw (inside, whole, first, widen_same dc_id v, v, second, widen_same dc_id v)
        (key-parse dc_id key der m l)

  pub key_inv :
      (body_len dc_id spki_len : ℕ) (rest : Text) (dc : ℕ) (key : Key)
      → length rest + 6 ≡ body_len
      → parse_key keys body_len dc_id spki_len rest ≡ some (dc, key)
      → (dc ≡ dc_id)
        × (spki_len ≡ length rest)
        × (marshal_spki keys key ≡ some rest)
        × (is_spki_length (length rest) ≡ true)
  unfolding parse_key
  key_inv body_len dc_id spki_len rest dc key whole e =
      elim (Bool-cases (not (is_spki_length spki_len) || body_len != 6 + spki_len)) [
        | inl bad ↦ absurd (ground (arith, rw (bad, parse_key) at e))
        | inr good ↦ elim (Option-cases (parse_spki keys (take spki_len rest))) [
          | inl n ↦ absurd (ground (arith, rw (good, n, parse_key) at e))
          | inr (k, p) ↦
              let e' = rw (good, p, parse_key) at e in
              let same_key : k ≡ key = cc e' in
              let len : spki_len ≡ length rest = ground (arith, good, whole) in
              let all : take spki_len rest ≡ rest = take_all rest spki_len (sym len) in
              let (m, l) = parse-marshal_spki key rest (rw (← same_key, ← all) p) in
              (cc e', len, m, l)
        ]
      ]

  pub dc_inv :
      (n dc : ℕ)
      → n < 2 ^ 32
      → validate_dc_id (widen n) ≡ true
      → dc ≡ widen n
      → (n ≡ dc % 2 ^ 32) × (validate_dc_id dc ≡ true)
  unfolding validate_dc_id widen
  dc_inv n dc small v e = (ground (arith, small, v, e), rw e v)

  pub words_inv :
      (body_len : ℕ) (body : Text) (dc : ℕ) (key : Key)
      → IsBytes body
      → length body ≡ body_len
      → parse_dc_id keys body_len (get32 body) ≡ some (dc, key)
      → (der : Text) × (body ≡ body_of dc der)
        × (body_len ≡ 6 + length der)
        × (validate_dc_id dc ≡ true)
        × (marshal_spki keys key ≡ some der)
        × (is_spki_length (length der) ≡ true)
  words_inv body_len body dc key bytes whole e = elim (Option-cases (get32 body)) [
    | inl n ↦ absurd (ground (arith, rw n at e))
    | inr ((n, rest), g) ↦ elim (Bool-cases (validate_dc_id (widen n))) [
      | inr v ↦ absurd (ground (arith, rw (g, v) at e))
      | inl v ↦ elim (Option-cases (get16 rest)) [
        | inl h ↦ absurd (ground (arith, rw (g, v, h) at e))
        | inr ((spki_len, der), h) ↦
            let (word, small) = put32-get32 body n rest bytes g in
            let rest_bytes : IsBytes rest = All-append_right (put32 n) rest (rw word at bytes) in
            let (half, short) = put16-get16 rest spki_len der rest_bytes h in
            let total : length der + 6 ≡ body_len = omega (
              arith,
              whole,
              ap length word,
              ap length half,
              length-put32 n,
              length-put16 spki_len,
              length-append (put32 n) rest,
              length-append (put16 spki_len) der,
            ) in
            let (dc_is, len, m, l) =
              key_inv body_len (widen n) spki_len der dc key total (rw (g, v, h) at e) in
            let (low, valid) = dc_inv n dc small v dc_is in
            (
              der,
              word
                  ∙ ap (λ t. put32 t ++ rest) low
                  ∙ ap (λ t. put32 (dc % 2 ^ 32) ++ t) (half ∙ ap (λ t. put16 t ++ der) len),
              omega (arith, total),
              valid,
              m,
              l,
            )
      ]
    ]
  ]

  pub body_inv :
      (body_len : ℕ) (body : Text) (dc : ℕ) (key : Key)
      → IsBytes body
      → parse_body keys (some (body_len, body)) ≡ some (dc, key)
      → (der : Text) × (body ≡ body_of dc der)
        × (body_len ≡ 6 + length der)
        × (validate_dc_id dc ≡ true)
        × (marshal_spki keys key ≡ some der)
        × (is_spki_length (length der) ≡ true)
  unfolding parse_body
  body_inv body_len body dc key bytes e =
      elim (Bool-cases (ltb body_len 6 || ltb (max_spki_length + 6) body_len)) [
        | inl bad ↦ absurd (ground (arith, rw (bad, parse_body) at e))
        | inr inside ↦ elim (Bool-cases (length body != body_len)) [
          | inl bad ↦ absurd (ground (arith, rw (inside, bad, parse_body) at e))
          | inr whole ↦
              words_inv body_len body dc key bytes (ground (arith, whole))
                (rw (inside, whole, parse_body) at e)
        ]
      ]
