-- ===== src/Link/Serve/Whole.antt =====
-- internal/linkselector/selector.go: a client of the link host gets whole responses, or none.
use telegram_server.Common.{
  ℕ, zero, suc, ◌≤◌, ◌<◌, ◌≡◌, ◌⊎◌, ◌↔◌, ◌∙◌, inl, inr, refl, ap, Bool, true, false, some, List, [],
  ◌∷◌, length, take, leb, if◌then◌else◌, Bool-cases, Option-cases, arith,
}
use telegram_server.Common.Text.{Text}
use telegram_server.Link.Headers.{Header, copy_response_headers}
use telegram_server.Link.Serve.{
  Upstream, read_limited, unavailable, relayed, is_head, reservation, stage, begin_web, serve_web,
  max_web_body,
}

take_all {ℓ} : {A : Type ℓ} (n : ℕ) (xs : List A) → length xs ≤ n → take n xs ≡ xs
take_all zero [] h = refl
take_all zero (x ∷ xs) h = absurd (omega arith)
take_all (suc n) [] h = refl
take_all (suc n) (x ∷ xs) h = ap (◌∷◌ x) (take_all n xs (omega arith))

length-take_more {ℓ} :
    {A : Type ℓ} (n : ℕ) (xs : List A) → n < length xs → length (take (suc n) xs) ≡ suc n
length-take_more n [] h = absurd (omega arith)
length-take_more zero (x ∷ xs) h = refl
length-take_more (suc n) (x ∷ xs) h = ap suc (length-take_more n xs (omega arith))

-- An upstream whose response is passed on.
pub record IsWhole (u : Upstream) : Type 0 where
  pub no_error : u.status < 500
  pub closed : u.close_fails ≡ false
  pub fits : length u.body ≤ max_web_body
  pub unbroken : u.breaks ≡ false

read_whole :
    (limit : ℕ) (u : Upstream) (body : Text)
    → read_limited limit u ≡ some body
    → length body ≤ limit
    → (body ≡ u.body) × (length u.body ≤ limit) × (u.breaks ≡ false)
unfolding read_limited
read_whole limit u body e h = elim (Bool-cases (leb (length u.body) limit)) [
  | inl short ↦
      let fits : length u.body ≤ limit = ground (arith, short) in
      (ground (arith, e, short, take_all (suc limit) u.body), fits, ground (arith, e, short))
  | inr long ↦
      let more : limit < length u.body = ground (arith, long) in
      let same : body ≡ take (suc limit) u.body = ground (arith, e, long) in
      absurd (omega (arith, h, ap length same, length-take_more limit u.body more))
]

stage-IsWhole :
    (u : Upstream) (status : ℕ) (headers : Header) (body : Text)
    → u.status < 500
    → stage u ≡ relayed status headers body
    → IsWhole u
      × (body ≡ u.body)
      × (status ≡ u.status)
      × (headers ≡ copy_response_headers [] u.headers)
unfolding stage
stage-IsWhole u status headers body ok e = elim (Option-cases (read_limited max_web_body u)) [
  | inl n ↦ absurd (ground (arith, rw (n, stage) at e))
  | inr (all, r) ↦
      let e' = rw (r, stage) at e in
      let short : length all ≤ max_web_body = ground (arith, e') in
      let (same, fits, unbroken) = read_whole max_web_body u all r short in
      (
        record { no_error = ok; closed = ground (arith, e'); fits = fits; unbroken = unbroken },
        ground (arith, e', same),
        ground (arith, e'),
        ground (arith, e'),
      )
]

-- The body of an answer to a method.
abbrev pub answered_body : Text → Upstream → Text
answered_body method u = if is_head method then [] else u.body

-- A body that was read to its end, with the bytes that its length asks for reserved.
pub record IsRead (u : Upstream) (has_room : ℕ → Bool) : Type 0 where
  pub fits : length u.body ≤ max_web_body
  pub unbroken : u.breaks ≡ false
  pub reserved : ℕ
  pub asked : reservation u ≡ some reserved
  pub room : has_room reserved ≡ true

-- What a response that is passed on is.
pub record IsRelayed (method : Text) (u : Upstream) (has_room : ℕ → Bool) (status : ℕ)
    (headers : Header) (body : Text) : Type 0 where
  pub no_error : u.status < 500
  pub closed : u.close_fails ≡ false
  pub same_status : status ≡ u.status
  pub stripped : headers ≡ copy_response_headers [] u.headers
  pub same_body : body ≡ answered_body method u
  pub whole : (is_head method ≡ true) ⊎ IsRead u has_room

head-IsRelayed :
    (method : Text) (u : Upstream) (has_room : ℕ → Bool) (status : ℕ) (headers : Header)
    (body : Text)
    → u.status < 500
    → is_head method ≡ true
    → (if u.close_fails
        then unavailable 502
        else relayed u.status (copy_response_headers [] u.headers) [])
      ≡ relayed status headers body
    → IsRelayed method u has_room status headers body
head-IsRelayed method u has_room status headers body ok h e = record {
  no_error = ok;
  closed = ground (arith, e);
  same_status = ground (arith, e);
  stripped = ground (arith, e);
  same_body = ground (arith, e, h);
  whole = inl h;
}

relayed-IsRelayed :
    (method : Text) (u : Upstream) (has_room : ℕ → Bool) (status : ℕ) (headers : Header)
    (body : Text)
    → serve_web method (some u) has_room ≡ relayed status headers body
    → IsRelayed method u has_room status headers body
unfolding serve_web begin_web
relayed-IsRelayed method u has_room status headers body e = elim (Bool-cases (leb 500 u.status)) [
  | inl s ↦ absurd (ground (arith, rw (s, serve_web) at e))
  | inr s ↦
      let ok : u.status < 500 = ground (arith, s) in
      elim (Bool-cases (is_head method)) [
        | inl h ↦
            head-IsRelayed method u has_room status headers body ok h (rw (s, h, serve_web) at e)
        | inr h ↦ elim (Option-cases (reservation u)) [
          | inl r ↦ absurd (ground (arith, rw (s, h, r, serve_web) at e))
          | inr (n, r) ↦ elim (Bool-cases (has_room n)) [
            | inr f ↦ absurd (ground (arith, rw (s, h, r, f, serve_web) at e))
            | inl f ↦
                let (v, same, st, hs) =
                  stage-IsWhole u status headers body ok (rw (s, h, r, f, serve_web) at e) in
                record {
                  no_error = ok;
                  closed = v.closed;
                  same_status = st;
                  stripped = hs;
                  same_body = ground (arith, same, h);
                  whole = inr (record {
                    fits = v.fits;
                    unbroken = v.unbroken;
                    reserved = n;
                    asked = r;
                    room = f;
                  });
                }
          ]
        ]
      ]
]

stage-relayed :
    (u : Upstream)
    → IsWhole u
    → stage u ≡ relayed u.status (copy_response_headers [] u.headers) u.body
unfolding stage read_limited
stage-relayed u v = ground (arith, v.closed, v.unbroken, v.fits, take_all (suc max_web_body) u.body)

whole-relayed :
    (method : Text) (u : Upstream) (has_room : ℕ → Bool) (n : ℕ)
    → IsWhole u
    → is_head method ≡ false
    → reservation u ≡ some n
    → has_room n ≡ true
    → serve_web method (some u) has_room
      ≡ relayed u.status (copy_response_headers [] u.headers) u.body
unfolding serve_web begin_web
whole-relayed method u has_room n v h r room =
    let s : leb 500 u.status ≡ false = ground (arith, v.no_error) in
    rw (s, h, r, room, serve_web) (stage-relayed u v)

IsRelayed-relayed :
    (method : Text) (u : Upstream) (has_room : ℕ → Bool) (status : ℕ) (headers : Header)
    (body : Text)
    → IsRelayed method u has_room status headers body
    → serve_web method (some u) has_room ≡ relayed status headers body
unfolding serve_web begin_web
IsRelayed-relayed method u has_room status headers body v =
    let s : leb 500 u.status ≡ false = ground (arith, v.no_error) in
    let same : relayed u.status (copy_response_headers [] u.headers) (answered_body method u)
        ≡ relayed status headers body =
      cc (v.same_status, v.stripped, v.same_body) in
    elim (Bool-cases (is_head method)) [
      | inl h ↦ rw (s, h, v.closed, serve_web) (rw h at same)
      | inr h ↦ elim v.whole [
        | inl h' ↦ absurd (ground (arith, h, h'))
        | inr r ↦
            let w : IsWhole u = record {
              no_error = v.no_error;
              closed = v.closed;
              fits = r.fits;
              unbroken = r.unbroken;
            } in
            whole-relayed method u has_room r.reserved w h r.asked r.room ∙ rw h at same
      ]
    ]

-- What the web client's server answers is passed on exactly if it comes whole: with a status below 500,
-- a body that closes, and unless the method is HEAD one that is read to its end, of 32 MiB at most, with
-- the bytes that its length asks for reserved. It then has its own status, the headers that are not for
-- one hop, and its whole body, none to HEAD.
pub serve_web-IsRelayed :
    (method : Text) (u : Upstream) (has_room : ℕ → Bool) (status : ℕ) (headers : Header)
    (body : Text)
    → (serve_web method (some u) has_room ≡ relayed status headers body)
      ↔ IsRelayed method u has_room status headers body
serve_web-IsRelayed method u has_room status headers body = (
  relayed-IsRelayed method u has_room status headers body,
  IsRelayed-relayed method u has_room status headers body,
)
