-- ===== src/Link/Serve.antt =====
-- internal/linkselector/selector.go: the answers to a request from what the upstreams give, and the
-- bodies that are held meanwhile. The network is an argument: an upstream that answers, or none.
pub mod Whole
pub mod Staged
use telegram_server.Common.{
  ℕ, suc, ◌+◌, ◌*◌, ◌-◌, Bool, true, false, not, ◌&&◌, ◌||◌, Option, none, some, List, [], ◌∷◌,
  length, take, ltb, leb, ◌==◌, if◌then◌else◌,
}
use telegram_server.Common.Text.{Text, codes, text_beq}
use telegram_server.Link.Headers.{Header, copy_response_headers, values}
use telegram_server.Link.Landing.{Page, static_body_for_status}

unfoldable pub max_landing_body : ℕ
max_landing_body = 4_096

unfoldable pub max_web_body : ℕ
max_web_body = 33_554_432

unfoldable pub max_staged : ℕ
max_staged = 67_108_864

-- A response of an upstream: `content_length` is `none` where it is -1, and the body is the bytes up to
-- its end, or up to an error if it `breaks`.
pub record Upstream : Type 0 where
  pub status : ℕ
  pub headers : Header
  pub content_length : Option ℕ
  pub body : Text
  pub breaks : Bool
  pub close_fails : Bool

-- `io.ReadAll(io.LimitReader(body, limit+1))`, `none` for an error: a limited read that fills up does not
-- come to the error.
unfoldable pub read_limited : ℕ → Upstream → Option Text
read_limited limit u =
    if u.breaks && leb (length u.body) limit then none else some (take (suc limit) u.body)

-- What the client gets: the fixed error page with its status, or a response.
pub data Reply : Type 0 where
  unavailable : (status : ℕ) → Reply
  relayed : (status : ℕ) (headers : Header) (body : Text) → Reply
  landed : (status : ℕ) (allow : List Text) (page : Page) (with_body : Bool) → Reply

abbrev pub is_head : Text → Bool
is_head method = text_beq method (codes "HEAD")

-- The bytes that `serveWeb` reserves for a response, `none` where it is announced as too long.
unfoldable pub reservation : Upstream → Option ℕ
reservation u = elim u.content_length [
  | none ↦ some max_web_body
  | some n ↦ if ltb max_web_body n then none else some n
]

-- `serveWeb` from the reservation that it has.
unfoldable pub stage : Upstream → Reply
unfolding read_limited
stage u = elim (read_limited max_web_body u) [
  | none ↦ unavailable 502
  | some body ↦
      if u.close_fails || ltb max_web_body (length body)
      then unavailable 502
      else relayed u.status (copy_response_headers [] u.headers) body
]

-- `serveWeb` up to its reservation: an answer, or the bytes to reserve.
pub data Begun : Type 0 where
  answered : Reply → Begun
  reserves : ℕ → Begun

unfoldable pub begin_web : Text → Option Upstream → Begun
unfolding reservation
begin_web method none = answered (unavailable 502)
begin_web method (some u) =
    if leb 500 u.status
    then answered (unavailable 502)
    else if is_head method
    then answered (
        if u.close_fails
        then unavailable 502
        else relayed u.status (copy_response_headers [] u.headers) [])
    else elim (reservation u) [ none ↦ answered (unavailable 502) | some n ↦ reserves n ]

-- The answer of `serveWeb`, where `has_room` says whether the bytes that it asks for can be reserved.
unfoldable pub serve_web : Text → Option Upstream → (ℕ → Bool) → Reply
unfolding begin_web stage
serve_web method none has_room = unavailable 502
serve_web method (some u) has_room = elim (begin_web method (some u)) [
  | answered r ↦ r
  | reserves n ↦ if has_room n then stage u else unavailable 502
]

-- `serveLanding`.
unfoldable pub serve_landing : Text → Option Upstream → Reply
unfolding read_limited static_body_for_status
serve_landing method none = unavailable 503
serve_landing method (some u) = elim (read_limited max_landing_body u) [
  | none ↦ unavailable 503
  | some body ↦
      if u.close_fails || ltb max_landing_body (length body)
      then unavailable 503
      else elim (static_body_for_status u.status) [
        | none ↦ unavailable 503
        | some page ↦
            landed u.status (if u.status == 405 then values u.headers (codes "Allow") else []) page
              (not (is_head method))
      ]
]
