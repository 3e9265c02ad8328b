-- ===== src/Link/Landing/Answered.antt =====
-- internal/linkselector/selector.go and internal/linklanding/landing.go together: what the landing
-- service learns of a request that is not forwarded.
use telegram_server.Common.{◌≡◌, ◌⊎◌, inl, inr, refl, Bool, some, Bool-cases, Option-cases}
use telegram_server.Common.Text.{Text, codes, text_beq}
use telegram_server.Link.Target.{
  RouteClass, RequestTarget, landing, web, landing_other, invite, username, message, is_admin_path,
  link_class, is_web_path, canonical_landing_path, classify_path, classify_target, equal_fold,
  split_request_target,
}
use telegram_server.Link.Landing.{is_read, response_for, static_body_for_status, route_class}

-- A path that says nothing of the request but its class.
pub record IsRedacted (class : RouteClass) (path : Text) : Type 0 where
  pub fixed :
      (path ≡ canonical_landing_path class) ⊎ ((path ≡ codes "/admin") × (class ≡ landing_other))
  pub logged : route_class path ≡ class

canonical-IsRedacted : (class : RouteClass) → IsRedacted class (canonical_landing_path class)
unfolding canonical_landing_path route_class text_beq
canonical-IsRedacted landing_other = record { fixed = inl refl; logged = refl }
canonical-IsRedacted invite = record { fixed = inl refl; logged = refl }
canonical-IsRedacted username = record { fixed = inl refl; logged = refl }
canonical-IsRedacted message = record { fixed = inl refl; logged = refl }

root-IsRedacted : IsRedacted landing_other (codes "/")
unfolding canonical_landing_path
root-IsRedacted = canonical-IsRedacted landing_other

admin-IsRedacted : IsRedacted landing_other (codes "/admin")
unfolding route_class text_beq
admin-IsRedacted = record { fixed = inr (refl, refl); logged = refl }

abbrev IsPrivate : RequestTarget → Type 0
IsPrivate (landing class path) = IsRedacted class path
IsPrivate (web path query has_query) = Unit

path-IsPrivate :
    (path query : Text) (has_query : Bool) → IsPrivate (classify_path path query has_query)
unfolding classify_path
path-IsPrivate path query has_query = elim (Bool-cases (is_admin_path path)) [
  | inl a ↦ rw a admin-IsRedacted
  | inr a ↦ elim (Option-cases (link_class path)) [
    | inr (class, l) ↦ rw (a, l) (canonical-IsRedacted class)
    | inl l ↦ elim (Bool-cases (is_web_path path)) [
      | inl w ↦ rw (a, l, w) tt
      | inr w ↦ rw (a, l, w) root-IsRedacted
    ]
  ]
]

target-IsPrivate : (method uri : Text) → IsPrivate (classify_target method uri)
unfolding classify_target
target-IsPrivate method uri = elim (Bool-cases (equal_fold method (codes "CONNECT"))) [
  | inl c ↦ rw c root-IsRedacted
  | inr c ↦ elim (Option-cases (split_request_target uri)) [
    | inl n ↦ rw (c, n) root-IsRedacted
    | inr ((path, query, has_query), s) ↦ rw (c, s) (path-IsPrivate path query has_query)
  ]
]

response_body :
    (method path : Text)
    → let answer = response_for method path in static_body_for_status answer.0 ≡ some answer.1
unfolding response_for static_body_for_status
response_body method path = elim (Bool-cases (is_read method)) [
  | inr m ↦ rw m
  | inl m ↦ elim (Bool-cases (is_admin_path path)) [ inl a ↦ rw (m, a) | inr a ↦ rw (m, a) ]
]

-- Whatever the method and the request URI: a request that is not forwarded asks the landing service for
-- the one fixed path of its class, or for /admin, and the service logs for that path the class that the
-- selector has found; and for every method its answer has the page that the selector puts in its place.
pub classify_target-IsRedacted :
    (method uri path : Text) (class : RouteClass) (asked : Text)
    → classify_target method uri ≡ landing class path
    → IsRedacted class path
      × (let answer = response_for asked path in static_body_for_status answer.0 ≡ some answer.1)
classify_target-IsRedacted method uri path class asked e =
    (rw e at (target-IsPrivate method uri), response_body asked path)
