-- ===== src/Link/Target/Forwarded.antt =====
-- internal/linkselector/selector.go: which requests are forwarded to the web client.
use telegram_server.Common.{
  ◌≡◌, ◌≢◌, inl, inr, refl, Bool, true, false, none, some, [], ◌∷◌, ◌++◌, if◌then◌else◌, Bool-cases,
  Option-cases, arith,
}
use telegram_server.Common.Text.{Text, codes, text_beq_iff, has_prefix}
use telegram_server.Common.Split.{has_prefix-eq, cut_prefix-append}
use telegram_server.Link.Target.{
  web, cut_query, split_request_target, is_admin_path, link_class, is_web_path, classify_path,
  classify_target,
}
use telegram_server.Link.Target.Paths.{Forwardable, web_path-Forwardable}

-- A request URI with its query put back.
abbrev pub uri_of : Text → Text → Bool → Text
uri_of path query has_query = path ++ (if has_query then b'?' ∷ query else [])

cut_query-uri : (s : Text) → let c = cut_query s in uri_of c.0 c.1 c.2 ≡ s
unfolding cut_query
cut_query-uri [] = refl
cut_query-uri (c ∷ s) = ground (arith, cut_query-uri s)

split_inv :
    (uri path query : Text) (has_query : Bool)
    → split_request_target uri ≡ some (path, query, has_query)
    → (uri ≡ uri_of path query has_query) × (has_prefix (b'/' ∷ []) path ≡ true)
unfolding split_request_target
split_inv uri path query has_query e = (ground (arith, e, cut_query-uri uri), ground (arith, e))

-- What is forwarded is the request's own path and query, and a path of the web client that is neither
-- the administration's nor below it, nor a link.
pub record IsForwarded (uri path query : Text) (has_query : Bool) : Type 0 where
  pub own : uri ≡ uri_of path query has_query
  pub allowed : Forwardable path
  pub not_admin : path ≢ codes "/admin"
  pub not_below_admin : (rest : Text) → path ≢ codes "/admin/" ++ rest
  pub not_link : link_class path ≡ none

path_inv :
    (source target path query : Text) (has_target has_query : Bool)
    → classify_path source target has_target ≡ web path query has_query
    → (web source target has_target ≡ web path query has_query)
      × (is_admin_path source ≡ false)
      × (link_class source ≡ none)
      × (is_web_path source ≡ true)
unfolding classify_path
path_inv source target path query has_target has_query e =
    elim (Bool-cases (is_admin_path source)) [
      | inl a ↦ absurd (ground (arith, rw a at e))
      | inr a ↦ elim (Option-cases (link_class source)) [
        | inr (class, l) ↦ absurd (ground (arith, rw (a, l) at e))
        | inl l ↦ elim (Bool-cases (is_web_path source)) [
          | inl w ↦ (rw (a, l, w) at e, a, l, w)
          | inr w ↦ absurd (ground (arith, rw (a, l, w) at e))
        ]
      ]
    ]

admin_not : (path : Text) → is_admin_path path ≡ false → path ≢ codes "/admin"
unfolding is_admin_path
admin_not path f e = ground (arith, f, (text_beq_iff path (codes "/admin")).1 e)

below_admin_not : (path rest : Text) → is_admin_path path ≡ false → path ≢ codes "/admin/" ++ rest
unfolding is_admin_path
below_admin_not path rest f e = ground (arith, f, e, cut_prefix-append (codes "/admin/") rest)

valid_inv :
    (method uri path query : Text) (has_query : Bool)
    → classify_target method uri ≡ web path query has_query
    → (source target : Text) × (has_target : Bool) × (split_request_target uri
        ≡ some (source, target, has_target))
      × (classify_path source target has_target ≡ web path query has_query)
unfolding classify_target
valid_inv method uri path query has_query e = elim (Option-cases (split_request_target uri)) [
  | inl n ↦ absurd (ground (arith, e, n))
  | inr ((source, target, has_target), s) ↦ (source, target, has_target, s, ground (arith, e, s))
]

-- Whatever the method and the request URI: a request that is forwarded to the web client has a path of
-- the web client (the root, the version file, one plain file with a dotted name, or plain names below
-- /assets/ or /changelogs/, none of them empty, "." or ".."), which is not an administration path or a
-- link, and its path and query are those of the request, unchanged.
pub classify_target-IsForwarded :
    (method uri path query : Text) (has_query : Bool)
    → classify_target method uri ≡ web path query has_query
    → IsForwarded uri path query has_query
classify_target-IsForwarded method uri path query has_query e =
    let (source, target, has_target, s, c) = valid_inv method uri path query has_query e in
    let (whole, admin, link, is_web) = path_inv source target path query has_target has_query c in
    let same : source ≡ path = cc whole in
    let split : split_request_target uri ≡ some (path, query, has_query) = cc (s, whole) in
    let (own, slash) = split_inv uri path query has_query split in
    let (inside, at) = has_prefix-eq (b'/' ∷ []) path slash in
    record {
      own = own;
      allowed = web_path-Forwardable path inside at (rw (← same) is_web);
      not_admin = admin_not path (rw (← same) admin);
      not_below_admin = λ rest. below_admin_not path rest (rw (← same) admin);
      not_link = rw (← same) link;
    }
