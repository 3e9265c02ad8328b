-- ===== src/Link/Target.antt =====
-- internal/linkselector/selector.go: the target of a request, from its method and its request URI. A
-- regular expression is the test that it stands for; a dotted name is tested part by part.
pub mod Paths
pub mod Forwarded
pub mod Links
use telegram_server.Common.{
  ℕ, ◌+◌, Bool, true, false, not, ◌&&◌, ◌||◌, Option, none, some, List, [], ◌∷◌, length, is_empty,
  ltb, leb, ◌==◌, if◌then◌else◌,
}
use telegram_server.Common.Text.{
  Text, codes, text_beq, any_byte, all_bytes, cut_prefix, has_prefix, split_byte,
}

abbrev pub is_upper : ℕ → Bool
is_upper c = leb b'A' c && leb c b'Z'

abbrev pub is_lower : ℕ → Bool
is_lower c = leb b'a' c && leb c b'z'

abbrev pub is_digit : ℕ → Bool
is_digit c = leb b'0' c && leb c b'9'

-- `[A-Za-z0-9_]`, `[A-Za-z0-9_-]`, `[A-Za-z0-9_@-]`, `[A-Za-z0-9_.@-]`.
unfoldable pub is_word : ℕ → Bool
is_word c = is_upper c || is_lower c || is_digit c || c == b'_'

unfoldable pub is_dashed : ℕ → Bool
unfolding is_word
is_dashed c = is_word c || c == b'-'

unfoldable pub is_tagged : ℕ → Bool
unfolding is_dashed
is_tagged c = is_dashed c || c == b'@'

unfoldable pub is_dotted : ℕ → Bool
unfolding is_tagged
is_dotted c = is_tagged c || c == b'.'

-- `^…+$` over a class of bytes.
abbrev pub is_run : (ℕ → Bool) → Text → Bool
is_run p s = not (is_empty s) && all_bytes p s

-- `usernamePart`, `messageIDPart`, `invitePart` and `assetPart`.
unfoldable pub is_username : Text → Bool
unfolding all_bytes is_word
is_username [] = false
is_username (c ∷ s) =
    (is_upper c || is_lower c) && all_bytes is_word s && leb 1 (length s) && leb (length s) 31

unfoldable pub is_message_id : Text → Bool
unfolding all_bytes
is_message_id s = is_run is_digit s

unfoldable pub is_invite : Text → Bool
unfolding all_bytes is_dashed
is_invite s = is_run is_dashed s

unfoldable pub is_asset_part : Text → Bool
unfolding all_bytes is_dotted
is_asset_part s = is_run is_dotted s

-- `rootFilePattern`: a dashed part, a dot, and one or more tagged parts with dots between.
unfoldable pub all_tagged : List Text → Bool
unfolding all_bytes is_tagged
all_tagged [] = true
all_tagged (part ∷ parts) = is_run is_tagged part && all_tagged parts

abbrev pub is_file_parts : List Text → Bool
is_file_parts [] = false
is_file_parts (stem ∷ parts) = is_run is_dashed stem && not (is_empty parts) && all_tagged parts

unfoldable pub is_root_file : Text → Bool
unfolding all_bytes is_dashed all_tagged split_byte
is_root_file s = is_file_parts (split_byte b'.' s)

-- The route classes that a target can have.
pub data RouteClass : Type 0 where
  landing_other : RouteClass
  invite : RouteClass
  username : RouteClass
  message : RouteClass

-- `requestTarget`: a path of the landing service, or the path and the query of the web client.
pub data RequestTarget : Type 0 where
  landing : (class : RouteClass) (landing_path : Text) → RequestTarget
  web : (path query : Text) (has_query : Bool) → RequestTarget

-- `strings.Cut(s, "?")`.
unfoldable pub cut_query : Text → Text × Text × Bool
cut_query [] = ([], [], false)
cut_query (c ∷ s) =
    let rest = cut_query s in if c == b'?' then ([], s, true) else (c ∷ rest.0, rest.1, rest.2)

-- A byte of `\#\r\n\x00`.
abbrev pub is_forbidden : ℕ → Bool
is_forbidden c = c == b'\\' || c == b'#' || c == 13 || c == 10 || c == 0

-- `splitRequestTarget`; `none` is not valid.
unfoldable pub split_request_target : Text → Option (Text × Text × Bool)
unfolding cut_query any_byte cut_prefix
split_request_target uri =
    let (path, query, has_query) = cut_query uri in
    if is_empty uri
    then none
    else if not (has_prefix (b'/' ∷ []) path)
    then none
    else if has_prefix (b'/' ∷ b'/' ∷ []) path
        || any_byte is_forbidden path
        || any_byte (λ c. c == b'#') query
    then none
    else some (path, query, has_query)

-- `isAdminPath`.
unfoldable pub is_admin_path : Text → Bool
unfolding cut_prefix
is_admin_path path = text_beq path (codes "/admin") || has_prefix (codes "/admin/") path

-- `linkClass` after the test for an invite, on the segments of `path[1:]`.
unfoldable pub segments_class : List Text → Option RouteClass
unfolding is_username is_message_id
segments_class [] = none
segments_class (a ∷ []) = if is_username a then some username else none
segments_class (a ∷ b ∷ []) = if is_username a && is_message_id b then some message else none
segments_class (a ∷ b ∷ c ∷ []) =
    if text_beq a (codes "c") && is_message_id b && is_message_id c then some message else none
segments_class (a ∷ b ∷ c ∷ d ∷ more) = none

-- The code of an invite path, `path[2:]` after "/+", if it is one.
unfoldable pub invite_code : Text → Option Text
unfolding cut_prefix any_byte is_invite
invite_code path = elim (cut_prefix (codes "/+") path) [
  | none ↦ none
  | some code ↦ if not (any_byte (λ c. c == b'/') code) && is_invite code then some code else none
]

-- `path[1:]` of a path that is not empty.
abbrev pub tail : Text → Text
tail [] = []
tail (c ∷ s) = s

-- `linkClass`.
unfoldable pub link_class : Text → Option RouteClass
unfolding invite_code split_byte segments_class
link_class path = elim (invite_code path) [
  | some code ↦ some invite
  | none ↦ segments_class (split_byte b'/' (tail path))
]

-- `canonicalLandingPath`.
unfoldable pub canonical_landing_path : RouteClass → Text
canonical_landing_path invite = codes "/+redacted"
canonical_landing_path username = codes "/redacted"
canonical_landing_path message = codes "/redacted/1"
canonical_landing_path landing_other = codes "/"

-- The segments that no web path has.
abbrev pub is_bad_segment : Text → Bool
is_bad_segment s = is_empty s || text_beq s (codes ".") || text_beq s (codes "..")

unfoldable pub any_segment : (Text → Bool) → List Text → Bool
any_segment p [] = false
any_segment p (s ∷ more) = p s || any_segment p more

unfoldable pub all_segments : (Text → Bool) → List Text → Bool
all_segments p [] = true
all_segments p (s ∷ more) = p s && all_segments p more

-- `strings.HasSuffix(path, "/")`.
unfoldable pub ends_with_slash : Text → Bool
ends_with_slash [] = false
ends_with_slash (c ∷ s) = if is_empty s then c == b'/' else ends_with_slash s

abbrev pub version_path : Text
version_path = codes "/.well-known/telegram-web/version.txt"

-- `isWebPath` from its last tests, on the segments of `path[1:]`.
unfoldable pub is_web_file : Text → List Text → Bool
unfolding is_root_file cut_prefix all_segments is_asset_part
is_web_file path [] = false
is_web_file path (a ∷ []) = is_root_file a
is_web_file path (a ∷ b ∷ more) =
    (has_prefix (codes "/assets/") path || has_prefix (codes "/changelogs/") path)
    && all_segments is_asset_part (b ∷ more)

-- `isWebPath`.
unfoldable pub is_web_path : Text → Bool
unfolding any_byte ends_with_slash split_byte any_segment is_web_file
is_web_path path =
    let segments = split_byte b'/' (tail path) in
    if text_beq path (codes "/") || text_beq path version_path
    then true
    else if any_byte (λ c. c == b'%' || c == b'\\') path
        || ends_with_slash path
        || ltb (length path) 2
    then false
    else if any_segment is_bad_segment segments
    then false
    else is_web_file path segments

-- `strings.EqualFold(method, "CONNECT")`, whose letters have no fold outside ASCII.
abbrev pub fold : ℕ → ℕ
fold c = if is_upper c then c + 32 else c

unfoldable pub equal_fold : Text → Text → Bool
equal_fold [] [] = true
equal_fold [] (b ∷ t) = false
equal_fold (a ∷ s) [] = false
equal_fold (a ∷ s) (b ∷ t) = fold a == fold b && equal_fold s t

-- `classifyTarget` of a valid request URI.
unfoldable pub classify_path : Text → Text → Bool → RequestTarget
unfolding is_admin_path link_class canonical_landing_path is_web_path
classify_path path query has_query =
    if is_admin_path path then landing landing_other (codes "/admin") else elim (link_class path) [
      | some class ↦ landing class (canonical_landing_path class)
      | none ↦
          if is_web_path path then web path query has_query else landing landing_other (codes "/")
    ]

-- `classifyTarget`.
unfoldable pub classify_target : Text → Text → RequestTarget
unfolding equal_fold split_request_target classify_path
classify_target method uri =
    if equal_fold method (codes "CONNECT")
    then landing landing_other (codes "/")
    else elim (split_request_target uri) [
      | none ↦ landing landing_other (codes "/")
      | some (path, query, has_query) ↦ classify_path path query has_query
    ]
