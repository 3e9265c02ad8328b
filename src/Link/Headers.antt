-- ===== src/Link/Headers.antt =====
-- internal/linkselector/selector.go: the headers that end at the selector. An http.Header is the list
-- of its fields, each name with one value, in an order in which the values of one name stand as they
-- came; its text is ASCII.
pub mod Stripped
use telegram_server.Common.{
  ℕ, ◌+◌, ◌-◌, Bool, true, false, not, ◌&&◌, ◌||◌, List, [], ◌∷◌, ◌++◌, map, is_empty, leb, ◌==◌,
  if◌then◌else◌,
}
use telegram_server.Common.Text.{Text, codes, text_beq, any_byte, all_bytes, split_byte}
use telegram_server.Link.Target.{is_upper, is_lower, is_digit}

abbrev pub Header : Type 0
Header = List (Text × Text)

-- The bytes of a field name, by net/textproto: letters, digits and some signs.
unfoldable pub is_token_byte : ℕ → Bool
unfolding any_byte
is_token_byte c =
    is_upper c || is_lower c || is_digit c || any_byte (λ s. s == c) (codes "!#$%&'*+-.^_`|~")

-- `http.CanonicalHeaderKey`: `up` says whether the next letter is a capital.
unfoldable pub capitalize : Bool → Text → Text
capitalize up [] = []
capitalize up (c ∷ s) =
    let d = if up && is_lower c then c - 32 else if not up && is_upper c then c + 32 else c in
    d ∷ capitalize (c == b'-') s

unfoldable pub canonical_header_key : Text → Text
unfolding all_bytes is_token_byte capitalize
canonical_header_key s = if all_bytes is_token_byte s then capitalize true s else s

-- `strings.TrimSpace` of ASCII.
abbrev pub is_space : ℕ → Bool
is_space c = c == 32 || (leb 9 c && leb c 13)

unfoldable pub trim_left : Text → Text
trim_left [] = []
trim_left (c ∷ s) = let rest = trim_left s in if is_space c then rest else c ∷ s

unfoldable pub trim_right : Text → Text
trim_right [] = []
trim_right (c ∷ s) = let rest = trim_right s in if is_space c && is_empty rest then [] else c ∷ rest

abbrev pub trim_space : Text → Text
trim_space s = trim_right (trim_left s)

-- `header.Values(name)` of a canonical name.
unfoldable pub values : Header → Text → List Text
values [] name = []
values ((n, v) ∷ header) name =
    let rest = values header name in if text_beq n name then v ∷ rest else rest

-- `header.Del(name)`.
unfoldable pub del : Header → Text → Header
unfolding canonical_header_key
del [] name = []
del ((n, v) ∷ header) name =
    let rest = del header name in
    if text_beq n (canonical_header_key name) then rest else (n, v) ∷ rest

-- The names that stand for one hop.
abbrev pub hop_names : List Text
hop_names =
    codes "Connection"
    ∷ codes "Proxy-Connection"
    ∷ codes "Keep-Alive"
    ∷ codes "Proxy-Authenticate"
    ∷ codes "Proxy-Authorization"
    ∷ codes "Te"
    ∷ codes "Trailer"
    ∷ codes "Transfer-Encoding"
    ∷ codes "Upgrade"
    ∷ []

-- The tokens of the values of a Connection field.
unfoldable pub tokens : List Text → List Text
unfolding split_byte trim_left trim_right
tokens [] = []
tokens (value ∷ more) = map trim_space (split_byte b',' value) ++ tokens more

unfoldable pub del_all : Header → List Text → Header
unfolding del
del_all header [] = header
del_all header (name ∷ names) = del_all (del header name) names

-- `removeHopByHopHeaders`; the values of Connection are those before the first removal.
unfoldable pub remove_hop_by_hop : Header → Header
unfolding values tokens del_all
remove_hop_by_hop header =
    del_all (del_all header (tokens (values header (codes "Connection")))) hop_names

-- `_, ok := hopByHop[name]`.
unfoldable pub has_name : List Text → Text → Bool
has_name [] name = false
has_name (n ∷ names) name = text_beq n name || has_name names name

-- `destination.Add(name, value)`.
abbrev pub add : Header → Text → Text → Header
add header name value = header ++ (canonical_header_key name, value) ∷ []

-- The loop of `copyResponseHeaders` over the source.
unfoldable pub copy_fields : Header → List Text → Header → Header
unfolding canonical_header_key has_name
copy_fields destination hops [] = destination
copy_fields destination hops ((n, v) ∷ source) =
    copy_fields
      (if has_name hops (canonical_header_key n) then destination else add destination n v) hops
      source

-- `copyResponseHeaders`.
unfoldable pub copy_response_headers : Header → Header → Header
unfolding values tokens copy_fields
copy_response_headers destination source =
    copy_fields destination
      (map canonical_header_key (tokens (values source (codes "Connection"))) ++ hop_names) source
