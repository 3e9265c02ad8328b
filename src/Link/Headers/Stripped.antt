-- ===== src/Link/Headers/Stripped.antt =====
-- internal/linkselector/selector.go: what the two directions take away.
use telegram_server.Common.{
  ◌≡◌, refl, sym, ap, ◌∙◌, ◌||◌, List, [], ◌∷◌, ◌++◌, map, All, if◌then◌else◌, Bool-cases, inl, inr,
  arith,
}
use mathlib.Core.List.{append-nil, append_assoc}
use telegram_server.Common.Text.{Text, codes, text_beq_iff}
use telegram_server.Link.Headers.{
  Header, canonical_header_key, is_token_byte, values, del, hop_names, tokens, del_all,
  remove_hop_by_hop, has_name, copy_fields, copy_response_headers,
}

-- The fields whose name is not listed.
unfoldable pub keep : List Text → Header → Header
keep hops [] = []
keep hops ((n, v) ∷ header) =
    let rest = keep hops header in if has_name hops n then rest else (n, v) ∷ rest

-- The names that a header takes from one hop to the next.
abbrev pub hops_of : Header → List Text
hops_of header = map canonical_header_key (tokens (values header (codes "Connection"))) ++ hop_names

abbrev pub IsCanonical : Header → Type 0
IsCanonical header = All (λ (f : Text × Text). canonical_header_key f.0 ≡ f.0) header

del-keep :
    (header : Header) (name : Text) → del header name ≡ keep (canonical_header_key name ∷ []) header
unfolding del keep has_name
del-keep [] name = refl
del-keep ((n, v) ∷ header) name = ground (
  arith,
  del-keep header name,
  text_beq_iff n (canonical_header_key name),
  text_beq_iff (canonical_header_key name) n,
)

has_name-append :
    (a b : List Text) (name : Text) → has_name (a ++ b) name ≡ (has_name a name || has_name b name)
unfolding has_name
has_name-append [] b name = refl
has_name-append (n ∷ a) b name = ground (arith, has_name-append a b name)

keep-keep : (a b : List Text) (header : Header) → keep b (keep a header) ≡ keep (a ++ b) header
unfolding keep
keep-keep a b [] = refl
keep-keep a b ((n, v) ∷ header) = ground (arith, keep-keep a b header, has_name-append a b n)

keep_nil : (header : Header) → keep [] header ≡ header
unfolding keep has_name
keep_nil [] = refl
keep_nil (f ∷ header) = ap (◌∷◌ f) (keep_nil header)

del_all-keep :
    (names : List Text) (header : Header)
    → del_all header names ≡ keep (map canonical_header_key names) header
unfolding del_all
del_all-keep [] header = sym (keep_nil header)
del_all-keep (name ∷ names) header =
    del_all-keep names (del header name)
    ∙ ap (keep (map canonical_header_key names)) (del-keep header name)
    ∙ keep-keep (canonical_header_key name ∷ []) (map canonical_header_key names) header

hop_names_canonical : map canonical_header_key hop_names ≡ hop_names
unfolding canonical_header_key is_token_byte
hop_names_canonical = refl

remove-keep : (header : Header) → remove_hop_by_hop header ≡ keep (hops_of header) header
unfolding remove_hop_by_hop
remove-keep header =
    let named = tokens (values header (codes "Connection")) in
    let first = del_all header named in
    del_all-keep hop_names first
    ∙ ap (λ names. keep names first) hop_names_canonical
    ∙ ap (keep hop_names) (del_all-keep named header)
    ∙ keep-keep (map canonical_header_key named) hop_names header

copy-keep :
    (destination : Header) (hops : List Text) (source : Header)
    → IsCanonical source
    → copy_fields destination hops source ≡ destination ++ keep hops source
unfolding copy_fields keep
copy-keep destination hops [] c = sym (append-nil destination)
copy-keep destination hops ((n, v) ∷ source) c =
    let same : canonical_header_key n ≡ n = c.0 in
    elim (Bool-cases (has_name hops n)) [
      | inl e ↦ rw (same, e) (copy-keep destination hops source c.1)
      | inr e ↦
          rw (same, e)
            (copy-keep (destination ++ (n, v) ∷ []) hops source c.1
              ∙ append_assoc destination ((n, v) ∷ []) (keep hops source))
    ]

-- For headers with canonical names the two directions take the same fields away: what a response adds
-- to its destination is what is left of a header that goes to the web client. And that is exactly the
-- fields, in their order, which neither are for one hop nor are named by a Connection field, in
-- whatever case and with whatever space.
pub copy-remove :
    (destination source : Header)
    → IsCanonical source
    → (copy_response_headers destination source ≡ destination ++ remove_hop_by_hop source)
      × (remove_hop_by_hop source ≡ keep (hops_of source) source)
unfolding copy_response_headers
copy-remove destination source c = (
  copy-keep destination (hops_of source) source c
      ∙ ap (λ t. destination ++ t) (sym (remove-keep source)),
  remove-keep source,
)
