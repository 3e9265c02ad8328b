-- ===== src/Link/Target/Paths.antt =====
-- internal/linkselector/selector.go: the paths of the web client, and that isWebPath has no other.
use telegram_server.Common.{
  ◌≡◌, ◌≢◌, ◌⊎◌, inl, inr, refl, sym, ap, ◌∙◌, true, false, List, [], ◌∷◌, ◌++◌, All, ◌==◌,
  Bool-cases, arith,
}
use telegram_server.Common.Text.{
  Text, codes, text_beq, text_beq_iff, any_byte, all_bytes, has_prefix, split_byte,
}
use telegram_server.Common.Split.{
  join_byte, join-split, has_prefix-eq, split_byte_one, split_byte-append, all_bytes_mono,
  all_bytes-join,
}
use telegram_server.Link.Target.{
  is_dashed, is_tagged, is_dotted, is_asset_part, all_tagged, is_file_parts, is_root_file,
  is_web_path, is_web_file, version_path, tail, is_bad_segment, any_segment, all_segments,
}

-- A name of letters, digits and `_-.@`, which is no step of a directory.
pub record IsName (s : Text) : Type 0 where
  pub some_byte : s ≢ []
  pub not_here : s ≢ codes "."
  pub not_up : s ≢ codes ".."
  pub plain : all_bytes is_dotted s ≡ true

-- The paths of the web client.
pub data Forwardable : Text → Type 0 where
  home : (path : Text) → path ≡ codes "/" → Forwardable path
  version : (path : Text) → path ≡ version_path → Forwardable path
  root_file :
      (path name : Text)
      → path ≡ b'/' ∷ name
      → IsName name
      → is_root_file name ≡ true
      → Forwardable path
  below :
      (path directory : Text) (names : List Text)
      → (directory ≡ codes "/assets/") ⊎ (directory ≡ codes "/changelogs/")
      → path ≡ directory ++ join_byte b'/' names
      → names ≢ []
      → All IsName names
      → Forwardable path

tagged_plain : (s : Text) → all_bytes is_tagged s ≡ true → all_bytes is_dotted s ≡ true
tagged_plain s h =
    all_bytes_mono is_tagged is_dotted s (λ c e. unfold is_dotted in ground (arith, e)) h

dashed_plain : (s : Text) → all_bytes is_dashed s ≡ true → all_bytes is_dotted s ≡ true
dashed_plain s h =
    all_bytes_mono is_dashed is_dotted s (λ c e. unfold is_dotted in ground (arith, e)) h

all_tagged_plain :
    (parts : List Text) → all_tagged parts ≡ true → All (λ a. all_bytes is_dotted a ≡ true) parts
unfolding all_tagged
all_tagged_plain [] h = tt
all_tagged_plain (part ∷ parts) h =
    (tagged_plain part (ground (arith, h)), all_tagged_plain parts (ground (arith, h)))

file_parts_plain :
    (parts : List Text) → is_file_parts parts ≡ true → All (λ a. all_bytes is_dotted a ≡ true) parts
file_parts_plain [] h = tt
file_parts_plain (stem ∷ parts) h =
    (dashed_plain stem (ground (arith, h)), all_tagged_plain parts (ground (arith, h)))

root_file_plain : (s : Text) → is_root_file s ≡ true → all_bytes is_dotted s ≡ true
unfolding is_root_file
root_file_plain s h =
    let parts = split_byte b'.' s in
    let dot : is_dotted b'.' ≡ true = unfold is_dotted in ground arith in
    rw (← join-split b'.' s) (all_bytes-join is_dotted b'.' parts dot (file_parts_plain parts h))

good-IsName : (s : Text) → is_bad_segment s ≡ false → all_bytes is_dotted s ≡ true → IsName s
good-IsName s g h = record {
  some_byte = λ e. ground (arith, e, g);
  not_here = λ e. ground (arith, g, (text_beq_iff s (codes ".")).1 e);
  not_up = λ e. ground (arith, g, (text_beq_iff s (codes "..")).1 e);
  plain = h;
}

good_names :
    (names : List Text)
    → any_segment is_bad_segment names ≡ false
    → all_segments is_asset_part names ≡ true
    → All IsName names
unfolding any_segment all_segments is_asset_part
good_names [] g h = tt
good_names (s ∷ names) g h = (
  good-IsName s (ground (arith, g)) (ground (arith, h)),
  good_names names (ground (arith, g)) (ground (arith, h)),
)

abbrev drop_first : List Text → List Text
drop_first [] = []
drop_first (a ∷ parts) = parts

-- A path below a directory, by the segments after it.
below_directory :
    (path rest directory name a b : Text) (more : List Text)
    → (directory ≡ codes "/assets/") ⊎ (directory ≡ codes "/changelogs/")
    → directory ++ rest ≡ b'/' ∷ (name ++ b'/' ∷ rest)
    → any_byte (λ c. c == b'/') name ≡ false
    → path ≡ directory ++ rest
    → split_byte b'/' (tail path) ≡ a ∷ b ∷ more
    → All IsName (b ∷ more)
    → Forwardable path
below_directory path rest directory name a b more which shape plain e parts names =
    let inside : tail path ≡ name ++ b'/' ∷ rest = ap tail (e ∙ shape) in
    let cut : split_byte b'/' (tail path) ≡ name ∷ split_byte b'/' rest =
      ap (split_byte b'/') inside ∙ split_byte-append b'/' name rest plain in
    let same : split_byte b'/' rest ≡ b ∷ more = ap drop_first (sym cut ∙ parts) in
    let joined : rest ≡ join_byte b'/' (b ∷ more) =
      sym (join-split b'/' rest) ∙ ap (join_byte b'/') same in
    below path directory (b ∷ more) which (e ∙ ap (λ t. directory ++ t) joined) (λ q. cc) names

assets_shape : (rest : Text) → codes "/assets/" ++ rest ≡ b'/' ∷ (codes "assets" ++ b'/' ∷ rest)
assets_shape rest = refl

changelogs_shape :
    (rest : Text) → codes "/changelogs/" ++ rest ≡ b'/' ∷ (codes "changelogs" ++ b'/' ∷ rest)
changelogs_shape rest = refl

assets_plain : any_byte (λ c. c == b'/') (codes "assets") ≡ false
unfolding any_byte
assets_plain = refl

changelogs_plain : any_byte (λ c. c == b'/') (codes "changelogs") ≡ false
unfolding any_byte
changelogs_plain = refl

web_file-Forwardable :
    (path inside : Text) (segments : List Text)
    → path ≡ b'/' ∷ inside
    → split_byte b'/' (tail path) ≡ segments
    → any_segment is_bad_segment segments ≡ false
    → is_web_file path segments ≡ true
    → Forwardable path
unfolding is_web_file any_segment
web_file-Forwardable path inside [] s e g h = cc
web_file-Forwardable path inside (a ∷ []) s e g h =
    let whole : inside ≡ a =
      split_byte_one b'/' inside a (ap (λ t. split_byte b'/' (tail t)) (sym s) ∙ e) in
    root_file path a (s ∙ ap (◌∷◌ b'/') whole)
      (good-IsName a (ground (arith, g)) (root_file_plain a h)) h
web_file-Forwardable path inside (a ∷ b ∷ more) s e g h =
    let names = good_names (b ∷ more) (ground (arith, g)) (ground (arith, h)) in
    elim (Bool-cases (has_prefix (codes "/assets/") path)) [
      | inl p ↦
          let (rest, at) = has_prefix-eq (codes "/assets/") path p in
          below_directory path rest (codes "/assets/") (codes "assets") a b more (inl refl)
            (assets_shape rest) assets_plain at e names
      | inr n ↦
          let (rest, at) = has_prefix-eq (codes "/changelogs/") path (ground (arith, h, n)) in
          below_directory path rest (codes "/changelogs/") (codes "changelogs") a b more (inr refl)
            (changelogs_shape rest) changelogs_plain at e names
    ]

pub web_path-Forwardable :
    (path inside : Text) → path ≡ b'/' ∷ inside → is_web_path path ≡ true → Forwardable path
unfolding is_web_path
web_path-Forwardable path inside s h = elim (Bool-cases (text_beq path (codes "/"))) [
  | inl e ↦ home path ((text_beq_iff path (codes "/")).0 e)
  | inr n ↦ elim (Bool-cases (text_beq path version_path)) [
    | inl e ↦ version path ((text_beq_iff path version_path).0 e)
    | inr m ↦
        web_file-Forwardable path inside (split_byte b'/' (tail path)) s refl
          (ground (arith, h, n, m)) (ground (arith, h, n, m))
  ]
]
