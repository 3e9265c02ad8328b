-- ===== src/Common/Split.antt =====
-- Laws of the functions on Go strings: splitting and joining, prefixes, and tests on bytes.
use telegram_server.Common.Tests.{◌==◌, if◌then◌else◌, Bool-cases}
use telegram_server.Common.Lists.{All}
use telegram_server.Common.Text.{Text, any_byte, all_bytes, cut_prefix, has_prefix, split_byte}
use Prim.Native.Nat.{ℕ}
use mathlib.Core.Path.{◌≡◌, refl, ap, sym, ◌∙◌}
use mathlib.Core.Logic.{◌≢◌, inl, inr}
use mathlib.Core.Bool.{Bool, true, false}
use mathlib.Core.Option.{Option, none, some}
use mathlib.Core.List.{List, [], ◌∷◌, ◌++◌}
use native.Mathlib.Omega.{arith}

-- `strings.Join` with a separator of one byte.
unfoldable pub join_byte : ℕ → List Text → Text
join_byte sep [] = []
join_byte sep (a ∷ []) = a
join_byte sep (a ∷ b ∷ more) = a ++ sep ∷ join_byte sep (b ∷ more)

pub split_byte-ne_nil : (sep : ℕ) (s : Text) → split_byte sep s ≢ []
unfolding split_byte
split_byte-ne_nil sep [] e = cc
split_byte-ne_nil sep (c ∷ s) e = ground (arith, e)

join_byte-cons :
    (sep c : ℕ) (part : Text) (more : List Text)
    → join_byte sep ((c ∷ part) ∷ more) ≡ c ∷ join_byte sep (part ∷ more)
unfolding join_byte
join_byte-cons sep c part [] = refl
join_byte-cons sep c part (b ∷ more) = refl

join_byte-nil :
    (sep : ℕ) (parts : List Text)
    → parts ≢ []
    → join_byte sep ([] ∷ parts) ≡ sep ∷ join_byte sep parts
unfolding join_byte
join_byte-nil sep [] n = absurd (n refl)
join_byte-nil sep (b ∷ more) n = refl

step-join :
    (sep c : ℕ) (s : Text) (parts : List Text)
    → parts ≢ []
    → join_byte sep parts ≡ s
    → join_byte sep (
        if c == sep
        then [] ∷ parts
        else elim parts [ [] ↦ (c ∷ []) ∷ [] | part ∷ more ↦ (c ∷ part) ∷ more ])
      ≡ c ∷ s
step-join sep c s [] n e = absurd (n refl)
step-join sep c s (part ∷ more) n e = elim (Bool-cases (c == sep)) [
  | inl q ↦ rw q (join_byte-nil sep (part ∷ more) n ∙ ground (arith, e, q))
  | inr q ↦ rw q (join_byte-cons sep c part more ∙ ap (◌∷◌ c) e)
]

pub join-split : (sep : ℕ) (s : Text) → join_byte sep (split_byte sep s) ≡ s
unfolding split_byte
join-split sep [] = unfold join_byte in refl
join-split sep (c ∷ s) =
    step-join sep c s (split_byte sep s) (split_byte-ne_nil sep s) (join-split sep s)

pub cut_prefix-eq : (p s rest : Text) → cut_prefix p s ≡ some rest → s ≡ p ++ rest
unfolding cut_prefix
cut_prefix-eq [] s rest e = ground (arith, e)
cut_prefix-eq (a ∷ p) [] rest e = cc
cut_prefix-eq (a ∷ p) (c ∷ s) rest e = ground (arith, cut_prefix-eq p s rest, e)

pub cut_prefix-append : (p rest : Text) → cut_prefix p (p ++ rest) ≡ some rest
unfolding cut_prefix
cut_prefix-append [] rest = refl
cut_prefix-append (a ∷ p) rest = ground (arith, cut_prefix-append p rest)

-- `strings.HasPrefix`, with the rest.
pub has_prefix-eq : (p s : Text) → has_prefix p s ≡ true → (rest : Text) × (s ≡ p ++ rest)
has_prefix-eq p s h = split (cut_prefix p s) refl
  where
    split : (o : Option Text) → cut_prefix p s ≡ o → (rest : Text) × (s ≡ p ++ rest)
    split none e = absurd (ground (arith, h, e))
    split (some rest) e = (rest, cut_prefix-eq p s rest e)

pub all_bytes-append :
    (p : ℕ → Bool) (s t : Text)
    → all_bytes p s ≡ true
    → all_bytes p t ≡ true
    → all_bytes p (s ++ t) ≡ true
unfolding all_bytes
all_bytes-append p [] t h k = k
all_bytes-append p (c ∷ s) t h k = ground (arith, all_bytes-append p s t, h, k)

pub all_bytes_mono :
    (p q : ℕ → Bool) (s : Text)
    → ((c : ℕ) → p c ≡ true → q c ≡ true)
    → all_bytes p s ≡ true
    → all_bytes q s ≡ true
unfolding all_bytes
all_bytes_mono p q [] f h = refl
all_bytes_mono p q (c ∷ s) f h = ground (arith, all_bytes_mono p q s f, f c, h)

-- The bytes of a join are those of the parts, and the separator.
pub all_bytes-join :
    (p : ℕ → Bool) (sep : ℕ) (parts : List Text)
    → p sep ≡ true
    → All (λ a. all_bytes p a ≡ true) parts
    → all_bytes p (join_byte sep parts) ≡ true
unfolding join_byte all_bytes
all_bytes-join p sep [] h k = refl
all_bytes-join p sep (a ∷ []) h k = k.0
all_bytes-join p sep (a ∷ b ∷ more) h k =
    all_bytes-append p a (sep ∷ join_byte sep (b ∷ more)) k.0
      (ground (arith, h, all_bytes-join p sep (b ∷ more) h k.1))

-- A part without the separator is one part.
pub split_byte-single :
    (sep : ℕ) (a : Text) → any_byte (λ c. c == sep) a ≡ false → split_byte sep a ≡ a ∷ []
unfolding split_byte any_byte
split_byte-single sep [] h = refl
split_byte-single sep (c ∷ a) h = ground (arith, split_byte-single sep a, h)

pub split_byte-append :
    (sep : ℕ) (a t : Text)
    → any_byte (λ c. c == sep) a ≡ false
    → split_byte sep (a ++ sep ∷ t) ≡ a ∷ split_byte sep t
unfolding split_byte any_byte
split_byte-append sep [] t h = ground arith
split_byte-append sep (c ∷ a) t h = ground (arith, split_byte-append sep a t, h)

pub split_byte_one : (sep : ℕ) (s a : Text) → split_byte sep s ≡ a ∷ [] → s ≡ a
unfolding join_byte
split_byte_one sep s a e = sym (join-split sep s) ∙ ap (join_byte sep) e

-- A test that all bytes pass excludes those that it refuses.
pub any_byte-all :
    (p q : ℕ → Bool) (s : Text)
    → ((c : ℕ) → p c ≡ true → q c ≡ false)
    → all_bytes p s ≡ true
    → any_byte q s ≡ false
unfolding any_byte all_bytes
any_byte-all p q [] f h = refl
any_byte-all p q (c ∷ s) f h = ground (arith, any_byte-all p q s f, f c, h)
