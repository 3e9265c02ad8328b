-- ===== src/Mtproto/Accept/Framing/Replayed.antt =====
-- internal/mtproto/obfuscated.go and internal/mtproto/preflight.go: no opening byte is lost, and which
-- bytes mean what.
use telegram_server.Common.{
  ℕ, zero, suc, ◌+◌, ◌≤◌, ◌≡◌, ◌≢◌, ◌↔◌, refl, ◌∙◌, true, not, ◌&&◌, ◌||◌, [], ◌∷◌, ◌++◌, length,
  length-append, get_or, ◌==◌, if◌then◌else◌, if_lem, arith,
}
use mathlib.Core.List.{append_assoc}
use telegram_server.Common.Text.{Text, text_beq, text_beq_iff}
use telegram_server.Mtproto.Accept.Framing.{
  Read, read_full, Framing, plain, obfuscated, stream, is_zero_word, sniff_word, sniff_tag,
  sniff_framing,
}

pub read_full-stream : (n : ℕ) (head rest : Text) → stream (read_full n head rest) ≡ head ++ rest
unfolding read_full
read_full-stream zero head rest = refl
read_full-stream (suc n) head [] = refl
read_full-stream (suc n) head (c ∷ rest) =
    read_full-stream n (head ++ c ∷ []) rest ∙ append_assoc head (c ∷ []) rest

length-read_full :
    (n : ℕ) (head rest : Text) → length (read_full n head rest).head ≤ length head + n
unfolding read_full
length-read_full zero head rest = omega arith
length-read_full (suc n) head [] = omega arith
length-read_full (suc n) head (c ∷ rest) =
    omega (arith, length-read_full n (head ++ c ∷ []) rest, length-append head (c ∷ []))

module _ (abridged : ℕ) (intermediate padded : Text) where
  -- Eight opening bytes that no plain framing begins with.
  pub data IsObfuscated : Text → Type 0 where
    opens :
        (a b c d e f g h : ℕ) (bytes rest : Text)
        → bytes ≡ a ∷ b ∷ c ∷ d ∷ e ∷ f ∷ g ∷ h ∷ rest
        → a ≢ abridged
        → a ∷ b ∷ c ∷ d ∷ [] ≢ intermediate
        → a ∷ b ∷ c ∷ d ∷ [] ≢ padded
        → e + f + g + h ≢ 0
        → IsObfuscated bytes

  abbrev sniffed : Text → Framing × Read
  sniffed bytes = sniff_framing abridged intermediate padded bytes

  -- What each stage leaves: the stream of its socket, and at most so many bytes more in the head.
  record Keeps (r : Read) (n : ℕ) (after : Read) : Type 0 where
    pub same : stream after ≡ stream r
    pub few : length after.head ≤ length r.head + n

  read-Keeps : (n : ℕ) (r : Read) → Keeps r n (read_full n r.head r.rest)
  read-Keeps n r = record {
    same = read_full-stream n r.head r.rest;
    few = length-read_full n r.head r.rest;
  }

  word-Keeps : (r : Read) → Keeps r 4 (sniff_word abridged intermediate padded r).1
  unfolding sniff_word
  word-Keeps r =
      let more = read_full 4 r.head r.rest in
      if_lem (λ (x : Framing × Read). Keeps r 4 x.1) (not more.full) (λ _. read-Keeps 4 r)
        (λ _.
          if_lem (λ (x : Framing × Read). Keeps r 4 x.1) (is_zero_word more.head)
            (λ _. read-Keeps 4 r) (λ _. read-Keeps 4 r))

  tag-Keeps : (r : Read) → Keeps r 7 (sniff_tag abridged intermediate padded r).1
  unfolding sniff_tag
  tag-Keeps r =
      let more = read_full 3 r.head r.rest in
      let three = read-Keeps 3 r in
      let seven : Keeps r 7 more = record { same = three.same; few = omega (arith, three.few) } in
      let word = word-Keeps more in
      if_lem (λ (x : Framing × Read). Keeps r 7 x.1) (not more.full) (λ _. seven)
        (λ _.
          if_lem (λ (x : Framing × Read). Keeps r 7 x.1)
            (text_beq more.head intermediate || text_beq more.head padded) (λ _. seven)
            (λ _. record {
              same = word.same ∙ three.same;
              few = omega (arith, word.few, three.few);
            }))

  sniff-Keeps :
      (bytes : Text) → Keeps (record { head = []; rest = bytes; full = true }) 8 (sniffed bytes).1
  unfolding sniff_framing
  sniff-Keeps bytes =
      let start : Read = record { head = []; rest = bytes; full = true } in
      let first = read_full 1 [] bytes in
      let one = read-Keeps 1 start in
      let eight : Keeps start 8 first = record { same = one.same; few = omega (arith, one.few) } in
      let tag = tag-Keeps first in
      if_lem (λ (x : Framing × Read). Keeps start 8 x.1) (not first.full) (λ _. eight)
        (λ _.
          if_lem (λ (x : Framing × Read). Keeps start 8 x.1) (get_or first.head 0 0 == abridged)
            (λ _. eight)
            (λ _. record { same = tag.same ∙ one.same; few = omega (arith, tag.few, one.few) }))

  long_lem :
      (a b c d e f g h : ℕ) (rest : Text)
      → (sniffed (a ∷ b ∷ c ∷ d ∷ e ∷ f ∷ g ∷ h ∷ rest)).0 ≡ (
          if a == abridged
            || text_beq (a ∷ b ∷ c ∷ d ∷ []) intermediate
            || text_beq (a ∷ b ∷ c ∷ d ∷ []) padded
            || (e == 0 && f == 0 && g == 0 && h == 0)
          then plain
          else obfuscated)
  unfolding sniff_framing read_full sniff_tag sniff_word
  long_lem a b c d e f g h rest = ground arith

  short_lem : (bytes : Text) → length bytes ≤ 7 → (sniffed bytes).0 ≢ obfuscated
  unfolding sniff_framing read_full sniff_tag sniff_word
  short_lem [] s q = cc
  short_lem (a ∷ []) s q = ground (arith, q)
  short_lem (a ∷ b ∷ []) s q = ground (arith, q)
  short_lem (a ∷ b ∷ c ∷ []) s q = ground (arith, q)
  short_lem (a ∷ b ∷ c ∷ d ∷ []) s q = ground (arith, q)
  short_lem (a ∷ b ∷ c ∷ d ∷ e ∷ []) s q = ground (arith, q)
  short_lem (a ∷ b ∷ c ∷ d ∷ e ∷ f ∷ []) s q = ground (arith, q)
  short_lem (a ∷ b ∷ c ∷ d ∷ e ∷ f ∷ g ∷ []) s q = ground (arith, q)
  short_lem (a ∷ b ∷ c ∷ d ∷ e ∷ f ∷ g ∷ h ∷ rest) s q = absurd (omega arith)

  -- The long case of the decision, in both directions.
  long-IsObfuscated :
      (a b c d e f g h : ℕ) (rest : Text)
      → let bytes = a ∷ b ∷ c ∷ d ∷ e ∷ f ∷ g ∷ h ∷ rest in
        (sniffed bytes).0 ≡ obfuscated → IsObfuscated bytes
  long-IsObfuscated a b c d e f g h rest q =
      let whole = long_lem a b c d e f g h rest in
      opens a b c d e f g h _ rest refl (λ p. ground (arith, q, whole, p))
        (λ p. ground (arith, q, whole, (text_beq_iff (a ∷ b ∷ c ∷ d ∷ []) intermediate).1 p))
        (λ p. ground (arith, q, whole, (text_beq_iff (a ∷ b ∷ c ∷ d ∷ []) padded).1 p))
        (λ p. ground (arith, q, whole, p))

  sniffed-IsObfuscated : (bytes : Text) → (sniffed bytes).0 ≡ obfuscated → IsObfuscated bytes
  sniffed-IsObfuscated [] q = absurd (short_lem [] (omega arith) q)
  sniffed-IsObfuscated (a ∷ []) q = absurd (short_lem _ (omega arith) q)
  sniffed-IsObfuscated (a ∷ b ∷ []) q = absurd (short_lem _ (omega arith) q)
  sniffed-IsObfuscated (a ∷ b ∷ c ∷ []) q = absurd (short_lem _ (omega arith) q)
  sniffed-IsObfuscated (a ∷ b ∷ c ∷ d ∷ []) q = absurd (short_lem _ (omega arith) q)
  sniffed-IsObfuscated (a ∷ b ∷ c ∷ d ∷ e ∷ []) q = absurd (short_lem _ (omega arith) q)
  sniffed-IsObfuscated (a ∷ b ∷ c ∷ d ∷ e ∷ f ∷ []) q = absurd (short_lem _ (omega arith) q)
  sniffed-IsObfuscated (a ∷ b ∷ c ∷ d ∷ e ∷ f ∷ g ∷ []) q = absurd (short_lem _ (omega arith) q)
  sniffed-IsObfuscated (a ∷ b ∷ c ∷ d ∷ e ∷ f ∷ g ∷ h ∷ rest) q =
      long-IsObfuscated a b c d e f g h rest q

  IsObfuscated-sniffed : {bytes : Text} → IsObfuscated bytes → (sniffed bytes).0 ≡ obfuscated
  IsObfuscated-sniffed (opens a b c d e f g h bytes rest at n i p z) =
      let same = at in
      rw same (
        ground (
          arith,
          long_lem a b c d e f g h rest,
          n,
          λ (t : text_beq (a ∷ b ∷ c ∷ d ∷ []) intermediate ≡ true).
              i ((text_beq_iff (a ∷ b ∷ c ∷ d ∷ []) intermediate).0 t),
          λ (t : text_beq (a ∷ b ∷ c ∷ d ∷ []) padded ≡ true).
              p ((text_beq_iff (a ∷ b ∷ c ∷ d ∷ []) padded).0 t),
          z,
        ))

  -- Whatever the tags of the codecs and the bytes of the socket: the stream that is handed on is the
  -- socket's, from its first byte; at most eight bytes have been read for the decision; and it is taken
  -- for obfuscated exactly if there are eight of them, the first is not the abridged tag, the first four
  -- are neither of the other tags, and the last four are not all zero.
  pub sniff_framing_lem :
      (bytes : Text)
      → (stream (sniff_framing abridged intermediate padded bytes).1 ≡ bytes)
        × (length (sniff_framing abridged intermediate padded bytes).1.head ≤ 8)
        × (((sniff_framing abridged intermediate padded bytes).0 ≡ obfuscated) ↔ IsObfuscated bytes)
  sniff_framing_lem bytes =
      let kept = sniff-Keeps bytes in
      (kept.same, omega (arith, kept.few), (sniffed-IsObfuscated bytes, IsObfuscated-sniffed))
