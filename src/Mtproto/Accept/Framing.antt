-- ===== src/Mtproto/Accept/Framing.antt =====
-- internal/mtproto/obfuscated.go and probePreflight of internal/mtproto/preflight.go: what is decided
-- from the opening bytes of a socket. A socket is the list of the bytes that it delivers before its end;
-- the tags of the codecs, which are gotd's, are parameters.
pub mod Replayed
pub mod Probed
use telegram_server.Common.{
  ℕ, zero, suc, Bool, true, false, not, ◌&&◌, ◌||◌, Option, none, some, List, [], ◌∷◌, ◌++◌, length,
  take, get_or, is_empty, ltb, ◌==◌, if◌then◌else◌,
}
use telegram_server.Common.Text.{Text, text_beq}
use telegram_server.Discovery.{request_magic, nonce_size}

-- `io.ReadFull` of some bytes behind those that were read: the bytes read, the rest of the socket, and
-- whether all came.
pub record Read : Type 0 where
  pub head : Text
  pub rest : Text
  pub full : Bool

unfoldable pub read_full : ℕ → Text → Text → Read
read_full zero head rest = record { head = head; rest = rest; full = true }
read_full (suc n) head [] = record { head = head; rest = []; full = false }
read_full (suc n) head (c ∷ rest) = read_full n (head ++ c ∷ []) rest

-- What `sniffFraming` returns: the framing, or an error, with the stream that replays what was read.
pub data Framing : Type 0 where
  plain : Framing
  obfuscated : Framing
  failed : Framing

abbrev pub stream : Read → Text
stream r = r.head ++ r.rest

-- The second little-endian word of the head.
abbrev pub is_zero_word : Text → Bool
is_zero_word head =
    get_or head 4 1 == 0 && get_or head 5 1 == 0 && get_or head 6 1 == 0 && get_or head 7 1 == 0

module _ (abridged : ℕ) (intermediate padded : Text) where
  -- `sniffFraming` from its third read on.
  unfoldable pub sniff_word : Read → Framing × Read
  unfolding read_full
  sniff_word r =
      let more = read_full 4 r.head r.rest in
      if not more.full
      then (failed, more)
      else if is_zero_word more.head
      then (plain, more)
      else (obfuscated, more)

  -- From its second read on.
  unfoldable pub sniff_tag : Read → Framing × Read
  unfolding read_full sniff_word
  sniff_tag r =
      let more = read_full 3 r.head r.rest in
      if not more.full
      then (failed, more)
      else if text_beq more.head intermediate || text_beq more.head padded
      then (plain, more)
      else sniff_word more

  -- `sniffFraming`.
  unfoldable pub sniff_framing : Text → Framing × Read
  unfolding read_full sniff_tag
  sniff_framing bytes =
      let first = read_full 1 [] bytes in
      if not first.full
      then (failed, first)
      else if get_or first.head 0 0 == abridged
      then (plain, first)
      else sniff_tag first

-- What `probePreflight` returns: a request with its nonce, a request that is closed, the stream for the
-- codecs, or an error with the stream.
pub data Probe : Type 0 where
  matched : (nonce : Text) → Probe
  malformed : Probe
  passes : (stream : Text) → Probe
  breaks : (stream : Text) → Probe

-- `probePreflight` after the magic: `expired` says whether the deadline has passed, `eof` whether the
-- socket ends with EOF.
unfoldable pub probe_nonce : Text → Bool → Bool → Probe
unfolding read_full
probe_nonce bytes expired eof =
    let r = read_full nonce_size [] bytes in
    if not r.full
    then malformed
    else if expired
    then malformed
    else if not (is_empty r.rest)
    then malformed
    else if eof
    then matched r.head
    else malformed

-- The loop of `probePreflight`, byte by byte along the magic: `read` holds the bytes before.
unfoldable pub probe_magic : Text → Text → Text → Bool → Bool → Probe
unfolding probe_nonce
probe_magic [] read bytes expired eof = probe_nonce bytes expired eof
probe_magic (m ∷ magic) read [] expired eof = breaks read
probe_magic (m ∷ magic) read (c ∷ bytes) expired eof =
    let more = probe_magic magic (read ++ c ∷ []) bytes expired eof in
    if c == m then more else passes (read ++ c ∷ bytes)

-- `probePreflight`.
unfoldable pub probe_preflight : Text → Bool → Bool → Probe
unfolding probe_magic
probe_preflight bytes expired eof = probe_magic request_magic [] bytes expired eof
