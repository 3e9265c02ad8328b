-- ===== src/Mtproto/Tests/AcceptTests.antt =====
-- Headers of a balancer, and a burst of suppressed log lines.
use telegram_server.Common.{
  ℕ, ◌+◌, ◌≤◌, ◌≡◌, ◌↔◌, length, refl, true, false, some, List, [], ◌∷◌, ◌++◌, replicate, arith,
}
use telegram_server.Mtproto.Accept.ProxyHeader.{
  read_proxy, read_header, read_full, command_addr, refused, HeaderError,
}
use telegram_server.Mtproto.Accept.ProxyHeader.RoundTrip.{header, fixed_part, read_proxy-header}
use telegram_server.Mtproto.Accept.Sampler.{Sampler, allow_test}
use telegram_server.Mtproto.Accept.Sampler.Reports.{
  Event, allows, flushes, takes, run, new_log, reports_exact,
}
use telegram_server.Common.Text.{Text, codes, text_beq}
use telegram_server.Discovery.{request_magic, build_request}
use telegram_server.Mtproto.Accept.Framing.{
  obfuscated, failed, stream, sniff_framing, matched, probe_preflight, passes,
}
use telegram_server.Mtproto.Accept.Framing.Replayed.{IsObfuscated, sniff_framing_lem}
use telegram_server.Mtproto.Accept.Framing.Probed.{IsReplay, probe_preflight_lem}

-- The addresses and ports that follow the client's address.
abbrev more : List ℕ
more = replicate 8 1

abbrev hello : List ℕ
hello = 0xef ∷ 0x01 ∷ []

read_proxy-header_example :
    read_proxy (header 0x20 0x00 more ++ hello)
    ≡ (command_addr (fixed_part 0x20 0x00 8) more, hello)
read_proxy-header_example = read_proxy-header 0x20 0x00 more hello refl (omega arith)

-- A stream without a header is refused.
no_header : (read_proxy (replicate 16 7 ++ hello)).0 ≡ refused HeaderError.not_proxy
unfolding read_proxy read_header read_full
no_header = refl

-- Two goroutines load 0; one writes its line, the other is suppressed and reported later.
abbrev burst : List Event
burst = allows 0 100 10 ∷ allows 0 101 10 ∷ takes ∷ flushes 100 200 ∷ takes ∷ []

reports_exact_example :
    (run new_log burst).reported + (run new_log burst).sampler.dropped ≡ (run new_log burst).hidden
reports_exact_example = reports_exact burst (omega arith)

abbrev idle_sampler : Sampler
idle_sampler = record { last = 0; dropped = 0 }

wins : (allow_test idle_sampler 0 100 10).1 ≡ true
unfolding allow_test
wins = refl

-- The tags of gotd's codecs.
abbrev abridged : ℕ
abridged = 0xef

abbrev intermediate : Text
intermediate = 0xee ∷ 0xee ∷ 0xee ∷ 0xee ∷ []

abbrev padded : Text
padded = 0xdd ∷ 0xdd ∷ 0xdd ∷ 0xdd ∷ []

abbrev random_bytes : Text
random_bytes = 9 ∷ 8 ∷ 7 ∷ 6 ∷ 5 ∷ 4 ∷ 3 ∷ 2 ∷ 1 ∷ []

random_framing : (sniff_framing abridged intermediate padded random_bytes).0 ≡ obfuscated
unfolding sniff_framing text_beq
random_framing = refl

short_framing : (sniff_framing abridged intermediate padded (9 ∷ 8 ∷ 7 ∷ [])).0 ≡ failed
unfolding sniff_framing
short_framing = refl

sniff_framing_lem_example :
    (stream (sniff_framing abridged intermediate padded random_bytes).1 ≡ random_bytes)
    × (length (sniff_framing abridged intermediate padded random_bytes).1.head ≤ 8)
    × (((sniff_framing abridged intermediate padded random_bytes).0 ≡ obfuscated)
        ↔ IsObfuscated abridged intermediate padded random_bytes)
sniff_framing_lem_example = sniff_framing_lem abridged intermediate padded random_bytes

abbrev nonce : Text
nonce = codes "abcdefghijklmnopqrstuvwxyz012345"

probed_request : probe_preflight (request_magic ++ nonce) false true ≡ matched nonce
unfolding probe_preflight
probed_request = refl

probed_other : probe_preflight (codes "telephone") false true ≡ passes (codes "telephone")
unfolding probe_preflight
probed_other = refl

probe_preflight_lem_example :
    ((probe_preflight (request_magic ++ nonce) false true ≡ matched nonce)
      ↔ ((build_request nonce ≡ some (request_magic ++ nonce)) × (false ≡ false) × (true ≡ true)))
    × IsReplay (request_magic ++ nonce) (probe_preflight (request_magic ++ nonce) false true)
probe_preflight_lem_example = probe_preflight_lem (request_magic ++ nonce) nonce false true
