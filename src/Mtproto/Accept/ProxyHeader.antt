-- ===== src/Mtproto/Accept/ProxyHeader.antt =====
-- internal/mtproto/proxyproto.go: the PROXY v2 header in front of a connection. A socket is the list of
-- the bytes that it delivers before it ends.
pub mod RoundTrip
use telegram_server.Common.{
  ℕ, zero, suc, ◌+◌, ◌*◌, ◌/◌, ◌%◌, Bool, true, false, not, ◌&&◌, Option, none, some, List, [], ◌∷◌,
  length, take, drop, get_or, ltb, ◌==◌, if◌then◌else◌,
}
use telegram_server.Net.{Addr, invalid, ip4, ip6, unmap}

-- `io.ReadFull` of `n` bytes: what is read, and what is left.
unfoldable pub read_full : ℕ → List ℕ → Option (List ℕ × List ℕ)
read_full n stream = if ltb (length stream) n then none else some (take n stream, drop n stream)

-- `bytes.Equal`.
abbrev pub bytes_equal : List ℕ → List ℕ → Bool
bytes_equal [] [] = true
bytes_equal [] (y ∷ ys) = false
bytes_equal (x ∷ xs) [] = false
bytes_equal (x ∷ xs) (y ∷ ys) = (x == y) && bytes_equal xs ys

-- The number that big-endian bytes spell.
abbrev pub big_endian : ℕ → List ℕ → ℕ
big_endian acc [] = acc
big_endian acc (b ∷ bs) = big_endian (acc * 256 + b) bs

-- `proxyV2Signature`.
abbrev pub signature : List ℕ
signature = 0x0D ∷ 0x0A ∷ 0x0D ∷ 0x0A ∷ 0x00 ∷ 0x0D ∷ 0x0A ∷ 0x51 ∷ 0x55 ∷ 0x49 ∷ 0x54 ∷ 0x0A ∷ []

pub data HeaderError : Type 0 where
  short_header : HeaderError
  not_proxy : HeaderError
  bad_version : HeaderError
  short_block : HeaderError
  bad_command : HeaderError
  short_ip4 : HeaderError
  short_ip6 : HeaderError
  bad_family : HeaderError

pub data Read : Type 0 where
  client : Addr → Read
  refused : HeaderError → Read

-- The switch on family and transport.
unfoldable pub block_addr : ℕ → ℕ → List ℕ → Read
block_addr family proto block =
    if (family == 1) && (proto == 1)
    then (if ltb (length block) 12
        then refused short_ip4
        else client (ip4 (big_endian 0 (take 4 block))))
    else if (family == 2) && (proto == 1)
    then (if ltb (length block) 36
        then refused short_ip6
        else client (unmap (ip6 (big_endian 0 (take 16 block)) 0)))
    else if (family == 0) && (proto == 0)
    then client invalid
    else refused bad_family

-- The rest of `readProxyV2`, after the address block.
unfoldable pub command_addr : List ℕ → List ℕ → Read
command_addr fixed block =
    if get_or fixed 12 0 % 16 == 0
    then client invalid
    else if not (get_or fixed 12 0 % 16 == 1)
    then refused bad_command
    else block_addr (get_or fixed 13 0 / 16) (get_or fixed 13 0 % 16) block

unfoldable pub read_block : List ℕ → Option (List ℕ × List ℕ) → Read × List ℕ
read_block fixed none = (refused short_block, [])
read_block fixed (some (block, rest)) = (command_addr fixed block, rest)

unfoldable pub read_header : Option (List ℕ × List ℕ) → Read × List ℕ
unfolding read_block
read_header none = (refused short_header, [])
read_header (some (fixed, rest)) =
    if not (bytes_equal (take 12 fixed) signature)
    then (refused not_proxy, rest)
    else if not (get_or fixed 12 0 / 16 == 2)
    then (refused bad_version, rest)
    else read_block fixed (read_full (big_endian 0 (take 2 (drop 14 fixed))) rest)

-- `readProxyV2`: its result, and what the socket still delivers.
unfoldable pub read_proxy : List ℕ → Read × List ℕ
unfolding read_header
read_proxy stream = read_header (read_full 16 stream)
