-- ===== src/Mtproto/Accept/ProxyHeader/RoundTrip.antt =====
-- internal/mtproto/proxyproto.go: headers as a balancer writes them, by the PROXY protocol's version 2.
use telegram_server.Common.{
  ℕ, zero, suc, ◌+◌, ◌*◌, ◌/◌, ◌%◌, ◌^◌, ◌≤◌, ◌<◌, ◌≡◌, refl, sym, ap, ◌∙◌, false, some, List, [],
  ◌∷◌, ◌++◌, length, length-append, take, drop, ltb, arith,
}
use telegram_server.Net.{Addr, invalid, ip4, ip6, unmap}
use telegram_server.Mtproto.Accept.ProxyHeader.{
  read_full, big_endian, signature, client, block_addr, command_addr, read_block, read_header,
  read_proxy,
}

-- A number as `n` bytes, the highest first.
pub bytes_of : ℕ → ℕ → List ℕ
bytes_of zero a = []
bytes_of (suc n) a = bytes_of n (a / 256) ++ a % 256 ∷ []

-- 256 ^ n.
abbrev capacity : ℕ → ℕ
capacity zero = 1
capacity (suc n) = capacity n * 256

big_endian-snoc :
    (acc : ℕ) (bs : List ℕ) (b : ℕ) → big_endian acc (bs ++ b ∷ []) ≡ big_endian acc bs * 256 + b
big_endian-snoc acc [] b = refl
big_endian-snoc acc (x ∷ bs) b = big_endian-snoc (acc * 256 + x) bs b

big_endian-bytes_of : (n a : ℕ) → a < capacity n → big_endian 0 (bytes_of n a) ≡ a
unfolding bytes_of
big_endian-bytes_of zero a h = omega (arith, h)
big_endian-bytes_of (suc n) a h = omega (
  arith,
  big_endian-snoc 0 (bytes_of n (a / 256)) (a % 256),
  big_endian-bytes_of n (a / 256) (omega (arith, h)),
)

length-bytes_of : (n a : ℕ) → length (bytes_of n a) ≡ n
unfolding bytes_of
length-bytes_of zero a = refl
length-bytes_of (suc n) a =
    omega (arith, length-append (bytes_of n (a / 256)) (a % 256 ∷ []), length-bytes_of n (a / 256))

take-append : (xs ys : List ℕ) → take (length xs) (xs ++ ys) ≡ xs
take-append [] ys = refl
take-append (x ∷ xs) ys = ap (◌∷◌ x) (take-append xs ys)

-- The first bytes of a block are the address in front of it.
take-bytes_of : (n a : ℕ) (more : List ℕ) → take n (bytes_of n a ++ more) ≡ bytes_of n a
take-bytes_of n a more =
    ap (λ k. take k (bytes_of n a ++ more)) (sym (length-bytes_of n a))
    ∙ take-append (bytes_of n a) more

drop-append : (xs ys : List ℕ) → drop (length xs) (xs ++ ys) ≡ ys
drop-append [] ys = refl
drop-append (x ∷ xs) ys = drop-append xs ys

read_full-append : (n : ℕ) (xs ys : List ℕ) → length xs ≡ n → read_full n (xs ++ ys) ≡ some (xs, ys)
unfolding read_full
read_full-append n xs ys e =
    let enough : ltb (length (xs ++ ys)) (length xs) ≡ false =
      ground (arith, length-append xs ys) in
    rw (← e, enough, take-append xs ys, drop-append xs ys)

abbrev pub fixed_part : ℕ → ℕ → ℕ → List ℕ
fixed_part command family size = signature ++ command ∷ family ∷ size / 256 % 256 ∷ size % 256 ∷ []

-- A header with its address block, of less than 2 ^ 16 bytes.
abbrev pub header : ℕ → ℕ → List ℕ → List ℕ
header command family block = fixed_part command family (length block) ++ block

-- Of a version 2 header all of it is read, whatever its command, family and block, and what the
-- client sent after it is left for the layers above.
pub read_proxy-header :
    (command family : ℕ) (block payload : List ℕ)
    → command / 16 ≡ 2
    → length block < 2 ^ 16
    → read_proxy (header command family block ++ payload)
      ≡ (command_addr (fixed_part command family (length block)) block, payload)
unfolding read_proxy read_header read_block
read_proxy-header command family block payload v b =
    let size = length block in
    let fixed = fixed_part command family size in
    let sized : (0 * 256 + size / 256 % 256) * 256 + size % 256 ≡ size = omega (arith, b) in
    ap read_header (read_full-append 16 fixed (block ++ payload) refl)
    ∙ rw (v, sized, read_full-append size block payload refl)

-- The header of a TCP connection from `addr`: the client's address, twelve or thirty-six bytes with
-- the rest of the block, and whatever the balancer appends.
abbrev pub tcp_header : Addr → List ℕ → List ℕ
tcp_header invalid more = header 0x20 0x00 more
tcp_header (ip4 a) more = header 0x21 0x11 (bytes_of 4 a ++ more)
tcp_header (ip6 a zone) more = header 0x21 0x21 (bytes_of 16 a ++ more)

-- A header for a connection from an IPv4 client gives that address, and the payload is untouched.
read_proxy_ip4 :
    (a : ℕ) (more payload : List ℕ)
    → a < 2 ^ 32
    → 8 ≤ length more
    → length more < 2 ^ 15
    → read_proxy (tcp_header (ip4 a) more ++ payload) ≡ (client (ip4 a), payload)
unfolding command_addr block_addr
read_proxy_ip4 a more payload h l b =
    let block = bytes_of 4 a ++ more in
    let size : length block ≡ 4 + length more =
      omega (arith, length-append (bytes_of 4 a) more, length-bytes_of 4 a) in
    let long : ltb (length block) 12 ≡ false = ground (arith, size, l) in
    let first : take 4 block ≡ bytes_of 4 a = take-bytes_of 4 a more in
    read_proxy-header 0x21 0x11 block payload refl (omega (arith, size, b))
    ∙ rw (long, first, big_endian-bytes_of 4 a h)

-- A header for a connection from an IPv6 client gives that address, as the IPv4 address if it is one
-- in IPv6 form, and the payload is untouched.
read_proxy_ip6 :
    (a : ℕ) (more payload : List ℕ)
    → a < 2 ^ 128
    → 20 ≤ length more
    → length more < 2 ^ 15
    → read_proxy (tcp_header (ip6 a 0) more ++ payload) ≡ (client (unmap (ip6 a 0)), payload)
unfolding command_addr block_addr
read_proxy_ip6 a more payload h l b =
    let block = bytes_of 16 a ++ more in
    let size : length block ≡ 16 + length more =
      omega (arith, length-append (bytes_of 16 a) more, length-bytes_of 16 a) in
    let long : ltb (length block) 36 ≡ false = ground (arith, size, l) in
    let first : take 16 block ≡ bytes_of 16 a = take-bytes_of 16 a more in
    read_proxy-header 0x21 0x21 block payload refl (omega (arith, size, b))
    ∙ rw (long, first, big_endian-bytes_of 16 a h)
