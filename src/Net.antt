-- ===== src/Net.antt =====
-- What the program uses of Go's net/netip: addresses, the unmapping of 4-in-6 addresses, zones, and
-- masked prefixes.
use telegram_server.Common.{
  ℕ, ◌/◌, ◌%◌, ◌^◌, ◌≡◌, Bool, true, false, ◌↔◌, ◌==◌, if◌then◌else◌, Eq, arith,
}

-- `Addr{}`, a 32-bit address, and a 128-bit address with its zone, 0 for none.
pub data Addr : Type 0 where
  invalid : Addr
  ip4 : ℕ → Addr
  ip6 : ℕ → ℕ → Addr

-- `Is4In6`: the prefix ::ffff:0:0/96.
abbrev pub is_4in6 : ℕ → Bool
is_4in6 a = a / 2 ^ 32 == 0xffff

abbrev pub unmap : Addr → Addr
unmap invalid = invalid
unmap (ip4 a) = ip4 a
unmap (ip6 a zone) = if is_4in6 a then ip4 (a % 2 ^ 32) else ip6 a zone

abbrev pub without_zone : Addr → Addr
without_zone invalid = invalid
without_zone (ip4 a) = ip4 a
without_zone (ip6 a zone) = ip6 a 0

-- A masked prefix: an IPv4 /32, or the high half of an IPv6 /64.
pub data Prefix : Type 0 where
  net32 : ℕ → Prefix
  net64 : ℕ → Prefix

abbrev pub prefix_beq : Prefix → Prefix → Bool
prefix_beq (net32 a) (net32 b) = a == b
prefix_beq (net64 a) (net64 b) = a == b
prefix_beq _ _ = false

pub prefix_beq_iff : (p q : Prefix) → (prefix_beq p q ≡ true) ↔ (p ≡ q)
prefix_beq_iff (net32 a) (net32 b) = ground arith
prefix_beq_iff (net64 a) (net64 b) = ground arith
prefix_beq_iff (net32 a) (net64 b) = ground arith
prefix_beq_iff (net64 a) (net32 b) = ground arith

instance abbrev pub prefix_eq : Eq Prefix
prefix_eq = record { beq = prefix_beq; beq_iff = prefix_beq_iff }
