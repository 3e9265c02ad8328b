-- ===== src/Store/IpBucket.antt =====
-- internal/store/send_code_ip.go: the network that a client address is counted under.
use telegram_server.Common.{
  ℕ, ◌/◌, ◌%◌, ◌^◌, ◌≡◌, ◌≢◌, ◌↔◌, inl, inr, refl, sym, Bool-cases, false, Option, none, some,
  arith, if◌then◌else◌,
}
use telegram_server.Net.{
  Addr, invalid, ip4, ip6, Prefix, net32, net64, is_4in6, unmap, without_zone,
}

-- `netip.PrefixFrom(addr, bits).Masked()` with 32 or 64 bits by `Is6`.
unfoldable pub masked : Addr → Option Prefix
masked invalid = none
masked (ip4 a) = some (net32 a)
masked (ip6 a zone) = some (net64 (a / 2 ^ 64))

-- `IPBucketKey`: `none` is (zero, false).
unfoldable pub ip_bucket_key : Addr → Option Prefix
unfolding masked
ip_bucket_key invalid = none
ip_bucket_key addr = masked (without_zone (unmap addr))

-- The 32-bit host that an address is, in either form.
abbrev pub host4 : Addr → Option ℕ
host4 invalid = none
host4 (ip4 a) = some a
host4 (ip6 a zone) = if is_4in6 a then some (a % 2 ^ 32) else none

-- One network: the same IPv4 host, however written, or IPv6 addresses that agree in their high half.
pub data SameNetwork : Addr → Addr → Type 0 where
  same_host : (a b : Addr) (h : ℕ) → host4 a ≡ some h → host4 b ≡ some h → SameNetwork a b
  same_half :
      (a b zone zone' : ℕ)
      → is_4in6 a ≡ false
      → is_4in6 b ≡ false
      → a / 2 ^ 64 ≡ b / 2 ^ 64
      → SameNetwork (ip6 a zone) (ip6 b zone')

-- Addresses of one network have one bucket.
SameNetwork-key : {a b : Addr} → SameNetwork a b → ip_bucket_key a ≡ ip_bucket_key b
unfolding ip_bucket_key
SameNetwork-key (same_host invalid b h e f) = cc
SameNetwork-key (same_host (ip4 a) invalid h e f) = cc
SameNetwork-key (same_host (ip4 a) (ip4 b) h e f) = ground arith
SameNetwork-key (same_host (ip4 a) (ip6 b z) h e f) = ground arith
SameNetwork-key (same_host (ip6 a z) invalid h e f) = cc
SameNetwork-key (same_host (ip6 a z) (ip4 b) h e f) = ground arith
SameNetwork-key (same_host (ip6 a z) (ip6 b z') h e f) = ground arith
SameNetwork-key (same_half a b z z' e f g) = ground arith

-- An address has no bucket exactly if the transport could not parse it.
key_none : (a : Addr) → (ip_bucket_key a ≡ none) ↔ (a ≡ invalid)
unfolding ip_bucket_key
key_none invalid = (λ e. refl, λ e. refl)
key_none (ip4 a) = ground arith
key_none (ip6 a z) = ground arith

ip6_key :
    (a z : ℕ)
    → ip_bucket_key (ip6 a z)
      ≡ (if is_4in6 a then some (net32 (a % 2 ^ 32)) else some (net64 (a / 2 ^ 64)))
unfolding ip_bucket_key
ip6_key a z = ground arith

ip6-SameNetwork :
    (a b z z' : ℕ)
    → ip_bucket_key (ip6 a z) ≡ ip_bucket_key (ip6 b z')
    → SameNetwork (ip6 a z) (ip6 b z')
ip6-SameNetwork a b z z' e = elim (Bool-cases (is_4in6 a)) [
  | inl p ↦ elim (Bool-cases (is_4in6 b)) [
    | inl q ↦ same_host _ _ (a % 2 ^ 32) (rw p) (ground (arith, ip6_key a z, ip6_key b z'))
    | inr q ↦ absurd (ground (arith, ip6_key a z, ip6_key b z'))
  ]
  | inr p ↦ elim (Bool-cases (is_4in6 b)) [
    | inl q ↦ absurd (ground (arith, ip6_key a z, ip6_key b z'))
    | inr q ↦ same_half a b z z' p q (ground (arith, ip6_key a z, ip6_key b z'))
  ]
]

mixed-SameNetwork :
    (a b z : ℕ) → ip_bucket_key (ip4 a) ≡ ip_bucket_key (ip6 b z) → host4 (ip6 b z) ≡ some a
unfolding ip_bucket_key
mixed-SameNetwork a b z e = ground arith

key-SameNetwork : (a b : Addr) → a ≢ invalid → ip_bucket_key a ≡ ip_bucket_key b → SameNetwork a b
key-SameNetwork invalid b v e = absurd (v refl)
key-SameNetwork (ip4 a) invalid v e = unfold ip_bucket_key in cc
key-SameNetwork (ip4 a) (ip4 b) v e =
    same_host (ip4 a) (ip4 b) a refl (unfold ip_bucket_key in ground arith)
key-SameNetwork (ip4 a) (ip6 b z) v e = same_host _ _ a refl (mixed-SameNetwork a b z e)
key-SameNetwork (ip6 a z) invalid v e = absurd (ground (arith, ip6_key a z, key_none invalid))
key-SameNetwork (ip6 a z) (ip4 b) v e = same_host _ _ b (mixed-SameNetwork b a z (sym e)) refl
key-SameNetwork (ip6 a z) (ip6 b z') v e = ip6-SameNetwork a b z z' e

-- Two client addresses are counted together exactly if they are one network: one IPv4 host in either
-- written form, or IPv6 addresses of one /64, whatever their zones. Only an address that the
-- transport could not parse has no bucket.
pub ip_bucket_key_lem :
    (a b : Addr)
    → a ≢ invalid
    → ((ip_bucket_key a ≡ ip_bucket_key b) ↔ SameNetwork a b) × (ip_bucket_key a ≢ none)
ip_bucket_key_lem a b v = ((key-SameNetwork a b v, SameNetwork-key), λ e. v ((key_none a).0 e))
