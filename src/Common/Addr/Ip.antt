-- ===== src/Common/Addr/Ip.antt =====
-- pkg/common/addr.go: isUnsafeIP, with the methods of `net.IP` and `net.IPNet` that it calls.
pub mod Blocks
use vault_secrets_webhook.Base.{
  ℕ, zero, suc, ◌*◌, ◌/◌, ◌%◌, Bool, true, false, ◌&&◌, ◌||◌, Option, none, some, List, [], ◌∷◌,
  length, get_or, eqb, if◌then◌else◌,
}

-- The bytes of a `net.IP`: four, or sixteen as `net.ParseIP` returns.
abbrev pub IpAddr : Type 0
IpAddr = List ℕ

-- The four bytes of an IPv4 address.
pub record Quad : Type 0 where
  pub a : ℕ
  pub b : ℕ
  pub c : ℕ
  pub d : ℕ

abbrev byte : IpAddr → ℕ → ℕ
byte ip i = get_or ip i 0

-- `ip[:n]` is the list of these bytes.
starts_with_bytes : List ℕ → IpAddr → Bool
starts_with_bytes [] ip = true
starts_with_bytes (x ∷ xs) [] = false
starts_with_bytes (x ∷ xs) (y ∷ ip) = eqb x y && starts_with_bytes xs ip

abbrev pub mapped_prefix : List ℕ
mapped_prefix = 0 ∷ 0 ∷ 0 ∷ 0 ∷ 0 ∷ 0 ∷ 0 ∷ 0 ∷ 0 ∷ 0 ∷ 0xff ∷ 0xff ∷ []

-- `IP.To4`, where none is nil.
unfoldable pub to4 : IpAddr → Option Quad
unfolding starts_with_bytes
to4 (a ∷ b ∷ c ∷ d ∷ []) = some (record { a = a; b = b; c = c; d = d })
to4 ip =
    if eqb (length ip) 16 && starts_with_bytes mapped_prefix ip
    then some (record { a = byte ip 12; b = byte ip 13; c = byte ip 14; d = byte ip 15 })
    else none

abbrev zero_bytes : List ℕ
zero_bytes = 0 ∷ 0 ∷ 0 ∷ 0 ∷ 0 ∷ 0 ∷ 0 ∷ 0 ∷ 0 ∷ 0 ∷ 0 ∷ 0 ∷ 0 ∷ 0 ∷ 0 ∷ []

-- `IP.Equal` of an address that is no IPv4 address with one of sixteen bytes, fifteen zeros and `last`.
equals_zeros_then : ℕ → IpAddr → Bool
unfolding starts_with_bytes
equals_zeros_then last ip =
    eqb (length ip) 16 && starts_with_bytes zero_bytes ip && eqb (byte ip 15) last

-- `x & mask` for a byte and a mask of its high bits, of which `low` is the smallest.
abbrev high_bits : ℕ → ℕ → ℕ
high_bits x low = x / low * low

-- `IP.IsLoopback`
is_loopback : IpAddr → Bool
unfolding to4 equals_zeros_then
is_loopback ip = elim (to4 ip) [ some q ↦ eqb q.a 127 | none ↦ equals_zeros_then 1 ip ]

-- `IP.IsLinkLocalUnicast`
is_link_local_unicast : IpAddr → Bool
unfolding to4
is_link_local_unicast ip = elim (to4 ip) [
  | some q ↦ eqb q.a 169 && eqb q.b 254
  | none ↦ eqb (length ip) 16 && eqb (byte ip 0) 0xfe && eqb (high_bits (byte ip 1) 0x40) 0x80
]

-- `IP.IsLinkLocalMulticast`
is_link_local_multicast : IpAddr → Bool
unfolding to4
is_link_local_multicast ip = elim (to4 ip) [
  | some q ↦ eqb q.a 224 && eqb q.b 0 && eqb q.c 0
  | none ↦ eqb (length ip) 16 && eqb (byte ip 0) 0xff && eqb (byte ip 1 % 0x10) 0x02
]

-- `IP.IsPrivate`
is_private : IpAddr → Bool
unfolding to4
is_private ip = elim (to4 ip) [
  | some q ↦
      eqb q.a 10 || (eqb q.a 172 && eqb (high_bits q.b 0x10) 16) || (eqb q.a 192 && eqb q.b 168)
  | none ↦ eqb (length ip) 16 && eqb (high_bits (byte ip 0) 0x02) 0xfc
]

-- `IP.IsUnspecified`
is_unspecified : IpAddr → Bool
unfolding to4 equals_zeros_then
is_unspecified ip = elim (to4 ip) [
  | some q ↦ eqb q.a 0 && eqb q.b 0 && eqb q.c 0 && eqb q.d 0
  | none ↦ equals_zeros_then 0 ip
]

-- `cgnatRange.Contains`, for 100.64.0.0/10.
in_cgnat_range : IpAddr → Bool
unfolding to4
in_cgnat_range ip = elim (to4 ip) [
  | some q ↦ eqb q.a 100 && eqb (high_bits q.b 0x40) 64
  | none ↦ false
]

-- `isUnsafeIP`
unfoldable pub is_unsafe_ip : IpAddr → Bool
unfolding is_loopback is_link_local_unicast is_link_local_multicast is_private is_unspecified
    in_cgnat_range
is_unsafe_ip ip =
    is_loopback ip
    || is_link_local_unicast ip
    || is_link_local_multicast ip
    || is_private ip
    || is_unspecified ip
    || in_cgnat_range ip
