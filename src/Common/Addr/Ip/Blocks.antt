-- ===== src/Common/Addr/Ip/Blocks.antt =====
-- isUnsafeIP on an IPv4 address, against the blocks of the address space as ranges of numbers.
use mathlib.Core.Bool.{or_assoc, or-false}
use vault_secrets_webhook.Base.{
  ℕ, ◌+◌, ◌*◌, ◌<◌, ◌≡◌, Bool, ◌&&◌, List, [], ◌∷◌, arith, leb, any, eqb,
}
use vault_secrets_webhook.Common.Addr.Ip.{high_bits, is_unsafe_ip}

-- An IPv4 address as one number.
abbrev pub address : ℕ → ℕ → ℕ → ℕ → ℕ
address a b c d = ((a * 256 + b) * 256 + c) * 256 + d

-- A block: its first and its last address.
abbrev Block : Type 0
Block = ℕ × ℕ

-- 127.0.0.0/8, 169.254.0.0/16, 224.0.0.0/24, 10.0.0.0/8, 172.16.0.0/12, 192.168.0.0/16,
-- 0.0.0.0/32 and 100.64.0.0/10.
abbrev pub unsafe_blocks : List Block
unsafe_blocks =
    (address 127 0 0 0, address 127 255 255 255)
    ∷ (address 169 254 0 0, address 169 254 255 255)
    ∷ (address 224 0 0 0, address 224 0 0 255)
    ∷ (address 10 0 0 0, address 10 255 255 255)
    ∷ (address 172 16 0 0, address 172 31 255 255)
    ∷ (address 192 168 0 0, address 192 168 255 255)
    ∷ (address 0 0 0 0, address 0 0 0 0)
    ∷ (address 100 64 0 0, address 100 127 255 255)
    ∷ []

abbrev pub within : ℕ → Block → Bool
within n (first, last) = leb first n && leb n last

module _ (a b c d : ℕ) (pa : a < 256) (pb : b < 256) (pc : c < 256) (pd : d < 256) where
  loopback_block : eqb a 127 ≡ within (address a b c d) (address 127 0 0 0, address 127 255 255 255)
  loopback_block = ground arith

  link_local_block :
      (eqb a 169 && eqb b 254)
      ≡ within (address a b c d) (address 169 254 0 0, address 169 254 255 255)
  link_local_block = ground arith

  multicast_block :
      (eqb a 224 && eqb b 0 && eqb c 0)
      ≡ within (address a b c d) (address 224 0 0 0, address 224 0 0 255)
  multicast_block = ground arith

  ten_block : eqb a 10 ≡ within (address a b c d) (address 10 0 0 0, address 10 255 255 255)
  ten_block = ground arith

  twelve_block :
      (eqb a 172 && eqb (high_bits b 0x10) 16)
      ≡ within (address a b c d) (address 172 16 0 0, address 172 31 255 255)
  twelve_block = ground arith

  sixteen_block :
      (eqb a 192 && eqb b 168)
      ≡ within (address a b c d) (address 192 168 0 0, address 192 168 255 255)
  sixteen_block = ground arith

  zero_block :
      (eqb a 0 && eqb b 0 && eqb c 0 && eqb d 0)
      ≡ within (address a b c d) (address 0 0 0 0, address 0 0 0 0)
  zero_block = ground arith

  cgnat_block :
      (eqb a 100 && eqb (high_bits b 0x40) 64)
      ≡ within (address a b c d) (address 100 64 0 0, address 100 127 255 255)
  cgnat_block = ground arith

  -- An address of four bytes is unsafe exactly when its number lies in one of the blocks.
  pub is_unsafe_ip-blocks :
      is_unsafe_ip (a ∷ b ∷ c ∷ d ∷ []) ≡ any (within (address a b c d)) unsafe_blocks
  unfolding is_unsafe_ip
  is_unsafe_ip-blocks =
      rw
        (
          ← loopback_block,
          ← link_local_block,
          ← multicast_block,
          ← ten_block,
          ← twelve_block,
          ← sixteen_block,
          ← zero_block,
          ← cgnat_block,
        )
        (simp (or_assoc, or-false))
