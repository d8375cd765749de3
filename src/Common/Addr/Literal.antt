-- ===== src/Common/Addr/Literal.antt =====
-- checkHostIPSafety on a host that is a literal IPv4 address.
use vault_secrets_webhook.Base.{
  ℕ, ◌<◌, String, ◌≡◌, refl, Option, [], ◌∷◌, ◌++◌, any, ok, err, if◌then◌else◌,
}
use vault_secrets_webhook.Common.Addr.{Net, unsafe_target, check_host_ip_safety}
use vault_secrets_webhook.Common.Addr.Ip.{IpAddr, mapped_prefix, is_unsafe_ip, to4}
use vault_secrets_webhook.Common.Addr.Ip.Blocks.{
  address, within, unsafe_blocks, is_unsafe_ip-blocks,
}
use vault_secrets_webhook.Common.Addr.ParseIp.{parse_ip}
use vault_secrets_webhook.Common.Addr.ParseIp.Dotted.{dotted, parse_ip-dotted}

module _ (net : Net) (parse_ipv6 : String → Option IpAddr) where
  -- The network functions with `net.ParseIP` as Go has it, from the reading of IPv6 addresses.
  abbrev pub with_parse_ip : Net
  with_parse_ip = record net { parse_ip = parse_ip parse_ipv6 }

  module _ (a b c d : ℕ) (pa : a < 256) (pb : b < 256) (pc : c < 256) (pd : d < 256) where
    is_unsafe_ip-mapped :
        is_unsafe_ip (mapped_prefix ++ a ∷ b ∷ c ∷ d ∷ []) ≡ is_unsafe_ip (a ∷ b ∷ c ∷ d ∷ [])
    unfolding is_unsafe_ip to4
    is_unsafe_ip-mapped = refl

    -- A host in the dotted form of an IPv4 address is refused exactly when the address lies in one
    -- of the eight unsafe blocks.
    pub check_host_ip_safety-dotted :
        check_host_ip_safety with_parse_ip (dotted a b c d)
        ≡ (if any (within (address a b c d)) unsafe_blocks then err unsafe_target else ok tt)
    unfolding check_host_ip_safety
    check_host_ip_safety-dotted =
        rw
          (
            parse_ip-dotted a b c d pa pb pc pd parse_ipv6,
            is_unsafe_ip-mapped,
            is_unsafe_ip-blocks a b c d pa pb pc pd,
            check_host_ip_safety,
          )
          refl
