-- ===== src/Proxycore/Guard/Denied.antt =====
-- Which IPv4 addresses internal/proxycore/proxy.go refuses to remote clients.
use hamsterd.Common.{ℕ, ◌≡◌, Bool, ◌&&◌, ◌||◌, leb, ◌==◌, arith, text_eq}
use hamsterd.Common.Ip.{
  ipv4, is_loopback_ip, is_unspecified, is_link_local_unicast, is_multicast,
  is_link_local_multicast, is_interface_local_multicast,
}
use hamsterd.Proxycore.Guard.{denied_destination}

-- "This network", loopback, link-local, multicast, broadcast, and the metadata address of Alibaba
-- Cloud.
unfoldable pub forbidden_ipv4 : ℕ → ℕ → ℕ → ℕ → Bool
forbidden_ipv4 a b c d =
    a == 0
    || (a == 127
        || ((a == 169 && b == 254)
            || ((leb 224 a && leb a 239)
                || ((a == 255 && (b == 255 && (c == 255 && d == 255)))
                    || (a == 100 && (b == 100 && (c == 100 && d == 200)))))))

-- An IPv4 address is refused exactly if it is in 0.0.0.0/8, 127.0.0.0/8, 169.254.0.0/16 or
-- 224.0.0.0/4, or is 255.255.255.255 or 100.100.100.200.
pub denied_destination-ipv4 :
    (a b c d : ℕ) → denied_destination (ipv4 a b c d) ≡ forbidden_ipv4 a b c d
unfolding denied_destination is_loopback_ip is_unspecified is_link_local_unicast is_multicast
    is_link_local_multicast is_interface_local_multicast text_eq forbidden_ipv4
denied_destination-ipv4 a b c d = ground arith
