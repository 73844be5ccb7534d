-- ===== src/Server/Ecs.antt =====
-- src/server.rs: the EDNS client subnet that a query is sent with; src/config.rs, `EdnsConfig`.
use dotdns.Prelude.{
  ℕ, ◌+◌, ◌-◌, ◌*◌, ◌/◌, ◌%◌, ◌^◌, Bool, true, false, not, ◌&&◌, ◌||◌, Option, none, some, ◌==◌,
  if◌then◌else◌,
}
use dotdns.Dns.{Dns}
use dotdns.Net.{IpAddr, v4, v6}

pub record ClientSubnetConfig : Type 0 where
  pub enabled : Bool
  pub ipv4_prefix : ℕ
  pub ipv6_prefix : ℕ
  pub exclude_private : Bool

pub record EdnsConfig : Type 0 where
  pub enabled : Bool
  pub preserve_client : Bool
  pub client_subnet : ClientSubnetConfig

-- The number of the address `a.b.c.d`.
abbrev octets : ℕ → ℕ → ℕ → ℕ → ℕ
octets a b c d = a * 2 ^ 24 + b * 2 ^ 16 + c * 2 ^ 8 + d

-- The addresses whose first `32 - n` bits are those of another.
abbrev shares : ℕ → ℕ → ℕ → Bool
shares n ip base = ip / 2 ^ n == base / 2 ^ n

-- `is_private`: 10.0.0.0/8, 172.16.0.0/12 and 192.168.0.0/16.
is_private : ℕ → Bool
is_private ip =
    shares 24 ip (octets 10 0 0 0)
    || shares 20 ip (octets 172 16 0 0)
    || shares 16 ip (octets 192 168 0 0)

-- `is_documentation`: 192.0.2.0/24, 198.51.100.0/24 and 203.0.113.0/24.
is_documentation : ℕ → Bool
is_documentation ip =
    shares 8 ip (octets 192 0 2 0)
    || shares 8 ip (octets 198 51 100 0)
    || shares 8 ip (octets 203 0 113 0)

-- Loopback, link-local, broadcast and unspecified addresses are 127.0.0.0/8, 169.254.0.0/16,
-- 255.255.255.255 and 0.0.0.0, and those of IPv6 ::1, ::, fc00::/7 and fe80::/10.
unfoldable pub is_public_client_ip : IpAddr → Bool
unfolding is_private is_documentation
is_public_client_ip (v4 ip) =
    not (is_private ip)
    && not (shares 24 ip (octets 127 0 0 0))
    && not (shares 16 ip (octets 169 254 0 0))
    && not (ip == 2 ^ 32 - 1)
    && not (is_documentation ip)
    && not (ip == 0)
is_public_client_ip (v6 ip) =
    not (ip == 1)
    && not (ip == 0)
    && not (ip / 2 ^ 121 == 0xfc / 2)
    && not (ip / 2 ^ 118 == 0xfe80 / 2 ^ 6)

-- `!0 << s` keeps all bits but the low `s`; the difference of two `u8` and the shift wrap around.
unfoldable pub mask_bits : ℕ → ℕ → ℕ → ℕ
mask_bits value prefix total_bits =
    let s = (total_bits + 2 ^ 8 - prefix) % 2 ^ 8 % total_bits in
    if prefix == 0 then 0 else value / 2 ^ s * 2 ^ s

unfoldable pub mask_ip : IpAddr → ℕ → IpAddr
mask_ip (v4 ip) prefix = v4 (mask_bits ip prefix 32)
mask_ip (v6 ip) prefix = v6 (mask_bits ip prefix 128)

unfoldable pub prefix_for : IpAddr → ClientSubnetConfig → ℕ
prefix_for (v4 ip) config = config.ipv4_prefix
prefix_for (v6 ip) config = config.ipv6_prefix

module _ (D : Dns) where
  open D use {Message, view, Edns, ClientSubnet}

  unfoldable pub client_subnet : IpAddr → EdnsConfig → Option ClientSubnet
  client_subnet ip config =
      let prefix = prefix_for ip config.client_subnet in
      if config.client_subnet.exclude_private && not (is_public_client_ip ip)
      then none
      else some (D.new_subnet (mask_ip ip prefix) prefix 0)

  has_subnet : Option Edns → Bool
  has_subnet none = false
  has_subnet (some edns) = elim (D.option edns) [ none ↦ false | some o ↦ true ]

  unfoldable pub query_has_ecs : Message → Bool
  unfolding has_subnet
  query_has_ecs query = has_subnet (view query).extensions

  or_new : Option Edns → Edns
  or_new none = D.new_edns
  or_new (some edns) = edns

  unfoldable pub with_subnet : Message → Option ClientSubnet → Message
  unfolding or_new
  with_subnet query none = query
  with_subnet query (some s) = D.set_edns (D.insert_subnet s (or_new (view query).extensions)) query

  unfoldable pub subnet_of : Option IpAddr → EdnsConfig → Option ClientSubnet
  subnet_of none config = none
  subnet_of (some ip) config = client_subnet ip config

  unfoldable pub query_with_ecs : Message → Option IpAddr → EdnsConfig → Message
  query_with_ecs query client_ip config =
      if not config.enabled || not config.client_subnet.enabled
      then query
      else if config.preserve_client && query_has_ecs query
      then query
      else with_subnet query (subnet_of client_ip config)
