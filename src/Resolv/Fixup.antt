-- ===== src/Resolv/Fixup.antt =====
-- `fixup_addrs` of src/dns_resolv.c: the array that the caller gets.
use c_db_k8s.Prelude.{
  ℕ, ◌+◌, ◌-◌, ◌<◌, ◌≤◌, ◌≡◌, ◌||◌, ◌==◌, Bytes, replicate, ◌∷◌, ◌++◌, ◌&&◌, if◌then◌else◌,
}
use c_db_k8s.Resolv.{SockType, Sockaddr, v4, v6, DnsResult, to_mapped}

-- an IPv4 address as the caller gets it
abbrev as_asked : DnsResult → Sockaddr → Sockaddr
as_asked r x = if r.flags.v4mapped then to_mapped x else x

-- the addresses of `r` in one row: the IPv6 addresses, and behind them the IPv4 addresses in the
-- order in which they were added
record InRow (r : DnsResult) (addrs : ℕ → Sockaddr) : Type 0 where
  pub sixes : (i : ℕ) → i < r.num_ip6 → addrs i ≡ r.addrs i
  pub fours :
      (j : ℕ) → j < r.num_ip4 → addrs (r.num_ip6 + j) ≡ as_asked r (r.addrs (r.max_addr - 1 - j))

-- after `i` rounds
record Moved (r : DnsResult) (i : ℕ) (addrs : ℕ → Sockaddr) : Type 0 where
  sixes : (k : ℕ) → k < r.num_ip6 → addrs k ≡ r.addrs k
  moved : (j : ℕ) → j < i → addrs (r.num_ip6 + j) ≡ as_asked r (r.addrs (r.max_addr - 1 - j))
  ahead :
      (j : ℕ) → i ≤ j → j < r.num_ip4 → addrs (r.max_addr - 1 - j) ≡ r.addrs (r.max_addr - 1 - j)

-- the IPv4 addresses that stay: all, where there is no IPv6 address or both flags are set
abbrev pub kept4 : DnsResult → ℕ
kept4 r = if r.num_ip6 == 0 || (r.flags.v4mapped && r.flags.all) then r.num_ip4 else 0

-- an IPv4 address as it is, or as `::ffff:a.b.c.d`
abbrev pub shown4 : DnsResult → SockType → (port : ℕ) → (ip : Bytes) → Sockaddr
shown4 r sock_type port ip =
    if r.flags.v4mapped
    then v6 sock_type port (replicate 10 0 ++ (0xff ∷ 0xff ∷ ip))
    else v4 sock_type port ip

pub record Fixed (r r' : DnsResult) : Type 0 where
  pub num6 : r'.num_ip6 ≡ r.num_ip6
  pub num4 : r'.num_ip4 ≡ kept4 r
  pub total : r'.num_addr ≡ r.num_ip6 + kept4 r
  pub sixes : (i : ℕ) → i < r.num_ip6 → r'.addrs i ≡ r.addrs i
  pub fours :
      (j : ℕ) {sock_type : SockType} {port : ℕ} {ip : Bytes}
      → j < kept4 r
      → r.addrs (r.max_addr - 1 - j) ≡ v4 sock_type port ip
      → r'.addrs (r.num_ip6 + j) ≡ shown4 r sock_type port ip
