-- ===== src/Resolv.antt =====
-- src/dns_resolv.c: the addresses of a result, and a host name that is empty or an address. A member
-- of `struct dns_sockaddr` that is an address of the other family is not read.
pub mod Results
pub mod Added
pub mod Fixup
pub mod Hostname
pub mod Config
pub mod Port
pub mod Digits
use c_db_k8s.Prelude.{
  ℕ, zero, suc, ◌+◌, ◌-◌, ◌%◌, ◌^◌, Bool, true, false, not, ◌&&◌, ◌||◌, Option, none, some, List,
  [], ◌∷◌, ◌++◌, Bytes, ltb, leb, ◌==◌, if◌then◌else◌, length, replicate, take, drop,
}
use c_db_k8s.Str.Ip4.{ip4_str_decode}
use c_db_k8s.Str.Ip6.{ip6_str_decode}

-- `DNS_IPV4`, `DNS_IPV6` and any other number
pub data AddrType : Type 0 where
  ipv4 ipv6 no_type : AddrType

-- `SOCK_STREAM`, `SOCK_DGRAM` and 0, for `DNS_TCP`, `DNS_UDP` and any other number
pub data SockType : Type 0 where
  stream dgram no_sock : SockType

-- `struct dns_sockaddr` by its family, with the port in the order of the host; `len` is that of the
-- family
pub data Sockaddr : Type 0 where
  unset : Sockaddr
  v4 v6 : SockType → (port : ℕ) → (ip : Bytes) → Sockaddr

-- the flags of a call, one by one
pub record Flags : Type 0 where
  pub tcp : Bool
  pub udp : Bool
  pub ipv4 : Bool
  pub ipv6 : Bool
  pub passive : Bool
  pub numport : Bool
  pub v4mapped : Bool
  pub all : Bool

-- `struct dns_result`; `addrs` is the memory from the first address on
pub record DnsResult : Type 0 where
  pub flags : Flags
  pub host : Bytes
  pub port : Bytes
  pub udp_port : ℕ
  pub tcp_port : ℕ
  pub num_ip4 : ℕ
  pub num_ip6 : ℕ
  pub num_addr : ℕ
  pub max_addr : ℕ
  pub addrs : ℕ → Sockaddr
  pub need_ip4 : Bool
  pub need_ip6 : Bool

-- a store to an element
abbrev pub store : (ℕ → Sockaddr) → ℕ → Sockaddr → ℕ → Sockaddr
store addrs i x k = if k == i then x else addrs k

unfoldable pub sockaddr_load : AddrType → (ip : Bytes) → SockType → (port : ℕ) → Option Sockaddr
sockaddr_load ipv4 ip ptype port = some (v4 ptype (port % 2 ^ 16) (take 4 ip))
sockaddr_load ipv6 ip ptype port = some (v6 ptype (port % 2 ^ 16) (take 16 ip))
sockaddr_load no_type ip ptype port = none

unfoldable pub res_isfull : DnsResult → Bool
res_isfull res = leb res.max_addr res.num_addr

-- The result is an index, 0 if there is no room, or `none` for -1. IPv4 addresses are stored from the
-- end of the array.
unfoldable pub res_add_ip_port :
    DnsResult → AddrType → (ip : Bytes) → SockType → (port : ℕ) → Option ℕ × DnsResult
unfolding res_isfull sockaddr_load
res_add_ip_port res ipv4 ip ptype port =
    let idx = res.max_addr - res.num_ip4 - 1 in
    if res_isfull res then (some 0, res) else (elim (sockaddr_load ipv4 ip ptype port) [
      | some x ↦ (
        some idx,
        record res {
          addrs = store res.addrs idx x;
          num_ip4 = res.num_ip4 + 1;
          num_addr = res.num_addr + 1;
        },
      )
      | none ↦ (none, res)
    ])
res_add_ip_port res ipv6 ip ptype port =
    let idx = res.num_ip6 in
    if res_isfull res then (some 0, res) else (elim (sockaddr_load ipv6 ip ptype port) [
      | some x ↦ (
        some idx,
        record res {
          addrs = store res.addrs idx x;
          num_ip6 = res.num_ip6 + 1;
          num_addr = res.num_addr + 1;
        },
      )
      | none ↦ (none, res)
    ])
res_add_ip_port res no_type ip ptype port = if res_isfull res then (some 0, res) else (none, res)

-- `if (rc != -1) idx = rc;`
abbrev pub later : Option ℕ → Option ℕ → Option ℕ
later idx none = idx
later idx (some rc) = some rc

unfoldable pub res_add_ip : DnsResult → AddrType → (ip : Bytes) → Option ℕ × DnsResult
unfolding res_add_ip_port
res_add_ip res type ip =
    let tcp =
      if res.flags.tcp then res_add_ip_port res type ip stream res.tcp_port else (none, res) in
    let udp =
      if res.flags.udp then res_add_ip_port tcp.1 type ip dgram tcp.1.udp_port else (none, tcp.1) in
    (later tcp.0 udp.0, udp.1)

unfoldable pub res_add_addr : DnsResult → Sockaddr → Option ℕ × DnsResult
unfolding res_add_ip
res_add_addr res unset = (none, res)
res_add_addr res (v4 sock_type port ip) = res_add_ip res ipv4 ip
res_add_addr res (v6 sock_type port ip) = res_add_ip res ipv6 ip

-- `::ffff:a.b.c.d`; where `v4` is read of another member, `sin_addr` is 0
unfoldable pub to_mapped : Sockaddr → Sockaddr
to_mapped (v4 sock_type port ip) = v6 sock_type port (replicate 10 0 ++ (0xff ∷ 0xff ∷ ip))
to_mapped (v6 sock_type port ip) =
    v6 sock_type port (replicate 10 0 ++ (0xff ∷ 0xff ∷ replicate 4 0))
to_mapped unset = unset

-- the loop from `i` on, over `left` addresses
unfoldable pub fixup_loop : DnsResult → (left i : ℕ) → (ℕ → Sockaddr) → ℕ → Sockaddr
unfolding to_mapped
fixup_loop res zero i addrs = addrs
fixup_loop res (suc left) i addrs =
    let src = addrs (res.max_addr - 1 - i) in
    fixup_loop res left (i + 1)
      (store addrs (res.num_ip6 + i) (if res.flags.v4mapped then to_mapped src else src))

-- the IPv4 addresses are dropped where there are others, and both flags are not set
unfoldable pub drop_ip4 : DnsResult → DnsResult
drop_ip4 res =
    if ltb 0 res.num_ip6 && not (res.flags.v4mapped && res.flags.all)
    then record res { num_addr = res.num_addr - res.num_ip4; num_ip4 = 0 }
    else res

unfoldable pub fixup_addrs : DnsResult → DnsResult
unfolding fixup_loop drop_ip4
fixup_addrs res = let r = drop_ip4 res in record r { addrs = fixup_loop r r.num_ip4 0 r.addrs }

-- The memory of an address is `ip_addr` before.
unfoldable pub ipstr_decode : Bytes → (ip_addr : Bytes) → AddrType × Bytes
ipstr_decode str ip_addr =
    let four = ip4_str_decode str in
    let mem = four.1 ++ drop (length four.1) ip_addr in
    let six = ip6_str_decode str mem in
    if not (four.0 == 0)
    then (ipv4, mem)
    else if not (six.0 == 0)
    then (ipv6, six.1)
    else (no_type, six.1)

-- any address, if none is asked for, and the queries that are needed
unfoldable pub set_need : DnsResult → DnsResult
set_need res =
    let any = not (res.flags.ipv4 || res.flags.ipv6) in
    let flags = record res.flags { ipv4 = res.flags.ipv4 || any; ipv6 = res.flags.ipv6 || any } in
    record res {
      flags = flags;
      need_ip6 = flags.ipv6 || res.need_ip6;
      need_ip4 = flags.ipv4 || (flags.ipv6 || (flags.v4mapped || res.need_ip4));
    }

abbrev pub ip6_loopback : Bytes
ip6_loopback = replicate 15 0 ++ (1 ∷ [])

-- one address of each family that is needed
unfoldable pub add_local : DnsResult → (ip4 ip6 : Bytes) → DnsResult
unfolding res_add_ip
add_local res ip4 ip6 =
    let r = if res.need_ip4 then (res_add_ip res ipv4 ip4).1 else res in
    if r.need_ip6 then (res_add_ip r ipv6 ip6).1 else r

-- `res->num_addr ?: -1`
abbrev pub or_fail : DnsResult → Option ℕ × DnsResult
or_fail res = if res.num_addr == 0 then (none, res) else (some res.num_addr, res)

-- whether the flags let an address of a family in
unfoldable pub allows : Flags → AddrType → Bool
allows flags ipv4 = flags.ipv4 || flags.v4mapped
allows flags ipv6 = flags.ipv6
allows flags no_type = false

-- `some 0` for a name that is no address, `none` for -1
unfoldable pub try_hostname : DnsResult → (ip_addr : Bytes) → Option ℕ × DnsResult
unfolding set_need add_local ipstr_decode allows res_add_ip fixup_addrs
try_hostname res ip_addr =
    let r = set_need res in
    let found = ipstr_decode r.host ip_addr in
    if length r.host == 0
    then (if r.flags.passive
        then or_fail (fixup_addrs (add_local r (replicate 4 0) (replicate 16 0)))
        else or_fail (fixup_addrs (add_local r (127 ∷ 0 ∷ 0 ∷ 1 ∷ []) ip6_loopback)))
    else (elim (found.0) [
      | no_type ↦ (some 0, r)
      | t ↦ if allows r.flags t then or_fail (fixup_addrs (res_add_ip r t found.1).1) else (none, r)
    ])

-- `hosts` is what `hosts_get` finds for a name.
unfoldable pub try_hosts : (hosts : Bytes → Option Sockaddr) → DnsResult → Option ℕ × DnsResult
unfolding res_add_addr fixup_addrs
try_hosts hosts res = elim (hosts res.host) [
  | none ↦ (some 0, res)
  | some addr ↦ or_fail (fixup_addrs (res_add_addr res addr).1)
]
