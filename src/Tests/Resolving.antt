-- ===== src/Tests/Resolving.antt =====
-- The theorems on results and configurations at concrete inputs, and a result that loses an address.
use c_db_k8s.Prelude.{
  ℕ, ◌+◌, ◌*◌, ◌^◌, ◌≡◌, refl, true, false, not, ◌&&◌, List, [], ◌∷◌, Bytes, replicate, ok, arith,
}
use c_db_k8s.Str.Slice.{Slice, str}
use c_db_k8s.Str.Ip4.{size_max, ip4_str_decode}
use c_db_k8s.Resolv.Digits.{ipstr_decode_four_digits}
use c_db_k8s.Resolv.{
  ipv4, stream, dgram, unset, v4, DnsResult, res_add_ip, ipstr_decode, try_hostname,
}
use c_db_k8s.Resolv.Results.{IsResult}
use c_db_k8s.Resolv.Added.{Adds, called_for, res_add_ip-Adds}
use c_db_k8s.Resolv.Hostname.{Answered, try_hostname-Answered}
use c_db_k8s.Str.Chars.{str_isnumeric}
use c_db_k8s.Resolv.Port.{try_port, offers, HasPorts, try_port-HasPorts}
use c_db_k8s.Resolv.Config.{DnsConfig, cfg_zero, init_config}
use c_db_k8s.Resolv.Config.Loaded.{IsUsable, init_config-IsUsable}
use c_db_k8s.Resolv.Config.Loops.{IsConfig}

-- 10.0.0.7 for both protocols, in an array of `n` places
abbrev asked : ℕ → DnsResult
asked n = record {
  flags = record {
    tcp = true;
    udp = true;
    ipv4 = true;
    ipv6 = false;
    passive = false;
    numport = false;
    v4mapped = false;
    all = false;
  };
  host = 49 ∷ 48 ∷ 46 ∷ 48 ∷ 46 ∷ 48 ∷ 46 ∷ 55 ∷ [];
  port = [];
  udp_port = 53;
  tcp_port = 53;
  num_ip4 = 0;
  num_ip6 = 0;
  num_addr = 0;
  max_addr = n;
  addrs = λ i. unset;
  need_ip4 = false;
  need_ip6 = false;
}

asked-IsResult : (n : ℕ) → IsResult (asked n)
asked-IsResult n = record {
  total = refl;
  room = omega arith;
  sixes = λ i h. absurd (omega (arith, h));
  fours = λ j h. absurd (omega (arith, h));
}

abbrev some_ip : Bytes
some_ip = 10 ∷ 0 ∷ 0 ∷ 7 ∷ []

res_add_ip-Adds_example :
    Adds ipv4 (called_for (asked 2) ipv4 some_ip) (asked 2) (res_add_ip (asked 2) ipv4 some_ip).1
res_add_ip-Adds_example = res_add_ip-Adds (asked 2) ipv4 some_ip (asked-IsResult 2)

-- both addresses are there
called_for_test :
    called_for (asked 2) ipv4 some_ip ≡ v4 stream 53 some_ip ∷ v4 dgram 53 some_ip ∷ []
called_for_test = refl

abbrev two_added : DnsResult
two_added = (res_add_ip (asked 3) ipv4 some_ip).1

try_hostname-Answered_example : Answered (asked 2) (try_hostname (asked 2) (replicate 16 0))
try_hostname-Answered_example = try_hostname-Answered (asked 2) (replicate 16 0) (asked-IsResult 2)

-- in a full array the address for UDP is lost: both are for TCP
lost_address_test :
    ((try_hostname (asked 2) (replicate 16 0)).1.addrs 0 ≡ v4 stream 53 some_ip)
    × ((try_hostname (asked 2) (replicate 16 0)).1.addrs 1 ≡ v4 stream 53 some_ip)
unfolding try_hostname ip4_str_decode
lost_address_test = (refl, refl)

-- `options timeout:0` and `nameserver 10.0.0.7`
abbrev some_lines : List Slice
some_lines =
    str (
      111 ∷ 112 ∷ 116 ∷ 105 ∷ 111 ∷ 110 ∷ 115 ∷ 32 ∷ 116 ∷ 105 ∷ 109 ∷ 101 ∷ 111 ∷ 117 ∷ 116 ∷ 58
      ∷ 48 ∷ [])
    ∷ str (
        110 ∷ 97 ∷ 109 ∷ 101 ∷ 115 ∷ 101 ∷ 114 ∷ 118 ∷ 101 ∷ 114 ∷ 32 ∷ 49 ∷ 48 ∷ 46 ∷ 48 ∷ 46 ∷ 48
        ∷ 46 ∷ 55 ∷ [])
    ∷ []

cfg_zero-IsConfig : IsConfig cfg_zero
cfg_zero-IsConfig = record {
  servers = omega arith;
  names = omega arith;
  room = omega arith;
  used = refl;
}

init_config-IsUsable_example :
    (c : DnsConfig) × (init_config cfg_zero (replicate 16 0) some_lines ≡ ok c) × IsUsable c
init_config-IsUsable_example =
    init_config-IsUsable cfg_zero (replicate 16 0) some_lines cfg_zero-IsConfig

-- `domain`, port 53 for both protocols
abbrev by_name : DnsResult
by_name = record (asked 2) { port = 100 ∷ 111 ∷ 109 ∷ 97 ∷ 105 ∷ 110 ∷ [] }

some_services : Bytes → ℕ
some_services name = 53 * 2 ^ 16 + 53

try_port-HasPorts_example :
    ((try_port some_services by_name).0
      ≡ not by_name.flags.numport && offers by_name.flags (some_services by_name.port))
    × ((try_port some_services by_name).0 ≡ true
        → HasPorts by_name (some_services by_name.port) (try_port some_services by_name).1)
unfolding str_isnumeric
try_port-HasPorts_example = try_port-HasPorts some_services by_name (omega arith) refl

-- `1270.1`
ipstr_decode_four_digits_example :
    (ip4_str_decode (49 ∷ 50 ∷ 55 ∷ 48 ∷ 46 ∷ 49 ∷ []) ≡ (size_max, []))
    × (ipstr_decode (49 ∷ 50 ∷ 55 ∷ 48 ∷ 46 ∷ 49 ∷ []) (replicate 16 0) ≡ (ipv4, replicate 16 0))
ipstr_decode_four_digits_example =
    ipstr_decode_four_digits 1 2 7 0 (46 ∷ 49 ∷ []) (replicate 16 0) (omega arith) (omega arith)
      (omega arith) (omega arith) (omega arith)
