-- ===== src/Resolv/Config/Loaded.antt =====
-- `init_config` of src/dns_resolv.c: what is loaded of any file.
use c_db_k8s.Prelude.{
  ℕ, ◌<◌, ◌≡◌, refl, sym, subst, inl, inr, false, Option, none, some, List, [], ◌∷◌, ◌++◌, Bytes,
  leb, ◌==◌, length, length-append, Bool-cases, arith,
}
use c_db_k8s.Str.Slice.{Slice, str, bytes, len, slice_splitset, slice_trim, slice_chop}
use c_db_k8s.Str.Ip4.{ip4_str_decode}
use c_db_k8s.Resolv.{Sockaddr, v4, no_sock, sockaddr_load, ipstr_decode}
use c_db_k8s.Resolv.Config.{
  DnsConfig, cfg_add_options, cfg_add_search, cfg_add_nameserver, CfgKey, cfg_server, cfg_search,
  cfg_options, cfg_none, str_tocfg, cfg_entry, config_line, config_lines, or_default, set_defaults,
  init_config, blanks,
}
use c_db_k8s.Resolv.Config.Loops.{IsConfig, Loads, options_loop-Loads, search_loop-Loads}

cfg_add_nameserver-IsConfig :
    (c : DnsConfig) (s : Slice) (ip_addr : Bytes)
    → IsConfig c
    → IsConfig (cfg_add_nameserver c s ip_addr)
unfolding cfg_add_nameserver
cfg_add_nameserver-IsConfig c s ip_addr v = elim (Bool-cases (leb 3 (length c.ns_addrs))) [
  | inl full ↦ rw full v
  | inr free ↦ rw free (
      stored
        (sockaddr_load (ipstr_decode (bytes s) ip_addr).0 (ipstr_decode (bytes s) ip_addr).1 no_sock
          53)
        (ground arith))
]
  where
    stored :
        (o : Option Sockaddr)
        → length c.ns_addrs < 3
        → IsConfig (elim o as (λ x. DnsConfig) [
          | some x ↦ record c { ns_addrs = c.ns_addrs ++ (x ∷ []) }
          | none ↦ c
        ])
    stored none lt = v
    stored (some x) lt = record {
      servers = omega (arith, length-append c.ns_addrs (x ∷ []));
      names = v.names;
      room = v.room;
      used = v.used;
    }

cfg_entry-Loads :
    (c : DnsConfig) (k : CfgKey) (s : Slice) (ip_addr : Bytes)
    → IsConfig c
    → Loads IsConfig (cfg_entry c k s ip_addr)
unfolding cfg_entry cfg_add_search cfg_add_options
cfg_entry-Loads c cfg_server s ip_addr v =
    (cfg_add_nameserver c s ip_addr, refl, cfg_add_nameserver-IsConfig c s ip_addr v)
cfg_entry-Loads c cfg_search s ip_addr v = search_loop-Loads (len s) c s (omega arith) v
cfg_entry-Loads c cfg_options s ip_addr v = options_loop-Loads (len s) c s (omega arith) v
cfg_entry-Loads c cfg_none s ip_addr v = (c, refl, v)

config_line-Loads :
    (c : DnsConfig) (ip_addr : Bytes) (line : Slice)
    → IsConfig c
    → Loads IsConfig (config_line c ip_addr line)
unfolding config_line
config_line-Loads c ip_addr line v =
    let text = slice_trim (slice_chop line b'#') in
    let item = slice_splitset text blanks in
    elim (Bool-cases (len text == 0)) [
      | inl empty ↦ (c, rw empty refl, v)
      | inr entry ↦ rw entry (cfg_entry-Loads c (str_tocfg item.0) item.1 ip_addr v)
    ]

config_lines-Loads :
    (lines : List Slice) (c : DnsConfig) (ip_addr : Bytes)
    → IsConfig c
    → Loads IsConfig (config_lines c ip_addr lines)
unfolding config_lines
config_lines-Loads [] c ip_addr v = (c, refl, v)
config_lines-Loads (line ∷ lines) c ip_addr v =
    let (c1, e, v1) = config_line-Loads c ip_addr line v in
    let (c2, e2, v2) = config_lines-Loads lines c1 ip_addr v1 in (c2, rw (e, config_lines) e2, v2)

-- what a resolver needs
pub record IsUsable (c : DnsConfig) : Type 0 where
  pub valid : IsConfig c
  pub attempts : 0 < c.attempts
  pub timeout : 0 < c.timeout_secs
  pub ndots : 0 < c.ndots
  pub server : 0 < length c.ns_addrs

-- a number that is not set has its default
or_default-pos : (n d : ℕ) → 0 < d → 0 < or_default n d
or_default-pos n d h = ground (arith, h)

local_server :
    (c : DnsConfig) (ip_addr : Bytes)
    → length c.ns_addrs ≡ 0
    → (x : Sockaddr) × (cfg_add_nameserver c
          (str (49 ∷ 50 ∷ 55 ∷ 46 ∷ 48 ∷ 46 ∷ 48 ∷ 46 ∷ 49 ∷ []))
          ip_addr
        ≡ record c { ns_addrs = c.ns_addrs ++ (x ∷ []) })
unfolding cfg_add_nameserver ipstr_decode sockaddr_load ip4_str_decode
local_server c ip_addr e =
    let free : leb 3 (length c.ns_addrs) ≡ false = ground (arith, e) in
    (v4 no_sock 53 (127 ∷ 0 ∷ 0 ∷ 1 ∷ []), rw free refl)

set_defaults-IsUsable :
    (c : DnsConfig) (ip_addr : Bytes) → IsConfig c → IsUsable (set_defaults c ip_addr)
unfolding set_defaults
set_defaults-IsUsable c ip_addr v =
    let d = record c {
      attempts = or_default c.attempts 2;
      timeout_secs = or_default c.timeout_secs 5;
      ndots = or_default c.ndots 1;
    } in
    let vd : IsConfig d = record {
      servers = v.servers;
      names = v.names;
      room = v.room;
      used = v.used;
    } in
    elim (Bool-cases (length c.ns_addrs == 0)) [
      | inl none_set ↦ rw none_set (
          let (x, e) = local_server d ip_addr (ground arith) in
          let w =
            cfg_add_nameserver-IsConfig d (str (49 ∷ 50 ∷ 55 ∷ 46 ∷ 48 ∷ 46 ∷ 48 ∷ 46 ∷ 49 ∷ []))
              ip_addr vd in
          subst IsUsable (sym e) (record {
            valid = subst IsConfig e w;
            attempts = or_default-pos c.attempts 2 (omega arith);
            timeout = or_default-pos c.timeout_secs 5 (omega arith);
            ndots = or_default-pos c.ndots 1 (omega arith);
            server = omega (arith, length-append c.ns_addrs (x ∷ []));
          }))
      | inr some_set ↦ rw some_set (record {
        valid = vd;
        attempts = or_default-pos c.attempts 2 (omega arith);
        timeout = or_default-pos c.timeout_secs 5 (omega arith);
        ndots = or_default-pos c.ndots 1 (omega arith);
        server = ground arith;
      })
    ]

-- `init_config` ends on the lines of any file with a configuration that a resolver can use: from one
-- within its arrays, it has 1 to 3 name servers, a search list of at most 8 names that its store
-- of 256 bytes holds, and attempts, a timeout and `ndots` that are not 0.
pub init_config-IsUsable :
    (c : DnsConfig) (ip_addr : Bytes) (lines : List Slice)
    → IsConfig c
    → Loads IsUsable (init_config c ip_addr lines)
unfolding init_config
init_config-IsUsable c ip_addr lines v =
    let (c1, e, v1) = config_lines-Loads lines c ip_addr v in
    (set_defaults c1 ip_addr, rw (e, init_config) refl, set_defaults-IsUsable c1 ip_addr v1)
