-- ===== src/Resolv/Config.antt =====
-- src/dns_resolv.c: resolv.conf. A text of the store of a configuration is the string itself.
pub mod Loops
pub mod Loaded
use c_db_k8s.Prelude.{
  ℕ, zero, suc, ◌+◌, ◌-◌, Bool, true, false, not, Option, none, some, List, [], ◌∷◌, ◌++◌, Bytes,
  ltb, leb, ◌==◌, if◌then◌else◌, length, Ordering, Run, ok, fault, stuck, ◌>>=◌,
}
use c_db_k8s.Str.Chars.{str_tolower}
use c_db_k8s.Str.Slice.{
  Slice, null, str, bytes, len, slice_cmpmem, slice_tou32, slice_chop, slice_trim, slice_splitset,
  slice_splitch,
}
use c_db_k8s.Resolv.{Sockaddr, no_sock, sockaddr_load, ipstr_decode}

-- `struct dns_config`; the lists are the parts of the arrays that are in use
pub record DnsConfig : Type 0 where
  pub attempts : ℕ
  pub timeout_secs : ℕ
  pub ndots : ℕ
  pub search : List Bytes
  pub ns_addrs : List Sockaddr
  pub store_len : ℕ
  pub use_tcp : Bool

abbrev pub cfg_zero : DnsConfig
cfg_zero = record {
  attempts = 0;
  timeout_secs = 0;
  ndots = 0;
  search = [];
  ns_addrs = [];
  store_len = 0;
  use_tcp = false;
}

abbrev pub cfg_maxns : ℕ
cfg_maxns = 3

abbrev pub cfg_maxsrch : ℕ
cfg_maxsrch = 8

abbrev pub cfg_maxstore : ℕ
cfg_maxstore = 256

-- `" \t"`
abbrev pub blanks : Bytes
blanks = 32 ∷ 9 ∷ []

-- `!slice_cmpmem(s, text)`
unfoldable pub is_text : Slice → Bytes → Bool
is_text s text = elim (slice_cmpmem s text) [
  | Ordering.eq ↦ true
  | Ordering.lt ↦ false
  | Ordering.gt ↦ false
]

-- `OPT_NDOTS`, `OPT_TIMEOUT`, `OPT_ATTEMPTS` and `OPT_USEVC`
pub data CfgOption : Type 0 where
  opt_ndots opt_timeout opt_attempts opt_usevc opt_none : CfgOption

unfoldable pub str_toopt : Slice → CfgOption
unfolding is_text
str_toopt s =
    if is_text s (110 ∷ 100 ∷ 111 ∷ 116 ∷ 115 ∷ [])
    then opt_ndots
    else if is_text s (116 ∷ 105 ∷ 109 ∷ 101 ∷ 111 ∷ 117 ∷ 116 ∷ [])
    then opt_timeout
    else if is_text s (97 ∷ 116 ∷ 116 ∷ 101 ∷ 109 ∷ 112 ∷ 116 ∷ 115 ∷ [])
    then opt_attempts
    else if is_text s (117 ∷ 115 ∷ 101 ∷ 45 ∷ 118 ∷ 99 ∷ [])
    then opt_usevc
    else opt_none

unfoldable pub set_option : DnsConfig → CfgOption → (val : Slice) → DnsConfig
set_option cfg opt_ndots val = record cfg { ndots = slice_tou32 val }
set_option cfg opt_timeout val = record cfg { timeout_secs = slice_tou32 val }
set_option cfg opt_attempts val = record cfg { attempts = slice_tou32 val }
set_option cfg opt_usevc val = record cfg { use_tcp = true }
set_option cfg opt_none val = cfg

unfoldable pub options_loop : ℕ → DnsConfig → Slice → Run DnsConfig
unfolding set_option str_toopt
options_loop zero cfg s = if len s == 0 then ok cfg else stuck
options_loop (suc rounds) cfg s =
    let item = slice_splitset s blanks in
    let key = slice_splitch item.0 b':' in
    let rest = options_loop rounds (set_option cfg (str_toopt key.0) key.1) item.1 in
    if len s == 0 then ok cfg else rest

-- A round takes a byte of the line.
unfoldable pub cfg_add_options : DnsConfig → Slice → Run DnsConfig
unfolding options_loop
cfg_add_options cfg s = options_loop (len s) cfg s

unfoldable pub search_loop : ℕ → DnsConfig → Slice → Run DnsConfig
unfolding str_tolower
search_loop zero cfg s = if len s == 0 then ok cfg else stuck
search_loop (suc rounds) cfg s =
    let item = slice_splitset s blanks in
    let size = len item.0 + 1 in
    let rest =
      search_loop rounds
        (record cfg {
          store_len = cfg.store_len + size;
          search = cfg.search ++ (str_tolower (bytes item.0) ∷ []);
        })
        item.1 in
    if len s == 0
    then ok cfg
    else if leb cfg_maxsrch (length cfg.search)
    then ok cfg
    else if ltb (cfg_maxstore - cfg.store_len) size
    then ok cfg
    else rest

unfoldable pub cfg_add_search : DnsConfig → Slice → Run DnsConfig
unfolding search_loop
cfg_add_search cfg s = search_loop (len s) cfg s

-- The memory of an address is `ip_addr` before.
unfoldable pub cfg_add_nameserver : DnsConfig → Slice → (ip_addr : Bytes) → DnsConfig
unfolding sockaddr_load ipstr_decode
cfg_add_nameserver cfg ip_str ip_addr =
    let found = ipstr_decode (bytes ip_str) ip_addr in
    if leb cfg_maxns (length cfg.ns_addrs)
    then cfg
    else (elim (sockaddr_load found.0 found.1 no_sock 53) [
      | some x ↦ record cfg { ns_addrs = cfg.ns_addrs ++ (x ∷ []) }
      | none ↦ cfg
    ])

-- `CFG_SERVER`, `CFG_SEARCH` and `CFG_OPTIONS`
pub data CfgKey : Type 0 where
  cfg_server cfg_search cfg_options cfg_none : CfgKey

unfoldable pub str_tocfg : Slice → CfgKey
unfolding is_text
str_tocfg s =
    if is_text s (110 ∷ 97 ∷ 109 ∷ 101 ∷ 115 ∷ 101 ∷ 114 ∷ 118 ∷ 101 ∷ 114 ∷ [])
    then cfg_server
    else if is_text s (115 ∷ 101 ∷ 97 ∷ 114 ∷ 99 ∷ 104 ∷ [])
    then cfg_search
    else if is_text s (111 ∷ 112 ∷ 116 ∷ 105 ∷ 111 ∷ 110 ∷ 115 ∷ [])
    then cfg_options
    else cfg_none

unfoldable pub cfg_entry : DnsConfig → CfgKey → Slice → (ip_addr : Bytes) → Run DnsConfig
unfolding cfg_add_nameserver cfg_add_search cfg_add_options
cfg_entry cfg cfg_server line ip_addr = ok (cfg_add_nameserver cfg line ip_addr)
cfg_entry cfg cfg_search line ip_addr = cfg_add_search cfg line
cfg_entry cfg cfg_options line ip_addr = cfg_add_options cfg line
cfg_entry cfg cfg_none line ip_addr = ok cfg

unfoldable pub config_line : DnsConfig → (ip_addr : Bytes) → Slice → Run DnsConfig
unfolding cfg_entry str_tocfg
config_line cfg ip_addr line =
    let text = slice_trim (slice_chop line b'#') in
    let item = slice_splitset text blanks in
    if len text == 0 then ok cfg else cfg_entry cfg (str_tocfg item.0) item.1 ip_addr

unfoldable pub config_lines : DnsConfig → (ip_addr : Bytes) → List Slice → Run DnsConfig
unfolding config_line
config_lines cfg ip_addr [] = ok cfg
config_lines cfg ip_addr (line ∷ lines) =
    config_line cfg ip_addr line >>= λ cfg'. config_lines cfg' ip_addr lines

abbrev pub or_default : ℕ → ℕ → ℕ
or_default n d = if n == 0 then d else n

unfoldable pub set_defaults : DnsConfig → (ip_addr : Bytes) → DnsConfig
unfolding cfg_add_nameserver
set_defaults cfg0 ip_addr =
    let cfg = record cfg0 {
      attempts = or_default cfg0.attempts 2;
      timeout_secs = or_default cfg0.timeout_secs 5;
      ndots = or_default cfg0.ndots 1;
    } in
    if length cfg.ns_addrs == 0
    then cfg_add_nameserver cfg (str (49 ∷ 50 ∷ 55 ∷ 46 ∷ 48 ∷ 46 ∷ 48 ∷ 46 ∷ 49 ∷ [])) ip_addr
    else cfg

-- `lines` are those that `read_line` gives, in turn.
unfoldable pub init_config : DnsConfig → (ip_addr : Bytes) → (lines : List Slice) → Run DnsConfig
unfolding config_lines set_defaults
init_config cfg ip_addr lines =
    config_lines cfg ip_addr lines >>= λ cfg'. ok (set_defaults cfg' ip_addr)
