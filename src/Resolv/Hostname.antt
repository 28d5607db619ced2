-- ===== src/Resolv/Hostname.antt =====
-- `try_hostname` of src/dns_resolv.c: what it stores for a host that is empty or an address.
use c_db_k8s.Prelude.{
  ℕ, zero, suc, ◌+◌, ◌-◌, ◌<◌, ◌≤◌, ◌≡◌, refl, ◌∙◌, inl, inr, Bool, true, false, not, ◌&&◌, Option,
  none, some, [], ◌∷◌, Bytes, ltb, ◌==◌, if◌then◌else◌, length, replicate, Bool-cases, arith,
}
use c_db_k8s.Resolv.{
  AddrType, ipv4, ipv6, no_type, Sockaddr, DnsResult, res_add_ip, fixup_loop, drop_ip4, fixup_addrs,
  ipstr_decode, set_need, add_local, ip6_loopback, or_fail, allows, try_hostname, res_add_addr,
  try_hosts,
}
use c_db_k8s.Resolv.Results.{
  IsResult, Grows, Grows-refl, Grows-trans, res_add_ip-Grows, res_add_addr-Grows, store_all,
}

-- `r'` counts no more addresses than the array of `r` has places, and nothing behind it is written
pub record Within (r r' : DnsResult) : Type 0 where
  pub room : r'.num_addr ≤ r.max_addr
  pub outside : (k : ℕ) → r.max_addr ≤ k → r'.addrs k ≡ r.addrs k

-- 0 for a name that is left to others, -1, or the number of the addresses
pub data Answered (r : DnsResult) : Option ℕ × DnsResult → Type 0 where
  unknown : {r' : DnsResult} → ((k : ℕ) → r'.addrs k ≡ r.addrs k) → Answered r (some 0, r')
  refused : {r' : DnsResult} → Within r r' → Answered r (none, r')
  found : {r' : DnsResult} → Within r r' → 0 < r'.num_addr → Answered r (some r'.num_addr, r')

or_fail-Answered : {r r' : DnsResult} → Within r r' → Answered r (or_fail r')
or_fail-Answered {r} {r'} w = elim (Bool-cases (r'.num_addr == 0)) [
  | inl empty ↦ rw empty (refused w)
  | inr some_found ↦ rw some_found (found w (ground arith))
]

fixup_loop-outside :
    (r : DnsResult) (left i : ℕ) (addrs : ℕ → Sockaddr) (k : ℕ)
    → r.num_ip6 + i + left ≤ k
    → fixup_loop r left i addrs k ≡ addrs k
unfolding fixup_loop
fixup_loop-outside r zero i addrs k h = refl
fixup_loop-outside r (suc left) i addrs k h =
    fixup_loop-outside r left (i + 1) _ k (omega (arith, h))
    ∙ store_all (λ y. y ≡ addrs k) addrs (r.num_ip6 + i) _ k (λ e. absurd (omega (arith, h, e)))
        (λ ne. refl)

fixup_addrs-Within : {r r' : DnsResult} → Grows r r' → Within r (fixup_addrs r')
unfolding fixup_addrs drop_ip4
fixup_addrs-Within {r} {r'} g =
    elim (Bool-cases (ltb 0 r'.num_ip6 && not (r'.flags.v4mapped && r'.flags.all))) [
      | inl drops ↦ rw drops (record {
        room = omega (arith, g.valid.room, g.same_max);
        outside = λ k h.
            fixup_loop-outside (record r' { num_addr = r'.num_addr - r'.num_ip4; num_ip4 = 0 }) 0 0
              r'.addrs k (omega (arith, g.valid.total, g.valid.room, g.same_max))
            ∙ g.outside k h;
      })
      | inr keeps ↦ rw keeps (record {
        room = omega (arith, g.valid.room, g.same_max);
        outside = λ k h.
            fixup_loop-outside r' r'.num_ip4 0 r'.addrs k
              (omega (arith, g.valid.total, g.valid.room, g.same_max))
            ∙ g.outside k h;
      })
    ]

add_local-Grows : (r : DnsResult) (ip4 ip6 : Bytes) → IsResult r → Grows r (add_local r ip4 ip6)
unfolding add_local
add_local-Grows r ip4 ip6 v =
    let first = four r.need_ip4 in Grows-trans first (six (step r.need_ip4).need_ip6 first)
  where
    step : Bool → DnsResult
    step b = if b then (res_add_ip r ipv4 ip4).1 else r

    four : (b : Bool) → Grows r (step b)
    four true = res_add_ip-Grows r ipv4 ip4 v
    four false = Grows-refl v

    six :
        (b : Bool) {t : DnsResult}
        → Grows r t
        → Grows t (if b then (res_add_ip t ipv6 ip6).1 else t)
    six true {t} g = res_add_ip-Grows t ipv6 ip6 g.valid
    six false {t} g = Grows-refl g.valid

set_need-Grows : (r : DnsResult) → IsResult r → Grows r (set_need r)
unfolding set_need
set_need-Grows r v = record {
  valid = record { total = v.total; room = v.room; sixes = v.sixes; fours = v.fours };
  same_max = refl;
  more6 = omega arith;
  more4 = omega arith;
  sixes = λ i h. refl;
  fours = λ j h. refl;
  outside = λ k h. refl;
}

address-Answered :
    (r s : DnsResult) (t : AddrType) (ip : Bytes)
    → Grows r s
    → Answered r
        (if allows s.flags t then or_fail (fixup_addrs (res_add_ip s t ip).1) else (none, s))
address-Answered r s t ip g = elim (Bool-cases (allows s.flags t)) [
  | inl fits ↦
      rw fits
        (or_fail-Answered (fixup_addrs-Within (Grows-trans g (res_add_ip-Grows s t ip g.valid))))
  | inr not_asked ↦
      rw not_asked
        (refused (record { room = omega (arith, g.valid.room, g.same_max); outside = g.outside }))
]

decoded-Answered :
    (r s : DnsResult) (p : AddrType × Bytes)
    → Grows r s
    → ((k : ℕ) → s.addrs k ≡ r.addrs k)
    → Answered r (elim (p.0) as (λ x. Option ℕ × DnsResult) [
      | no_type ↦ (some 0, s)
      | ipv4 ↦
          if allows s.flags ipv4 then or_fail (fixup_addrs (res_add_ip s ipv4 p.1).1) else (none, s)
      | ipv6 ↦
          if allows s.flags ipv6 then or_fail (fixup_addrs (res_add_ip s ipv6 p.1).1) else (none, s)
    ])
decoded-Answered r s (no_type, ip) g same = unknown same
decoded-Answered r s (ipv4, ip) g same = address-Answered r s ipv4 ip g
decoded-Answered r s (ipv6, ip) g same = address-Answered r s ipv6 ip g

local-Answered :
    (r s : DnsResult) (passive : Bool)
    → Grows r s
    → Answered r (
        if passive
        then or_fail (fixup_addrs (add_local s (replicate 4 0) (replicate 16 0)))
        else or_fail (fixup_addrs (add_local s (127 ∷ 0 ∷ 0 ∷ 1 ∷ []) ip6_loopback)))
local-Answered r s true g =
    or_fail-Answered (fixup_addrs-Within (Grows-trans g (add_local-Grows s _ _ g.valid)))
local-Answered r s false g =
    or_fail-Answered (fixup_addrs-Within (Grows-trans g (add_local-Grows s _ _ g.valid)))

-- `try_hostname`, on a result whose addresses stand where `res_add_ip` stores them, returns 0 and
-- stores nothing, or returns -1, or returns the number of the addresses of the result, which is not
-- 0 and at most the number of places in the array of the caller. It never writes behind that array.
pub try_hostname-Answered :
    (r : DnsResult) (ip_addr : Bytes) → IsResult r → Answered r (try_hostname r ip_addr)
unfolding try_hostname
try_hostname-Answered r ip_addr v =
    let s = set_need r in
    let g = set_need-Grows r v in
    elim (Bool-cases (length s.host == 0)) [
      | inl empty ↦ rw empty (local-Answered r s s.flags.passive g)
      | inr host ↦
          rw host
            (decoded-Answered r s (ipstr_decode s.host ip_addr) g (λ k. unfold set_need in refl))
    ]

-- `try_hosts` answers as `try_hostname` does, whatever the hosts file has.
pub try_hosts-Answered :
    (r : DnsResult) (hosts : Bytes → Option Sockaddr) → IsResult r → Answered r (try_hosts hosts r)
unfolding try_hosts
try_hosts-Answered r hosts v = looked_up (hosts r.host)
  where
    looked_up :
        (o : Option Sockaddr)
        → Answered r (elim o as (λ x. Option ℕ × DnsResult) [
          | none ↦ (some 0, r)
          | some addr ↦ or_fail (fixup_addrs (res_add_addr r addr).1)
        ])
    looked_up none = unknown (λ k. refl)
    looked_up (some addr) = or_fail-Answered (fixup_addrs-Within (res_add_addr-Grows r addr v))
