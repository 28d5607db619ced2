-- ===== src/Resolv/Results.antt =====
-- `res_add_ip_port`, `res_add_ip` and `res_add_addr` of src/dns_resolv.c: where addresses are stored.
use c_db_k8s.Prelude.{
  ℕ, ◌+◌, ◌-◌, ◌<◌, ◌≤◌, ◌≡◌, ◌≢◌, subst, refl, ◌∙◌, inl, inr, Bool, true, false, none, Bytes, leb,
  ◌==◌, if◌then◌else◌, Bool-cases, arith,
}
use c_db_k8s.Resolv.{
  AddrType, ipv4, ipv6, no_type, SockType, stream, dgram, Sockaddr, unset, v4, v6, DnsResult, store,
  sockaddr_load, res_isfull, res_add_ip_port, res_add_ip, res_add_addr,
}

abbrev pub is_v4 : Sockaddr → Bool
is_v4 unset = false
is_v4 (v4 _ _ _) = true
is_v4 (v6 _ _ _) = false

abbrev pub is_v6 : Sockaddr → Bool
is_v6 unset = false
is_v6 (v4 _ _ _) = false
is_v6 (v6 _ _ _) = true

-- the IPv6 addresses stand at the front and the IPv4 addresses, from the last place down, at the end
pub record IsResult (r : DnsResult) : Type 0 where
  pub total : r.num_addr ≡ r.num_ip4 + r.num_ip6
  pub room : r.num_addr ≤ r.max_addr
  pub sixes : (i : ℕ) → i < r.num_ip6 → is_v6 (r.addrs i) ≡ true
  pub fours : (j : ℕ) → j < r.num_ip4 → is_v4 (r.addrs (r.max_addr - 1 - j)) ≡ true

-- `r'` is a result with the addresses of `r` where they were, and nothing behind the array is written
pub record Grows (r r' : DnsResult) : Type 0 where
  pub valid : IsResult r'
  pub same_max : r'.max_addr ≡ r.max_addr
  pub more6 : r.num_ip6 ≤ r'.num_ip6
  pub more4 : r.num_ip4 ≤ r'.num_ip4
  pub sixes : (i : ℕ) → i < r.num_ip6 → r'.addrs i ≡ r.addrs i
  pub fours : (j : ℕ) → j < r.num_ip4 → r'.addrs (r.max_addr - 1 - j) ≡ r.addrs (r.max_addr - 1 - j)
  pub outside : (k : ℕ) → r.max_addr ≤ k → r'.addrs k ≡ r.addrs k

pub Grows-refl : {r : DnsResult} → IsResult r → Grows r r
Grows-refl v = record {
  valid = v;
  same_max = refl;
  more6 = omega arith;
  more4 = omega arith;
  sixes = λ i h. refl;
  fours = λ j h. refl;
  outside = λ k h. refl;
}

pub Grows-trans : {r s t : DnsResult} → Grows r s → Grows s t → Grows r t
Grows-trans {r} {s} {t} g h = record {
  valid = h.valid;
  same_max = h.same_max ∙ g.same_max;
  more6 = omega (arith, g.more6, h.more6);
  more4 = omega (arith, g.more4, h.more4);
  sixes = λ i lt. h.sixes i (omega (arith, g.more6)) ∙ g.sixes i lt;
  fours = λ j lt.
      subst (λ n. t.addrs (n - 1 - j) ≡ s.addrs (n - 1 - j)) g.same_max
        (h.fours j (omega (arith, g.more4)))
      ∙ g.fours j lt;
  outside = λ k le. h.outside k (omega (arith, g.same_max)) ∙ g.outside k le;
}

-- what holds of an element after a store
pub store_all :
    (P : Sockaddr → Type 0) (addrs : ℕ → Sockaddr) (i : ℕ) (x : Sockaddr) (k : ℕ)
    → (k ≡ i → P x)
    → (k ≢ i → P (addrs k))
    → P (store addrs i x k)
store_all P addrs i x k hit miss = elim (Bool-cases (k == i)) [
  | inl same ↦ subst P (rw same refl) (hit (ground arith))
  | inr other ↦ subst P (rw other refl) (miss (ground arith))
]

module _ (r : DnsResult) (x : Sockaddr) (v : IsResult r) (free : r.num_addr < r.max_addr) where
  pub with_v4 :
      is_v4 x ≡ true
      → Grows r (record r {
        addrs = store r.addrs (r.max_addr - r.num_ip4 - 1) x;
        num_ip4 = r.num_ip4 + 1;
        num_addr = r.num_addr + 1;
      })
  with_v4 h =
      let i = r.max_addr - r.num_ip4 - 1 in
      record {
        valid = record {
          total = omega (arith, v.total);
          room = omega arith;
          sixes = λ k lt.
              store_all (λ y. is_v6 y ≡ true) r.addrs i x k
                (λ e. absurd (omega (arith, e, v.total))) (λ ne. v.sixes k lt);
          fours = λ j lt.
              store_all (λ y. is_v4 y ≡ true) r.addrs i x (r.max_addr - 1 - j) (λ e. h)
                (λ ne. v.fours j (grind (arith, v.total)));
        };
        same_max = refl;
        more6 = omega arith;
        more4 = omega arith;
        sixes = λ k lt.
            store_all (λ y. y ≡ r.addrs k) r.addrs i x k (λ e. absurd (omega (arith, e, v.total)))
              (λ ne. refl);
        fours = λ j lt.
            store_all (λ y. y ≡ r.addrs (r.max_addr - 1 - j)) r.addrs i x (r.max_addr - 1 - j)
              (λ e. absurd (omega (arith, e, v.total))) (λ ne. refl);
        outside = λ k le.
            store_all (λ y. y ≡ r.addrs k) r.addrs i x k (λ e. absurd (omega (arith, e, v.total)))
              (λ ne. refl);
      }

  pub with_v6 :
      is_v6 x ≡ true
      → Grows r (record r {
        addrs = store r.addrs r.num_ip6 x;
        num_ip6 = r.num_ip6 + 1;
        num_addr = r.num_addr + 1;
      })
  with_v6 h =
      let i = r.num_ip6 in
      record {
        valid = record {
          total = omega (arith, v.total);
          room = omega arith;
          sixes = λ k lt.
              store_all (λ y. is_v6 y ≡ true) r.addrs i x k (λ e. h)
                (λ ne. v.sixes k (grind arith));
          fours = λ j lt.
              store_all (λ y. is_v4 y ≡ true) r.addrs i x (r.max_addr - 1 - j)
                (λ e. absurd (omega (arith, e, v.total))) (λ ne. v.fours j lt);
        };
        same_max = refl;
        more6 = omega arith;
        more4 = omega arith;
        sixes = λ k lt.
            store_all (λ y. y ≡ r.addrs k) r.addrs i x k (λ e. absurd (omega (arith, e, v.total)))
              (λ ne. refl);
        fours = λ j lt.
            store_all (λ y. y ≡ r.addrs (r.max_addr - 1 - j)) r.addrs i x (r.max_addr - 1 - j)
              (λ e. absurd (omega (arith, e, v.total))) (λ ne. refl);
        outside = λ k le.
            store_all (λ y. y ≡ r.addrs k) r.addrs i x k (λ e. absurd (omega (arith, e, v.total)))
              (λ ne. refl);
      }

res_add_ip_port-Grows :
    (r : DnsResult) (type : AddrType) (ip : Bytes) (ptype : SockType) (port : ℕ)
    → IsResult r
    → Grows r (res_add_ip_port r type ip ptype port).1
unfolding res_add_ip_port res_isfull sockaddr_load
res_add_ip_port-Grows r ipv4 ip ptype port v = elim (Bool-cases (leb r.max_addr r.num_addr)) [
  | inl full ↦ rw full (Grows-refl v)
  | inr free ↦ rw free (with_v4 r _ v (ground arith) refl)
]
res_add_ip_port-Grows r ipv6 ip ptype port v = elim (Bool-cases (leb r.max_addr r.num_addr)) [
  | inl full ↦ rw full (Grows-refl v)
  | inr free ↦ rw free (with_v6 r _ v (ground arith) refl)
]
res_add_ip_port-Grows r no_type ip ptype port v = elim (Bool-cases (leb r.max_addr r.num_addr)) [
  | inl full ↦ rw full (Grows-refl v)
  | inr free ↦ rw free (Grows-refl v)
]

pub res_add_ip-Grows :
    (r : DnsResult) (type : AddrType) (ip : Bytes) → IsResult r → Grows r (res_add_ip r type ip).1
unfolding res_add_ip
res_add_ip-Grows r type ip v =
    let first = tcp_step (r.flags.tcp) in Grows-trans first (udp_step (r.flags.udp) first)
  where
    added : Bool → DnsResult
    added b = (if b then res_add_ip_port r type ip stream r.tcp_port else (none, r)).1

    tcp_step : (b : Bool) → Grows r (added b)
    tcp_step true = res_add_ip_port-Grows r type ip stream r.tcp_port v
    tcp_step false = Grows-refl v

    udp_step :
        (b : Bool) {t : DnsResult}
        → Grows r t
        → Grows t (if b then res_add_ip_port t type ip dgram t.udp_port else (none, t)).1
    udp_step true {t} g = res_add_ip_port-Grows t type ip dgram t.udp_port g.valid
    udp_step false {t} g = Grows-refl g.valid

pub res_add_addr-Grows : (r : DnsResult) (x : Sockaddr) → IsResult r → Grows r (res_add_addr r x).1
unfolding res_add_addr
res_add_addr-Grows r unset v = Grows-refl v
res_add_addr-Grows r (v4 _ _ ip) v = res_add_ip-Grows r ipv4 ip v
res_add_addr-Grows r (v6 _ _ ip) v = res_add_ip-Grows r ipv6 ip v
