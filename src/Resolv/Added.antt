-- ===== src/Resolv/Added.antt =====
-- `res_add_ip` of src/dns_resolv.c: which addresses are stored, as the lists that the two ends hold.
use c_db_k8s.Prelude.{
  ℕ, zero, suc, ◌+◌, ◌-◌, ◌%◌, ◌^◌, ◌<◌, ◌≡◌, refl, sym, ap, ◌∙◌, subst, inl, inr, Bool, true,
  false, none, List, [], ◌∷◌, ◌++◌, append_assoc, append-nil, Bytes, leb, if◌then◌else◌, length,
  length-append, take, Bool-cases, arith,
}
use mathlib.Core.Path.{ap₂}
use c_db_k8s.Resolv.{
  AddrType, ipv4, ipv6, no_type, SockType, stream, dgram, Sockaddr, v4, v6, DnsResult, store,
  sockaddr_load, res_isfull, res_add_ip_port, res_add_ip,
}
use c_db_k8s.Resolv.Results.{IsResult, Grows, Grows-refl, Grows-trans, store_all, with_v4, with_v6}

-- the first `n` values
abbrev pub row : (ℕ → Sockaddr) → ℕ → List Sockaddr
row f zero = []
row f (suc n) = row f n ++ (f n ∷ [])

-- the IPv4 addresses of a result, from the end of the array, and the IPv6 addresses, from its front
abbrev pub ip4_addrs : DnsResult → List Sockaddr
ip4_addrs r = row (λ j. r.addrs (r.max_addr - 1 - j)) r.num_ip4

abbrev pub ip6_addrs : DnsResult → List Sockaddr
ip6_addrs r = row r.addrs r.num_ip6

-- an address of a type, and none if the type is unknown
abbrev pub made : AddrType → SockType → (port : ℕ) → (ip : Bytes) → List Sockaddr
made ipv4 ptype port ip = v4 ptype (port % 2 ^ 16) (take 4 ip) ∷ []
made ipv6 ptype port ip = v6 ptype (port % 2 ^ 16) (take 16 ip) ∷ []
made no_type ptype port ip = []

-- the address once for each protocol that the flags name, TCP first, as far as there is room
abbrev pub called_for : DnsResult → AddrType → (ip : Bytes) → List Sockaddr
called_for r type ip = take (r.max_addr - r.num_addr) (
    (if r.flags.tcp then made type stream r.tcp_port ip else [])
    ++ (if r.flags.udp then made type dgram r.udp_port ip else []))

abbrev pub if_ip4 : AddrType → List Sockaddr → List Sockaddr
if_ip4 ipv4 l = l
if_ip4 ipv6 l = []
if_ip4 no_type l = []

abbrev pub if_ip6 : AddrType → List Sockaddr → List Sockaddr
if_ip6 ipv4 l = []
if_ip6 ipv6 l = l
if_ip6 no_type l = []

-- `r'` has the addresses `l` of a type behind those of `r`
pub record Adds (type : AddrType) (l : List Sockaddr) (r r' : DnsResult) : Type 0 where
  pub grows : Grows r r'
  pub ip4 : ip4_addrs r' ≡ ip4_addrs r ++ if_ip4 type l
  pub ip6 : ip6_addrs r' ≡ ip6_addrs r ++ if_ip6 type l
  pub num : r'.num_addr ≡ r.num_addr + length l
  pub udp_port : r'.udp_port ≡ r.udp_port

row-same : (f g : ℕ → Sockaddr) (n : ℕ) → ((i : ℕ) → i < n → f i ≡ g i) → row f n ≡ row g n
row-same f g zero h = refl
row-same f g (suc n) h =
    ap₂ (λ l x. l ++ (x ∷ [])) (row-same f g n (λ i lt. h i (omega arith))) (h n (omega arith))

row-snoc :
    (f g : ℕ → Sockaddr) (n : ℕ) (x : Sockaddr)
    → ((i : ℕ) → i < n → f i ≡ g i)
    → f n ≡ x
    → row f (n + 1) ≡ row g n ++ (x ∷ [])
row-snoc f g n x h e = ap (row f) next ∙ ap₂ (λ l y. l ++ (y ∷ [])) (row-same f g n h) e
  where
    next : n + 1 ≡ suc n
    next = omega arith

take-nil : (k : ℕ) → take {A = Sockaddr} k [] ≡ []
take-nil zero = refl
take-nil (suc k) = refl

take-one : (k : ℕ) (x : Sockaddr) → 0 < k → take k (x ∷ []) ≡ x ∷ []
take-one zero x h = absurd (omega arith)
take-one (suc k) x h = ap (λ l. x ∷ l) (take-nil k)

-- what is taken of two lists, one after the other
take-both :
    (k : ℕ) (l l' : List Sockaddr) → take k l ++ take (k - length (take k l)) l' ≡ take k (l ++ l')
take-both zero l l' = refl
take-both (suc k) [] l' = ap (λ n. take n l') same
  where
    same : suc k - 0 ≡ suc k
    same = omega arith
take-both (suc k) (x ∷ l) l' =
    ap (λ l. x ∷ l) (ap (λ n. take k l ++ take n l') same ∙ take-both k l l')
  where
    same : suc k - suc (length (take k l)) ≡ k - length (take k l)
    same = omega arith

if_ip4-append :
    (type : AddrType) (l l' : List Sockaddr)
    → if_ip4 type l ++ if_ip4 type l' ≡ if_ip4 type (l ++ l')
if_ip4-append ipv4 l l' = refl
if_ip4-append ipv6 l l' = refl
if_ip4-append no_type l l' = refl

if_ip6-append :
    (type : AddrType) (l l' : List Sockaddr)
    → if_ip6 type l ++ if_ip6 type l' ≡ if_ip6 type (l ++ l')
if_ip6-append ipv4 l l' = refl
if_ip6-append ipv6 l l' = refl
if_ip6-append no_type l l' = refl

Adds-none : (type : AddrType) (r : DnsResult) → IsResult r → Adds type [] r r
Adds-none type r v = record {
  grows = Grows-refl v;
  ip4 = sym (append-nil (ip4_addrs r)) ∙ ap (λ l. ip4_addrs r ++ l) (four type);
  ip6 = sym (append-nil (ip6_addrs r)) ∙ ap (λ l. ip6_addrs r ++ l) (six type);
  num = omega arith;
  udp_port = refl;
}
  where
    four : (type : AddrType) → [] ≡ if_ip4 type []
    four ipv4 = refl
    four ipv6 = refl
    four no_type = refl

    six : (type : AddrType) → [] ≡ if_ip6 type []
    six ipv4 = refl
    six ipv6 = refl
    six no_type = refl

module _ (r : DnsResult) (v : IsResult r) (free : r.num_addr < r.max_addr) where
  Adds-ip4 :
      (ptype : SockType) (port : ℕ) (ip : Bytes)
      → Adds ipv4 (v4 ptype port ip ∷ []) r (record r {
        addrs = store r.addrs (r.max_addr - r.num_ip4 - 1) (v4 ptype port ip);
        num_ip4 = r.num_ip4 + 1;
        num_addr = r.num_addr + 1;
      })
  Adds-ip4 ptype port ip =
      let x = v4 ptype port ip in
      let i = r.max_addr - r.num_ip4 - 1 in
      let g = with_v4 r x v free refl in
      record {
        grows = g;
        ip4 =
            row-snoc (λ j. store r.addrs i x (r.max_addr - 1 - j)) _ r.num_ip4 x g.fours
              (store_all (λ y. y ≡ x) r.addrs i x (r.max_addr - 1 - r.num_ip4) (λ e. refl)
                (λ ne. absurd (ne (omega arith))));
        ip6 = row-same (store r.addrs i x) r.addrs r.num_ip6 g.sixes ∙ sym (append-nil _);
        num = refl;
        udp_port = refl;
      }

  Adds-ip6 :
      (ptype : SockType) (port : ℕ) (ip : Bytes)
      → Adds ipv6 (v6 ptype port ip ∷ []) r (record r {
        addrs = store r.addrs r.num_ip6 (v6 ptype port ip);
        num_ip6 = r.num_ip6 + 1;
        num_addr = r.num_addr + 1;
      })
  Adds-ip6 ptype port ip =
      let x = v6 ptype port ip in
      let i = r.num_ip6 in
      let g = with_v6 r x v free refl in
      record {
        grows = g;
        ip4 =
            row-same (λ j. store r.addrs i x (r.max_addr - 1 - j)) _ r.num_ip4 g.fours
            ∙ sym (append-nil _);
        ip6 =
            row-snoc (store r.addrs i x) r.addrs r.num_ip6 x g.sixes
              (store_all (λ y. y ≡ x) r.addrs i x i (λ e. refl) (λ ne. absurd (ne refl)));
        num = refl;
        udp_port = refl;
      }

-- one address, if there is room
res_add_ip_port-Adds :
    (r : DnsResult) (type : AddrType) (ip : Bytes) (ptype : SockType) (port : ℕ)
    → IsResult r
    → Adds type
        (take (r.max_addr - r.num_addr) (made type ptype port ip))
        r
        (res_add_ip_port r type ip ptype port).1
unfolding res_add_ip_port res_isfull sockaddr_load
res_add_ip_port-Adds r type ip ptype port v = elim (Bool-cases (leb r.max_addr r.num_addr)) [
  | inl full ↦
      let no_room : r.max_addr - r.num_addr ≡ 0 = ground arith in rw no_room (at_full type full)
  | inr free ↦ at_free type free (ground arith)
]
  where
    at_full :
        (type : AddrType)
        → leb r.max_addr r.num_addr ≡ true
        → Adds type [] r (res_add_ip_port r type ip ptype port).1
    at_full ipv4 full = rw full (Adds-none ipv4 r v)
    at_full ipv6 full = rw full (Adds-none ipv6 r v)
    at_full no_type full = rw full (Adds-none no_type r v)

    at_free :
        (type : AddrType)
        → leb r.max_addr r.num_addr ≡ false
        → r.num_addr < r.max_addr
        → Adds type
            (take (r.max_addr - r.num_addr) (made type ptype port ip))
            r
            (res_add_ip_port r type ip ptype port).1
    at_free ipv4 free lt =
        rw (free, take-one (r.max_addr - r.num_addr) _ (omega arith)) (Adds-ip4 r v lt _ _ _)
    at_free ipv6 free lt =
        rw (free, take-one (r.max_addr - r.num_addr) _ (omega arith)) (Adds-ip6 r v lt _ _ _)
    at_free no_type free lt = rw (free, take-nil (r.max_addr - r.num_addr)) (Adds-none no_type r v)

Adds-trans :
    {type : AddrType} {l l' : List Sockaddr} {r s t : DnsResult}
    → Adds type l r s
    → Adds type l' s t
    → Adds type (l ++ l') r t
Adds-trans {type} {l} {l'} {r} g h = record {
  grows = Grows-trans g.grows h.grows;
  ip4 =
      h.ip4
      ∙ ap (λ x. x ++ if_ip4 type l') g.ip4
      ∙ append_assoc (ip4_addrs r) (if_ip4 type l) (if_ip4 type l')
      ∙ ap (λ x. ip4_addrs r ++ x) (if_ip4-append type l l');
  ip6 =
      h.ip6
      ∙ ap (λ x. x ++ if_ip6 type l') g.ip6
      ∙ append_assoc (ip6_addrs r) (if_ip6 type l) (if_ip6 type l')
      ∙ ap (λ x. ip6_addrs r ++ x) (if_ip6-append type l l');
  num = omega (arith, g.num, h.num, length-append l l');
  udp_port = h.udp_port ∙ g.udp_port;
}

-- `res_add_ip` adds the address once for each protocol that the flags name, for TCP first, with the
-- port of the protocol and as far as there is room: an IPv4 address behind the IPv4 addresses, which
-- stand from the end of the array down, an IPv6 address behind the IPv6 addresses, which stand from
-- its front, and an address of another type not at all. In a result whose addresses stand so, they do
-- so afterwards, those that were there stay where they were, the counts add up and are within the
-- array, and nothing behind the array is written.
pub res_add_ip-Adds :
    (r : DnsResult) (type : AddrType) (ip : Bytes)
    → IsResult r
    → Adds type (called_for r type ip) r (res_add_ip r type ip).1
unfolding res_add_ip
res_add_ip-Adds r type ip v =
    let first = tcp_step (r.flags.tcp) in
    let both = Adds-trans first (udp_step (r.flags.udp) first) in
    subst (λ l. Adds type l r (res_add_ip r type ip).1)
      (ap (λ n. take (room r) (for_tcp (r.flags.tcp)) ++ take n (for_udp (r.flags.udp) r))
          (ground (arith, first.num, first.grows.same_max))
        ∙ take-both (room r) (for_tcp (r.flags.tcp)) (for_udp (r.flags.udp) r))
      both
  where
    room : DnsResult → ℕ
    room t = t.max_addr - t.num_addr

    for_tcp : Bool → List Sockaddr
    for_tcp b = if b then made type stream r.tcp_port ip else []

    for_udp : Bool → DnsResult → List Sockaddr
    for_udp b t = if b then made type dgram t.udp_port ip else []

    after : Bool → DnsResult
    after b = (if b then res_add_ip_port r type ip stream r.tcp_port else (none, r)).1

    tcp_step : (b : Bool) → Adds type (take (room r) (for_tcp b)) r (after b)
    tcp_step true = res_add_ip_port-Adds r type ip stream r.tcp_port v
    tcp_step false = rw (take-nil (room r)) (Adds-none type r v)

    udp_step :
        (b : Bool) {t : DnsResult} {l : List Sockaddr}
        → Adds type l r t
        → Adds type
            (take (room t) (for_udp b r))
            t
            (if b then res_add_ip_port t type ip dgram t.udp_port else (none, t)).1
    udp_step true {t} g =
        subst
          (λ n.
            Adds type (take (room t) (made type dgram n ip)) t
              (res_add_ip_port t type ip dgram t.udp_port).1)
          g.udp_port (res_add_ip_port-Adds t type ip dgram t.udp_port g.grows.valid)
    udp_step false {t} g = rw (take-nil (room t)) (Adds-none type t g.grows.valid)
