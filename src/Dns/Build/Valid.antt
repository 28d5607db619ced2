-- ===== src/Dns/Build/Valid.antt =====
-- What the calls of src/dns_proto.c that build a message keep.
use c_db_k8s.Prelude.{
  ℕ, ◌+◌, ◌≤◌, ◌≡◌, refl, sym, ap, ◌∙◌, inl, inr, Option, none, some, List, [], ◌∷◌, ◌++◌, Bytes,
  ltb, leb, length, Bool-cases, subst, arith,
}
use c_db_k8s.Dns.{
  Rdata, DnsMsg, msg_store_str, msg_store_name, safe_str, unset, a, ns_name, cname, ptr_name, soa,
  hinfo, mx, txt, aaaa, srv, opt,
}
use c_db_k8s.Dns.Build.{store_one, store_txt, store_rdata}
use c_db_k8s.Dns.Decode.{Section, answer, authority, additional, sect_of}

-- `m'` is `m` with more of the store of names in use
pub record Stores (m m' : DnsMsg) : Type 0 where
  pub used : ℕ
  pub within : used ≤ 2048
  pub same : m' ≡ record m { names_len = used }

Stores-refl : (m : DnsMsg) → m.names_len ≤ 2048 → Stores m m
Stores-refl m h = record { used = m.names_len; within = h; same = refl }

pub Stores-trans : {m m' m'' : DnsMsg} → Stores m m' → Stores m' m'' → Stores m m''
Stores-trans {m} p q = record {
  used = q.used;
  within = q.within;
  same = q.same ∙ ap (λ (x : DnsMsg). record x { names_len = q.used }) p.same;
}

pub Stores-names : {m m' : DnsMsg} → Stores m m' → m'.names_len ≤ 2048
Stores-names p = omega (arith, p.within, ap (λ x. x.names_len) p.same)

pub msg_store_str-Stores :
    (m : DnsMsg) (s : Bytes) → m.names_len ≤ 2048 → Stores m (msg_store_str m s).0
unfolding msg_store_str
msg_store_str-Stores m s h = elim (Bool-cases (ltb 253 (length s))) [
  | inl long ↦ rw long (Stores-refl m h)
  | inr short ↦ rw short (elim (Bool-cases (ltb 2048 (m.names_len + length s + 1))) [
    | inl full ↦ rw full (Stores-refl m h)
    | inr room ↦
        rw room (record { used = m.names_len + length s + 1; within = ground arith; same = refl })
  ])
]

pub msg_store_name-Stores :
    (m : DnsMsg) (s : Option Bytes) → m.names_len ≤ 2048 → Stores m (msg_store_name m s).0
unfolding msg_store_name
msg_store_name-Stores m s h = msg_store_str-Stores m (safe_str s) h

store_txt-Stores :
    (m : DnsMsg) (had strs : List (Option Bytes))
    → m.names_len ≤ 2048
    → Stores m (store_txt m had strs).0
unfolding store_txt
store_txt-Stores m had [] h = Stores-refl m h
store_txt-Stores m had (s ∷ strs) h = elim (Bool-cases (leb 32 (length had))) [
  | inl full ↦ rw full (Stores-refl m h)
  | inr room ↦ rw room (
      let first = msg_store_name-Stores m s h in
      let r = msg_store_name m s in
      next r.1 first
        (Stores-trans first (store_txt-Stores r.0 (had ++ (r.1 ∷ [])) strs (Stores-names first))))
]
  where
    next :
        (o : Option Bytes)
        → Stores m (msg_store_name m s).0
        → Stores m (store_txt (msg_store_name m s).0 (had ++ ((msg_store_name m s).1 ∷ [])) strs).0
        → Stores m (
            (elim o as (λ x. DnsMsg × Option Rdata) [
              | none ↦ ((msg_store_name m s).0, none)
              | some t ↦
                  store_txt (msg_store_name m s).0 (had ++ ((msg_store_name m s).1 ∷ [])) strs
            ]).0)
    next none one rest = one
    next (some t) one rest = rest

pub store_rdata-Stores :
    (m : DnsMsg) (held : List (Option Bytes)) (z : ℕ) (r : Rdata)
    → m.names_len ≤ 2048
    → Stores m (store_rdata m held z r).0
unfolding store_rdata store_one
store_rdata-Stores m held z unset h = Stores-refl m h
store_rdata-Stores m held z (a _) h = Stores-refl m h
store_rdata-Stores m held z (ns_name s) h = msg_store_name-Stores m s h
store_rdata-Stores m held z (cname s) h = msg_store_name-Stores m s h
store_rdata-Stores m held z (ptr_name s) h = msg_store_name-Stores m s h
store_rdata-Stores m held z (soa mname rname v1 v2 v3 v4 v5) h =
    let first = msg_store_name-Stores m mname h in
    let r = msg_store_name m mname in
    next r.1 first (Stores-trans first (msg_store_name-Stores r.0 rname (Stores-names first)))
  where
    next :
        (o : Option Bytes)
        → Stores m (msg_store_name m mname).0
        → Stores m (msg_store_name (msg_store_name m mname).0 rname).0
        → Stores m (
            (elim o as (λ x. DnsMsg × Option Rdata) [
              | none ↦ ((msg_store_name m mname).0, none)
              | some t ↦ (
                (msg_store_name (msg_store_name m mname).0 rname).0,
                some (
                    soa
                      (some t)
                      (msg_store_name (msg_store_name m mname).0 rname).1
                      v1
                      v2
                      v3
                      v4
                      v5),
              )
            ]).0)
    next none one two = one
    next (some t) one two = two
store_rdata-Stores m held z (hinfo cpu_str os_str) h =
    let first = msg_store_name-Stores m cpu_str h in
    Stores-trans first
      (msg_store_name-Stores (msg_store_name m cpu_str).0 os_str (Stores-names first))
store_rdata-Stores m held z (mx pref name) h = msg_store_name-Stores m name h
store_rdata-Stores m held z (txt strs) h = store_txt-Stores m held strs h
store_rdata-Stores m held z (aaaa _) h = Stores-refl m h
store_rdata-Stores m held z (srv prior weight port name) h = msg_store_name-Stores m name h
store_rdata-Stores m held z (opt _ _ _ _ _) h = Stores-refl m h

-- the message has room for what it holds
pub record IsRoomy (m : DnsMsg) : Type 0 where
  pub names : m.names_len ≤ 2048
  pub questions : length m.qd ≤ 1
  pub size : (s : Section) → length (sect_of s m).base ≡ 32
  pub count : (s : Section) → (sect_of s m).count ≤ 32

same_sect :
    (s : Section) (m : DnsMsg) (n : ℕ) → sect_of s (record m { names_len = n }) ≡ sect_of s m
same_sect answer m n = refl
same_sect authority m n = refl
same_sect additional m n = refl

pub Stores-IsRoomy : {m m' : DnsMsg} → Stores m m' → IsRoomy m → IsRoomy m'
Stores-IsRoomy {m} p v = subst IsRoomy (sym p.same) (record {
  names = p.within;
  questions = v.questions;
  size = λ s. ap (λ t. length t.base) (same_sect s m p.used) ∙ v.size s;
  count = λ s. omega (arith, ap (λ t. t.count) (same_sect s m p.used), v.count s);
})

-- the counts are as before
abbrev pub SameCounts : DnsMsg → DnsMsg → Type 0
SameCounts m m' = (s : Section) → (sect_of s m').count ≡ (sect_of s m).count

pub Stores-counts : {m m' : DnsMsg} → Stores m m' → SameCounts m m'
Stores-counts {m} p s =
    ap (λ (x : DnsMsg). (sect_of s x).count) p.same ∙ ap (λ t. t.count) (same_sect s m p.used)
