-- ===== src/Dns/Build/Texts.antt =====
-- src/dns_proto.c: the strings of a record with text that `dns_sect_add_rr` stores, in 32 places.
use c_db_k8s.Prelude.{
  ℕ, ◌≤◌, inl, inr, Option, none, some, List, [], ◌∷◌, ◌++◌, Bytes, leb, length, length-append,
  Bool-cases, arith,
}
use c_db_k8s.Dns.{
  Rdata, DnsMsg, msg_store_name, unset, a, ns_name, cname, ptr_name, soa, hinfo, mx, txt, aaaa, srv,
  opt,
}
use c_db_k8s.Dns.Build.{store_one, store_txt, store_rdata}

-- the strings of a record
abbrev pub num_str : Rdata → ℕ
num_str unset = 0
num_str (a _) = 0
num_str (ns_name _) = 0
num_str (cname _) = 0
num_str (ptr_name _) = 0
num_str (soa _ _ _ _ _ _ _) = 0
num_str (hinfo _ _) = 0
num_str (mx _ _) = 0
num_str (txt strs) = length strs
num_str (aaaa _) = 0
num_str (srv _ _ _ _) = 0
num_str (opt _ _ _ _ _) = 0

-- what is stored, if anything, has at most `n` strings
abbrev pub AtMost : ℕ → Option Rdata → Type 0
AtMost n none = Unit
AtMost n (some r) = num_str r ≤ n

store_txt-AtMost :
    (n : ℕ) (m : DnsMsg) (had strs : List (Option Bytes))
    → 32 ≤ n
    → length had ≤ n
    → AtMost n (store_txt m had strs).1
unfolding store_txt
store_txt-AtMost n m had [] all le = le
store_txt-AtMost n m had (s ∷ strs) all le = elim (Bool-cases (leb 32 (length had))) [
  | inl full ↦ rw full tt
  | inr room ↦ rw room (
      let r = msg_store_name m s in
      next r.1 (
        store_txt-AtMost n r.0 (had ++ (r.1 ∷ [])) strs all
          (ground (arith, length-append had (r.1 ∷ [])))))
]
  where
    next :
        (o : Option Bytes)
        → AtMost n (store_txt (msg_store_name m s).0 (had ++ ((msg_store_name m s).1 ∷ [])) strs).1
        → AtMost n (
            (elim o as (λ x. DnsMsg × Option Rdata) [
              | none ↦ ((msg_store_name m s).0, none)
              | some t ↦
                  store_txt (msg_store_name m s).0 (had ++ ((msg_store_name m s).1 ∷ [])) strs
            ]).1)
    next none rest = tt
    next (some t) rest = rest

one_name :
    (n : ℕ) (put : Option Bytes → Rdata) (o : Option Bytes)
    → ((x : Option Bytes) → num_str (put x) ≤ n)
    → AtMost n (elim o as (λ x. Option Rdata) [ none ↦ none | some t ↦ some (put (some t)) ])
one_name n put none h = tt
one_name n put (some t) h = h (some t)

pub store_rdata-AtMost :
    (n : ℕ) (m : DnsMsg) (held : List (Option Bytes)) (z : ℕ) (r : Rdata)
    → 32 ≤ n
    → length held ≤ n
    → AtMost n (store_rdata m held z r).1
unfolding store_rdata store_one
store_rdata-AtMost n m held z unset all le = omega arith
store_rdata-AtMost n m held z (a _) all le = omega arith
store_rdata-AtMost n m held z (ns_name s) all le =
    one_name n ns_name (msg_store_name m s).1 (λ x. omega arith)
store_rdata-AtMost n m held z (cname s) all le =
    one_name n cname (msg_store_name m s).1 (λ x. omega arith)
store_rdata-AtMost n m held z (ptr_name s) all le =
    one_name n ptr_name (msg_store_name m s).1 (λ x. omega arith)
store_rdata-AtMost n m held z (soa mname rname v1 v2 v3 v4 v5) all le =
    next (msg_store_name m mname).1
  where
    next :
        (o : Option Bytes)
        → AtMost n (
            (elim o as (λ x. DnsMsg × Option Rdata) [
              | none ↦ ((msg_store_name m mname).0, none)
              | some t ↦ (
                (msg_store_name (msg_store_name m mname).0 rname).0,
                some (
                    soa
                      (some t)
                      (msg_store_name (msg_store_name m mname).0 rname).1
                      v1
                      v2
                      v3
                      v4
                      v5),
              )
            ]).1)
    next none = tt
    next (some t) = omega arith
store_rdata-AtMost n m held z (hinfo _ _) all le = omega arith
store_rdata-AtMost n m held z (mx pref s) all le =
    one_name n (mx pref) (msg_store_name m s).1 (λ x. omega arith)
store_rdata-AtMost n m held z (txt strs) all le = store_txt-AtMost n m held strs all le
store_rdata-AtMost n m held z (aaaa _) all le = omega arith
store_rdata-AtMost n m held z (srv prior weight port s) all le =
    one_name n (srv prior weight port) (msg_store_name m s).1 (λ x. omega arith)
store_rdata-AtMost n m held z (opt _ _ _ _ _) all le = omega arith
