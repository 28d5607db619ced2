-- ===== src/Dns/Build/Adds.antt =====
-- `dns_add_qdn`, `dns_sect_add_rr` and `dns_add_rr` of src/dns_proto.c on a message with room.
use c_db_k8s.Prelude.{
  ℕ, ◌+◌, ◌<◌, ◌≤◌, ◌-◌, ◌≡◌, ◌≢◌, refl, sym, ap, ◌∙◌, inl, inr, zero, suc, get_elem?, true, false,
  Option, none, some, List, [], ◌∷◌, Bytes, leb, length, length-append, Bool-cases, arith,
}
use c_db_k8s.Dns.{Question, Rr, Rdata, Sect, DnsMsg, msg_store_str, msg_store_name}
use c_db_k8s.Dns.Build.{
  Outcome, add_question, dns_add_qdn, store_rdata, add_record, dns_sect_add_rr,
}
use c_db_k8s.Dns.Build.Valid.{
  Stores, Stores-names, Stores-trans, msg_store_str-Stores, msg_store_name-Stores,
  store_rdata-Stores, IsRoomy, Stores-IsRoomy, SameCounts, Stores-counts,
}
use c_db_k8s.Dns.Build.Texts.{num_str, AtMost, store_rdata-AtMost}
use c_db_k8s.Dns.Encode.{member}
use c_db_k8s.Dns.Decode.{Section, answer, authority, additional, sect_of, put_sect, set_rr}
use c_db_k8s.Dns.Decode.Rules.{length-set_rr, put_sect-names, put_sect-qd}
use c_db_k8s.Dns.Decode.Record.{bump}

-- The record `r` that a call made of `src`: a name, its type, class and lifetime, and strings within
-- the 32 places, or no more than the union `held` before.
pub record Made (held : List (Option Bytes)) (src r : Rr) : Type 0 where
  pub named : r.name ≢ none
  pub type : r.type ≡ src.type
  pub rclass : r.rclass ≡ src.rclass
  pub ttl : r.ttl ≡ src.ttl
  pub strings : num_str r.rdata ≤ 32 + (length held - 32)

-- what a call makes of the sections: as many records as before and -1, or one more in `sc`, made of
-- `src` and behind the others, and 0
pub data Adds (held : List (Option Bytes)) (m : DnsMsg) (sc : Section) (src : Rr)
    : Outcome → Type 0 where
  refused : {m' : DnsMsg} → IsRoomy m' → SameCounts m m' → Adds held m sc src (false, m')
  added :
      {m' : DnsMsg} {r : Rr}
      → IsRoomy m'
      → ((s : Section) → (sect_of s m').count ≡ bump sc (λ t. (sect_of t m).count) s)
      → get_elem? (sect_of sc m').base (sect_of sc m).count ≡ some r
      → Made held src r
      → Adds held m sc src (true, m')

get_elem?-set_rr :
    (xs : List Rr) (i : ℕ) (r : Rr) → i < length xs → get_elem? (set_rr xs i r) i ≡ some r
unfolding set_rr
get_elem?-set_rr [] i r h = absurd (omega arith)
get_elem?-set_rr (x ∷ xs) zero r h = refl
get_elem?-set_rr (x ∷ xs) (suc i) r h = get_elem?-set_rr xs i r (omega arith)

sect_of-put_sect : (sc : Section) (m : DnsMsg) (t : Sect) → sect_of sc (put_sect sc m t) ≡ t
sect_of-put_sect answer m t = refl
sect_of-put_sect authority m t = refl
sect_of-put_sect additional m t = refl

-- a statement about every section, where one of them is exchanged
each_section :
    (P : Sect → Type 0) (sc : Section) (m : DnsMsg) (t : Sect)
    → P t
    → ((s : Section) → P (sect_of s m))
    → (s : Section) → P (sect_of s (put_sect sc m t))
each_section P answer m t p h answer = p
each_section P answer m t p h authority = h authority
each_section P answer m t p h additional = h additional
each_section P authority m t p h answer = h answer
each_section P authority m t p h authority = p
each_section P authority m t p h additional = h additional
each_section P additional m t p h answer = h answer
each_section P additional m t p h authority = h authority
each_section P additional m t p h additional = p

bumped :
    (sc : Section) (m : DnsMsg) (t : Sect)
    → t.count ≡ (sect_of sc m).count + 1
    → (s : Section) → (sect_of s (put_sect sc m t)).count ≡ bump sc (λ s. (sect_of s m).count) s
bumped answer m t e answer = e
bumped answer m t e authority = refl
bumped answer m t e additional = refl
bumped authority m t e answer = refl
bumped authority m t e authority = e
bumped authority m t e additional = refl
bumped additional m t e answer = refl
bumped additional m t e authority = refl
bumped additional m t e additional = e

bump-eq :
    (sc : Section) (k k' : Section → ℕ)
    → ((s : Section) → k' s ≡ k s)
    → (s : Section) → bump sc k' s ≡ bump sc k s
bump-eq answer k k' h answer = ap (λ n. n + 1) (h answer)
bump-eq answer k k' h authority = h authority
bump-eq answer k k' h additional = h additional
bump-eq authority k k' h answer = h answer
bump-eq authority k k' h authority = ap (λ n. n + 1) (h authority)
bump-eq authority k k' h additional = h additional
bump-eq additional k k' h answer = h answer
bump-eq additional k k' h authority = h authority
bump-eq additional k k' h additional = ap (λ n. n + 1) (h additional)

module _ (m : DnsMsg) (sc : Section) (v : IsRoomy m) (free : (sect_of sc m).count < 32) where
  add_record-IsRoomy :
      (name : Option Bytes) (src : Rr) (rdata : Rdata) → IsRoomy (add_record sc m name src rdata)
  unfolding add_record
  add_record-IsRoomy name src rdata =
      let s = sect_of sc m in
      record {
        names = omega (arith, put_sect-names sc m _, v.names);
        questions = omega (arith, ap length (put_sect-qd sc m _), v.questions);
        size =
            each_section (λ t. length t.base ≡ 32) sc m _
              (length-set_rr s.base s.count _ ∙ v.size sc) v.size;
        count = each_section (λ t. t.count ≤ 32) sc m _ (omega arith) v.count;
      }

  add_record-bumped :
      (name : Option Bytes) (src : Rr) (rdata : Rdata) (s : Section)
      → (sect_of s (add_record sc m name src rdata)).count ≡ bump sc (λ t. (sect_of t m).count) s
  unfolding add_record
  add_record-bumped name src rdata = bumped sc m _ refl

  -- the new record, where the counts are those of `m0`
  add_record-Made :
      (held : List (Option Bytes)) (m0 : DnsMsg) (name : Bytes) (src : Rr) (rdata : Rdata)
      → SameCounts m0 m
      → num_str rdata ≤ 32 + (length held - 32)
      → (r : Rr) × (get_elem?
            (sect_of sc (add_record sc m (some name) src rdata)).base
            (sect_of sc m0).count
          ≡ some r)
        × Made held src r
  unfolding add_record
  add_record-Made held m0 name src rdata same le =
      let s = sect_of sc m in
      (
        _,
        ap (λ t. get_elem? t.base (sect_of sc m0).count) (sect_of-put_sect sc m _)
            ∙ ap (get_elem? (set_rr s.base s.count _)) (sym (same sc))
            ∙ get_elem?-set_rr s.base s.count _ (omega (arith, v.size sc)),
        record { named = λ e. absurd (cc e); type = refl; rclass = refl; ttl = refl; strings = le },
      )

same_sect :
    (sc : Section) (m : DnsMsg) (l : List Question)
    → sect_of sc (record m { qd = l }) ≡ sect_of sc m
same_sect answer m l = refl
same_sect authority m l = refl
same_sect additional m l = refl

asked-IsRoomy :
    (p : DnsMsg × Option Bytes) (qtype qclass : ℕ)
    → IsRoomy p.0
    → length p.0.qd ≡ 0
    → IsRoomy (add_question p qtype qclass).1
unfolding add_question
asked-IsRoomy (m, none) qtype qclass v e = v
asked-IsRoomy (m, some s) qtype qclass v e = record {
  names = v.names;
  questions = omega (
    arith,
    e,
    length-append m.qd (record { qname = some s; qtype = qtype; qclass = qclass } ∷ []),
  );
  size = λ sc. ap (λ t. length t.base) (same_sect sc m _) ∙ v.size sc;
  count = λ sc. omega (arith, ap (λ t. t.count) (same_sect sc m _), v.count sc);
}

-- `dns_add_qdn` keeps a message within its arrays and its store of names.
pub dns_add_qdn-IsRoomy :
    (m : DnsMsg) (qname : Bytes) (qtype qclass : ℕ)
    → IsRoomy m
    → IsRoomy (dns_add_qdn m qname qtype qclass).1
unfolding dns_add_qdn
dns_add_qdn-IsRoomy m qname qtype qclass v = elim (Bool-cases (leb 1 (length m.qd))) [
  | inl full ↦ rw full v
  | inr room ↦ rw room (
      let kept = msg_store_str-Stores m qname v.names in
      asked-IsRoomy (msg_store_str m qname) qtype qclass (Stores-IsRoomy kept v)
        (ap (λ x. length x.qd) kept.same ∙ ground arith))
]

module _ (m : DnsMsg) (sc : Section) (v : IsRoomy m) (free : (sect_of sc m).count < 32) where
  -- the record is added to what the calls that store made of the message
  stored-Adds :
      (held : List (Option Bytes)) (name : Bytes) (src : Rr) (p : DnsMsg × Option Rdata)
      → Stores m p.0
      → AtMost (32 + (length held - 32)) p.1
      → Adds held m sc src (elim (p.1) as (λ x. Outcome) [
        | none ↦ (false, p.0)
        | some rdata ↦ (true, add_record sc p.0 (some name) src rdata)
      ])
  stored-Adds held name src (m', none) kept le =
      refused (Stores-IsRoomy kept v) (Stores-counts kept)
  stored-Adds held name src (m', some rdata) kept le =
      let v' = Stores-IsRoomy kept v in
      let same = Stores-counts kept in
      let free' : (sect_of sc m').count < 32 = omega (arith, same sc) in
      let (r, at, made) = add_record-Made m' sc v' free' held m name src rdata same le in
      added (add_record-IsRoomy m' sc v' free' (some name) src rdata)
        (λ s.
          add_record-bumped m' sc v' free' (some name) src rdata s
          ∙ bump-eq sc (λ t. (sect_of t m).count) (λ t. (sect_of t m').count) same s)
        at made

  named-Adds :
      (held : List (Option Bytes)) (z : ℕ) (src : Rr) (r : Rdata) (p : DnsMsg × Option Bytes)
      → Stores m p.0
      → Adds held m sc src (elim (p.1) as (λ x. Outcome) [
        | none ↦ (false, p.0)
        | some name ↦ elim ((store_rdata p.0 held z r).1) as (λ x. Outcome) [
          | none ↦ (false, (store_rdata p.0 held z r).0)
          | some rdata ↦ (true, add_record sc (store_rdata p.0 held z r).0 (some name) src rdata)
        ]
      ])
  named-Adds held z src r (m', none) kept = refused (Stores-IsRoomy kept v) (Stores-counts kept)
  named-Adds held z src r (m', some name) kept =
      stored-Adds held name src (store_rdata m' held z r)
        (Stores-trans kept (store_rdata-Stores m' held z r (Stores-names kept)))
        (store_rdata-AtMost _ m' held z r (omega arith) (omega arith))

-- `dns_sect_add_rr` keeps a message within its arrays, its one question and its store of names: it
-- returns -1 with as many records in each section as before, or 0 with one more in the section asked
-- for and as many as before in the others. The new record stands behind the others, with a name and
-- with the type, the class and the lifetime of the record that was given, and its strings of text are
-- within their array of 32, or no more than those that the place had from its last use.
pub dns_sect_add_rr-Adds :
    (punned : ℕ → Rdata → Rdata) (held : List (Option Bytes)) (z : ℕ) (m : DnsMsg) (sc : Section)
    (src : Rr)
    → IsRoomy m
    → Adds held m sc src (dns_sect_add_rr punned held z m sc (some src))
unfolding dns_sect_add_rr
dns_sect_add_rr-Adds punned held z m sc src v = elim (Bool-cases (leb 32 (sect_of sc m).count)) [
  | inl full ↦ rw full (refused v (λ s. refl))
  | inr free ↦ rw free (
      named-Adds m sc v (ground arith) held z src (member punned src.type src.rdata)
        (msg_store_name m src.name) (msg_store_name-Stores m src.name v.names))
]
