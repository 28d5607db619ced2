-- ===== src/Dns/Decode/Rules.antt =====
-- What the routines of the decoder of src/dns_proto.c keep, and a rule for each step of one.
use c_db_k8s.Prelude.{
  ℕ, zero, suc, ◌+◌, ◌-◌, ◌<◌, ◌≤◌, ◌≡◌, ◌∙◌, refl, ap, inl, inr, Bool, true, false, some, List, [],
  ◌∷◌, Bytes, ltb, leb, length, length-append, get_elem?, Run, ok, fault, stuck, Bool-cases, arith,
}
use c_db_k8s.Dns.{Rr, Sect, DnsMsg, Rdata}
use c_db_k8s.Dns.Decode.{
  Ctx, Ret, Exit, goes, leaves, Routine, resume, Location, dec_err, dns_dec_err, guard, reads,
  set_offset, fix_label, Section, answer, authority, additional, sect_of, put_sect, set_rr,
  get_slot, put_slot, edit, set_rdata,
}

-- the decoder stands at `o` of `pkt`, in a message whose sections hold `k` records each
pub record Good (pkt : Bytes) (q : ℕ) (k : Section → ℕ) (o : ℕ) (c : Ctx) : Type 0 where
  pub packet : c.dec.pkt_buf ≡ pkt
  pub at : c.dec.offset ≡ o
  pub within : o ≤ length pkt
  pub names : c.msg.names_len ≤ 2048
  pub questions : length c.msg.qd ≡ q
  pub size : (s : Section) → length (sect_of s c.msg).base ≡ 32
  pub counted : (s : Section) → (sect_of s c.msg).count ≡ k s
  pub errors : length c.dec.errs ≤ 10

module _ (pkt : Bytes) (q : ℕ) (k : Section → ℕ) where
  -- A routine ends: it goes on with `Q`, or leaves a good state.
  pub data Ends {A : Type 0} (Q : A → Ctx → Type 0) : Run (Exit A) → Type 0 where
    going : {a : A} {c : Ctx} → Q a c → Ends Q (ok (goes a c))
    exited : {r : Ret} {c : Ctx} {o : ℕ} → Good pkt q k o c → Ends Q (ok (leaves r c))

module _ {pkt : Bytes} {q : ℕ} {k : Section → ℕ} {A B : Type 0} {Q : B → Ctx → Type 0} where
  pub Ends-bind :
      {P : A → Ctx → Type 0} {m : Run (Exit A)} (f : A → Routine B)
      → Ends pkt q k P m
      → ((a : A) (c : Ctx) → P a c → Ends pkt q k Q (f a c))
      → Ends pkt q k Q (elim m [ ok e ↦ resume f e | fault ↦ fault | stuck ↦ stuck ])
  Ends-bind f (going {a} {c} p) next = next a c p
  Ends-bind f (exited g) next = exited g

-- a weaker end
pub Ends-rule :
    {pkt : Bytes} {q : ℕ} {k : Section → ℕ} {A : Type 0} {P Q : A → Ctx → Type 0} {m : Run (Exit A)}
    → Ends pkt q k P m
    → ((a : A) (c : Ctx) → P a c → Q a c)
    → Ends pkt q k Q m
Ends-rule (going {a} {c} p) f = going (f a c p)
Ends-rule (exited g) f = exited g

-- a routine that went on
pub bound :
    {pkt : Bytes} {q : ℕ} {k : Section → ℕ} {A B : Type 0} {Q : B → Ctx → Type 0} {m : Run (Exit A)}
    {a : A} {c : Ctx} (f : A → Routine B)
    → m ≡ ok (goes a c)
    → Ends pkt q k Q (f a c)
    → Ends pkt q k Q (elim m [ ok e ↦ resume f e | fault ↦ fault | stuck ↦ stuck ])
bound f e h = rw e h

pub went :
    {pkt : Bytes} {q : ℕ} {k : Section → ℕ} {A : Type 0} {Q : A → Ctx → Type 0} {m : Run (Exit A)}
    {a : A} {c : Ctx}
    → m ≡ ok (goes a c)
    → Q a c
    → Ends pkt q k Q m
went e q = rw e (going q)

pub Good-offset :
    {pkt : Bytes} {q : ℕ} {k : Section → ℕ} {o : ℕ} {c : Ctx} (n : ℕ)
    → Good pkt q k o c
    → n ≤ length pkt
    → Good pkt q k n (set_offset c n)
Good-offset n g h = record {
  packet = g.packet;
  at = refl;
  within = h;
  names = g.names;
  questions = g.questions;
  size = g.size;
  counted = g.counted;
  errors = g.errors;
}

pub advance-Good :
    {pkt : Bytes} {q : ℕ} {k : Section → ℕ} {o : ℕ} {c : Ctx} (n : ℕ)
    → Good pkt q k o c
    → o + n ≤ length pkt
    → Good pkt q k (o + n) (set_offset c (c.dec.offset + n))
advance-Good n g h = record {
  packet = g.packet;
  at = omega (arith, g.at);
  within = h;
  names = g.names;
  questions = g.questions;
  size = g.size;
  counted = g.counted;
  errors = g.errors;
}

pub dns_dec_err-Good :
    {pkt : Bytes} {q : ℕ} {k : Section → ℕ} {o : ℕ} {c : Ctx} (group field : Location) (ec : ℕ)
    → Good pkt q k o c
    → Good pkt q k o (dns_dec_err c group field ec).1
unfolding dns_dec_err
dns_dec_err-Good {c = c} group field ec g = elim (Bool-cases (leb 10 (length c.dec.errs))) [
  | inl full ↦ rw full g
  | inr room ↦ rw room (record {
    packet = g.packet;
    at = g.at;
    within = g.within;
    names = g.names;
    questions = g.questions;
    size = g.size;
    counted = g.counted;
    errors =
        ground
          (arith, length-append c.dec.errs (record { group = group; field = field; ec = ec } ∷ []));
  })
]

pub length-set_rr : (xs : List Rr) (i : ℕ) (r : Rr) → length (set_rr xs i r) ≡ length xs
unfolding set_rr
length-set_rr [] i r = refl
length-set_rr (x ∷ xs) zero r = refl
length-set_rr (x ∷ xs) (suc i) r = ap suc (length-set_rr xs i r)

-- another array of the same length in one section
put_base-size :
    (sc : Section) (msg : DnsMsg) (base : List Rr)
    → ((s : Section) → length (sect_of s msg).base ≡ 32)
    → length base ≡ 32
    → (s : Section)
    → length (sect_of s (put_sect sc msg (record (sect_of sc msg) { base = base }))).base ≡ 32
put_base-size answer msg base h e answer = e
put_base-size answer msg base h e authority = h authority
put_base-size answer msg base h e additional = h additional
put_base-size authority msg base h e answer = h answer
put_base-size authority msg base h e authority = e
put_base-size authority msg base h e additional = h additional
put_base-size additional msg base h e answer = h answer
put_base-size additional msg base h e authority = h authority
put_base-size additional msg base h e additional = e

put_base-counted :
    (sc s : Section) (msg : DnsMsg) (base : List Rr)
    → (sect_of s (put_sect sc msg (record (sect_of sc msg) { base = base }))).count
      ≡ (sect_of s msg).count
put_base-counted answer answer msg base = refl
put_base-counted answer authority msg base = refl
put_base-counted answer additional msg base = refl
put_base-counted authority answer msg base = refl
put_base-counted authority authority msg base = refl
put_base-counted authority additional msg base = refl
put_base-counted additional answer msg base = refl
put_base-counted additional authority msg base = refl
put_base-counted additional additional msg base = refl

pub put_sect-names :
    (sc : Section) (msg : DnsMsg) (s : Sect) → (put_sect sc msg s).names_len ≡ msg.names_len
put_sect-names answer msg s = refl
put_sect-names authority msg s = refl
put_sect-names additional msg s = refl

pub put_sect-qd : (sc : Section) (msg : DnsMsg) (s : Sect) → (put_sect sc msg s).qd ≡ msg.qd
put_sect-qd answer msg s = refl
put_sect-qd authority msg s = refl
put_sect-qd additional msg s = refl

get_elem?-some : (xs : List Rr) (i : ℕ) → i < length xs → (r : Rr) × (get_elem? xs i ≡ some r)
get_elem?-some [] i h = absurd (omega arith)
get_elem?-some (x ∷ xs) zero h = (x, refl)
get_elem?-some (x ∷ xs) (suc i) h = get_elem?-some xs i (omega arith)

module _ {pkt : Bytes} {q : ℕ} {k : Section → ℕ} {o : ℕ} {c : Ctx} (g : Good pkt q k o c) where
  -- A state that differs in the records of one section only.
  Good-base :
      (sc : Section) (base : List Rr)
      → length base ≡ 32
      → Good pkt q k o
          (record c { msg = put_sect sc c.msg (record (sect_of sc c.msg) { base = base }) })
  Good-base sc base e =
      let m = record (sect_of sc c.msg) { base = base } in
      record {
        packet = g.packet;
        at = g.at;
        within = g.within;
        names = omega (arith, put_sect-names sc c.msg m, g.names);
        questions = omega (arith, ap length (put_sect-qd sc c.msg m), g.questions);
        size = put_base-size sc c.msg base g.size e;
        counted = λ s. put_base-counted sc s c.msg base ∙ g.counted s;
        errors = g.errors;
      }

  pub get_slot-Ends : (sc : Section) → k sc < 32 → (r : Rr) × (get_slot sc c ≡ ok (goes r c))
  unfolding get_slot
  get_slot-Ends sc room =
      let s = sect_of sc c.msg in
      let (r, e) = get_elem?-some s.base s.count (omega (arith, g.size sc, g.counted sc)) in
      (r, rw (e, get_slot))

  pub edit-Ends :
      (sc : Section) (f : Rr → Rr) → k sc < 32 → Ends pkt q k (λ u. Good pkt q k o) (edit sc f c)
  unfolding edit put_slot
  edit-Ends sc f room =
      let (r, e) = get_slot-Ends sc room in
      let s = sect_of sc c.msg in
      bound (λ r. put_slot sc (f r)) e
        (going (
          Good-base sc (set_rr s.base s.count (f r))
            (length-set_rr s.base s.count (f r) ∙ g.size sc)))

  pub set_rdata-Ends :
      (sc : Section) (rdata : Rdata)
      → k sc < 32
      → Ends pkt q k (λ u. Good pkt q k o) (set_rdata sc rdata c)
  unfolding set_rdata
  set_rdata-Ends sc rdata room = edit-Ends sc (λ r. record r { rdata = rdata }) room

  pub dec_err-Ends :
      {A : Type 0} {Q : A → Ctx → Type 0} (group field : Location) (ec : ℕ)
      → Ends pkt q k Q (dec_err group field ec c)
  unfolding dec_err
  dec_err-Ends group field ec = exited (dns_dec_err-Good group field ec g)

  pub guard-Ends :
      (b : Bool) (group field : Location) (ec : ℕ)
      → Ends pkt q k (λ u c'. Good pkt q k o c' × (b ≡ true)) (guard b group field ec c)
  guard-Ends true group field ec = going (g, refl)
  guard-Ends false group field ec = dec_err-Ends group field ec

  pub fix_label-Ends :
      (w : ℕ) (name : Bytes)
      → Ends pkt q k (λ s c'. Good pkt q k o c' × (0 < length s)) (fix_label w name c)
  unfolding fix_label
  fix_label-Ends w [] = elim (Bool-cases (ltb (1124 - w) 2)) [
    | inl full ↦ rw full (exited g)
    | inr room ↦ rw room (going (g, omega arith))
  ]
  fix_label-Ends w (x ∷ name) = going (g, omega arith)

  pub reads-eq :
      {A : Type 0} (read : Bytes → ℕ → Run A) (n : ℕ) {a : A}
      → read pkt (o + n) ≡ ok a
      → reads read n c ≡ ok (goes a c)
  unfolding reads
  reads-eq read n e =
      let read_here =
        ap (λ b. read b (c.dec.offset + n)) g.packet ∙ ap (λ i. read pkt (i + n)) g.at ∙ e in
      rw (read_here, reads)

pub names-sect :
    (s : Section) (msg : DnsMsg) (n : ℕ) → sect_of s (record msg { names_len = n }) ≡ sect_of s msg
names-sect answer msg n = refl
names-sect authority msg n = refl
names-sect additional msg n = refl
