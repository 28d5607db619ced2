-- ===== src/Dns/Decode/Cases.antt =====
-- src/dns_proto.c: `switch(rr_type)` of `dns_rr_decode`, a routine for each case. `w` is the
-- position in `dec->msg` behind the name of the record, and a routine gives `rc` at its end. The
-- fields of a member that are not written yet are null or 0, until the routine ends and the record
-- is counted.
use c_db_k8s.Prelude.{
  ℕ, zero, suc, ◌+◌, ◌/◌, ◌%◌, ◌^◌, Bool, true, false, Option, none, some, List, [], ◌∷◌, ◌++◌,
  Bytes, ltb, leb, ◌==◌, if◌then◌else◌, length, ok, fault, stuck,
}
use c_db_k8s.Str.Codec.{uint16_toa}
use c_db_k8s.Dns.{
  Rdata, a, ns_name, cname, ptr_name, soa, hinfo, mx, txt, aaaa, srv, opt, copy_at, u16_at, u32_at,
  byte_at, max_txt, msg_store_str, c_string,
}
use c_db_k8s.Dns.Name.{e_rdatalen, e_msgfmt}
use c_db_k8s.Dns.Decode.{
  Routine, goes, ◌>>=◌, ◌>>◌, pure, leave, ret_fail, Location, at_rr, at_a, at_tns, at_cname,
  at_soa, at_hinfo, at_mx, at_txt, at_aaaa, at_srv, at_opt, guard, advance, offset_now, reads,
  decode_name_at, fix_label, Section, answer, authority, additional, get_slot, set_rdata, edit,
  store_str, store_name,
}

-- a name at `w` of `dec->msg`
unfoldable pub rdata_name : (field : Location) → (w : ℕ) → Routine Bytes
rdata_name field w = do name ← decode_name_at at_rr field w; fix_label w name

-- `DNS_TYPE_NS`, `DNS_TYPE_CNAME` and `DNS_TYPE_PTR`, which differ in the member of the union
unfoldable pub decode_named :
    Section → (Option Bytes → Rdata) → (field : Location) → (w : ℕ) → Routine ℕ
unfolding rdata_name
decode_named sc member field w = do
  name ← rdata_name field w
  store_name name (λ s. set_rdata sc (member s))
  pure (length name)

unfoldable pub decode_a : Section → (rdlen rc : ℕ) → Routine ℕ
decode_a sc rdlen rc = do
  guard (rdlen == 4) at_rr at_a e_rdatalen
  bytes ← reads (λ pkt i. copy_at pkt i 4) 0
  set_rdata sc (a bytes)
  advance 4
  pure rc

unfoldable pub decode_aaaa : Section → (rdlen rc : ℕ) → Routine ℕ
decode_aaaa sc rdlen rc = do
  guard (rdlen == 16) at_rr at_aaaa e_rdatalen
  bytes ← reads (λ pkt i. copy_at pkt i 16) 0
  advance 16
  set_rdata sc (aaaa bytes)
  pure rc

-- The check behind the second name is of the pointer to the first one.
unfoldable pub store_rname : Section → (mname : Option Bytes) → Bytes → Routine (Option Bytes)
unfolding store_str c_string
store_rname sc mname name c =
    let r = msg_store_str c.msg (c_string name) in
    (set_rdata sc (soa mname r.1 0 0 0 0 0) >>= λ _. elim mname [
      | none ↦ leave ret_fail
      | some s ↦ pure r.1
    ])
      (record c { msg = r.0 })

-- the five numbers behind the names
unfoldable pub soa_fixed : Section → (mname rname : Option Bytes) → (rd_end rc : ℕ) → Routine ℕ
soa_fixed sc mname rname rd_end rc = do
  offset ← offset_now
  guard (leb (offset + 20) rd_end) at_rr at_soa e_rdatalen
  serial ← reads u32_at 0
  refresh ← reads u32_at 4
  retry ← reads u32_at 8
  expire ← reads u32_at 12
  min_ttl ← reads u32_at 16
  advance 20
  set_rdata sc (soa mname rname serial refresh retry expire min_ttl)
  pure rc

unfoldable pub decode_soa : Section → (rd_end w : ℕ) → Routine ℕ
unfolding rdata_name store_rname soa_fixed
decode_soa sc rd_end w = do
  first ← rdata_name at_soa w
  mname ← store_name first (λ s. set_rdata sc (soa s none 0 0 0 0 0))
  second ← rdata_name at_soa (w + length first)
  rname ← store_rname sc mname second
  soa_fixed sc mname rname rd_end (length second)

-- a length and so many bytes, inside `rd_end`
unfoldable pub counted : (field : Location) → (rd_end : ℕ) → Routine Bytes
counted field rd_end = do
  len ← reads byte_at 0
  advance 1
  offset ← offset_now
  guard (leb (offset + len) rd_end) at_rr field e_rdatalen
  reads (λ pkt i. copy_at pkt i len) 0

-- the second string
unfoldable pub decode_os : Section → (cpu_str : Option Bytes) → (rd_end rc : ℕ) → Routine ℕ
unfolding counted
decode_os sc cpu_str rd_end rc = do
  offset ← offset_now
  guard (ltb offset rd_end) at_rr at_hinfo e_rdatalen
  os ← counted at_hinfo rd_end
  store_str os (λ s. set_rdata sc (hinfo cpu_str s))
  advance (length os)
  pure rc

unfoldable pub decode_hinfo : Section → (rdlen rd_end rc : ℕ) → Routine ℕ
unfolding counted decode_os
decode_hinfo sc rdlen rd_end rc = do
  guard (leb 2 rdlen) at_rr at_hinfo e_rdatalen
  cpu ← counted at_hinfo rd_end
  cpu_str ← store_str cpu (λ s. set_rdata sc (hinfo s none))
  advance (length cpu)
  decode_os sc cpu_str rd_end rc

unfoldable pub decode_mx : Section → (rdlen w : ℕ) → Routine ℕ
unfolding rdata_name
decode_mx sc rdlen w = do
  guard (leb 3 rdlen) at_rr at_mx e_rdatalen
  pref ← reads u16_at 0
  advance 2
  name ← rdata_name at_mx w
  store_name name (λ s. set_rdata sc (mx pref s))
  pure (length name)

unfoldable pub decode_srv : Section → (rdlen w : ℕ) → Routine ℕ
unfolding rdata_name
decode_srv sc rdlen w = do
  guard (leb 7 rdlen) at_rr at_srv e_rdatalen
  prior ← reads u16_at 0
  weight ← reads u16_at 2
  port ← reads u16_at 4
  advance 6
  name ← rdata_name at_srv w
  store_name name (λ s. set_rdata sc (srv prior weight port s))
  pure (length name)

-- the text of `snprintf`, of which only the length counts
unfoldable pub opt_text : (udp_size ext_rcode version do_bit : ℕ) → Bytes
opt_text udp_size ext_rcode version do_bit =
    (85 ∷ 68 ∷ 80 ∷ 45 ∷ 115 ∷ 105 ∷ 122 ∷ 101 ∷ 58 ∷ [])
    ++ (uint16_toa udp_size
        ++ ((32 ∷ 69 ∷ 120 ∷ 116 ∷ 45 ∷ 82 ∷ 67 ∷ 79 ∷ 68 ∷ 69 ∷ 58 ∷ [])
            ++ (uint16_toa ext_rcode
                ++ ((32 ∷ 69 ∷ 68 ∷ 78 ∷ 83 ∷ 48 ∷ 58 ∷ [])
                    ++ (uint16_toa version
                        ++ ((32 ∷ 68 ∷ 78 ∷ 83 ∷ 69 ∷ 67 ∷ 45 ∷ 79 ∷ 75 ∷ 58 ∷ [])
                            ++ uint16_toa do_bit))))))

unfoldable pub is_additional : Section → Bool
is_additional additional = true
is_additional answer = false
is_additional authority = false

-- `name` is the name of the record, which is stored a second time
unfoldable pub decode_opt : Section → (rr_class rr_ttl rd_end : ℕ) → (name : Bytes) → Routine ℕ
unfolding opt_text is_additional
decode_opt sc rr_class rr_ttl rd_end name =
    let ext_rcode = rr_ttl / 2 ^ 24 % 2 ^ 8 in
    let version = rr_ttl / 2 ^ 16 % 2 ^ 8 in
    let do_bit = rr_ttl / 2 ^ 15 % 2 in
    do
      guard (is_additional sc) at_rr at_opt e_msgfmt
      edit sc (λ r. record r {
        rclass = 0;
        rdata = opt rr_class ext_rcode version do_bit (rr_ttl % 2 ^ 15);
      })
      store_name name (λ s. edit sc (λ r. record r { name = s }))
      (λ c. ok (
          goes tt (record c {
            dec = record c.dec {
              got_edns = true;
              udp_size = rr_class;
              ext_rcode = ext_rcode;
              edns_ver = version;
              dnssec_ok = do_bit == 1;
              offset = rd_end;
            };
          })))
      pure (length (opt_text rr_class ext_rcode version do_bit))

-- `punned` is what the union reads as the strings of a `txt`, where another member was written last
module _ (punned : Rdata → List (Option Bytes)) where
  unfoldable pub txt_of : Rdata → List (Option Bytes)
  txt_of (txt strs) = strs
  txt_of r = punned r

  -- `str[num_str] = s`, which behind the array is a fault, and the count of a string that is not null
  unfoldable pub put_txt : Section → List (Option Bytes) → Option Bytes → Routine (Unit {0})
  put_txt sc strs s =
      if leb max_txt (length strs)
      then (λ c. fault)
      else (elim s [ none ↦ pure tt | some t ↦ set_rdata sc (txt (strs ++ (some t ∷ []))) ])

  -- The string goes behind those that the record has; a null pointer is not counted.
  unfoldable pub add_txt : Section → Bytes → Routine (Unit {0})
  unfolding txt_of put_txt
  add_txt sc str = do
    r ← get_slot sc
    if leb max_txt (length (txt_of r.rdata))
        then leave ret_fail
        else (do store_str str (put_txt sc (txt_of r.rdata)); pure tt)

  -- `while (dec->offset < rd_end)`
  unfoldable pub txt_loop : ℕ → Section → (rd_end : ℕ) → Routine (Unit {0})
  unfolding counted add_txt
  txt_loop zero sc rd_end c = if ltb c.dec.offset rd_end then stuck else pure tt c
  txt_loop (suc rounds) sc rd_end c = elim (ltb c.dec.offset rd_end) [
    | true ↦
        (counted at_txt rd_end >>= λ str.
        add_txt sc str >>= λ _. advance (length str) >>= λ _. txt_loop rounds sc rd_end)
          c
    | false ↦ pure tt c
  ]

  -- A round takes a byte of the record.
  unfoldable pub decode_txt : Section → (rdlen rd_end rc : ℕ) → Routine ℕ
  unfolding txt_loop
  decode_txt sc rdlen rd_end rc = do txt_loop rdlen sc rd_end; pure rc

  unfoldable pub decode_rdata :
      Section → (rr_type rr_class rr_ttl rdlen rd_end : ℕ) → (name : Bytes) → Routine ℕ
  decode_rdata sc rr_type rr_class rr_ttl rdlen rd_end name =
      let rc = length name in
      let w = rc + 1 in
      if rr_type == 1
      then decode_a sc rdlen rc
      else if rr_type == 2
      then decode_named sc ns_name at_tns w
      else if rr_type == 5
      then decode_named sc cname at_cname w
      else if rr_type == 6
      then decode_soa sc rd_end w
      else if rr_type == 12
      then decode_named sc ptr_name at_cname w
      else if rr_type == 13
      then decode_hinfo sc rdlen rd_end rc
      else if rr_type == 15
      then decode_mx sc rdlen w
      else if rr_type == 16
      then decode_txt sc rdlen rd_end rc
      else if rr_type == 28
      then decode_aaaa sc rdlen rc
      else if rr_type == 33
      then decode_srv sc rdlen w
      else if rr_type == 41
      then decode_opt sc rr_class rr_ttl rd_end name
      else (do advance rdlen; pure rc)
