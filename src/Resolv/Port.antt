-- ===== src/Resolv/Port.antt =====
-- `try_port` of src/dns_resolv.c. `services` is what `services_get` finds for a name: the port for UDP
-- in the upper half of a `uint32_t`, and the port for TCP in the lower half.
use c_db_k8s.Prelude.{
  ℕ, ◌/◌, ◌%◌, ◌^◌, ◌<◌, ◌≡◌, refl, sym, ap, subst, ◌∙◌, inl, inr, Bool, true, false, not, ◌&&◌,
  ◌||◌, Bytes, ltb, ◌==◌, if◌then◌else◌, length, Bool-cases, arith,
}
use c_db_k8s.Str.Chars.{str_isnumeric, str_tou32}
use c_db_k8s.Resolv.{Flags, DnsResult}

-- both protocols, if none is asked for
unfoldable pub set_protocols : DnsResult → DnsResult
set_protocols res =
    let any = not (res.flags.tcp || res.flags.udp) in
    record res {
      flags = record res.flags { tcp = res.flags.tcp || any; udp = res.flags.udp || any };
    }

unfoldable pub set_ports : DnsResult → (tcp udp : Bool) → (tcp_port udp_port : ℕ) → DnsResult
set_ports res tcp udp tcp_port udp_port = record res {
  tcp_port = if tcp then tcp_port else res.tcp_port;
  udp_port = if udp then udp_port else res.udp_port;
}

-- whether the flags ask for the protocols that were found, and for no other
unfoldable pub wanted : Flags → (tcp udp : Bool) → Bool
wanted flags true true = flags.tcp && flags.udp
wanted flags true false = flags.tcp && not flags.udp
wanted flags false true = not flags.tcp && flags.udp
wanted flags false false = not flags.tcp && not flags.udp

-- `any` says that the caller named no protocol
unfoldable pub service_port : DnsResult → (any : Bool) → (pp : ℕ) → Bool × DnsResult
unfolding set_ports wanted
service_port res any pp =
    let tcp_port = pp % 2 ^ 16 in
    let udp_port = pp / 2 ^ 16 % 2 ^ 16 in
    let tcp = res.flags.tcp && not (tcp_port == 0) in
    let udp = res.flags.udp && not (udp_port == 0) in
    let r = set_ports res tcp udp tcp_port udp_port in
    if not (tcp || udp)
    then (false, r)
    else if not any && not (wanted res.flags tcp udp)
    then (false, r)
    else (true, r)

-- `true` for 0, and `false` for -1
unfoldable pub try_port : (services : Bytes → ℕ) → DnsResult → Bool × DnsResult
unfolding set_protocols set_ports service_port
try_port services res =
    let any = not (res.flags.tcp || res.flags.udp) in
    let r = set_protocols res in
    let portno = str_tou32 r.port in
    if length r.port == 0
    then (true, r)
    else if str_isnumeric r.port
    then (if ltb 65535 portno
        then (false, r)
        else (true, set_ports r r.flags.tcp r.flags.udp portno portno))
    else if r.flags.numport
    then (false, r)
    else service_port r any (services r.port)

-- the ports that a service has, 0 where it has none
abbrev pub tcp_of : ℕ → ℕ
tcp_of pp = pp % 2 ^ 16

abbrev pub udp_of : ℕ → ℕ
udp_of pp = pp / 2 ^ 16 % 2 ^ 16

-- whether the caller gets a service: every protocol that it named has a port, and one of the two where it
-- named none
abbrev pub offers : (asked : Flags) → (pp : ℕ) → Bool
offers asked pp =
    let tcp = not (tcp_of pp == 0) in
    let udp = not (udp_of pp == 0) in
    if asked.tcp || asked.udp then (not asked.tcp || tcp) && (not asked.udp || udp) else tcp || udp

-- the ports behind the call: that of the service for a protocol that was named, and, where none was
-- named, for one that the service has; any other port is as before
pub record HasPorts (old : DnsResult) (pp : ℕ) (r : DnsResult) : Type 0 where
  pub tcp : r.tcp_port ≡ (
      if old.flags.tcp || not old.flags.udp && not (tcp_of pp == 0)
      then tcp_of pp
      else old.tcp_port)
  pub udp : r.udp_port ≡ (
      if old.flags.udp || not old.flags.tcp && not (udp_of pp == 0)
      then udp_of pp
      else old.udp_port)

service_port-offers :
    (r : DnsResult) (pp : ℕ)
    → (service_port (set_protocols r) (not (r.flags.tcp || r.flags.udp)) pp).0 ≡ offers r.flags pp
unfolding set_protocols service_port set_ports wanted
service_port-offers r pp = ground arith

service_port-HasPorts :
    (r : DnsResult) (pp : ℕ)
    → offers r.flags pp ≡ true
    → HasPorts r pp (service_port (set_protocols r) (not (r.flags.tcp || r.flags.udp)) pp).1
unfolding set_protocols service_port set_ports wanted
service_port-HasPorts r pp h = record { tcp = ground (arith, h); udp = ground (arith, h) }

-- A port by name, which is a text that is not empty and no number: `try_port` returns 0 just where the
-- caller does not ask for a number and the service has a port for each protocol that the caller
-- named, or for one of the two where it named none. Then the ports of these protocols are those
-- of the service, and any other port is as it was.
pub try_port-HasPorts :
    (services : Bytes → ℕ) (r : DnsResult)
    → 0 < length r.port
    → str_isnumeric r.port ≡ false
    → ((try_port services r).0 ≡ not r.flags.numport && offers r.flags (services r.port))
      × ((try_port services r).0 ≡ true → HasPorts r (services r.port) (try_port services r).1)
unfolding try_port set_protocols
try_port-HasPorts services r some_text no_number =
    let text : (length r.port == 0) ≡ false = ground (arith, some_text) in
    let pp = services r.port in
    elim (Bool-cases r.flags.numport) [
      | inl number_only ↦
          let fails : try_port services r ≡ (false, set_protocols r) =
            rw (text, no_number, number_only) refl in
          (
            ap (λ p. p.0) fails ∙ rw number_only refl,
            λ h. absurd (ground (arith, fails_at fails h)),
          )
      | inr by_name ↦
          let any = not (r.flags.tcp || r.flags.udp) in
          let named : try_port services r ≡ service_port (set_protocols r) any pp =
            rw (text, no_number, by_name) refl in
          let answer : (try_port services r).0 ≡ offers r.flags pp =
            ap (λ p. p.0) named ∙ service_port-offers r pp in
          (
            answer ∙ rw by_name refl,
            λ h.
                subst (λ p. HasPorts r pp p.1) (sym named)
                  (service_port-HasPorts r pp (sym answer ∙ h)),
          )
    ]
  where
    fails_at : {p : Bool × DnsResult} {q : DnsResult} → p ≡ (false, q) → p.0 ≡ true → false ≡ true
    fails_at e h = sym (ap (λ p. p.0) e) ∙ h
