-- ===== src/Builders/Egress.antt =====
-- What the network policies let out.
use langfuse_operator.Common.{
  ℕ, String, ◌==◌, Bool, true, false, ◌&&◌, ◌||◌, List, [], ◌∷◌, map, eqb, any, any-append,
  Bool-cases, inl, inr, ◌≡◌, refl, sym, ap, ◌∙◌, arith, eq_iff, non_empty_or, if◌then◌else◌,
}
use langfuse_operator.Api.{NetworkPolicyPort, Instance}
use langfuse_operator.Builders.Policies.{
  tcp, default_egress_ports, is_default, extra_egress_ports, common_egress_rules,
  build_web_network_policy, build_worker_network_policy,
}

abbrev names : ℕ → String → NetworkPolicyPort → Bool
names port protocol p = eqb p.port port && p.protocol == protocol

-- A connection leaves if a port of a rule allows it.
abbrev pub allows : List (List NetworkPolicyPort) → ℕ → String → Bool
allows rules port protocol = any (any (names port protocol)) rules

-- The protocol of a port that the user lists, TCP by default.
abbrev pub listed_as : ℕ → String → NetworkPolicyPort → Bool
listed_as port protocol p = eqb p.port port && non_empty_or p.protocol "TCP" == protocol

defaults-allow :
    (ports : List ℕ) (port : ℕ) (protocol : String)
    → any (names port protocol) (map tcp ports) ≡ ("TCP" == protocol && any (eqb port) ports)
defaults-allow [] port protocol = ground arith
defaults-allow (p ∷ ports) port protocol = ground (arith, defaults-allow ports port protocol)

-- A port that is skipped is among the defaults.
covered :
    (test : ℕ → Bool) (a b : ℕ) (s t u : String)
    → (s == t && test a) ≡ true
    → (eqb a b && s == u) ≡ true
    → (t == u && test b) ≡ true
covered test a b s t u skip same =
    let ports : a ≡ b = ground (arith, same) in
    let told : test a ≡ true = ground (arith, skip) in
    let left : s ≡ t = (eq_iff s t).0 (ground (arith, skip)) in
    let right : s ≡ u = (eq_iff s u).0 (ground (arith, same)) in
    ground (arith, (eq_iff t u).1 (sym left ∙ right), sym (ap test ports) ∙ told)

skipped :
    {A : Type 0} (p : A → Bool) (x : A) (rest : List A) (covers skip listed : Bool)
    → (skip ≡ true → p x ≡ true → covers ≡ true)
    → (covers || any p rest) ≡ (covers || listed)
    → (covers || any p (if skip then rest else x ∷ rest)) ≡ (covers || (p x || listed))
skipped p x rest true skip listed k h = refl
skipped p x rest false false listed k h = ap (λ b. p x || b) h
skipped p x rest false true listed k h = elim (Bool-cases (p x)) [
  | inl e ↦ cc (k refl e)
  | inr e ↦ rw e h
]

extra-allow :
    (extras : List NetworkPolicyPort) (port : ℕ) (protocol : String)
    → (("TCP" == protocol && is_default port)
        || any (names port protocol) (extra_egress_ports extras))
      ≡ (("TCP" == protocol && is_default port) || any (listed_as port protocol) extras)
unfolding extra_egress_ports
extra-allow [] port protocol = refl
extra-allow (e ∷ extras) port protocol =
    let kind = non_empty_or e.protocol "TCP" in
    skipped (names port protocol) (record { port = e.port; protocol = kind })
      (extra_egress_ports extras) ("TCP" == protocol && is_default port)
      (kind == "TCP" && is_default e.port) (any (listed_as port protocol) extras)
      (covered is_default e.port port kind "TCP" protocol) (extra-allow extras port protocol)

combine :
    (covers listed dns udp by_tcp : Bool)
    → ((covers || listed) || (((dns && udp) || ((dns && by_tcp) || false)) || false))
      ≡ (covers || (listed || (dns && (udp || by_tcp))))
combine covers listed dns udp by_tcp = ground arith

-- The policies of the web and of the worker let a connection out exactly if it is a TCP connection to a
-- default port, or to a port and protocol that the spec lists, or goes to port 53 by UDP or TCP.
pub build_network_policy-allows :
    {C : Type 0} (i : Instance C) (port : ℕ) (protocol : String)
    → (allows (build_web_network_policy i).egress port protocol ≡ (
        ("TCP" == protocol && is_default port)
        || (any (listed_as port protocol) i.spec.extra_egress_ports
            || (eqb 53 port && ("UDP" == protocol || "TCP" == protocol)))))
      × (allows (build_worker_network_policy i).egress port protocol
          ≡ allows (build_web_network_policy i).egress port protocol)
unfolding build_web_network_policy build_worker_network_policy common_egress_rules
build_network_policy-allows i port protocol =
    let extras = i.spec.extra_egress_ports in
    let covers = "TCP" == protocol && is_default port in
    let first =
      any-append (names port protocol) (map tcp default_egress_ports) (extra_egress_ports extras)
      ∙ ap (λ b. b || any (names port protocol) (extra_egress_ports extras))
          (defaults-allow default_egress_ports port protocol)
      ∙ extra-allow extras port protocol in
    (
      ap
            (λ b.
              b
              || (any (names port protocol) (record { port = 53; protocol = "UDP" } ∷ tcp 53 ∷ [])
                  || false))
            first
          ∙ combine covers (any (listed_as port protocol) extras) (eqb 53 port) ("UDP" == protocol)
              ("TCP" == protocol),
      refl,
    )
