-- ===== src/Builders/Policies.antt =====
-- networkpolicy.go. A port of a rule has its protocol written out.
use langfuse_operator.Common.{
  ℕ, String, ◌==◌, ◌<>◌, Bool, ◌&&◌, List, [], ◌∷◌, ◌++◌, map, eqb, any, non_empty_or,
  if◌then◌else◌,
}
use langfuse_operator.Api.{NetworkPolicyPort, Instance}
use langfuse_operator.Builders.Labels.{
  Labels, common_labels, selector_labels, web_name, worker_name,
}

-- `ingress` and `egress` are the rules, each by its ports.
pub record NetworkPolicy : Type 0 where
  pub name : String
  pub namespace : String
  pub labels : Labels
  pub pod_selector : Labels
  pub ingress : List (List NetworkPolicyPort)
  pub egress : List (List NetworkPolicyPort)

abbrev pub tcp : ℕ → NetworkPolicyPort
tcp port = record { port = port; protocol = "TCP" }

abbrev pub default_egress_ports : List ℕ
default_egress_ports = 5432 ∷ 8123 ∷ 8443 ∷ 9000 ∷ 9440 ∷ 6379 ∷ 6380 ∷ 443 ∷ 3000 ∷ []

abbrev pub is_default : ℕ → Bool
is_default port = any (eqb port) default_egress_ports

-- The loop of extraEgressPorts.
unfoldable pub extra_egress_ports : List NetworkPolicyPort → List NetworkPolicyPort
unfolding non_empty_or
extra_egress_ports [] = []
extra_egress_ports (extra ∷ extras) =
    let rest = extra_egress_ports extras in
    let protocol = non_empty_or extra.protocol "TCP" in
    if protocol == "TCP" && is_default extra.port
    then rest
    else record { port = extra.port; protocol = protocol } ∷ rest

unfoldable pub common_egress_rules : List NetworkPolicyPort → List (List NetworkPolicyPort)
unfolding extra_egress_ports
common_egress_rules extras =
    (map tcp default_egress_ports ++ extra_egress_ports extras)
    ∷ (record { port = 53; protocol = "UDP" } ∷ tcp 53 ∷ [])
    ∷ []

unfoldable pub build_web_network_policy : {C : Type 0} → Instance C → NetworkPolicy
unfolding common_labels selector_labels web_name common_egress_rules
build_web_network_policy i = record {
  name = web_name i.name <> "-netpol";
  namespace = i.namespace;
  labels = common_labels i.name "web";
  pod_selector = selector_labels i.name "web";
  ingress = (tcp 3000 ∷ []) ∷ [];
  egress = common_egress_rules i.spec.extra_egress_ports;
}

unfoldable pub build_worker_network_policy : {C : Type 0} → Instance C → NetworkPolicy
unfolding common_labels selector_labels worker_name common_egress_rules
build_worker_network_policy i = record {
  name = worker_name i.name <> "-netpol";
  namespace = i.namespace;
  labels = common_labels i.name "worker";
  pod_selector = selector_labels i.name "worker";
  ingress = [];
  egress = common_egress_rules i.spec.extra_egress_ports;
}
