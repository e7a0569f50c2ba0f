-- ===== src/Builders/Scaling.antt =====
-- hpa.go and pdb.go.
use langfuse_operator.Common.{ℤ, pos, is_pos, String, Option, none, some, if◌then◌else◌}
use langfuse_operator.Api.{AutoscalingSpec, PdbSpec, Instance}
use langfuse_operator.Builders.Labels.{
  Labels, common_labels, selector_labels, web_name, worker_name,
}

-- `target` is the name of the Deployment that is scaled, by its CPU.
pub record Hpa : Type 0 where
  pub name : String
  pub namespace : String
  pub labels : Labels
  pub target : String
  pub min_replicas : ℤ
  pub max_replicas : ℤ
  pub target_cpu : ℤ

pub record Pdb : Type 0 where
  pub name : String
  pub namespace : String
  pub labels : Labels
  pub min_available : ℤ
  pub selector : Labels

abbrev pub or_ℤ : Option ℤ → ℤ → ℤ
or_ℤ none d = d
or_ℤ (some n) d = n

-- The defaults of buildHPA.
min_of : Option AutoscalingSpec → ℤ
min_of none = pos 1
min_of (some a) = or_ℤ a.min_replicas (pos 1)

max_of : Option AutoscalingSpec → ℤ
max_of none = pos 10
max_of (some a) = if is_pos a.max_replicas then a.max_replicas else pos 10

cpu_of : Option AutoscalingSpec → ℤ
cpu_of none = pos 80
cpu_of (some a) = or_ℤ a.target_cpu_utilization (pos 80)

unfoldable pub build_hpa : String → String → Labels → Option AutoscalingSpec → Hpa
unfolding min_of max_of cpu_of
build_hpa name namespace labels spec = record {
  name = name;
  namespace = namespace;
  labels = labels;
  target = name;
  min_replicas = min_of spec;
  max_replicas = max_of spec;
  target_cpu = cpu_of spec;
}

unfoldable pub build_web_hpa : {C : Type 0} → Instance C → Hpa
unfolding build_hpa common_labels web_name
build_web_hpa i =
    build_hpa (web_name i.name) i.namespace (common_labels i.name "web") i.spec.web.autoscaling

unfoldable pub build_worker_hpa : {C : Type 0} → Instance C → Hpa
unfolding build_hpa common_labels worker_name
build_worker_hpa i =
    build_hpa (worker_name i.name) i.namespace (common_labels i.name "worker")
      i.spec.worker.autoscaling

available : Option PdbSpec → ℤ
available none = pos 1
available (some b) = or_ℤ b.min_available (pos 1)

unfoldable pub build_pdb : String → String → Labels → Labels → Option PdbSpec → Pdb
unfolding available
build_pdb name namespace labels selector spec = record {
  name = name;
  namespace = namespace;
  labels = labels;
  min_available = available spec;
  selector = selector;
}

unfoldable pub build_web_pdb : {C : Type 0} → Instance C → Pdb
unfolding build_pdb common_labels selector_labels web_name
build_web_pdb i =
    build_pdb (web_name i.name) i.namespace (common_labels i.name "web")
      (selector_labels i.name "web") i.spec.web.pod_disruption_budget

unfoldable pub build_worker_pdb : {C : Type 0} → Instance C → Pdb
unfolding build_pdb common_labels selector_labels worker_name
build_worker_pdb i =
    build_pdb (worker_name i.name) i.namespace (common_labels i.name "worker")
      (selector_labels i.name "worker") i.spec.worker.pod_disruption_budget
