-- ===== src/Builders/Labels.antt =====
-- labels.go, and the names of the other builders. All of them read the name of the instance only.
use langfuse_operator.Common.{String, ◌<>◌, List, [], ◌∷◌}

abbrev pub Labels : Type 0
Labels = List (String × String)

unfoldable pub common_labels : String → String → Labels
common_labels instance component =
    ("app.kubernetes.io/name", "langfuse")
    ∷ ("app.kubernetes.io/instance", instance)
    ∷ ("app.kubernetes.io/component", component)
    ∷ ("app.kubernetes.io/managed-by", "langfuse-operator")
    ∷ ("app.kubernetes.io/part-of", "langfuse")
    ∷ ("langfuse.palena.ai/instance", instance)
    ∷ []

unfoldable pub selector_labels : String → String → Labels
selector_labels instance component =
    ("app.kubernetes.io/name", "langfuse")
    ∷ ("app.kubernetes.io/instance", instance)
    ∷ ("app.kubernetes.io/component", component)
    ∷ []

unfoldable pub web_name : String → String
web_name instance = instance <> "-web"

unfoldable pub worker_name : String → String
worker_name instance = instance <> "-worker"

unfoldable pub web_service_name : String → String
web_service_name instance = instance <> "-web"

unfoldable pub click_house_name : String → String
click_house_name instance = instance <> "-clickhouse"

unfoldable pub redis_name : String → String
redis_name instance = instance <> "-redis"

unfoldable pub redis_service_name : String → String
redis_service_name instance = instance <> "-redis"
