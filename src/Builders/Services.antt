-- ===== src/Builders/Services.antt =====
-- services.go and the Services of clickhouse.go and redis.go.
use langfuse_operator.Common.{ℕ, String, List, [], ◌∷◌}
use langfuse_operator.Api.{Instance}
use langfuse_operator.Builders.Labels.{
  Labels, common_labels, selector_labels, web_service_name, click_house_name, redis_service_name,
}

-- Each port by its name, which is also the target port, and its number. All are TCP.
pub record Service : Type 0 where
  pub name : String
  pub namespace : String
  pub labels : Labels
  pub selector : Labels
  pub ports : List (String × ℕ)

unfoldable pub build_web_service : {C : Type 0} → Instance C → Service
unfolding common_labels selector_labels web_service_name
build_web_service i = record {
  name = web_service_name i.name;
  namespace = i.namespace;
  labels = common_labels i.name "web";
  selector = selector_labels i.name "web";
  ports = ("http", 3000) ∷ [];
}

unfoldable pub build_click_house_service : {C : Type 0} → Instance C → Service
unfolding common_labels selector_labels click_house_name
build_click_house_service i = record {
  name = click_house_name i.name;
  namespace = i.namespace;
  labels = common_labels i.name "clickhouse";
  selector = selector_labels i.name "clickhouse";
  ports = ("http", 8123) ∷ ("native", 9000) ∷ [];
}

unfoldable pub build_redis_service : {C : Type 0} → Instance C → Service
unfolding common_labels selector_labels redis_service_name
build_redis_service i = record {
  name = redis_service_name i.name;
  namespace = i.namespace;
  labels = common_labels i.name "redis";
  selector = selector_labels i.name "redis";
  ports = ("redis", 6379) ∷ [];
}
