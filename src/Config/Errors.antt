-- ===== src/Config/Errors.antt =====
-- The specs that BuildConfig refuses.
use langfuse_operator.Common.{
  Bool, true, false, not, ◌&&◌, ◌||◌, is_some, Option, none, some, ◌≡◌, refl, Result, ok, err,
  ◌>>=◌, arith,
}
use langfuse_operator.Api.{
  DatabaseSpec, ClickHouseSpec, RedisSpec, ExternalRedisSpec, RedisTlsSpec, Instance,
  cluster_enabled,
}
use langfuse_operator.Config.Env.{Config}
use langfuse_operator.Config.Database.{add_database_env}
use langfuse_operator.Config.ClickHouse.{add_click_house_env}
use langfuse_operator.Config.Redis.{add_redis_env, add_redis_tls_env, add_external_redis}
use langfuse_operator.Config.Build.{build_config, finish_config}

abbrev pub is_ok : {A : Type 0} → Result A → Bool
is_ok (ok _) = true
is_ok (err _) = false

-- What each datastore refuses: PostgreSQL deployed by the operator, a managed ClickHouse cluster,
-- and certificates of an external Redis whose TLS is off.
abbrev pub refused_database : Option DatabaseSpec → Bool
refused_database none = false
refused_database (some db) = db.managed

abbrev pub refused_click_house : Option ClickHouseSpec → Bool
refused_click_house none = false
refused_click_house (some ch) = is_some ch.managed && cluster_enabled (some ch)

abbrev refused_tls : Option RedisTlsSpec → Bool
refused_tls none = false
refused_tls (some t) =
    not t.enabled && (is_some t.ca_secret_ref || is_some t.client_cert_secret_ref)

abbrev refused_external : Option ExternalRedisSpec → Bool
refused_external none = false
refused_external (some e) = refused_tls e.tls

abbrev pub refused_redis : Option RedisSpec → Bool
refused_redis none = false
refused_redis (some r) = not r.managed && refused_external r.external

is_ok-database :
    (o : Option DatabaseSpec) (t : _) (cfg : Config)
    → is_ok (add_database_env o t cfg) ≡ not (refused_database o)
unfolding add_database_env
is_ok-database none t cfg = refl
is_ok-database (some db) t cfg = ground arith

is_ok-click_house :
    {C : Type 0} (i : Instance C) (o : Option ClickHouseSpec) (cfg : Config)
    → is_ok (add_click_house_env i o cfg) ≡ not (refused_click_house o)
unfolding add_click_house_env
is_ok-click_house i none cfg = refl
is_ok-click_house i (some ch) cfg = ground arith

is_ok-external :
    (o : Option ExternalRedisSpec) (t : _) (cfg : Config)
    → is_ok (add_external_redis o t cfg) ≡ not (refused_external o)
unfolding add_external_redis add_redis_tls_env
is_ok-external none t cfg = refl
is_ok-external (some e) t cfg = ground arith

is_ok-redis :
    {C : Type 0} (i : Instance C) (o : Option RedisSpec) (t : _) (cfg : Config)
    → is_ok (add_redis_env i o t cfg) ≡ not (refused_redis o)
unfolding add_redis_env
is_ok-redis i none t cfg = refl
is_ok-redis i (some r) t cfg = ground (arith, is_ok-external r.external t cfg)

is_ok-bind :
    {A B : Type 0} (r : Result A) (k : A → Result B) {b c : Bool}
    → is_ok r ≡ c
    → ((a : A) → is_ok (k a) ≡ b)
    → is_ok (r >>= k) ≡ (c && b)
is_ok-bind (ok a) k {b} {c} p h = ground (arith, h a)
is_ok-bind (err _) k {b} {c} p h = ground arith

is_ok-map :
    {A B : Type 0} (r : Result A) (f : A → B) {c : Bool}
    → is_ok r ≡ c
    → is_ok (r >>= λ a. ok (f a)) ≡ c
is_ok-map (ok a) f p = p
is_ok-map (err _) f p = p

-- BuildConfig succeeds exactly where none of the three datastores refuses its part of the spec.
pub build_config_supported :
    {C : Type 0} (i : Instance C)
    → is_ok (build_config i) ≡ (
        not (refused_database i.spec.database)
        && (not (refused_click_house i.spec.click_house) && not (refused_redis i.spec.redis)))
unfolding build_config
build_config_supported i = is_ok-bind _ _ (is_ok-database i.spec.database _ _) (λ d.
    is_ok-bind _ _ (is_ok-click_house i i.spec.click_house d)
      (λ c. is_ok-map _ (finish_config i) (is_ok-redis i i.spec.redis _ c)))
