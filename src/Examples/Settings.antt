-- ===== src/Examples/Settings.antt =====
-- The Config of the instance.
use langfuse_operator.Common.{not, ◌&&◌, ◌≡◌, Result, ok}
use langfuse_operator.Config.Env.{Config, empty_config}
use langfuse_operator.Config.Build.{build_config}
use langfuse_operator.Config.Errors.{
  build_config_supported, is_ok, refused_database, refused_click_house, refused_redis,
}
use langfuse_operator.Examples.Values.{fresh}

abbrev config_of : Result Config → Config
config_of (ok c) = c
config_of (Result.err e) = empty_config

abbrev config : Config
config = config_of (build_config fresh)

build_config_supported_example : is_ok (build_config fresh) ≡ (
    not (refused_database fresh.spec.database)
    && (not (refused_click_house fresh.spec.click_house) && not (refused_redis fresh.spec.redis)))
build_config_supported_example = build_config_supported fresh
