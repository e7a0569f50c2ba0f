-- ===== src/Builders/Mounted.antt =====
-- Every mount of a container has its volume: a pod without it is refused by the API server.
use langfuse_operator.Common.{
  String, Bool, true, ◌&&◌, List, [], ◌∷◌, ◌++◌, map-append, contains, contains-append, ◌≡◌, refl,
  arith, eq_refl, ok,
}
use langfuse_operator.Api.{Instance}
use langfuse_operator.Config.Env.{Config, Volume, VolumeMount}
use langfuse_operator.Config.Build.{build_config}
use langfuse_operator.Config.Mounts.{volume_names, mount_names, build_config-Mirrored}
use langfuse_operator.Builders.Deployments.{
  merge, build_web_deployment, build_worker_deployment, build_migration_job,
}

all_in : List String → List String → Bool
all_in [] names = true
all_in (n ∷ ns) names = contains n names && all_in ns names

-- Each mount names a volume.
unfoldable pub covered : List VolumeMount → List Volume → Bool
unfolding all_in
covered mounts volumes = all_in (mount_names mounts) (volume_names volumes)

all_in-behind : (ns xs ys : List String) → all_in ns ys ≡ true → all_in ns (xs ++ ys) ≡ true
unfolding all_in
all_in-behind [] xs ys h = refl
all_in-behind (n ∷ ns) xs ys h = ground (arith, all_in-behind ns xs ys, contains-append n xs ys, h)

all_in-front : (ns xs ys : List String) → all_in ns xs ≡ true → all_in ns (xs ++ ys) ≡ true
unfolding all_in
all_in-front [] xs ys h = refl
all_in-front (n ∷ ns) xs ys h = ground (arith, all_in-front ns xs ys, contains-append n xs ys, h)

all_in-append :
    (ms ns names : List String)
    → all_in ms names ≡ true
    → all_in ns names ≡ true
    → all_in (ms ++ ns) names ≡ true
unfolding all_in
all_in-append [] ns names h k = k
all_in-append (m ∷ ms) ns names h k = ground (arith, all_in-append ms ns names, h, k)

all_in_self : (ns : List String) → all_in ns ns ≡ true
unfolding all_in
all_in_self [] = refl
all_in_self (n ∷ ns) = ground (arith, all_in-behind ns (n ∷ []) ns (all_in_self ns), eq_refl n)

-- Two sets of mounts, each covered by its own volumes.
covered-append :
    (ms ns : List VolumeMount) (vs ws : List Volume)
    → covered ms vs ≡ true
    → covered ns ws ≡ true
    → covered (ms ++ ns) (vs ++ ws) ≡ true
unfolding covered
covered-append ms ns vs ws h k =
    rw (map-append (λ m. m.name) ms ns, map-append (λ v. v.name) vs ws)
      (all_in-append (mount_names ms) (mount_names ns) (volume_names vs ++ volume_names ws)
        (all_in-front (mount_names ms) (volume_names vs) (volume_names ws) h)
        (all_in-behind (mount_names ns) (volume_names vs) (volume_names ws) k))

build_config-covered :
    {C : Type 0} (i : Instance C) {config : Config}
    → build_config i ≡ ok config
    → covered config.volume_mounts config.volumes ≡ true
unfolding covered
build_config-covered i {config} built =
    rw (build_config-Mirrored i built).same (all_in_self (volume_names config.volumes))

-- The mounts of the configuration with the extra ones of a component.
with-extra :
    (config : Config) (mounts : List VolumeMount) (volumes : List Volume)
    → covered config.volume_mounts config.volumes ≡ true
    → covered mounts volumes ≡ true
    → covered (merge (config.volume_mounts ∷ mounts ∷ [])) (merge (config.volumes ∷ volumes ∷ []))
      ≡ true
unfolding merge covered
with-extra config mounts volumes own extra =
    covered-append config.volume_mounts (mounts ++ []) config.volumes (volumes ++ []) own
      (covered-append mounts [] volumes [] extra refl)

-- With the configuration of the instance, and where the extra mounts of the spec name extra volumes of the same
-- component, each mount of the web, of the worker and of the migration Job names a volume of its pod.
pub build-covered :
    {C : Type 0} (i : Instance C) (config : Config)
    → build_config i ≡ ok config
    → covered i.spec.web.extra_volume_mounts i.spec.web.extra_volumes ≡ true
    → covered i.spec.worker.extra_volume_mounts i.spec.worker.extra_volumes ≡ true
    → let web = build_web_deployment i config in
      let worker = build_worker_deployment i config in
      let job = build_migration_job i config in
      (covered web.container.volume_mounts web.volumes ≡ true)
      × (covered worker.container.volume_mounts worker.volumes ≡ true)
      × (covered job.container.volume_mounts job.volumes ≡ true)
unfolding build_web_deployment build_worker_deployment build_migration_job merge
build-covered i config built web worker =
    let own = build_config-covered i built in
    (
      with-extra config i.spec.web.extra_volume_mounts i.spec.web.extra_volumes own web,
      with-extra config i.spec.worker.extra_volume_mounts i.spec.worker.extra_volumes own worker,
      own,
    )
