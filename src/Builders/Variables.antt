-- ===== src/Builders/Variables.antt =====
-- The variables of the pods: those of the Config, then the user's extraEnv.
use langfuse_operator.Common.{
  String, Bool, true, false, not, ◌&&◌, ◌||◌, List, [], ◌∷◌, ◌++◌, contains, contains-append, ◌≡◌,
  refl, ◌∙◌, ap, arith, ok,
}
use langfuse_operator.Api.{Instance}
use langfuse_operator.Config.Env.{EnvVar, Config}
use langfuse_operator.Config.Build.{build_config}
use langfuse_operator.Config.Names.{names, distinct}
use langfuse_operator.Config.Names.Distinct.{names-distinct}
use langfuse_operator.Builders.Deployments.{
  merge, build_web_deployment, build_worker_deployment, build_migration_job,
}

-- Whether some name is in both lists.
abbrev pub meets : List String → List String → Bool
meets [] ns = false
meets (m ∷ ms) ns = contains m ns || meets ms ns

distinct-append :
    (ms ns : List String)
    → distinct (ms ++ ns) ≡ (distinct ms && (distinct ns && not (meets ms ns)))
distinct-append [] ns = ground arith
distinct-append (m ∷ ms) ns = ground (arith, contains-append m ms ns, distinct-append ms ns)

names-append : (vs ws : List EnvVar) → names (vs ++ ws) ≡ names vs ++ names ws
names-append [] ws = refl
names-append (v ∷ vs) ws = ap (λ ns. v.name ∷ ns) (names-append vs ws)

append-nil : (vs : List EnvVar) → vs ++ [] ≡ vs
append-nil [] = refl
append-nil (v ∷ vs) = ap (λ ws. v ∷ ws) (append-nil vs)

append-append : (us vs ws : List EnvVar) → us ++ (vs ++ ws) ≡ (us ++ vs) ++ ws
append-append [] vs ws = refl
append-append (u ∷ us) vs ws = ap (λ xs. u ∷ xs) (append-append us vs ws)

merged-distinct :
    (common own extra : List EnvVar)
    → distinct (names (common ++ own)) ≡ true
    → distinct (names (merge (common ∷ own ∷ extra ∷ [])))
      ≡ (distinct (names extra) && not (meets (names (common ++ own)) (names extra)))
unfolding merge
merged-distinct common own extra h =
    rw (append-nil extra, append-append common own extra, names-append (common ++ own) extra)
      (distinct-append (names (common ++ own)) (names extra) ∙ rw h refl)

-- Of a part of a distinct list, no name is twice.
distinct-left :
    (vs ws : List EnvVar) → distinct (names (vs ++ ws)) ≡ true → distinct (names vs) ≡ true
distinct-left vs ws h =
    ground (arith, ap distinct (names-append vs ws), distinct-append (names vs) (names ws), h)

-- For a spec that BuildConfig accepts, the container of the web sets no variable twice exactly when the names of its
-- extraEnv are distinct and none of them is among the configuration's; the worker's likewise; and the migration Job, which takes no
-- extraEnv, sets none twice in either container.
pub build-distinct :
    {C : Type 0} (i : Instance C) (config : Config)
    → build_config i ≡ ok config
    → let web = names (config.common_env ++ config.web_env) in
      let worker = names (config.common_env ++ config.worker_env) in
      let job = build_migration_job i config in
      (distinct (names (build_web_deployment i config).container.env)
        ≡ (distinct (names i.spec.web.extra_env) && not (meets web (names i.spec.web.extra_env))))
      × (distinct (names (build_worker_deployment i config).container.env) ≡ (
          distinct (names i.spec.worker.extra_env)
          && not (meets worker (names i.spec.worker.extra_env))))
      × (distinct (names job.container.env) ≡ true)
      × (distinct (names job.init_env) ≡ true)
unfolding build_web_deployment build_worker_deployment build_migration_job
build-distinct i config h =
    let d = names-distinct i h in
    let common = distinct-left config.common_env config.web_env d.0 in
    (
      merged-distinct config.common_env config.web_env i.spec.web.extra_env d.0,
      merged-distinct config.common_env config.worker_env i.spec.worker.extra_env d.1,
      common,
      common,
    )
