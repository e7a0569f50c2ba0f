-- ===== src/Instances/Applied.antt =====
-- A pass that applies the workload.
use langfuse_operator.Common.{
  [], err, String, OnSome, on_some, Bool, true, false, not, none, some, is_some, ◌≡◌, refl, ◌∙◌,
  sym, ap, arith, ok,
}
use langfuse_operator.Api.{ConditionApi, Instance, InstanceStatus}
use langfuse_operator.Client.{found}
use langfuse_operator.Phase.{datastore_target}
use langfuse_operator.Migration.Parts.{any_of}
use langfuse_operator.Config.Env.{Config, generated_secret_name}
use langfuse_operator.Config.Build.{build_config, finish_config, platform_env, worker_variables}
use langfuse_operator.Config.Auth.{auth_env}
use langfuse_operator.Config.ClickHouse.{add_click_house_env}
use langfuse_operator.Builders.Deployments.{
  build_web_deployment, build_worker_deployment, container_image, worker_container_image,
  circuit_breaker_holds_worker,
}
use langfuse_operator.Rollup.Published.{update_status-keeps}
use langfuse_operator.Rollup.Deprecated.{set_deprecation_condition-find}
use langfuse_operator.Instances.Apply.{Server, Steps, reconcile_workload}
use langfuse_operator.Instances.Planned.{planned, up_to_failure, all_work}
use langfuse_operator.Instances.Workload.{reconcile_workload-Performs}
use langfuse_operator.Instances.Frozen.{with_phase-moved, reconcile-alive}
use langfuse_operator.Instances.Reconcile.{
  Reads, moved_components, with_phase, with_conditions, release, flagged, finish, deploy,
  reconcile_alive, reconcile,
}

module _ (api : ConditionApi) where
  open api use {Conditions, find}

  -- The configuration reads the spec only.
  release-config :
      (i : Instance Conditions) → build_config (release api (with_phase api i)) ≡ build_config i
  unfolding release with_conditions with_phase build_config finish_config platform_env
      worker_variables auth_env add_click_house_env generated_secret_name
  release-config i = refl

  -- The instance that the workload is built from, with its conditions.
  abbrev pub ready_to_apply : Instance Conditions → Instance Conditions
  ready_to_apply i = flagged api (release api (with_phase api i))

  planned-ready :
      (i : Instance Conditions) (config : Config)
      → planned (ready_to_apply i) config ≡ planned i config
  unfolding planned build_web_deployment build_worker_deployment container_image
      worker_container_image circuit_breaker_holds_worker flagged release with_conditions with_phase
  planned-ready i config = refl

  released-find :
      (i : Instance Conditions) → find (ready_to_apply i).status.conditions datastore_target ≡ none
  unfolding flagged release with_conditions
  released-find i =
      (set_deprecation_condition-find api (release api (with_phase api i)) datastore_target refl).1
      ∙ api.find-remove (with_phase api i).status.conditions datastore_target datastore_target

  module _ (equal : InstanceStatus Conditions → InstanceStatus Conditions → Bool) where
    reconcile_alive-deploy :
        (original i : Instance Conditions) (s : Server) (r : Reads)
        → any_of (moved_components i) ≡ false
        → reconcile_alive api equal original i s r
          ≡ deploy api equal original (release api i) s r (build_config (release api i))
    unfolding reconcile_alive
    reconcile_alive-deploy original i s r still = rw still refl

    -- A pass over an instance that did not move goes by its configuration.
    pub reconcile-deploy :
        (i : Instance Conditions) (s : Server) (r : Reads)
        → i.deleting ≡ false
        → any_of (moved_components i) ≡ false
        → reconcile api equal (found i) s r
          ≡ deploy api equal i (release api (with_phase api i)) s r (build_config i)
    reconcile-deploy i s r alive still =
        reconcile-alive api equal i s r alive
        ∙ reconcile_alive-deploy i (with_phase api i) s r
            (ap any_of (with_phase-moved api i) ∙ still)
        ∙ ap (deploy api equal i (release api (with_phase api i)) s r) (release-config i)

    pub reconcile-finish :
        (i : Instance Conditions) (s : Server) (r : Reads) (config : Config)
        → i.deleting ≡ false
        → any_of (moved_components i) ≡ false
        → build_config i ≡ ok config
        → reconcile api equal (found i) s r
          ≡ finish api equal i (ready_to_apply i) r (reconcile_workload (ready_to_apply i) s config)
    unfolding deploy release with_conditions with_phase
    reconcile-finish i s r config alive still built =
        reconcile-deploy i s r alive still
        ∙ ap (deploy api equal i (release api (with_phase api i)) s r) built

    -- Without a configuration nothing is applied.
    pub reconcile-refused :
        (i : Instance Conditions) (s : Server) (r : Reads) (e : String)
        → i.deleting ≡ false
        → any_of (moved_components i) ≡ false
        → build_config i ≡ err e
        → (reconcile api equal (found i) s r).requests ≡ []
    unfolding deploy
    reconcile-refused i s r e alive still built =
        ap (λ p. p.requests)
          (reconcile-deploy i s r alive still
            ∙ ap (deploy api equal i (release api (with_phase api i)) s r) built)

    finish-requests :
        (original i : Instance Conditions) (r : Reads) (steps : Steps)
        → (finish api equal original i r steps).requests ≡ steps.0
    unfolding finish
    finish-requests original i r (sent, none) = refl
    finish-requests original i r (sent, some e) = refl

    -- Nothing is published behind a step that failed.
    finish-written :
        (original i : Instance Conditions) (r : Reads) (steps : Steps)
        (st : InstanceStatus Conditions)
        → (finish api equal original i r steps).written ≡ some st
        → (not (is_some steps.1) ≡ true)
          × (st.version ≡ i.spec.image_tag)
          × (st.public_url ≡ i.spec.auth.next_auth_url)
          × (find st.conditions datastore_target ≡ find i.status.conditions datastore_target)
    unfolding finish
    finish-written original i r (sent, some e) st h = ground arith
    finish-written original i r (sent, none) st h =
        let (_, _, kept, version, url) =
          update_status-keeps api equal original.status st i r.web r.worker true r.write
            datastore_target h refl in
        (refl, version, url, kept)

    -- An instance that is alive, did not move and has a configuration: the requests of the pass are those of
    -- the plan up to the first that fails, and a status is written only if all of them worked. It publishes
    -- the version and the URL of the spec and no longer says that the target changed.
    pub reconcile_applied :
        (i : Instance Conditions) (s : Server) (r : Reads) (config : Config)
        → i.deleting ≡ false
        → any_of (moved_components i) ≡ false
        → build_config i ≡ ok config
        → ((reconcile api equal (found i) s r).requests ≡ up_to_failure s (planned i config))
          × OnSome (reconcile api equal (found i) s r).written (λ st.
            (all_work s (planned i config) ≡ true)
            × (st.version ≡ i.spec.image_tag)
            × (st.public_url ≡ i.spec.auth.next_auth_url)
            × (find st.conditions datastore_target ≡ none))
    unfolding flagged release with_conditions with_phase
    reconcile_applied i s r config alive still built =
        let e = reconcile-finish i s r config alive still built in
        let steps = reconcile_workload (ready_to_apply i) s config in
        let performs = reconcile_workload-Performs (ready_to_apply i) s config in
        (
          ap (λ p. p.requests) e
              ∙ finish-requests i (ready_to_apply i) r steps
              ∙ performs.sent
              ∙ ap (up_to_failure s) (planned-ready i config),
          on_some (reconcile api equal (found i) s r).written _ (λ st h.
              let (worked, version, url, kept) =
                finish-written i (ready_to_apply i) r steps st (ap (λ p. p.written) (sym e) ∙ h) in
              (
                ap (all_work s) (sym (planned-ready i config)) ∙ sym performs.worked ∙ worked,
                version,
                url,
                kept ∙ released-find i,
              )),
        )
