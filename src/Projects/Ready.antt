-- ===== src/Projects/Ready.antt =====
-- What a published status of a project means.
use langfuse_operator.Common.{true, List, ◌≡◌}
use langfuse_operator.Api.{ConditionApi, Instance, LangfuseProject, LangfuseProjectStatus}
use langfuse_operator.Langfuse.{ApiKey, replied, LangfuseClient, instance_url}
use langfuse_operator.Phase.{is_met}
use langfuse_operator.Projects.Reconcile.{ProjectAnswers, Servers}
use langfuse_operator.Projects.Turns.{Turns}
use langfuse_operator.Projects.Sync.{sync_project}

module _ (api : ConditionApi) {S : Type 0} (servers : Servers S)
    (ans : ProjectAnswers api.Conditions) where
  open api use {Conditions, find}

  module _ (project : LangfuseProject Conditions) where
    -- Ready is True, the identifier is that of a synchronisation of the project from `t`, and behind it Langfuse listed
    -- its keys, and the turns of the spec's keys led to `s` and to the statuses that are published.
    abbrev pub Synced :
        Instance Conditions → LangfuseClient → S → LangfuseProjectStatus Conditions → S → Type 0
    Synced i c t st s =
        (is_met (find st.conditions "Ready") ≡ true)
        × (u : S) × (remote : List ApiKey) × (sync_project (servers.projects c) project t
            ≡ (replied st.project_id, u))
        × ((servers.projects c).list_api_keys st.project_id u ≡ replied remote)
        × Turns (servers.projects c) (servers.secrets project.namespace) st.project_id
            (instance_url i.name i.namespace) ans.now remote project.spec.api_keys u s st.api_keys
