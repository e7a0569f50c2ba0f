-- ===== src/Migration/Requests.antt =====
-- The passes that ask for no Job.
use langfuse_operator.Common.{
  String, Bool, true, false, Option, none, some, List, [], ◌∷◌, ◌++◌, ◌≡◌, refl, arith, only_if,
  if◌then◌else◌, sym, ◌∙◌,
}
use langfuse_operator.Api.{ConditionApi, Instance, InstanceStatus}
use langfuse_operator.Client.{ApiError, is_not_found, Got, found, failed}
use langfuse_operator.Identity.Target.{migration_identity}
use langfuse_operator.Config.Env.{Config}
use langfuse_operator.Migration.Job.{
  Job, Answers, Action, write_status, create_job, delete_job, Pass,
}
use langfuse_operator.Migration.Parts.{cleanup_completed_jobs, replace_job}
use langfuse_operator.Migration.Passes.{
  publish, record_baseline, refuse, start_job, finish_job, give_up, keep_waiting,
}
use langfuse_operator.Migration.Statuses.{started_status}
use langfuse_operator.Migration.Reconcile.{check_job}

-- The first Job that a pass asks for: its annotation and its Config.
abbrev pub created : {C : Type 0} → List (Action C) → Option (String × Config)
created [] = none
created (write_status s ∷ rest) = created rest
created (create_job identity config ∷ rest) = some (identity, config)
created (delete_job p ∷ rest) = created rest

-- The Job is not there: the answer to its Get is a "not found".
abbrev pub is_absent : Got Job → Bool
is_absent (found job) = false
is_absent (failed e) = is_not_found e.kind

pub clear_of : {A : Type 0} {o : Option A} {a : A} → o ≡ none → o ≡ some a → ⊥
clear_of p q = cc (sym p ∙ q)

pub created-cleanup :
    (C : Type 0) (got : Got Job) (ans : Answers)
    → created ((cleanup_completed_jobs {C = C} got ans).actions) ≡ none
unfolding cleanup_completed_jobs
created-cleanup C (failed e) ans = refl
created-cleanup C (found job) ans = ground arith

created-written :
    {C : Type 0} (b : Bool) (s : InstanceStatus C) (rest : List (Action C))
    → created (only_if b (write_status s ∷ []) ++ rest) ≡ created rest
created-written true s rest = refl
created-written false s rest = refl

created-only_written :
    {C : Type 0} (b : Bool) (s : InstanceStatus C)
    → created (only_if b (write_status s ∷ [])) ≡ none
created-only_written true s = refl
created-only_written false s = refl

-- A test whose first branch asks for no Job failed.
pub created_else :
    {C : Type 0} (b : Bool) (p q : Pass C) {c : String × Config}
    → created p.actions ≡ none
    → created ((if b then p else q).actions) ≡ some c
    → (b ≡ false) × (created q.actions ≡ some c)
created_else true p q n h = absurd (clear_of n h)
created_else false p q n h = (refl, h)

module _ (api : ConditionApi) where
  open api use {Conditions}

  module _ (equal : InstanceStatus Conditions → InstanceStatus Conditions → Bool) where
    created-publish :
        (i : Instance Conditions) (s : InstanceStatus Conditions) (ans : Answers)
        → created ((publish api equal i s ans).0) ≡ none
    unfolding publish
    created-publish i s ans = created-only_written _ s

    created-publish_then :
        (i : Instance Conditions) (s : InstanceStatus Conditions) (ans : Answers)
        (rest : List (Action Conditions))
        → created ((publish api equal i s ans).0 ++ rest) ≡ created rest
    unfolding publish
    created-publish_then i s ans rest = created-written _ s rest

    pub created-start :
        (i : Instance Conditions) (config : Config) (owner : Option ApiError) (ans : Answers)
        {c : String × Config}
        → created ((start_job api equal i config owner ans).actions) ≡ some c
        → c ≡ (migration_identity i, config)
    unfolding start_job
    created-start i config (some e) ans h = absurd (clear_of refl h)
    created-start i config none ans h = ground (
      arith,
      created-publish_then i (started_status api i) ans
          (create_job (migration_identity i) config ∷ []),
    )

    pub created-refuse :
        (i : Instance Conditions) (m : String) (ans : Answers)
        → created ((refuse api equal i m ans).actions) ≡ none
    unfolding refuse
    created-refuse i m ans = created-publish i _ ans

    pub created-baseline :
        (i : Instance Conditions) (b : String) (ans : Answers)
        → created ((record_baseline api equal i b ans).actions) ≡ none
    unfolding record_baseline
    created-baseline i b ans = created-publish i _ ans

    created-finish :
        (i : Instance Conditions) (ans : Answers)
        → created ((finish_job api equal i ans).actions) ≡ none
    unfolding finish_job
    created-finish i ans = created-publish i _ ans

    created-give_up :
        (i : Instance Conditions) (job : Job) (ans : Answers)
        → created ((give_up api equal i job ans).actions) ≡ none
    unfolding give_up
    created-give_up i job ans = created-publish i _ ans

    created-keep_waiting :
        (i : Instance Conditions) (job : Job) (ans : Answers)
        → created ((keep_waiting api equal i job ans).actions) ≡ none
    unfolding keep_waiting
    created-keep_waiting i job ans = created-publish i _ ans

    created-replace :
        (job : Job) (ans : Answers)
        → created ((replace_job {C = Conditions} job ans).actions) ≡ none
    unfolding replace_job
    created-replace job ans = ground arith

    -- An existing Job is never a reason to create one.
    pub created-check_job :
        (i : Instance Conditions) (job : Job) (ans : Answers)
        → created ((check_job api equal i job ans).actions) ≡ none
    unfolding check_job
    created-check_job i job ans = ground (
      arith,
      created-replace job ans,
      created-finish i ans,
      created-give_up i job ans,
      created-keep_waiting i job ans,
    )
