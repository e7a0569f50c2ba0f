-- ===== src/Pods.antt =====
-- internal/controller/pod_issues.go: what keeps the pods of a workload from running.
mod Sort
pub mod Laws
use Prim.Native.String.{len, slice}
use langfuse_operator.Common.{
  ℕ, ℤ, pos, negsuc, zero, suc, String, ◌==◌, ◌<>◌, join, trim_space, show_ℤ, Bool, true, false,
  ◌&&◌, Option, none, some, List, [], ◌∷◌, ◌++◌, map, contains, any, only_if, take, leb, not, arith,
  if◌then◌else◌,
}
use langfuse_operator.Api.{PodIssue}
use Sort.{sort_issues}

-- The status of a pod, as k8s.io/api/core/v1 has it.
pub record Waiting : Type 0 where
  pub reason : String
  pub message : String

pub record Terminated : Type 0 where
  pub exit_code : ℤ
  pub reason : String
  pub message : String

pub record ContainerStatus : Type 0 where
  pub name : String
  pub ready : Bool
  pub restart_count : ℕ
  pub waiting : Option Waiting
  pub terminated : Option Terminated
  pub last_terminated : Option Terminated

-- `scheduled` says that the condition's type is PodScheduled, `holds_not` that its status is False.
pub record PodCondition : Type 0 where
  pub scheduled : Bool
  pub holds_not : Bool
  pub reason : String
  pub message : String

pub record Pod : Type 0 where
  pub name : String
  pub deleting : Bool
  pub succeeded : Bool
  pub conditions : List PodCondition
  pub init_container_statuses : List ContainerStatus
  pub container_statuses : List ContainerStatus

abbrev pub max_reported_pod_issues : ℕ
max_reported_pod_issues = 5

abbrev pub fatal_waiting_reasons : List String
fatal_waiting_reasons =
    "ImagePullBackOff" ∷ "ErrImagePull" ∷ "InvalidImageName" ∷ "ErrImageNeverPull"
    ∷ "CreateContainerConfigError" ∷ "CreateContainerError" ∷ []

abbrev pub benign_waiting_reasons : List String
benign_waiting_reasons = "" ∷ "ContainerCreating" ∷ "PodInitializing" ∷ []

-- Where the cut falls inside a character, Go keeps the bytes before it, and `slice` drops them.
unfoldable pub truncate : String → ℕ → String
truncate s max = if leb (len s) max then s else slice s 0 max <> "…"

unfoldable pub termination_message : Terminated → String
unfolding truncate
termination_message term =
    let detail = trim_space term.message in
    let parts =
      ("exited with code " <> show_ℤ term.exit_code)
      ∷ (only_if (not (term.reason == "") && not (term.reason == "Error"))
            (("(" <> term.reason <> ")") ∷ [])
          ++ only_if (not (detail == "")) (("- " <> truncate detail 256) ∷ [])) in
    join parts " "

waiting_with_last : String → String → String
waiting_with_last msg last =
    if last == ""
    then msg
    else if msg == ""
    then "previous run " <> last
    else msg <> "; previous run " <> last

unfoldable pub waiting_message : Waiting → Option Terminated → String
unfolding waiting_with_last termination_message
waiting_message w none = w.message
waiting_message w (some term) = waiting_with_last w.message (termination_message term)

abbrev pub is_zero_code : ℤ → Bool
is_zero_code (pos zero) = true
is_zero_code (pos (suc n)) = false
is_zero_code (negsuc n) = false

terminated_issue : String → ContainerStatus → Option Terminated → Option PodIssue
unfolding termination_message
terminated_issue pod_name cs none = none
terminated_issue pod_name cs (some term) =
    if is_zero_code term.exit_code
    then none
    else some (record {
      pod = pod_name;
      container = cs.name;
      reason = if term.reason == "" then "Error" else term.reason;
      message = termination_message term;
      restart_count = cs.restart_count;
      fatal = false;
    })

state_issue : String → ContainerStatus → Option Waiting → Option PodIssue
unfolding waiting_message terminated_issue
state_issue pod_name cs none = terminated_issue pod_name cs cs.terminated
state_issue pod_name cs (some w) =
    if contains w.reason benign_waiting_reasons
    then none
    else some (record {
      pod = pod_name;
      container = cs.name;
      reason = w.reason;
      message = waiting_message w cs.last_terminated;
      restart_count = cs.restart_count;
      fatal = contains w.reason fatal_waiting_reasons;
    })

unfoldable pub container_issue : String → ContainerStatus → Option PodIssue
unfolding state_issue
container_issue pod_name cs = if cs.ready then none else state_issue pod_name cs cs.waiting

-- The loop over the pod's conditions.
condition_issues : String → List PodCondition → List PodIssue
condition_issues pod_name [] = []
condition_issues pod_name (c ∷ cs) =
    only_if (c.scheduled && c.holds_not && not (c.reason == "")) (
      record {
        pod = pod_name;
        container = "";
        reason = c.reason;
        message = c.message;
        restart_count = 0;
        fatal = false;
      }
      ∷ [])
    ++ condition_issues pod_name cs

-- The loop over the container statuses.
container_issues : String → List ContainerStatus → List PodIssue
unfolding container_issue
container_issues pod_name [] = []
container_issues pod_name (cs ∷ rest) =
    elim (container_issue pod_name cs) [ none ↦ [] | some issue ↦ issue ∷ [] ]
    ++ container_issues pod_name rest

unfoldable pub pod_issues : Pod → List PodIssue
unfolding condition_issues container_issues
pod_issues pod =
    if pod.deleting
    then []
    else if pod.succeeded
    then []
    else condition_issues pod.name pod.conditions
      ++ container_issues pod.name (pod.init_container_statuses ++ pod.container_statuses)

-- The issues of every pod in the list, before they are sorted.
unfoldable pub all_pod_issues : List Pod → List PodIssue
unfolding pod_issues
all_pod_issues [] = []
all_pod_issues (p ∷ ps) = pod_issues p ++ all_pod_issues ps

-- `pods` is what the List call returned; its error is the caller's.
unfoldable pub collect_pod_issues : List Pod → List PodIssue
unfolding sort_issues all_pod_issues
collect_pod_issues pods = take max_reported_pod_issues (sort_issues (all_pod_issues pods))

unfoldable pub has_fatal_issue : List PodIssue → Bool
has_fatal_issue [] = false
has_fatal_issue (i ∷ is) = if i.fatal then true else has_fatal_issue is

describe_issue : PodIssue → String
describe_issue i =
    i.pod
    <> (if i.container == "" then "" else " (" <> i.container <> ")")
    <> ": "
    <> i.reason
    <> (if i.message == "" then "" else " — " <> i.message)

unfoldable pub summarize_pod_issues : List PodIssue → String → String → String × String
unfolding describe_issue truncate
summarize_pod_issues [] fallback_reason fallback_message = (fallback_reason, fallback_message)
summarize_pod_issues (primary ∷ rest) fallback_reason fallback_message = (
  primary.reason,
  truncate (fallback_message <> "; " <> join (map describe_issue (primary ∷ rest)) "; ") 1024,
)
