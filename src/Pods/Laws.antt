-- ===== src/Pods/Laws.antt =====
-- What the collected issues keep of the pods' problems.
use langfuse_operator.Common.{
  ℕ, suc, zero, ◌≤◌, String, ◌==◌, true, false, ◌≡◌, refl, sym, ◌∙◌, inl, inr, Bool-cases, some,
  List, [], ◌∷◌, ◌++◌, any, take, contains, length, arith, ◌&&◌, not, Option-cases,
}
use langfuse_operator.Api.{PodIssue}
use langfuse_operator.Pods.{
  Pod, PodCondition, ContainerStatus, max_reported_pod_issues, fatal_waiting_reasons,
  container_issue, condition_issues, container_issues, pod_issues, all_pod_issues,
  collect_pod_issues, has_fatal_issue, summarize_pod_issues,
}
use langfuse_operator.Pods.Sort.{
  sort_issues, leads_fatal, leads_fatal-sort, any-sort, AllIssues, AllIssues-sort,
}

length-take : (n : ℕ) (is : List PodIssue) → length (take n is) ≤ n
length-take zero is = omega arith
length-take (suc n) [] = omega arith
length-take (suc n) (i ∷ is) = omega (arith, length-take n is)

has_fatal-any : (is : List PodIssue) → has_fatal_issue is ≡ any (λ i. i.fatal) is
unfolding has_fatal_issue
has_fatal-any [] = refl
has_fatal-any (i ∷ is) = ground (arith, has_fatal-any is)

-- A prefix with at least one place has the leading issue.
any-take :
    (n : ℕ) (is : List PodIssue)
    → (any (λ i. i.fatal) is ≡ false → any (λ i. i.fatal) (take n is) ≡ false)
any-take zero is h = refl
any-take (suc n) [] h = refl
any-take (suc n) (i ∷ is) h = ground (arith, any-take n is)

fatal-take :
    (n : ℕ) (is : List PodIssue)
    → leads_fatal is ≡ any (λ i. i.fatal) is
    → any (λ i. i.fatal) (take (suc n) is) ≡ any (λ i. i.fatal) is
fatal-take n [] h = refl
fatal-take n (i ∷ is) h = ground (arith, any-take n is)

-- The cap on reported issues never hides a fatal one: the collected issues hold a fatal issue
-- exactly when some issue of some pod is fatal.
pub has_fatal-collect :
    (pods : List Pod)
    → has_fatal_issue (collect_pod_issues pods) ≡ has_fatal_issue (all_pod_issues pods)
unfolding collect_pod_issues
has_fatal-collect pods =
    let is = all_pod_issues pods in
    rw (has_fatal-any (take 5 (sort_issues is)), has_fatal-any is)
      (fatal-take 4 (sort_issues is) (leads_fatal-sort is ∙ sym (any-sort is)) ∙ any-sort is)

-- A fatal issue carries one of the fatal waiting reasons.
abbrev pub IsJustified : PodIssue → Type 0
IsJustified i = i.fatal ≡ true → contains i.reason fatal_waiting_reasons ≡ true

AllIssues-append :
    (P : PodIssue → Type 0) (xs ys : List PodIssue)
    → AllIssues P xs
    → AllIssues P ys
    → AllIssues P (xs ++ ys)
AllIssues-append P [] ys h k = k
AllIssues-append P (x ∷ xs) ys h k = (h.0, AllIssues-append P xs ys h.1 k)

AllIssues-take :
    (P : PodIssue → Type 0) (n : ℕ) (xs : List PodIssue) → AllIssues P xs → AllIssues P (take n xs)
AllIssues-take P zero xs h = tt
AllIssues-take P (suc n) [] h = tt
AllIssues-take P (suc n) (x ∷ xs) h = (h.0, AllIssues-take P n xs h.1)

container_issue-IsJustified :
    (pod_name : String) (cs : ContainerStatus) (i : PodIssue)
    → container_issue pod_name cs ≡ some i
    → IsJustified i
unfolding container_issue
container_issue-IsJustified pod_name cs i h f = ground arith

condition_issues-IsJustified :
    (pod_name : String) (cs : List PodCondition)
    → AllIssues IsJustified (condition_issues pod_name cs)
unfolding condition_issues
condition_issues-IsJustified pod_name [] = tt
condition_issues-IsJustified pod_name (c ∷ cs) =
    elim (Bool-cases (c.scheduled && c.holds_not && not (c.reason == ""))) [
      | inl e ↦ rw e ((λ f. cc), condition_issues-IsJustified pod_name cs)
      | inr e ↦ rw e (condition_issues-IsJustified pod_name cs)
    ]

container_issues-IsJustified :
    (pod_name : String) (cs : List ContainerStatus)
    → AllIssues IsJustified (container_issues pod_name cs)
unfolding container_issues
container_issues-IsJustified pod_name [] = tt
container_issues-IsJustified pod_name (c ∷ cs) = elim (Option-cases (container_issue pod_name c)) [
  | inl e ↦ rw e (container_issues-IsJustified pod_name cs)
  | inr (i, e) ↦
      rw e (container_issue-IsJustified pod_name c i e, container_issues-IsJustified pod_name cs)
]

pod_issues-IsJustified : (p : Pod) → AllIssues IsJustified (pod_issues p)
unfolding pod_issues
pod_issues-IsJustified p = elim (Bool-cases p.deleting) [
  | inl e ↦ rw e tt
  | inr e ↦ elim (Bool-cases p.succeeded) [
    | inl f ↦ rw (e, f) tt
    | inr f ↦
        rw (e, f)
          (AllIssues-append IsJustified _ _ (condition_issues-IsJustified p.name p.conditions) (
            container_issues-IsJustified p.name
              (p.init_container_statuses ++ p.container_statuses)))
  ]
]

all_pod_issues-IsJustified : (ps : List Pod) → AllIssues IsJustified (all_pod_issues ps)
unfolding all_pod_issues
all_pod_issues-IsJustified [] = tt
all_pod_issues-IsJustified (p ∷ ps) =
    AllIssues-append IsJustified _ _ (pod_issues-IsJustified p) (all_pod_issues-IsJustified ps)

collect-IsJustified : (ps : List Pod) → AllIssues IsJustified (collect_pod_issues ps)
unfolding collect_pod_issues
collect-IsJustified ps =
    AllIssues-take IsJustified 5 _ (AllIssues-sort IsJustified _ (all_pod_issues-IsJustified ps))

leads-take : (n : ℕ) (is : List PodIssue) → leads_fatal (take (suc n) is) ≡ leads_fatal is
leads-take n [] = refl
leads-take n (i ∷ is) = refl

collect_leads :
    (ps : List Pod) → leads_fatal (collect_pod_issues ps) ≡ has_fatal_issue (all_pod_issues ps)
unfolding collect_pod_issues
collect_leads ps =
    let is = all_pod_issues ps in
    leads-take 4 (sort_issues is) ∙ leads_fatal-sort is ∙ sym (has_fatal-any is)

summarize_lead :
    (is : List PodIssue) (reason message : String)
    → AllIssues IsJustified is
    → leads_fatal is ≡ true
    → contains (summarize_pod_issues is reason message).0 fatal_waiting_reasons ≡ true
unfolding summarize_pod_issues
summarize_lead [] reason message h f = cc
summarize_lead (i ∷ is) reason message h f = h.0 f

-- When some pod has a fatal issue, the summary of the collected issues gives a fatal waiting reason
-- as the condition's reason, whatever the fallback.
pub summarize-collect_fatal :
    (ps : List Pod) (reason message : String)
    → has_fatal_issue (all_pod_issues ps) ≡ true
    → contains (summarize_pod_issues (collect_pod_issues ps) reason message).0 fatal_waiting_reasons
      ≡ true
summarize-collect_fatal ps reason message h =
    summarize_lead (collect_pod_issues ps) reason message (collect-IsJustified ps)
      (collect_leads ps ∙ h)

-- At most `max_reported_pod_issues` issues are collected.
pub length-collect : (ps : List Pod) → length (collect_pod_issues ps) ≤ max_reported_pod_issues
unfolding collect_pod_issues
length-collect ps = length-take 5 (sort_issues (all_pod_issues ps))
