-- ===== src/Pods/Sort.antt =====
-- The order of collectPodIssues: fatal issues first, then by pod and container. sort.SliceStable is
-- a stable sort, and every stable sort gives the list of this insertion sort.
use langfuse_operator.Common.{
  ◌==◌, text_lt, Bool, true, false, not, ◌||◌, List, [], ◌∷◌, if◌then◌else◌, ◌≡◌, refl, arith, any,
}
use mathlib.Core.List.{Perm}
use mathlib.Core.List.Perm
use langfuse_operator.Common.{inl, inr, Bool-cases}
use langfuse_operator.Api.{PodIssue}

abbrev same_flag : Bool → Bool → Bool
same_flag true b = b
same_flag false b = not b

-- The comparison that the sort is given.
unfoldable pub issue_less : PodIssue → PodIssue → Bool
issue_less i j =
    if not (same_flag i.fatal j.fatal)
    then i.fatal
    else if not (i.pod == j.pod)
    then text_lt i.pod j.pod
    else text_lt i.container j.container

insert_issue : PodIssue → List PodIssue → List PodIssue
unfolding issue_less
insert_issue x [] = x ∷ []
insert_issue x (y ∷ ys) = if issue_less y x then y ∷ insert_issue x ys else x ∷ y ∷ ys

unfoldable pub sort_issues : List PodIssue → List PodIssue
unfolding insert_issue
sort_issues [] = []
sort_issues (x ∷ xs) = insert_issue x (sort_issues xs)

-- Whether the first issue of a list is fatal.
abbrev pub leads_fatal : List PodIssue → Bool
leads_fatal [] = false
leads_fatal (i ∷ is) = i.fatal

leads_fatal-insert :
    (x : PodIssue) (ys : List PodIssue)
    → leads_fatal (insert_issue x ys) ≡ (x.fatal || leads_fatal ys)
unfolding insert_issue
leads_fatal-insert x [] = ground arith
leads_fatal-insert x (y ∷ ys) = ground arith

-- The sorted list is led by a fatal issue exactly when some issue is fatal.
pub leads_fatal-sort : (xs : List PodIssue) → leads_fatal (sort_issues xs) ≡ any (λ i. i.fatal) xs
unfolding sort_issues
leads_fatal-sort [] = refl
leads_fatal-sort (x ∷ xs) =
    ground (arith, leads_fatal-insert x (sort_issues xs), leads_fatal-sort xs)

any-insert :
    (x : PodIssue) (ys : List PodIssue)
    → any (λ i. i.fatal) (insert_issue x ys) ≡ (x.fatal || any (λ i. i.fatal) ys)
unfolding insert_issue
any-insert x [] = refl
any-insert x (y ∷ ys) = ground (arith, any-insert x ys)

pub any-sort : (xs : List PodIssue) → any (λ i. i.fatal) (sort_issues xs) ≡ any (λ i. i.fatal) xs
unfolding sort_issues
any-sort [] = refl
any-sort (x ∷ xs) = ground (arith, any-insert x (sort_issues xs), any-sort xs)

insert-perm : (x : PodIssue) (ys : List PodIssue) → Perm (insert_issue x ys) (x ∷ ys)
unfolding insert_issue
insert-perm x [] = Perm.refl (x ∷ [])
insert-perm x (y ∷ ys) = elim (Bool-cases (issue_less y x)) [
  | inl e ↦ rw e (Perm.trans (Perm.cons y (insert-perm x ys)) (Perm.swap x y ys))
  | inr e ↦ rw e (Perm.refl (x ∷ y ∷ ys))
]

-- Sorting loses nothing and adds nothing.
pub sort-perm : (xs : List PodIssue) → Perm (sort_issues xs) xs
unfolding sort_issues
sort-perm [] = Perm.refl []
sort-perm (x ∷ xs) = Perm.trans (insert-perm x (sort_issues xs)) (Perm.cons x (sort-perm xs))

-- A property of every issue, by recursion.
abbrev pub AllIssues : (PodIssue → Type 0) → List PodIssue → Type 0
AllIssues P [] = Unit
AllIssues P (x ∷ xs) = P x × AllIssues P xs

module _ (P : PodIssue → Type 0) where
  AllIssues-insert :
      (x : PodIssue) (ys : List PodIssue) → P x → AllIssues P ys → AllIssues P (insert_issue x ys)
  unfolding insert_issue
  AllIssues-insert x [] p h = (p, tt)
  AllIssues-insert x (y ∷ ys) p h = elim (Bool-cases (issue_less y x)) [
    | inl e ↦ rw e (h.0, AllIssues-insert x ys p h.1)
    | inr e ↦ rw e (p, h)
  ]

  pub AllIssues-sort : (xs : List PodIssue) → AllIssues P xs → AllIssues P (sort_issues xs)
  unfolding sort_issues
  AllIssues-sort [] h = tt
  AllIssues-sort (x ∷ xs) h = AllIssues-insert x (sort_issues xs) h.0 (AllIssues-sort xs h.1)
