-- ===== src/Retention/Fullest.antt =====
-- The thresholds follow the fullest node.
use langfuse_operator.Common.{
  ℕ, suc, ◌*◌, ◌/◌, ◌%◌, ◌^◌, ◌≤◌, ◌<◌, ltb, leb, eqb, pos, Bool, true, false, not, ◌&&◌, ◌||◌,
  List, [], ◌∷◌, any, ◌≡◌, ◌↔◌, ◌∙◌, sym, refl, arith, eq_iff, Bool-cases, inl, inr,
}
use langfuse_operator.Api.{StoragePressureSpec, condition_true}
use langfuse_operator.Retention.Disks.{
  leb_ℤ, to_int32, NodeDiskUsage, DiskUsage, percent, add_node, add_nodes, summarize_disk_usage,
  no_usage, pressure_reason,
}

-- The percentage of a node fits: the product in 64 bits and the quotient in 31.
pub record Fits (n : NodeDiskUsage) : Type 0 where
  pub product : n.used * 100 < 2 ^ 64
  pub quotient : (n.used * 100) / n.total < 2 ^ 31

abbrev pub AllFit : List NodeDiskUsage → Type 0
AllFit [] = Unit
AllFit (n ∷ ns) = Fits n × AllFit ns

-- The node has a disk and is full to at least this percentage.
abbrev pub full_to : ℕ → NodeDiskUsage → Bool
full_to c n = not (eqb n.total 0) && leb c ((n.used * 100) / n.total)

mod_64 : (a : ℕ) → a < 2 ^ 64 → a % 2 ^ 64 ≡ a
mod_64 a h = omega arith

to_int32_small : (a : ℕ) → a < 2 ^ 31 → to_int32 a ≡ pos a
unfolding to_int32
to_int32_small a h =
    let m : a % 2 ^ 32 ≡ a = omega arith in
    let t : ltb a (2 ^ 31) ≡ true = ground arith in rw (m, t) refl

percent-Fits : (n : NodeDiskUsage) → Fits n → percent n ≡ pos ((n.used * 100) / n.total)
unfolding percent
percent-Fits n f = rw (mod_64 (n.used * 100) f.product) (to_int32_small _ f.quotient)

-- What the loop knows: the percentage is a natural number, zero before a node was chosen.
record Sound (u : DiskUsage) (p : ℕ) : Type 0 where
  value_is : u.fullest_percent ≡ pos p
  start : u.fullest.total ≡ 0 → p ≡ 0

-- The three cases of the body.
add_node_empty :
    (u : DiskUsage) (n : NodeDiskUsage) {p : ℕ}
    → Sound u p
    → eqb n.total 0 ≡ true
    → Sound (add_node u n) p
unfolding add_node
add_node_empty u n s e = rw e (record { value_is = s.value_is; start = s.start })

add_node_fuller :
    (u : DiskUsage) (n : NodeDiskUsage)
    → Fits n
    → eqb n.total 0 ≡ false
    → (eqb u.fullest.total 0 || not (leb_ℤ (percent n) u.fullest_percent)) ≡ true
    → Sound (add_node u n) ((n.used * 100) / n.total)
unfolding add_node
add_node_fuller u n f e t =
    rw (e, t) (record { value_is = percent-Fits n f; start = λ z. absurd (ground (arith, e, z)) })

add_node_emptier :
    (u : DiskUsage) (n : NodeDiskUsage) {p : ℕ}
    → Sound u p
    → eqb n.total 0 ≡ false
    → (eqb u.fullest.total 0 || not (leb_ℤ (percent n) u.fullest_percent)) ≡ false
    → Sound (add_node u n) p
unfolding add_node
add_node_emptier u n s e t = rw (e, t) (record { value_is = s.value_is; start = s.start })

compare-percent :
    (u : DiskUsage) (n : NodeDiskUsage) {p : ℕ}
    → Sound u p
    → Fits n
    → leb_ℤ (percent n) u.fullest_percent ≡ leb ((n.used * 100) / n.total) p
unfolding leb_ℤ
compare-percent u n s f = rw (percent-Fits n f, s.value_is) refl

below_new : (total p v : ℕ) → (total ≡ 0 → p ≡ 0) → (eqb total 0 || not (leb v p)) ≡ true → p ≤ v
below_new total p v s t = elim (Bool-cases (eqb total 0)) [
  | inl e ↦ let z = s (ground (arith, e)) in omega (arith, z)
  | inr e ↦ ground (arith, t, e)
]

reach_new : (c p v : ℕ) → p ≤ v → leb (suc c) v ≡ (leb (suc c) p || leb (suc c) v)
reach_new c p v h = ground arith

reach_old :
    (total c p v : ℕ)
    → (eqb total 0 || not (leb v p)) ≡ false
    → leb (suc c) p ≡ (leb (suc c) p || leb (suc c) v)
reach_old total c p v t = ground arith

add_node-reaches :
    (u : DiskUsage) (n : NodeDiskUsage) (p : ℕ)
    → Sound u p
    → Fits n
    → (q : ℕ) × (Sound (add_node u n) q
        × ((c : ℕ) → leb (suc c) q ≡ (leb (suc c) p || full_to (suc c) n)))
add_node-reaches u n p s f =
    let v = (n.used * 100) / n.total in
    let cmp = compare-percent u n s f in
    elim (Bool-cases (eqb n.total 0)) [
      | inl e ↦ (p, (add_node_empty u n s e, λ c. rw e (ground arith)))
      | inr e ↦
          elim (Bool-cases (eqb u.fullest.total 0 || not (leb_ℤ (percent n) u.fullest_percent))) [
            | inl t ↦ (
              v,
              (
                add_node_fuller u n f e t,
                λ c. rw e (reach_new c p v (below_new u.fullest.total p v s.start (rw cmp at t))),
              ),
            )
            | inr t ↦ (
              p,
              (
                add_node_emptier u n s e t,
                λ c. rw e (reach_old u.fullest.total c p v (rw cmp at t)),
              ),
            )
          ]
    ]

add_nodes-reaches :
    (u : DiskUsage) (ns : List NodeDiskUsage) (p : ℕ)
    → Sound u p
    → AllFit ns
    → (q : ℕ) × (Sound (add_nodes u ns) q
        × ((c : ℕ) → leb (suc c) q ≡ (leb (suc c) p || any (full_to (suc c)) ns)))
unfolding add_nodes
add_nodes-reaches u [] p s f = (p, (s, λ c. ground arith))
add_nodes-reaches u (n ∷ ns) p s f =
    let one = add_node-reaches u n p s f.0 in
    let rest = add_nodes-reaches (add_node u n) ns one.0 one.1.0 f.1 in
    (rest.0, (rest.1.0, λ c. ground (arith, rest.1.1 c, one.1.1 c)))

pressure_at :
    (spec : StoragePressureSpec) (u : DiskUsage) (c q : ℕ)
    → spec.critical_threshold_percent ≡ pos (suc c)
    → eqb u.total 0 ≡ false
    → u.fullest_percent ≡ pos q
    → (pressure_reason spec u ≡ (condition_true, "CriticalThresholdExceeded"))
      ↔ (leb (suc c) q ≡ true)
unfolding pressure_reason leb_ℤ
pressure_at spec u c q e t v = elim (Bool-cases (leb (suc c) q)) [
  | inl l ↦ rw (e, t, v, l) (λ h. refl, λ h. refl)
  | inr l ↦
      rw (e, t, v, l)
        (
          ground (
            arith,
            eq_iff "WarningThresholdExceeded" "CriticalThresholdExceeded",
            eq_iff "WithinThresholds" "CriticalThresholdExceeded",
          ),
          λ h. cc h,
        )
]

-- The percentages fit: the critical condition holds for a threshold above zero exactly when some node with
-- a disk is full to at least the threshold, however full the others are, provided that the sum of the
-- capacities is not zero.
pub pressure_reason_critical :
    (spec : StoragePressureSpec) (ns : List NodeDiskUsage) (c : ℕ)
    → AllFit ns
    → spec.critical_threshold_percent ≡ pos (suc c)
    → eqb (summarize_disk_usage ns).total 0 ≡ false
    → (pressure_reason spec (summarize_disk_usage ns)
        ≡ (condition_true, "CriticalThresholdExceeded"))
      ↔ (any (full_to (suc c)) ns ≡ true)
unfolding pressure_reason summarize_disk_usage leb_ℤ
pressure_reason_critical spec ns c f e t =
    let start : Sound (no_usage ns) 0 = record { value_is = refl; start = λ z. refl } in
    let r = add_nodes-reaches (no_usage ns) ns 0 start f in
    let at = pressure_at spec (summarize_disk_usage ns) c r.0 e t r.1.0.value_is in
    let reach : leb (suc c) r.0 ≡ any (full_to (suc c)) ns = ground (arith, r.1.1 c) in
    (λ h. sym reach ∙ at.0 h, λ h. at.1 (reach ∙ h))
