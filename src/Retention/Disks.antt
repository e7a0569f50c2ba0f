-- ===== src/Retention/Disks.antt =====
-- summarizeDiskUsage and the conditions of evaluateStoragePressure.
use langfuse_operator.Common.{
  ℕ, ◌+◌, ◌-◌, ◌*◌, ◌/◌, ◌%◌, ◌^◌, ltb, leb, eqb, ℤ, pos, negsuc, is_pos, String, Bool, true, false,
  not, ◌&&◌, ◌||◌, List, [], ◌∷◌, length, if◌then◌else◌,
}
use langfuse_operator.Api.{
  StoragePressureSpec, ConditionStatus, condition_true, condition_false, condition_unknown,
}

-- a ≤ b
unfoldable pub leb_ℤ : ℤ → ℤ → Bool
leb_ℤ (pos a) (pos b) = leb a b
leb_ℤ (pos a) (negsuc b) = false
leb_ℤ (negsuc a) (pos b) = true
leb_ℤ (negsuc a) (negsuc b) = leb b a

-- int32 of a uint64
unfoldable pub to_int32 : ℕ → ℤ
to_int32 n = let low = n % 2 ^ 32 in if ltb low (2 ^ 31) then pos low else negsuc (2 ^ 32 - 1 - low)

pub record NodeDiskUsage : Type 0 where
  pub node : String
  pub used : ℕ
  pub total : ℕ

pub record DiskUsage : Type 0 where
  pub nodes : ℕ
  pub used : ℕ
  pub total : ℕ
  pub fullest : NodeDiskUsage
  pub fullest_percent : ℤ

-- int32(n.used * 100 / n.total), in uint64
unfoldable pub percent : NodeDiskUsage → ℤ
unfolding to_int32
percent n = to_int32 (((n.used * 100) % 2 ^ 64) / n.total)

-- The body of the loop; the sums are uint64.
unfoldable pub add_node : DiskUsage → NodeDiskUsage → DiskUsage
unfolding percent leb_ℤ
add_node u n =
    let summed = record u {
      used = (u.used + n.used) % 2 ^ 64;
      total = (u.total + n.total) % 2 ^ 64;
    } in
    if eqb n.total 0
    then summed
    else if eqb u.fullest.total 0 || not (leb_ℤ (percent n) u.fullest_percent)
    then record summed { fullest = n; fullest_percent = percent n }
    else summed

unfoldable pub add_nodes : DiskUsage → List NodeDiskUsage → DiskUsage
unfolding add_node
add_nodes u [] = u
add_nodes u (n ∷ ns) = add_nodes (add_node u n) ns

abbrev pub no_node : NodeDiskUsage
no_node = record { node = ""; used = 0; total = 0 }

abbrev pub no_usage : List NodeDiskUsage → DiskUsage
no_usage ns = record {
  nodes = length ns;
  used = 0;
  total = 0;
  fullest = no_node;
  fullest_percent = pos 0;
}

unfoldable pub summarize_disk_usage : List NodeDiskUsage → DiskUsage
unfolding add_nodes
summarize_disk_usage ns = add_nodes (no_usage ns) ns

-- The status and the reason of the StoragePressure condition, once the disks were read.
unfoldable pub pressure_reason : StoragePressureSpec → DiskUsage → ConditionStatus × String
unfolding leb_ℤ
pressure_reason p u =
    if eqb u.total 0
    then (condition_unknown, "NoCapacityReported")
    else if is_pos p.critical_threshold_percent
        && leb_ℤ p.critical_threshold_percent u.fullest_percent
    then (condition_true, "CriticalThresholdExceeded")
    else if is_pos p.warning_threshold_percent
        && leb_ℤ p.warning_threshold_percent u.fullest_percent
    then (condition_true, "WarningThresholdExceeded")
    else (condition_false, "WithinThresholds")
