-- ===== src/Retention/Size.antt =====
-- humanizeBytes and the summary of diskUsage. A float64 keeps 53 bits of a number, and %.1f the nearest tenth;
-- both round a tie to the even neighbour.
use langfuse_operator.Common.{
  ℕ, zero, suc, ◌+◌, ◌*◌, ◌/◌, ◌%◌, ◌^◌, ltb, leb, ℤ, show_ℤ, String, ◌<>◌, decimal, if◌then◌else◌,
}
use langfuse_operator.Retention.Disks.{DiskUsage}

-- n / d, rounded.
round_even : ℕ → ℕ → ℕ
round_even n d =
    let low = n / d in
    let twice = n % d * 2 in
    if ltb twice d then low else if ltb d twice then low + 1 else low + low % 2

-- The bits that a float64 drops: a uint64 has eleven more than it keeps.
dropped : ℕ → ℕ → ℕ
dropped zero b = 0
dropped (suc fuel) b = let rest = suc (dropped fuel (b / 2)) in if ltb b (2 ^ 53) then 0 else rest

-- float64(b)
unfoldable pub to_float : ℕ → ℕ
unfolding round_even dropped
to_float b = let unit = 2 ^ dropped 11 b in round_even b unit * unit

-- "KMGTP"[exp]
prefix_of : ℕ → String
prefix_of zero = "K"
prefix_of (suc zero) = "M"
prefix_of (suc (suc zero)) = "G"
prefix_of (suc (suc (suc zero))) = "T"
prefix_of _ = "P"

-- The loop: the exponents that are left, `n`, and `exp`.
exponent : ℕ → ℕ → ℕ → ℕ
exponent zero n exp = exp
exponent (suc left) n exp =
    let rest = exponent left (n / 1024) (suc exp) in if leb 1024 n then rest else exp

-- A number of tenths.
show_tenths : ℕ → String
unfolding decimal
show_tenths n = decimal (n / 10) <> ("." <> decimal (n % 10))

unfoldable pub humanize_bytes : ℕ → String
unfolding decimal to_float prefix_of exponent show_tenths round_even
humanize_bytes b =
    let exp = exponent 4 (b / 1024) 0 in
    if ltb b 1024
    then decimal b <> "B"
    else show_tenths (round_even (to_float b * 10) (1024 ^ suc exp)) <> (prefix_of exp <> "i")

unfoldable pub summary : DiskUsage → ℤ → ℤ → String
unfolding humanize_bytes show_ℤ decimal
summary d warn critical =
    let thresholds = "warn=" <> (show_ℤ warn <> ("%, critical=" <> (show_ℤ critical <> "%"))) in
    if ltb d.nodes 2
    then "ClickHouse storage "
      <> (show_ℤ d.fullest_percent
          <> ("% used ("
              <> (humanize_bytes d.used
                  <> (" of " <> (humanize_bytes d.total <> ("; " <> (thresholds <> ")")))))))
    else "ClickHouse storage "
      <> (show_ℤ d.fullest_percent
          <> ("% used on "
              <> (d.fullest.node
                  <> (", the fullest of "
                      <> (decimal d.nodes
                          <> (" nodes ("
                              <> (humanize_bytes d.fullest.used
                                  <> (" of "
                                      <> (humanize_bytes d.fullest.total
                                          <> ("; cluster total "
                                              <> (humanize_bytes d.used
                                                  <> (" of "
                                                      <> (humanize_bytes d.total
                                                          <> ("; "
                                                            <> (thresholds <> ")")))))))))))))))
