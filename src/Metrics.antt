-- ===== src/Metrics.antt =====
-- internal/metrics/metrics.go: the collectors that the scheduler writes, and the handler of /stop.
-- The address parser is a parameter.
pub mod Stop
mod Tests
use lost_media_finder.Prelude.{ℕ, Bool, true, false, not, Option, none, some, get_or, if◌then◌else◌}
use lost_media_finder.Text.{Text, codes, eq_text}

-- Counters first, then gauges; the gauge of the filter's fill ratio holds a float64.
pub record Collectors (F : Type 0) : Type 0 where
  pub reconcile_errors : ℕ
  pub reaped_total : ℕ
  pub swept_total : ℕ
  pub promoted_total : ℕ
  pub listings_admitted_total : ℕ
  pub frontier_ready : ℕ
  pub frontier_processing : ℕ
  pub frontier_delayed : ℕ
  pub listings_scheduled : ℕ
  pub listings_pending : ℕ
  pub frontier_dead : ℕ
  pub frontier_strikes : ℕ
  pub frontier_idle : ℕ
  pub bloom_fill_ratio : F

-- What isLoopback calls of the package net: SplitHostPort without the port, ParseIP, and IsLoopback.
pub record Net : Type 1 where
  pub Ip : Type 0
  pub split_host_port : Text → Option Text
  pub parse_ip : Text → Option Ip
  pub ip_is_loopback : Ip → Bool

unfoldable pub is_loopback : Net → Text → Bool
is_loopback n addr = elim (n.parse_ip (get_or (n.split_host_port addr) addr)) [
  | none ↦ false
  | some ip ↦ n.ip_is_loopback ip
]

-- The status that the handler of /stop writes, and whether it calls stopFn.
unfoldable pub handle_stop : Net → Text → Text → ℕ × Bool
unfolding is_loopback
handle_stop n method remote_addr =
    if not (eq_text method (codes "POST"))
    then (405, false)
    else if not (is_loopback n remote_addr)
    then (403, false)
    else (202, true)
