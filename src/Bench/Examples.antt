-- ===== src/Bench/Examples.antt =====
-- The theorem on the watch of the traffic, for a traffic that ends.
use tryst_core_portfolio.Prelude.{ℕ, zero, suc, ◌≡◌, refl}
use tryst_core_portfolio.Bench.Bandwidth.{
  wait_for_bandwidth_stabilization, greatest, Ends, wait_for_bandwidth_stabilization_lem,
}

-- 10 bytes, then 30 in each direction.
abbrev traffic : ℕ → ℕ × ℕ
traffic zero = (10, 0)
traffic (suc _) = (30, 30)

wait_for_bandwidth_stabilization_lem_example :
    (k : ℕ) × Ends traffic k × (wait_for_bandwidth_stabilization traffic ≡ greatest traffic k)
wait_for_bandwidth_stabilization_lem_example = wait_for_bandwidth_stabilization_lem traffic

sixty : wait_for_bandwidth_stabilization traffic ≡ 60
unfolding wait_for_bandwidth_stabilization
sixty = refl
