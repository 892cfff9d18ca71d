-- ===== src/Pace/Waits.antt =====
-- vela-relay-core/src/pace.rs: the bounds of the waits.
use vela_relay.Prelude.{ℕ, ◌+◌, ◌*◌, ◌≤◌, arith}
use vela_relay.Pace.{block_interval_ms, top_up_receipt_wait, top_up_wait_max_ms, top_up_wait_min_ms}

-- Every chain's wait for a top-up pauses between half a second and a second, polls at least twice,
-- lasts no more than five seconds, and is at most one pause short of two seconds.
top_up_receipt_wait_bounds :
    (chain_id : ℕ)
    → let w = top_up_receipt_wait chain_id in
      (500 ≤ w.pause_ms)
      × (w.pause_ms ≤ 1_000)
      × (2 ≤ w.polls)
      × (w.pause_ms * w.polls ≤ top_up_wait_max_ms)
      × (top_up_wait_min_ms ≤ w.pause_ms * w.polls + w.pause_ms)
unfolding top_up_receipt_wait block_interval_ms
top_up_receipt_wait_bounds chain_id = ground arith
