-- ===== src/RpcWalk/Order.antt =====
-- vela-relay-core/src/rpc_walk.rs: the endpoints that `walkable` asks.
use vela_relay.Prelude.{ℕ, ◌≡◌, ◌≢◌, ◌⊎◌, true, false, arith, List, [], ◌∷◌, All}
use vela_relay.Prelude.Text.{Text}
use vela_relay.RpcWalk.{Deadlines, is_cooling, warm_urls, walkable}

warm_urls-All :
    (s : Deadlines) (c : ℕ) (urls : List Text) (now_ms : ℕ)
    → All (λ url. is_cooling s c url now_ms ≡ false) (warm_urls s c urls now_ms)
unfolding warm_urls
warm_urls-All s c [] now_ms = ground arith
warm_urls-All s c (url ∷ urls) now_ms = let rest = warm_urls-All s c urls now_ms in ground arith

warm_urls-none :
    (s : Deadlines) (c : ℕ) (urls : List Text) (now_ms : ℕ)
    → warm_urls s c urls now_ms ≡ []
    → All (λ url. is_cooling s c url now_ms ≡ true) urls
unfolding warm_urls
warm_urls-none s c [] now_ms h = ground arith
warm_urls-none s c (url ∷ urls) now_ms h = ground (arith, warm_urls-none s c urls now_ms)

-- A walk asks the whole list, where every endpoint of it is cooling down, and otherwise, in their
-- order, those that are not, of which there is one at least.
walkable_cases :
    (s : Deadlines) (c : ℕ) (urls : List Text) (now_ms : ℕ)
    → (All (λ url. is_cooling s c url now_ms ≡ true) urls × (walkable s c urls now_ms ≡ urls))
      ⊎ (All (λ url. is_cooling s c url now_ms ≡ false) (walkable s c urls now_ms)
          × (walkable s c urls now_ms ≢ [])
          × (walkable s c urls now_ms ≡ warm_urls s c urls now_ms))
unfolding walkable
walkable_cases s c urls now_ms =
    ground (arith, warm_urls-All s c urls now_ms, warm_urls-none s c urls now_ms)
