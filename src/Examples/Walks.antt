-- ===== src/Examples/Walks.antt =====
-- Avalanche's endpoints: one is cooled, and a walk finds that none serves a method.
use vela_relay.Prelude.{ℕ, ◌≡◌, ◌↔◌, true, false, List, refl, ltb, arith, [], ◌∷◌, some, none}
use vela_relay.Prelude.Text.{Text, codes}
use vela_relay.RpcWalk.{
  Deadlines, cool, is_cooling, walkable, warm_urls, lacks, is_before, served, unsupported, refused,
  method_error_answer, negsuc,
}
use vela_relay.RpcWalk.Memory.{is_cooling-cool}
use vela_relay.RpcWalk.History.{Walk, remembered, IsMissing, IsOrdered, lacks-remembered}

abbrev avalanche : ℕ
avalanche = 43_114

abbrev empty_memory : Deadlines
empty_memory c n = none

abbrev terminet : Text
terminet = codes "https://terminet.example/"

abbrev publicnode : Text
publicnode = codes "https://publicnode.example/"

abbrev simulate : Text
simulate = codes "eth_simulateV1"

abbrev cooled : Deadlines
cooled = cool avalanche terminet 5_000_000 empty_memory

-- Measured answers of the endpoints.
absent_method :
    method_error_answer (some (negsuc 31_999)) (codes "Method eth_simulateV1 not supported")
    ≡ unsupported
unfolding method_error_answer
absent_method = refl

absent_header : method_error_answer (some (negsuc 31_999)) (codes "header not found") ≡ refused
unfolding method_error_answer
absent_header = refl

walk_without_terminet :
    walkable cooled avalanche (terminet ∷ publicnode ∷ []) 5_000_001 ≡ publicnode ∷ []
unfolding walkable warm_urls is_cooling cool
walk_without_terminet = refl

is_cooling-cool_example : is_cooling cooled avalanche terminet 5_000_001 ≡ ltb 5_000_001 5_180_000
is_cooling-cool_example =
    is_cooling-cool avalanche 5_000_000 avalanche 5_000_001 terminet terminet empty_memory
      (omega arith)

-- The last walk comes first.
abbrev avalanche_walks : List Walk
avalanche_walks =
    record {
      chain_id = avalanche;
      method = simulate;
      answers = unsupported ∷ unsupported ∷ [];
      now_ms = 1_000_000;
    }
    ∷ record {
      chain_id = avalanche;
      method = simulate;
      answers = served ∷ unsupported ∷ [];
      now_ms = 500_000;
    }
    ∷ []

simulate_is_missing : lacks (remembered avalanche_walks) avalanche simulate 1_599_999 ≡ true
unfolding remembered lacks is_before
simulate_is_missing = refl

simulate_is_tried_again : lacks (remembered avalanche_walks) avalanche simulate 1_600_000 ≡ false
unfolding remembered lacks is_before
simulate_is_tried_again = refl

lacks-remembered_example :
    (lacks (remembered avalanche_walks) avalanche simulate 1_599_999 ≡ true)
    ↔ IsMissing avalanche simulate 1_599_999 avalanche_walks
unfolding IsOrdered
lacks-remembered_example =
    lacks-remembered avalanche 1_599_999 simulate avalanche_walks (omega arith, (omega arith, tt))
      (omega arith)
