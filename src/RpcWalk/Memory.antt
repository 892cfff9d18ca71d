-- ===== src/RpcWalk/Memory.antt =====
-- vela-relay-core/src/rpc_walk.rs: what `cool` and `note_walk` leave to be read.
use vela_relay.Prelude.{
  ℕ, ◌+◌, ◌-◌, ◌≤◌, ◌≡◌, false, ltb, if◌then◌else◌, arith, min, List, some, none, Option,
}
use vela_relay.Prelude.Words.{u64_mod}
use vela_relay.Prelude.Text.{Text}
use vela_relay.RpcWalk.{
  Deadlines, same_key, cool, retain, insert, remove, is_cooling, MethodAnswer, is_served,
  any_answer, is_before, later_than, walk_proves_method_missing, note_walk, lacks,
  endpoint_cooldown_ms, missing_method_memory_ms,
}

-- Dropping the deadlines that have passed is not seen from then on.
is_before-later_than :
    (now_ms t : ℕ) (until : Option ℕ)
    → now_ms ≤ t
    → is_before t (later_than now_ms until) ≡ is_before t until
unfolding is_before later_than
is_before-later_than now_ms t none le = ground arith
is_before-later_than now_ms t (some until) le = ground arith

-- At any time from the call on, an endpoint that was cooled is left out of its chain's walks for
-- three minutes, and every other chain and endpoint is as it was before.
pub is_cooling-cool :
    (chain_id now_ms c t : ℕ) (url u : Text) (s : Deadlines)
    → now_ms ≤ t
    → is_cooling (cool chain_id url now_ms s) c u t ≡ (
        if same_key chain_id url c u
        then ltb t (min (now_ms + endpoint_cooldown_ms) (u64_mod - 1))
        else is_cooling s c u t)
unfolding cool insert retain is_cooling is_before
is_cooling-cool chain_id now_ms c t url u s le =
    let r = is_before-later_than now_ms t (s c u) le in ground arith

-- A walk's effect on what is read at any time from it on.
pub lacks-note_walk :
    (chain_id now_ms c t : ℕ) (method m : Text) (answers : List MethodAnswer) (s : Deadlines)
    → now_ms ≤ t
    → lacks (note_walk chain_id method answers now_ms s) c m t ≡ (
        if same_key chain_id method c m
        then (if walk_proves_method_missing answers
            then ltb t (min (now_ms + missing_method_memory_ms) (u64_mod - 1))
            else (if any_answer is_served answers then false else lacks s c m t))
        else lacks s c m t)
unfolding note_walk insert remove retain lacks is_before
lacks-note_walk chain_id now_ms c t method m answers s le =
    let r = is_before-later_than now_ms t (s c m) le in ground arith
