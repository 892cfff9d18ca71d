-- ===== src/RpcWalk.antt =====
-- vela-relay-core/src/rpc_walk.rs: which endpoints a walk asks, and what a walk has learned. A
-- `HashMap` from a chain and a name to a time is the function that reads it.
pub mod Memory
pub mod History
pub mod Order
use vela_relay.Prelude.{
  ℕ, ◌+◌, ◌*◌, ◌≡◌, Bool, true, false, not, ◌&&◌, ◌||◌, Option, none, some, List, [], ◌∷◌, ltb,
  ◌==◌, if◌then◌else◌, map,
}
use vela_relay.Prelude.Words.{u64_mod, saturating_add}
use vela_relay.Prelude.Text.{Text, codes, text_eq, to_ascii_lowercase, contains, contains_any}

-- The map that `EndpointCooldowns` and `MissingMethods` hold: `until_ms`.
abbrev pub Deadlines : Type 0
Deadlines = ℕ → Text → Option ℕ

abbrev pub same_key : ℕ → Text → ℕ → Text → Bool
same_key chain_id name c n = chain_id == c && text_eq name n

unfoldable pub later_than : ℕ → Option ℕ → Option ℕ
later_than now_ms none = none
later_than now_ms (some until) = if ltb now_ms until then some until else none

unfoldable pub retain : ℕ → Deadlines → Deadlines
unfolding later_than
retain now_ms until_ms c n = later_than now_ms (until_ms c n)

unfoldable pub insert : ℕ → Text → ℕ → Deadlines → Deadlines
insert chain_id name until until_ms c n =
    if same_key chain_id name c n then some until else until_ms c n

unfoldable pub remove : ℕ → Text → Deadlines → Deadlines
remove chain_id name until_ms c n = if same_key chain_id name c n then none else until_ms c n

unfoldable pub is_before : ℕ → Option ℕ → Bool
is_before now_ms none = false
is_before now_ms (some until) = ltb now_ms until

abbrev pub endpoint_cooldown_ms : ℕ
endpoint_cooldown_ms = 3 * 60 * 1_000

unfoldable pub cool : ℕ → Text → ℕ → Deadlines → Deadlines
unfolding retain insert
cool chain_id url now_ms until_ms =
    insert chain_id url (saturating_add u64_mod now_ms endpoint_cooldown_ms)
      (retain now_ms until_ms)

unfoldable pub clear : ℕ → Text → Deadlines → Deadlines
unfolding remove
clear chain_id url until_ms = remove chain_id url until_ms

unfoldable pub is_cooling : Deadlines → ℕ → Text → ℕ → Bool
unfolding is_before
is_cooling until_ms chain_id url now_ms = is_before now_ms (until_ms chain_id url)

unfoldable pub warm_urls : Deadlines → ℕ → List Text → ℕ → List Text
unfolding is_cooling
warm_urls until_ms chain_id [] now_ms = []
warm_urls until_ms chain_id (url ∷ urls) now_ms =
    let rest = warm_urls until_ms chain_id urls now_ms in
    if not (is_cooling until_ms chain_id url now_ms) then url ∷ rest else rest

unless_empty : List Text → List Text → List Text
unless_empty urls [] = urls
unless_empty urls (w ∷ warm) = w ∷ warm

unfoldable pub walkable : Deadlines → ℕ → List Text → ℕ → List Text
unfolding warm_urls unless_empty
walkable until_ms chain_id urls now_ms = unless_empty urls (warm_urls until_ms chain_id urls now_ms)

abbrev pub missing_method_memory_ms : ℕ
missing_method_memory_ms = 10 * 60 * 1_000

pub data MethodAnswer : Type 0 where
  served : MethodAnswer
  unsupported : MethodAnswer
  refused : MethodAnswer

-- An error's code, an `i64`.
pub data ℤ : Type 0 where
  pos : ℕ → ℤ
  negsuc : ℕ → ℤ

unfoldable pub names_no_method : Option ℤ → Bool
names_no_method none = false
names_no_method (some (pos n)) = false
names_no_method (some (negsuc n)) = n == 32_600 || n == 32_003

abbrev absent_phrases : List Text
absent_phrases =
    codes "not found"
    ∷ codes "does not exist"
    ∷ codes "not supported"
    ∷ codes "unsupported"
    ∷ codes "not available"
    ∷ codes "not allowed"
    ∷ codes "invalid method"
    ∷ []

unfoldable pub method_error_answer : Option ℤ → Text → MethodAnswer
unfolding names_no_method
method_error_answer code message =
    if names_no_method code
    then unsupported
    else (let lower = map to_ascii_lowercase message in
        if contains lower (codes "method") && contains_any lower absent_phrases
        then unsupported
        else refused)

abbrev pub is_unsupported : MethodAnswer → Bool
is_unsupported unsupported = true
is_unsupported served = false
is_unsupported refused = false

abbrev pub is_served : MethodAnswer → Bool
is_served served = true
is_served unsupported = false
is_served refused = false

abbrev pub any_answer : (MethodAnswer → Bool) → List MethodAnswer → Bool
any_answer test [] = false
any_answer test (a ∷ rest) = test a || any_answer test rest

abbrev pub all_answers : (MethodAnswer → Bool) → List MethodAnswer → Bool
all_answers test [] = true
all_answers test (a ∷ rest) = test a && all_answers test rest

unfoldable pub walk_proves_method_missing : List MethodAnswer → Bool
walk_proves_method_missing answers =
    any_answer is_unsupported answers && all_answers is_unsupported answers

unfoldable pub note_walk : ℕ → Text → List MethodAnswer → ℕ → Deadlines → Deadlines
unfolding walk_proves_method_missing retain insert remove
note_walk chain_id method answers now_ms until_ms =
    if walk_proves_method_missing answers
    then insert chain_id method (saturating_add u64_mod now_ms missing_method_memory_ms)
        (retain now_ms until_ms)
    else (if any_answer is_served answers then remove chain_id method until_ms else until_ms)

unfoldable pub lacks : Deadlines → ℕ → Text → ℕ → Bool
unfolding is_before
lacks until_ms chain_id method now_ms = is_before now_ms (until_ms chain_id method)
