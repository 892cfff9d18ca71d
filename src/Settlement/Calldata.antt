-- ===== src/Settlement/Calldata.antt =====
-- vela-relay-core/src/settlement.rs: the reimbursement that an operation's call data carries. Bytes
-- are numbers below 256, and an address is the number that its twenty bytes write.
use vela_relay.Prelude.{
  ℕ, zero, suc, ◌+◌, ◌-◌, ◌*◌, ◌%◌, Option, none, some, ltb, leb, ◌==◌, ◌&&◌, not, if◌then◌else◌,
  List, [], ◌∷◌, length, get_elem?, any, ◌>>=◌, ◌>>◌, guard,
}
use vela_relay.Prelude.Words.{u64_mod, u256_mod, checked_add}
use vela_relay.Prelude.Result.{Result, ok, err, ok_or}
use vela_relay.Prelude.Result

abbrev pub Bytes : Type 0
Bytes = List ℕ

abbrev pub Address : Type 0
Address = ℕ

abbrev pub execute_user_op_selector : ℕ
execute_user_op_selector = 0x7bb37428

abbrev pub multisend_selector : ℕ
multisend_selector = 0x8d80ff0a

abbrev pub erc20_transfer_selector : ℕ
erc20_transfer_selector = 0xa9059cbb

abbrev pub trusted_multisend : Address
trusted_multisend = 0x38869bf66a61cf6bdb996a6ae40d5853fd43b526

abbrev pub take : ℕ → Bytes → Bytes
take zero xs = []
take (suc n) [] = []
take (suc n) (x ∷ xs) = x ∷ take n xs

abbrev pub drop : ℕ → Bytes → Bytes
drop zero xs = xs
drop (suc n) [] = []
drop (suc n) (x ∷ xs) = drop n xs

-- `data.get(start..end)`.
unfoldable pub get_range : Bytes → ℕ → ℕ → Option Bytes
get_range bytes start end =
    if leb start end && leb end (length bytes)
    then some (take (end - start) (drop start bytes))
    else none

-- `data.get(start..)`.
unfoldable pub get_from : Bytes → ℕ → Option Bytes
get_from bytes start = if leb start (length bytes) then some (drop start bytes) else none

-- `from_be_slice`, from the value read so far.
abbrev pub be_value : ℕ → Bytes → ℕ
be_value value [] = value
be_value value (b ∷ bs) = be_value (value * 256 + b) bs

unfoldable pub read_u256_word : Bytes → ℕ → Option ℕ
read_u256_word bytes offset = do
  end ← checked_add u64_mod offset 32
  word ← get_range bytes offset end
  some (be_value 0 word)

unfoldable pub read_usize_word : Bytes → ℕ → Option ℕ
read_usize_word bytes offset = do
  value ← read_u256_word bytes offset
  if ltb value u64_mod then some value else none

unfoldable pub read_address_word : Bytes → ℕ → Option Address
read_address_word bytes offset = do
  end ← checked_add u64_mod offset 32
  word ← get_range bytes offset end
  if any (λ b. not (b == 0)) (take 12 word) then none else some (be_value 0 (drop 12 word))

unfoldable pub read_packed_address : Bytes → ℕ → Option Address
read_packed_address bytes offset = do
  end ← checked_add u64_mod offset 20
  word ← get_range bytes offset end
  some (be_value 0 word)

-- The leading four bytes are this selector.
unfoldable pub has_selector : Bytes → ℕ → Option (Unit {0})
has_selector bytes selector = do head ← get_range bytes 0 4; guard (be_value 0 head == selector)

unfoldable pub read_dynamic_bytes : Bytes → ℕ → Option Bytes
read_dynamic_bytes bytes offset = do
  guard (offset % 32 == 0)
  length_word ← read_usize_word bytes offset
  start ← checked_add u64_mod offset 32
  end ← checked_add u64_mod start length_word
  get_range bytes start end

unfoldable pub decode_multisend_transactions : Bytes → Option Bytes
decode_multisend_transactions call_data = do
  has_selector call_data execute_user_op_selector
  args ← get_from call_data 4
  target ← read_address_word args 0
  data_offset ← read_usize_word args 64
  operation ← read_u256_word args 96
  guard (target == trusted_multisend && operation == 1)
  inner_data ← read_dynamic_bytes args data_offset
  has_selector inner_data multisend_selector
  inner_args ← get_from inner_data 4
  transaction_offset ← read_usize_word inner_args 0
  read_dynamic_bytes inner_args transaction_offset

unfoldable pub decode_erc20_transfer : Bytes → Option (Address × ℕ)
decode_erc20_transfer bytes = do
  guard (length bytes == 68)
  has_selector bytes erc20_transfer_selector
  to ← read_address_word bytes 4
  amount ← read_u256_word bytes 36
  some (to, amount)

-- A map from addresses to amounts, kept in the order of its keys.
abbrev pub Amounts : Type 0
Amounts = List (Address × ℕ)

-- `entry(token).or_default()`, with `amount` added to it.
unfoldable pub add_amount : Address → ℕ → Amounts → Option Amounts
add_amount token amount [] = some ((token, amount) ∷ [])
add_amount token amount ((key, total) ∷ entries) =
    let later : Option Amounts =
      add_amount token amount entries >>= (λ rest. some ((key, total) ∷ rest)) in
    if token == key
    then (checked_add u256_mod total amount >>= (λ sum. some ((key, sum) ∷ entries)))
    else if ltb token key
    then some ((token, amount) ∷ (key, total) ∷ entries)
    else later

pub record Reimbursement : Type 0 where
  pub native : ℕ
  pub stablecoins : Amounts

pub data ReimbursementParseError : Type 0 where
  malformed_call_data arithmetic_overflow : ReimbursementParseError

pub record Transaction : Type 0 where
  pub operation : ℕ
  pub to : Address
  pub value : ℕ
  pub bytes : Bytes
  pub data_end : ℕ

-- One packed transaction of the multisend, from `offset`.
unfoldable pub read_transaction : Bytes → ℕ → Option Transaction
read_transaction transactions offset = do
  operation ← get_elem? transactions offset
  to ← read_packed_address transactions (offset + 1)
  value ← read_u256_word transactions (offset + 21)
  data_length ← read_usize_word transactions (offset + 53)
  data_start ← checked_add u64_mod offset 85
  data_end ← checked_add u64_mod data_start data_length
  bytes ← get_range transactions data_start data_end
  some
      (record { operation = operation; to = to; value = value; bytes = bytes; data_end = data_end })

unfoldable pub credit_native : Address → Transaction → Reimbursement → Option Reimbursement
credit_native recipient t paid =
    if t.to == recipient && not (t.value == 0)
    then (checked_add u256_mod paid.native t.value
        >>= (λ sum. some (record { native = sum; stablecoins = paid.stablecoins })))
    else some paid

unfoldable pub credit_transfer :
    Address → Address → Option (Address × ℕ) → Reimbursement → Option Reimbursement
credit_transfer recipient token none paid = some paid
credit_transfer recipient token (some (to, amount)) paid =
    if to == recipient && not (amount == 0)
    then (add_amount token amount paid.stablecoins
        >>= (λ amounts. some (record { native = paid.native; stablecoins = amounts })))
    else some paid

unfoldable pub credit : Address → List Address → Transaction → Reimbursement → Option Reimbursement
unfolding credit_native credit_transfer
credit recipient allowlist t paid =
    if t.operation == 0
    then (credit_native recipient t paid >>= (λ native_paid.
        if any (λ token. token == t.to) allowlist
        then credit_transfer recipient t.to (decode_erc20_transfer t.bytes) native_paid
        else some native_paid))
    else some paid

-- The loop of `parse_reimbursement`. Every round moves `offset` on by 85 bytes or more, so one
-- round for each byte is enough.
unfoldable pub parse_from :
    ℕ
    → Address
    → List Address
    → Bytes
    → ℕ
    → Reimbursement
    → Result ReimbursementParseError Reimbursement
parse_from zero recipient allowlist transactions offset paid = ok paid
parse_from (suc rounds) recipient allowlist transactions offset paid =
    if ltb offset (length transactions)
    then (Result.◌>>=◌ (ok_or (read_transaction transactions offset) malformed_call_data) (λ t.
        Result.◌>>=◌ (ok_or (credit recipient allowlist t paid) arithmetic_overflow)
          (λ credited. parse_from rounds recipient allowlist transactions t.data_end credited)))
    else ok paid

unfoldable pub parse_reimbursement :
    Bytes → Address → List Address → Result ReimbursementParseError Reimbursement
unfolding parse_from
parse_reimbursement call_data recipient allowlist =
    Result.◌>>=◌ (ok_or (decode_multisend_transactions call_data) malformed_call_data)
      (λ transactions.
        parse_from (length transactions) recipient allowlist transactions 0
          (record { native = 0; stablecoins = [] }))
