-- ===== src/Abi.antt =====
-- vela-relay-core/src/abi.rs: the operation as the EntryPoint takes it, and its hash. The `alloy` and
-- `hex` crates are parameters.
use vela_relay.Prelude.{
  ℕ, zero, suc, ◌+◌, ◌*◌, ◌/◌, ◌%◌, ◌^◌, Bool, Option, none, some, List, [], ◌∷◌, ◌++◌, ltb, ◌==◌,
  ◌||◌, if◌then◌else◌, is_some,
}
use vela_relay.Prelude.Result.{Result, ok, err, ok_or, ◌>>=◌}
use vela_relay.Prelude.Hex.{Hex}
use vela_relay.Prelude.Text.{Text, codes, byte_len}
use vela_relay.Task.{UserOperation, UserOperationV0_7, v0_7, v0_6}
use vela_relay.GasMath.Market.{from_hex, strip_0x}
use vela_relay.Settlement.Calldata.{Bytes, Address}

-- The struct of the `sol!` declaration.
pub record PackedUserOperation : Type 0 where
  pub sender : Address
  pub nonce : ℕ  -- U256
  pub init_code : Bytes
  pub call_data : Bytes
  pub account_gas_limits : Bytes
  pub pre_verification_gas : ℕ  -- U256
  pub gas_fees : Bytes
  pub paymaster_and_data : Bytes
  pub signature : Bytes

pub record PackedOperation : Type 0 where
  pub packed : PackedUserOperation
  pub sender : Address
  pub call_data : Bytes
  pub has_eip7702_authorization : Bool
  pub fee_token : Option Address

-- What the crates give: an address read from its text and printed, a hash read from its text, the
-- hash of bytes, a quantity read from its digits, the words of a tuple encoded, and the call of
-- `handleOps`.
pub record Alloy : Type 0 where
  pub keccak256 : Bytes → ℕ
  pub parse_b256 : Text → Option ℕ
  pub parse_address : Text → Option Address
  pub address_text : Address → Text
  pub from_str_radix_16 : Text → Option ℕ
  pub abi_encode : List ℕ → Bytes
  pub handle_ops_call : List PackedUserOperation → Address → Bytes

-- `to_be_bytes` of a number in so many bytes.
unfoldable pub to_be_bytes : ℕ → ℕ → Bytes
to_be_bytes zero n = []
to_be_bytes (suc width) n = (n / 256 ^ width) % 256 ∷ to_be_bytes width n

unfoldable pub parse_address : Alloy → Text → Result Text Address
parse_address alloy value =
    ok_or (alloy.parse_address value) (codes "invalid address in UserOperation")

unfoldable pub parse_bytes : Hex → Text → Result Text Bytes
unfolding strip_0x
parse_bytes hex value = do
  digits ← ok_or (strip_0x value) (codes "UserOperation bytes must be 0x-prefixed")
  if byte_len digits % 2 == 0
      then ok_or (hex.decode digits) (codes "invalid hex bytes in UserOperation")
      else err (codes "UserOperation bytes have an odd hex length")

prefix_required : Text
prefix_required = codes "UserOperation quantity must be 0x-prefixed"

unfoldable pub parse_u128 : Text → Result Text ℕ
unfolding prefix_required strip_0x from_hex
parse_u128 value = do
  digits ← ok_or (strip_0x value) prefix_required
  if (byte_len digits == 0) || ltb 32 (byte_len digits)
      then err (codes "UserOperation quantity does not fit uint128")
      else ok_or (from_hex digits) (codes "invalid uint128 quantity in UserOperation")

unfoldable pub parse_u256 : Alloy → Text → Result Text ℕ
unfolding prefix_required strip_0x
parse_u256 alloy value = do
  digits ← ok_or (strip_0x value) prefix_required
  if (byte_len digits == 0) || ltb 64 (byte_len digits)
      then err (codes "UserOperation quantity does not fit uint256")
      else ok_or (alloy.from_str_radix_16 digits)
          (codes "invalid uint256 quantity in UserOperation")

unfoldable pub parse_optional_bytes : Hex → Option Text → Result Text Bytes
unfolding parse_bytes
parse_optional_bytes hex none = ok []
parse_optional_bytes hex (some value) = parse_bytes hex value

unfoldable pub init_code_of : Alloy → Hex → Option Text → Option Text → Result Text Bytes
unfolding parse_address parse_optional_bytes to_be_bytes
init_code_of alloy hex none none = ok []
init_code_of alloy hex none (some data_text) = err (codes "factoryData requires factory")
init_code_of alloy hex (some factory) factory_data = do
  address ← parse_address alloy factory
  payload ← parse_optional_bytes hex factory_data
  ok (to_be_bytes 20 address ++ payload)

unfoldable pub required_u128 : Option Text → Text → Result Text ℕ
unfolding parse_u128
required_u128 value missing = do text ← ok_or value missing; parse_u128 text

unfoldable pub paymaster_and_data_of : Alloy → Hex → UserOperationV0_7 → Result Text Bytes
unfolding parse_address parse_optional_bytes required_u128 to_be_bytes
paymaster_and_data_of alloy hex operation = elim operation.paymaster [
  | none ↦
      if is_some operation.paymaster_verification_gas_limit
        || is_some operation.paymaster_post_op_gas_limit
        || is_some operation.paymaster_data
      then err (codes "paymaster gas and data require paymaster")
      else ok []
  | some paymaster ↦ do
    address ← parse_address alloy paymaster
    verification ←
        required_u128 operation.paymaster_verification_gas_limit
          (codes "paymasterVerificationGasLimit is required")
    post_op ←
        required_u128 operation.paymaster_post_op_gas_limit
          (codes "paymasterPostOpGasLimit is required")
    payload ← parse_optional_bytes hex operation.paymaster_data
    ok (to_be_bytes 20 address ++ to_be_bytes 16 verification ++ to_be_bytes 16 post_op ++ payload)
]

unfoldable pub fee_token_of : Alloy → Option Text → Result Text (Option Address)
unfolding parse_address
fee_token_of alloy none = ok none
fee_token_of alloy (some text) = do token ← parse_address alloy text; ok (some token)

-- `TryFrom<&UserOperationV0_7>`
unfoldable pub pack_v0_7 : Alloy → Hex → UserOperationV0_7 → Result Text PackedOperation
unfolding parse_address parse_bytes parse_u128 parse_u256 init_code_of paymaster_and_data_of
    fee_token_of to_be_bytes
pack_v0_7 alloy hex operation = do
  sender ← parse_address alloy operation.sender
  init_code ← init_code_of alloy hex operation.factory operation.factory_data
  call_data ← parse_bytes hex operation.call_data
  verification_gas_limit ← parse_u128 operation.verification_gas_limit
  call_gas_limit ← parse_u128 operation.call_gas_limit
  max_priority_fee_per_gas ← parse_u128 operation.max_priority_fee_per_gas
  max_fee_per_gas ← parse_u128 operation.max_fee_per_gas
  paymaster_and_data ← paymaster_and_data_of alloy hex operation
  nonce ← parse_u256 alloy operation.nonce
  pre_verification_gas ← parse_u256 alloy operation.pre_verification_gas
  signature ← parse_bytes hex operation.signature
  fee_token ← fee_token_of alloy operation.fee_token
  ok (record {
    packed = record {
      sender = sender;
      nonce = nonce;
      init_code = init_code;
      call_data = call_data;
      account_gas_limits = to_be_bytes 16 verification_gas_limit ++ to_be_bytes 16 call_gas_limit;
      pre_verification_gas = pre_verification_gas;
      gas_fees = to_be_bytes 16 max_priority_fee_per_gas ++ to_be_bytes 16 max_fee_per_gas;
      paymaster_and_data = paymaster_and_data;
      signature = signature;
    };
    sender = sender;
    call_data = call_data;
    has_eip7702_authorization = is_some operation.eip7702_auth;
    fee_token = fee_token;
  })

-- `TryFrom<&UserOperation>`
unfoldable pub pack : Alloy → Hex → UserOperation → Result Text PackedOperation
unfolding pack_v0_7
pack alloy hex (v0_7 operation) = pack_v0_7 alloy hex operation
pack alloy hex (v0_6 operation) = err (codes "only EntryPoint v0.7 UserOperations are executable")

-- A 32-byte value as the word that it is.
unfoldable pub word_value : ℕ → Bytes → ℕ
word_value value [] = value
word_value value (b ∷ bytes) = word_value (value * 256 + b) bytes

unfoldable pub user_operation_hash : Alloy → PackedOperation → Address → ℕ → ℕ
unfolding word_value
user_operation_hash alloy operation entry_point chain_id =
    let p = operation.packed in
    let packed_hash : ℕ = alloy.keccak256 (
      alloy.abi_encode (
        p.sender
        ∷ p.nonce
        ∷ alloy.keccak256 p.init_code
        ∷ alloy.keccak256 p.call_data
        ∷ word_value 0 p.account_gas_limits
        ∷ p.pre_verification_gas
        ∷ word_value 0 p.gas_fees
        ∷ alloy.keccak256 p.paymaster_and_data
        ∷ [])) in
    alloy.keccak256 (alloy.abi_encode (packed_hash ∷ entry_point ∷ chain_id ∷ []))

unfoldable pub handle_ops_calldata : Alloy → List PackedUserOperation → Address → Bytes
handle_ops_calldata alloy operations beneficiary = alloy.handle_ops_call operations beneficiary
