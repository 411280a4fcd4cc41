-- ===== src/Facilitator/Verify.antt =====
-- ExactStellarScheme.verify, with what it uses of core/stellar/utils.ts and constants.ts.
use verivyx_monorepo.Prelude.{
  ℕ, ◌+◌, ◌-◌, ◌/◌, Bool, not, ◌||◌, Option, none, some, or_default, List, [], ◌∷◌, Text, codes,
  text_eq, has, ltb, ◌==◌, if◌then◌else◌,
}
use verivyx_monorepo.Prelude.Int.{ℤ}
use verivyx_monorepo.Prelude.Parse.{big_int}
use verivyx_monorepo.Facilitator.Types.{
  Native, str, big, native_eq, has_native, ContractCall, InvokeOp, Operation, invoke_host_function,
  Transaction, SimSuccess, SimResponse, success, failure, PaymentRequirements, PaymentPayload,
  invalid_x402_version, unsupported_scheme, network_mismatch, invalid_network, malformed,
  wrong_operation, unsafe_tx_or_op_source, wrong_asset, wrong_function_name, facilitator_is_payer,
  wrong_recipient, wrong_amount, simulation_failed, fee_below_minimum, fee_exceeds_maximum,
  unexpected_verify_error, VerifyResponse, valid, invalid, Checked, go, stop, ◌>>=◌, ◌>>◌,
  reject_if, expect,
}
use verivyx_monorepo.Facilitator.Events.{validate_simulation_events}
use verivyx_monorepo.Facilitator.Auth.{Limit, at, unbounded, validate_auth_entries}

-- The SDK and the RPC server; `none` is a thrown error. `sample_ledgers` is the list of close
-- times that `getLatestLedger` and `getLedgers` answer with, a missing list being empty; the close
-- times of a chain's ledgers do not decrease.
pub record Rpc : Type 0 where
  pub open_server : Text → Bool → Bool
  pub parse_transaction : Text → Text → Option Transaction
  pub simulate : Transaction → Option SimResponse
  pub latest_ledger : Option ℕ
  pub sample_ledgers : Option (List ℕ)
  pub assemble : Transaction → SimSuccess → Option Transaction

pub record SchemeConfig : Type 0 where
  pub signing_addresses : List Text
  pub max_transaction_fee_stroops : ℕ
  pub rpc_url : Option Text

abbrev pub stellar_pubnet_caip2 : Text
stellar_pubnet_caip2 = codes "stellar:pubnet"

abbrev pub stellar_testnet_caip2 : Text
stellar_testnet_caip2 = codes "stellar:testnet"

abbrev pub default_testnet_rpc_url : Text
default_testnet_rpc_url = codes "https://soroban-testnet.stellar.org"

abbrev pub default_timeout_seconds : ℕ
default_timeout_seconds = 60

-- STELLAR_NETWORK_TO_PASSPHRASE.
unfoldable pub network_to_passphrase : Text → Option Text
network_to_passphrase network =
    if text_eq network stellar_pubnet_caip2
    then some (codes "Public Global Stellar Network ; September 2015")
    else if text_eq network stellar_testnet_caip2
    then some (codes "Test SDF Network ; September 2015")
    else none

-- `customRpcUrl || fallback`: an empty text counts as absent.
abbrev non_empty : Option Text → Option Text
non_empty none = none
non_empty (some []) = none
non_empty (some (c ∷ t)) = some (c ∷ t)

unfoldable pub get_rpc_url : Text → Option Text → Option Text
get_rpc_url network custom =
    if text_eq network stellar_testnet_caip2
    then some (or_default (non_empty custom) default_testnet_rpc_url)
    else if text_eq network stellar_pubnet_caip2
    then non_empty custom
    else none

abbrev ceil_div : ℕ → ℕ → ℕ
ceil_div a b = (a + (b - 1)) / b

last_or : ℕ → List ℕ → ℕ
last_or d [] = d
last_or d (x ∷ xs) = last_or x xs

abbrev intervals : List ℕ → ℕ
intervals [] = 0
intervals (x ∷ xs) = intervals xs + 1

unfoldable pub estimated_close_seconds : Option (List ℕ) → ℕ
unfolding last_or
estimated_close_seconds (some (oldest ∷ next ∷ times)) =
    ceil_div (last_or next times - oldest) (intervals (next ∷ times))
estimated_close_seconds _ = 5

-- `currentLedger + Math.ceil(maxTimeoutSeconds / estimatedLedgerSeconds)`.
unfoldable pub max_ledger : ℕ → ℕ → ℕ → Limit
max_ledger current timeout estimate =
    if estimate == 0 then unbounded else at (current + ceil_div timeout estimate)

-- Step 1.
unfoldable pub check_protocol : PaymentPayload → PaymentRequirements → Checked Text
unfolding network_to_passphrase
check_protocol payload requirements = do
  reject_if (not (payload.x402_version == 2)) invalid_x402_version none
  reject_if
      (not (text_eq payload.scheme (codes "exact"))
        || not (text_eq requirements.scheme (codes "exact")))
      unsupported_scheme none
  reject_if (not (text_eq requirements.network payload.network)) network_mismatch none
  expect (network_to_passphrase requirements.network) invalid_network none

-- getRpcClient.
unfoldable pub get_rpc_client : Rpc → SchemeConfig → PaymentRequirements → Checked (Unit {0})
unfolding get_rpc_url
get_rpc_client rpc cfg requirements = do
  url ← expect (get_rpc_url requirements.network cfg.rpc_url) unexpected_verify_error none
  reject_if (not (rpc.open_server url (text_eq requirements.network stellar_testnet_caip2)))
      unexpected_verify_error none

-- Step 2.
unfoldable pub decode_transaction : Rpc → Text → PaymentPayload → Checked Transaction
decode_transaction rpc passphrase payload = do
  envelope ← expect payload.transaction malformed none
  expect (rpc.parse_transaction envelope passphrase) malformed none

-- Steps 3 and 4.
unfoldable pub single_invocation : List Operation → Checked InvokeOp
single_invocation (invoke_host_function op ∷ []) = go op
single_invocation _ = stop wrong_operation none

unfoldable pub check_structure : SchemeConfig → Transaction → Checked (InvokeOp × ContractCall)
unfolding single_invocation
check_structure cfg transaction = do
  op ← single_invocation transaction.operations
  reject_if
      (has cfg.signing_addresses (or_default op.source [])
        || has cfg.signing_addresses transaction.source)
      unsafe_tx_or_op_source none
  call ← expect op.call wrong_operation none
  go (op, call)

abbrev pub transfer_args :
    List (Option Native) → Checked (Option Native × Option Native × Option Native)
transfer_args (sender ∷ to ∷ amount ∷ []) = go (sender, to, amount)
transfer_args _ = stop wrong_function_name none

-- Step 6: the arguments of the transfer, decoded in order; gives the payer and the amount.
unfoldable pub check_args :
    SchemeConfig
    → PaymentRequirements
    → Option Native
    → Option Native
    → Option Native
    → Checked (Native × ℤ)
check_args cfg requirements first second third = do
  payer ← expect first unexpected_verify_error none
  to ← expect second unexpected_verify_error (some payer)
  amount ← expect third unexpected_verify_error (some payer)
  reject_if (has_native cfg.signing_addresses payer) facilitator_is_payer none
  reject_if (not (native_eq to (str requirements.pay_to))) wrong_recipient (some payer)
  expected ← expect (big_int requirements.amount) unexpected_verify_error (some payer)
  reject_if (not (native_eq amount (big expected))) wrong_amount (some payer)
  go (payer, expected)

-- Step 5.
unfoldable pub check_call : SchemeConfig → PaymentRequirements → ContractCall → Checked (Native × ℤ)
unfolding check_args
check_call cfg requirements call = do
  reject_if (not (text_eq call.contract_address requirements.asset)) wrong_asset none
  reject_if (not (text_eq call.function_name (codes "transfer"))) wrong_function_name none
  (first, second, third) ← transfer_args call.args
  check_args cfg requirements first second third

abbrev pub expect_success : Option SimResponse → Native → Checked SimSuccess
expect_success none payer = stop unexpected_verify_error (some payer)
expect_success (some failure) payer = stop simulation_failed (some payer)
expect_success (some (success sim)) payer = go sim

-- Steps 7 and 8.
unfoldable pub check_simulation : Rpc → SchemeConfig → Transaction → Native → Checked SimSuccess
check_simulation rpc cfg transaction payer = do
  sim ← expect_success (rpc.simulate transaction) payer
  reject_if (ltb transaction.fee sim.min_resource_fee) fee_below_minimum (some payer)
  reject_if (ltb cfg.max_transaction_fee_stroops transaction.fee) fee_exceeds_maximum none
  go sim

-- Steps 9 and 10.
unfoldable pub check_effects :
    Rpc
    → SchemeConfig
    → PaymentRequirements
    → Transaction
    → InvokeOp
    → Native
    → ℤ
    → SimSuccess
    → Checked Native
unfolding validate_simulation_events validate_auth_entries max_ledger estimated_close_seconds
check_effects rpc cfg requirements transaction op payer amount sim = do
  validate_simulation_events sim.events payer requirements.pay_to amount requirements.asset
  current ← expect rpc.latest_ledger unexpected_verify_error (some payer)
  let timeout = or_default requirements.max_timeout_seconds default_timeout_seconds
  let limit = max_ledger current timeout (estimated_close_seconds rpc.sample_ledgers)
  validate_auth_entries op cfg.signing_addresses payer limit (rpc.assemble transaction sim)
  go payer

unfoldable pub verify_steps :
    Rpc → SchemeConfig → PaymentPayload → PaymentRequirements → Checked Native
unfolding check_protocol get_rpc_client decode_transaction check_structure check_call
    check_simulation check_effects
verify_steps rpc cfg payload requirements = do
  passphrase ← check_protocol payload requirements
  get_rpc_client rpc cfg requirements
  transaction ← decode_transaction rpc passphrase payload
  (op, call) ← check_structure cfg transaction
  (payer, amount) ← check_call cfg requirements call
  sim ← check_simulation rpc cfg transaction payer
  check_effects rpc cfg requirements transaction op payer amount sim

abbrev pub respond : Checked Native → VerifyResponse
respond (go payer) = valid payer
respond (stop reason payer) = invalid reason payer

unfoldable pub verify : Rpc → SchemeConfig → PaymentPayload → PaymentRequirements → VerifyResponse
unfolding verify_steps
verify rpc cfg payload requirements = respond (verify_steps rpc cfg payload requirements)
