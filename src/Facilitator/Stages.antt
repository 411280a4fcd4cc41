-- ===== src/Facilitator/Stages.antt =====
-- What each early stage of `verify` establishes when it lets a payment pass.
use verivyx_monorepo.Prelude.{
  ◌≤◌, ◌≡◌, false, Option, none, some, or_default, List, [], ◌∷◌, Text, codes, text_eq_iff, has,
  has_iff, Listed, arith,
}
use verivyx_monorepo.Prelude.Int.{ℤ}
use verivyx_monorepo.Prelude.Parse.{big_int}
use verivyx_monorepo.Facilitator.Types.{
  Native, str, big, native_eq_str, native_eq_big, has_native, ContractCall, InvokeOp, Operation,
  invoke_host_function, other_operation, Transaction, SimSuccess, success, PaymentRequirements,
  PaymentPayload, go,
}
use verivyx_monorepo.Facilitator.Verify.{
  Rpc, SchemeConfig, network_to_passphrase, check_protocol, decode_transaction, single_invocation,
  check_structure, check_args, check_call, check_simulation, transfer_args,
}

pub record ProtocolFits (payload : PaymentPayload) (requirements : PaymentRequirements)
    (passphrase : Text) : Type 0 where
  pub version : payload.x402_version ≡ 2
  pub presented_scheme : payload.scheme ≡ codes "exact"
  pub required_scheme : requirements.scheme ≡ codes "exact"
  pub network : requirements.network ≡ payload.network
  pub known : network_to_passphrase requirements.network ≡ some passphrase

pub check_protocol-ProtocolFits :
    (payload : PaymentPayload) (requirements : PaymentRequirements) (passphrase : Text)
    → check_protocol payload requirements ≡ go passphrase
    → ProtocolFits payload requirements passphrase
unfolding check_protocol
check_protocol-ProtocolFits payload requirements passphrase h = ground (
  arith,
  text_eq_iff payload.scheme (codes "exact"),
  text_eq_iff requirements.scheme (codes "exact"),
  text_eq_iff requirements.network payload.network,
)

single_invocation-go :
    (operations : List Operation) (op : InvokeOp)
    → single_invocation operations ≡ go op
    → operations ≡ invoke_host_function op ∷ []
unfolding single_invocation
single_invocation-go (invoke_host_function op' ∷ []) op h = cc
single_invocation-go (invoke_host_function op' ∷ _ ∷ _) op h = cc
single_invocation-go (other_operation ∷ _) op h = cc
single_invocation-go [] op h = cc

not-Listed : (ss : List Text) (t : Text) → has ss t ≡ false → ¬ Listed t ss
not-Listed ss t h m = cc (h, (has_iff ss t).1 m)

pub record StructureFits (cfg : SchemeConfig) (transaction : Transaction) (op : InvokeOp)
    (call : ContractCall) : Type 0 where
  pub single : transaction.operations ≡ invoke_host_function op ∷ []
  pub called : op.call ≡ some call
  pub op_source_foreign : ¬ Listed (or_default op.source []) cfg.signing_addresses
  pub source_foreign : ¬ Listed transaction.source cfg.signing_addresses

structure_checks :
    (cfg : SchemeConfig) (transaction : Transaction) (op : InvokeOp) (call : ContractCall)
    → check_structure cfg transaction ≡ go (op, call)
    → (single_invocation transaction.operations ≡ go op)
      × (op.call ≡ some call)
      × (has cfg.signing_addresses (or_default op.source []) ≡ false)
      × (has cfg.signing_addresses transaction.source ≡ false)
unfolding check_structure
structure_checks cfg transaction op call h = ground arith

pub check_structure-StructureFits :
    (cfg : SchemeConfig) (transaction : Transaction) (op : InvokeOp) (call : ContractCall)
    → check_structure cfg transaction ≡ go (op, call)
    → StructureFits cfg transaction op call
check_structure-StructureFits cfg transaction op call h =
    let (single, called, op_source, source) = structure_checks cfg transaction op call h in
    record {
      single = single_invocation-go transaction.operations op single;
      called = called;
      op_source_foreign = not-Listed _ _ op_source;
      source_foreign = not-Listed _ _ source;
    }

transfer_args-go :
    (args : List (Option Native)) (first second third : Option Native)
    → transfer_args args ≡ go (first, second, third)
    → args ≡ first ∷ second ∷ third ∷ []
transfer_args-go (a ∷ b ∷ c ∷ []) first second third h = ground arith
transfer_args-go (a ∷ b ∷ c ∷ _ ∷ _) first second third h = cc
transfer_args-go (a ∷ b ∷ []) first second third h = cc
transfer_args-go (a ∷ []) first second third h = cc
transfer_args-go [] first second third h = cc

pub record CallFits (cfg : SchemeConfig) (requirements : PaymentRequirements) (call : ContractCall)
    (payer : Native) (amount : ℤ) : Type 0 where
  pub asset : call.contract_address ≡ requirements.asset
  pub function : call.function_name ≡ codes "transfer"
  pub args : call.args ≡ some payer ∷ some (str requirements.pay_to) ∷ some (big amount) ∷ []
  pub exact : big_int requirements.amount ≡ some amount
  pub payer_foreign : has_native cfg.signing_addresses payer ≡ false

pub record ArgsFit (cfg : SchemeConfig) (requirements : PaymentRequirements)
    (first second third : Option Native) (payer : Native) (amount : ℤ) : Type 0 where
  pub sender : first ≡ some payer
  pub recipient : second ≡ some (str requirements.pay_to)
  pub paid : third ≡ some (big amount)
  pub exact : big_int requirements.amount ≡ some amount
  pub payer_foreign : has_native cfg.signing_addresses payer ≡ false

check_args-ArgsFit :
    (cfg : SchemeConfig) (requirements : PaymentRequirements) (first second third : Option Native)
    (payer : Native) (amount : ℤ)
    → check_args cfg requirements first second third ≡ go (payer, amount)
    → ArgsFit cfg requirements first second third payer amount
unfolding check_args
check_args-ArgsFit cfg requirements (some a) (some b) (some c) payer amount h =
    ground (arith, native_eq_str b requirements.pay_to, native_eq_big c amount)
check_args-ArgsFit cfg requirements none second third payer amount h = cc
check_args-ArgsFit cfg requirements (some a) none third payer amount h = cc
check_args-ArgsFit cfg requirements (some a) (some b) none payer amount h = cc

call_checks :
    (cfg : SchemeConfig) (requirements : PaymentRequirements) (call : ContractCall) (payer : Native)
    (amount : ℤ)
    → check_call cfg requirements call ≡ go (payer, amount)
    → (call.contract_address ≡ requirements.asset)
      × (call.function_name ≡ codes "transfer")
      × (first : Option Native) × (second : Option Native) × (third : Option Native)
      × (transfer_args call.args ≡ go (first, second, third))
      × (check_args cfg requirements first second third ≡ go (payer, amount))
unfolding check_call
call_checks cfg requirements call payer amount h = ground (
  arith,
  text_eq_iff call.contract_address requirements.asset,
  text_eq_iff call.function_name (codes "transfer"),
)

pub check_call-CallFits :
    (cfg : SchemeConfig) (requirements : PaymentRequirements) (call : ContractCall) (payer : Native)
    (amount : ℤ)
    → check_call cfg requirements call ≡ go (payer, amount)
    → CallFits cfg requirements call payer amount
check_call-CallFits cfg requirements call payer amount h =
    let (asset, function, first, second, third, args, checked) =
      call_checks cfg requirements call payer amount h in
    let fits = check_args-ArgsFit cfg requirements first second third payer amount checked in
    let same = transfer_args-go call.args first second third args in
    record {
      asset = asset;
      function = function;
      args = cc (same, fits.sender, fits.recipient, fits.paid);
      exact = fits.exact;
      payer_foreign = fits.payer_foreign;
    }

pub check_simulation-fee :
    (rpc : Rpc) (cfg : SchemeConfig) (transaction : Transaction) (payer : Native) (sim : SimSuccess)
    → check_simulation rpc cfg transaction payer ≡ go sim
    → (rpc.simulate transaction ≡ some (success sim))
      × (sim.min_resource_fee ≤ transaction.fee)
      × (transaction.fee ≤ cfg.max_transaction_fee_stroops)
unfolding check_simulation
check_simulation-fee rpc cfg transaction payer sim h = ground arith

pub decode_transaction-go :
    (rpc : Rpc) (passphrase : Text) (payload : PaymentPayload) (transaction : Transaction)
    → decode_transaction rpc passphrase payload ≡ go transaction
    → (envelope : Text) × (payload.transaction ≡ some envelope)
      × (rpc.parse_transaction envelope passphrase ≡ some transaction)
unfolding decode_transaction
decode_transaction-go rpc passphrase payload transaction h = ground arith
