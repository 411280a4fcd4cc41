-- ===== src/Facilitator/Soundness.antt =====
-- What a payment that `verify` calls valid is: the facilitator may submit it.
use verivyx_monorepo.Prelude.{ℕ, ◌≤◌, ◌≡◌, subst, ◌≢◌, some, or_default, [], ◌∷◌, Text, All, arith}
use verivyx_monorepo.Prelude.Int.{ℤ}
use verivyx_monorepo.Facilitator.Types.{
  Native, str, big, ContractCall, InvokeOp, Transaction, SimSuccess, success, PaymentRequirements,
  PaymentPayload, ContractEvent, valid, Checked, go, stop, bind-go,
}
use verivyx_monorepo.Facilitator.Events.{validate_simulation_events}
use verivyx_monorepo.Facilitator.Auth.{Limit, validate_auth_entries}
use verivyx_monorepo.Facilitator.Verify.{
  Rpc, SchemeConfig, default_timeout_seconds, max_ledger, estimated_close_seconds, check_protocol,
  get_rpc_client, decode_transaction, check_structure, check_call, check_simulation, check_effects,
  verify_steps, respond, verify,
}
use verivyx_monorepo.Facilitator.Stages.{
  ProtocolFits, check_protocol-ProtocolFits, StructureFits, check_structure-StructureFits, CallFits,
  check_call-CallFits, check_simulation-fee, decode_transaction-go,
}
use verivyx_monorepo.Facilitator.Effects.{
  contract_events, IsTransfer, validate_simulation_events-IsTransfer,
}
use verivyx_monorepo.Facilitator.Signatures.{
  EntryFits, PayerSigned, validate_auth_entries-PayerSigned,
}

module _ (rpc : Rpc) (cfg : SchemeConfig) (requirements : PaymentRequirements) where
  -- The last ledger in which a signature may expire, as the server sees the chain.
  abbrev pub expiry_limit : ℕ → Limit
  expiry_limit current =
      max_ledger current (or_default requirements.max_timeout_seconds default_timeout_seconds)
        (estimated_close_seconds rpc.sample_ledgers)

  effects_checks :
      (transaction : Transaction) (op : InvokeOp) (payer payer' : Native) (amount : ℤ)
      (sim : SimSuccess)
      → check_effects rpc cfg requirements transaction op payer amount sim ≡ go payer'
      → (current : ℕ) × (rpc.latest_ledger ≡ some current)
        × (payer ≡ payer')
        × (validate_simulation_events sim.events payer requirements.pay_to amount requirements.asset
            ≡ go tt)
        × (validate_auth_entries op cfg.signing_addresses payer
              (expiry_limit current)
              (rpc.assemble transaction sim)
            ≡ go tt)
  unfolding check_effects
  effects_checks transaction op payer payer' amount sim h = ground arith

  steps_checks :
      (payload : PaymentPayload) (payer' : Native)
      → verify_steps rpc cfg payload requirements ≡ go payer'
      → (passphrase : Text) × (transaction : Transaction) × (op : InvokeOp) × (call : ContractCall)
        × (payer : Native) × (amount : ℤ) × (sim : SimSuccess) × (check_protocol payload
              requirements
            ≡ go passphrase)
        × (decode_transaction rpc passphrase payload ≡ go transaction)
        × (check_structure cfg transaction ≡ go (op, call))
        × (check_call cfg requirements call ≡ go (payer, amount))
        × (check_simulation rpc cfg transaction payer ≡ go sim)
        × (check_effects rpc cfg requirements transaction op payer amount sim ≡ go payer')
  unfolding verify_steps
  steps_checks payload payer' h =
      let (passphrase, protocol, h1) = bind-go (check_protocol payload requirements) _ h in
      let (_, opened, h2) = bind-go (get_rpc_client rpc cfg requirements) _ h1 in
      let (transaction, decoded, h3) = bind-go (decode_transaction rpc passphrase payload) _ h2 in
      let ((op, call), structure, h4) = bind-go (check_structure cfg transaction) _ h3 in
      let ((payer, amount), called, h5) = bind-go (check_call cfg requirements call) _ h4 in
      let (sim, simulated, effects) = bind-go (check_simulation rpc cfg transaction payer) _ h5 in
      (
        passphrase, transaction, op, call, payer, amount, sim, protocol, decoded, structure, called,
        simulated, effects,
      )

-- Everything that a valid payment is checked for, with the values that the checks found.
pub record Verified (rpc : Rpc) (cfg : SchemeConfig) (payload : PaymentPayload)
    (requirements : PaymentRequirements) (payer : Native) : Type 0 where
  pub passphrase : Text
  pub protocol : ProtocolFits payload requirements passphrase
  pub envelope : Text
  pub sent : payload.transaction ≡ some envelope
  pub transaction : Transaction
  pub parsed : rpc.parse_transaction envelope passphrase ≡ some transaction
  pub op : InvokeOp
  pub call : ContractCall
  pub structure : StructureFits cfg transaction op call
  pub amount : ℤ
  pub transfer : CallFits cfg requirements call payer amount
  pub sim : SimSuccess
  pub simulated : rpc.simulate transaction ≡ some (success sim)
  pub fee_enough : sim.min_resource_fee ≤ transaction.fee
  pub fee_capped : transaction.fee ≤ cfg.max_transaction_fee_stroops
  pub event : ContractEvent
  pub only_event : contract_events sim.events ≡ event ∷ []
  pub moves : IsTransfer requirements.asset payer (str requirements.pay_to) (big amount) event
  pub current : ℕ
  pub latest : rpc.latest_ledger ≡ some current
  pub authorized : op.auth ≢ []
  pub entries :
      All (EntryFits cfg.signing_addresses (expiry_limit rpc cfg requirements current)) op.auth
  pub signed : PayerSigned (rpc.assemble transaction sim) payer

effects-Verified :
    (rpc : Rpc) (cfg : SchemeConfig) (payload : PaymentPayload) (requirements : PaymentRequirements)
    (payer payer' : Native) (passphrase : Text) (transaction : Transaction) (op : InvokeOp)
    (call : ContractCall) (amount : ℤ) (sim : SimSuccess)
    → check_protocol payload requirements ≡ go passphrase
    → decode_transaction rpc passphrase payload ≡ go transaction
    → check_structure cfg transaction ≡ go (op, call)
    → check_call cfg requirements call ≡ go (payer, amount)
    → check_simulation rpc cfg transaction payer ≡ go sim
    → check_effects rpc cfg requirements transaction op payer amount sim ≡ go payer'
    → Verified rpc cfg payload requirements payer'
effects-Verified rpc cfg payload requirements payer payer' passphrase transaction op call amount sim
      protocol decoded structure called checked effects =
    let (envelope, sent, parsed) =
      decode_transaction-go rpc passphrase payload transaction decoded in
    let (simulated, enough, capped) = check_simulation-fee rpc cfg transaction payer sim checked in
    let (current, latest, same, events, auth) =
      effects_checks rpc cfg requirements transaction op payer payer' amount sim effects in
    let (event, only, moves) =
      validate_simulation_events-IsTransfer payer requirements.asset sim.events requirements.pay_to
        amount events in
    let (authorized, entries, signed) =
      validate_auth_entries-PayerSigned op cfg.signing_addresses payer
        (expiry_limit rpc cfg requirements current) (rpc.assemble transaction sim) auth in
    let found : Verified rpc cfg payload requirements payer = record {
      passphrase = passphrase;
      protocol = check_protocol-ProtocolFits payload requirements passphrase protocol;
      envelope = envelope;
      sent = sent;
      transaction = transaction;
      parsed = parsed;
      op = op;
      call = call;
      structure = check_structure-StructureFits cfg transaction op call structure;
      amount = amount;
      transfer = check_call-CallFits cfg requirements call payer amount called;
      sim = sim;
      simulated = simulated;
      fee_enough = enough;
      fee_capped = capped;
      event = event;
      only_event = only;
      moves = moves;
      current = current;
      latest = latest;
      authorized = authorized;
      entries = entries;
      signed = signed;
    } in
    subst (Verified rpc cfg payload requirements) same found

respond-valid : (m : Checked Native) (payer : Native) → respond m ≡ valid payer → m ≡ go payer
respond-valid (go p) payer h = ground arith
respond-valid (stop reason p) payer h = cc

-- A payment that `verify` calls valid, with its payer, is everything that `Verified` lists: the
-- protocol fits; the transaction is one call of `transfer` on the required asset, from the payer
-- to the required recipient, of exactly the required amount; no signing address of the facilitator is
-- a source of it, its payer, or the address of one of its authorization entries; its fee lies
-- between the simulated minimum and the cap; the simulation's only contract event is that
-- transfer; every authorization entry is an address's, expires by the limit and has no
-- sub-invocations; and the payer has signed, with no signature pending, in the assembled
-- transaction.
pub verify-Verified :
    (rpc : Rpc) (cfg : SchemeConfig) (payload : PaymentPayload) (requirements : PaymentRequirements)
    (payer : Native)
    → verify rpc cfg payload requirements ≡ valid payer
    → Verified rpc cfg payload requirements payer
unfolding verify
verify-Verified rpc cfg payload requirements payer h =
    let (passphrase, transaction, op, call, payer', amount, sim, p, d, s, c, f, e) =
      steps_checks rpc cfg requirements payload payer (respond-valid _ payer h) in
    effects-Verified rpc cfg payload requirements payer' payer passphrase transaction op call amount
      sim p d s c f e
