-- ===== src/Facilitator/Tests.antt =====
-- A payment that passes `verify`, payments that do not, and the theorem at the first.
use verivyx_monorepo.Prelude.{
  ◌≡◌, refl, ◌↔◌, true, or_default, if◌then◌else◌, ◌==◌, none, some, List, [], ◌∷◌, Text, codes,
  text_eq, has,
}
use verivyx_monorepo.Prelude.Int.{pos}
use verivyx_monorepo.Prelude.Parse.{big_int}
use verivyx_monorepo.Facilitator.Types.{
  str, big, native_eq, has_native, ContractCall, address, invoke_host_function, Transaction,
  ContractEvent, contract, other_event, success, PaymentRequirements, PaymentPayload, valid,
  invalid, wrong_amount, multiple_transfers, signature_expiration_too_far, fee_exceeds_maximum,
}
use verivyx_monorepo.Facilitator.Verify.{Rpc, SchemeConfig, verify}
use verivyx_monorepo.Facilitator.Settle.{
  confirmed, pending, poll_for_transaction, round_robin_select, Network, signed, settled, unsettled,
  verification, signer_selection_failed, settle, open_network, settle_steps, read_envelope, rebuild,
  submit, bump,
}
use verivyx_monorepo.Facilitator.Settlement.{
  ConfirmedWithin, poll_for_transaction_iff, Settlement, settle-Settlement,
}
use verivyx_monorepo.Facilitator.Soundness.{Verified, verify-Verified}

abbrev token : Text
token = codes "CUSDC"

abbrev transfer_event : ContractEvent
transfer_event = record {
  topics =
      record { symbol = some (codes "transfer"); native = none }
      ∷ record { symbol = none; native = some (str (codes "GPAYER")) }
      ∷ record { symbol = none; native = some (str (codes "GSHOP")) }
      ∷ [];
  contract_id = some token;
  payload = some (big (pos 500));
}

abbrev transfer_call : ContractCall
transfer_call = record {
  contract_address = token;
  function_name = codes "transfer";
  args = some (str (codes "GPAYER")) ∷ some (str (codes "GSHOP")) ∷ some (big (pos 500)) ∷ [];
}

abbrev transfer_tx : Transaction
transfer_tx = record {
  source = codes "GPAYER";
  operations =
      invoke_host_function (record {
        source = none;
        call = some transfer_call;
        auth = record { credentials = address (codes "GPAYER") 112 true; sub_invocations = 0 } ∷ [];
      })
      ∷ [];
  fee = 300;
  preconditions = [];
}

abbrev testnet_rpc : Rpc
testnet_rpc = record {
  open_server = λ url allow_http. true;
  parse_transaction = λ envelope passphrase. some transfer_tx;
  simulate = λ tx. some (
      success
        (record { min_resource_fee = 100; events = other_event ∷ contract transfer_event ∷ [] }));
  latest_ledger = some 100;
  sample_ledgers = some (1000 ∷ []);
  assemble = λ tx sim. some tx;
}

abbrev facilitator_config : SchemeConfig
facilitator_config = record {
  signing_addresses = codes "GFACILITATOR" ∷ [];
  max_transaction_fee_stroops = 50000;
  rpc_url = none;
}

abbrev shop : PaymentRequirements
shop = record {
  scheme = codes "exact";
  network = codes "stellar:testnet";
  asset = token;
  pay_to = codes "GSHOP";
  amount = codes "500";
  max_timeout_seconds = none;
}

abbrev presented : PaymentPayload
presented = record {
  x402_version = 2;
  scheme = codes "exact";
  network = codes "stellar:testnet";
  transaction = some (codes "AAAA");
}

verify_all : Unit {0}
unfolding verify has text_eq native_eq has_native big_int
verify_all = tt

payment_passes : verify testnet_rpc facilitator_config presented shop ≡ valid (str (codes "GPAYER"))
unfolding verify_all
payment_passes = refl

underpaid :
    verify testnet_rpc facilitator_config presented (record shop { amount = codes "501" })
    ≡ invalid wrong_amount (some (str (codes "GPAYER")))
unfolding verify_all
underpaid = refl

-- With a shorter timeout the signature lives too long: 100 + ceil(40 / 5) + 2 < 112.
expires_late :
    verify testnet_rpc facilitator_config presented (record shop { max_timeout_seconds = some 40 })
    ≡ invalid signature_expiration_too_far (some (str (codes "GPAYER")))
unfolding verify_all
expires_late = refl

fee_too_high :
    verify testnet_rpc
      (record facilitator_config { max_transaction_fee_stroops = 200 })
      presented
      shop
    ≡ invalid fee_exceeds_maximum none
unfolding verify_all
fee_too_high = refl

twice_transferred :
    verify
      (record testnet_rpc {
        simulate = λ tx. some (
            success (record {
              min_resource_fee = 100;
              events = contract transfer_event ∷ contract transfer_event ∷ [];
            }));
      })
      facilitator_config
      presented
      shop
    ≡ invalid multiple_transfers (some (str (codes "GPAYER")))
unfolding verify_all
twice_transferred = refl

verify-Verified_example :
    Verified testnet_rpc facilitator_config presented shop (str (codes "GPAYER"))
verify-Verified_example =
    verify-Verified testnet_rpc facilitator_config presented shop (str (codes "GPAYER"))
      payment_passes

abbrev testnet : Network
testnet = record {
  soroban_data = λ envelope. some (some (codes "DATA"));
  get_account = λ address. true;
  sign = λ address tx. signed;
  send = λ tx. some (some (codes "HASH"));
  get_transaction = λ hash attempt. if attempt == 3 then confirmed else pending;
}

abbrev select_first : List Text → Text
select_first addrs = or_default (round_robin_select 0 addrs).0 []

settle_all : Unit {0}
unfolding verify_all settle open_network settle_steps read_envelope rebuild submit bump
    poll_for_transaction round_robin_select
settle_all = tt

payment_settles :
    settle testnet_rpc testnet facilitator_config select_first none presented shop
    ≡ settled (codes "HASH") (str (codes "GPAYER"))
unfolding settle_all
payment_settles = refl

-- With ledgers a second apart the same timeout allows fewer ledgers.
settles_late :
    settle
      (record testnet_rpc { sample_ledgers = some (1 ∷ 2 ∷ []) })
      testnet
      facilitator_config
      select_first
      (some (codes "GBUMP"))
      presented
      (record shop { max_timeout_seconds = some 3 })
    ≡ unsettled (verification signature_expiration_too_far) [] (some (str (codes "GPAYER")))
unfolding settle_all
settles_late = refl

no_signer :
    settle testnet_rpc testnet facilitator_config (λ addrs. codes "GNOBODY") none presented shop
    ≡ unsettled signer_selection_failed [] (some (str (codes "GPAYER")))
unfolding settle_all
no_signer = refl

settle-Settlement_example :
    Settlement testnet_rpc testnet facilitator_config select_first none shop presented
      (codes "HASH")
      (str (codes "GPAYER"))
unfolding settle_all
settle-Settlement_example =
    settle-Settlement testnet_rpc testnet facilitator_config select_first none shop presented
      (codes "HASH") (str (codes "GPAYER")) payment_settles

poll_for_transaction_iff_example :
    (poll_for_transaction (testnet.get_transaction []) 4 ≡ true)
    ↔ ConfirmedWithin (testnet.get_transaction []) 0 4
poll_for_transaction_iff_example = poll_for_transaction_iff (testnet.get_transaction []) 4
