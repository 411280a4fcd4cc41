-- ===== src/Payments/Types.antt =====
-- The values of chains/payments.ts: requests, results, and what a call sends out.
use verivyx_monorepo.Prelude.{ℕ, Bool, Option, List, Text}
use verivyx_monorepo.Payments.Guard.{Network}

pub data HttpMethod : Type 0 where
  get post : HttpMethod

pub record PayInput : Type 0 where
  pub url : Text
  pub method : HttpMethod
  pub body : Option Text
  pub headers : List (Text × Text)

pub record Requirements : Type 0 where
  pub network : Text
  pub asset : Option Text
  pub amount : Text
  pub pay_to : Text

-- A JSON value as `extractAccepts` sees it: no object, or an object with its entries under `accepts`
-- if that is a list, and itself if it is a requirement. Entries that are none are left out.
pub data Json : Type 0 where
  no_object : Json
  json_object : (accepts : Option (List Requirements)) (itself : Option Requirements) → Json

pub record HttpReply : Type 0 where
  pub status : ℕ
  pub body : Text
  pub content_type : Option Text
  pub payment_required : Option Text

pub record Chain : Type 0 where
  pub caip2 : Text
  pub usdc_decimals : ℕ

pub record Config : Type 0 where
  pub fee_usdc : Text
  pub allowed_payment_prefixes : List Text
  pub stellar : Chain
  pub evm : Option Chain
  pub solana : Option Chain

-- How a caller pays Stellar resources, and whether there are rails of other chains.
pub record Mode : Type 0 where
  pub is_non_custodial : Bool
  pub no_wallet_linked : Bool
  pub stellar_only : Bool

-- A receipt of a settlement, with its network if it names one.
pub record Receipt : Type 0 where
  pub network : Option Text

-- What a call sends out, in order.
pub data Effect : Type 0 where
  probed paid_fetch : Text → Effect
  fee_charged fee_charged_non_custodial : Text → Effect

pub data FeeError : Type 0 where
  no_wallet unknown_network no_rail : FeeError
  charge_failed : Text → FeeError

pub record PayResult : Type 0 where
  pub status : ℕ
  pub ok : Bool
  pub payment_made : Bool
  pub chain : Option Text
  pub fee_receipt : Option Text
  pub fee_error : Option FeeError

pub record QuoteResult : Type 0 where
  pub payment_required : Bool
  pub chain : Option Text
  pub asset : Option Text
  pub resource_amount : Option Text
  pub service_fee : Text
  pub total_estimate : Option Text
  pub pay_to : Option Text

-- The result and the effects, or the effects up to an error that is thrown.
pub data Run (A : Type 0) : Type 0 where
  returned : A → List Effect → Run A
  thrown : List Effect → Run A

-- What is not in the repository: the network, the x402 client with the wallets, and the JSON
-- parser. A fetch is `none` if it throws; a charge gives a receipt, or the message of an error.
pub record World : Type 0 where
  pub network : Network
  pub fetch : PayInput → Option HttpReply
  pub fetch_with_payment : PayInput → Option (HttpReply × Option Receipt)
  pub charge : Text → Option Text × Text
  pub charge_non_custodial : Option Text × Text
  pub parse_json : Text → Option Json
  pub decode_header : Text → Option Json
