-- ===== src/Payments/Service.antt =====
-- chains/payments.ts of the MCP server: quoting and paying a resource.
pub mod Charges
pub mod Laws
use verivyx_monorepo.Prelude.{
  ℕ, ◌+◌, Bool, true, false, not, ◌&&◌, ◌||◌, Option, none, some, or_default, List, [], ◌∷◌, ◌++◌,
  Text, codes, text_eq, has, starts_with, includes, ltb, leb, ◌==◌, length, any, find, filter, map,
  if◌then◌else◌,
}
use verivyx_monorepo.Gate.Detect.{lower_case}
use verivyx_monorepo.Payments.Money.{
  atoms_to_decimal_string, decimal_to_base_units, add_decimal_strings,
}
use verivyx_monorepo.Payments.Guard.{Network, Verdict, safe, assert_public_https_url}
use verivyx_monorepo.Payments.Types.{
  Chain, Config, Effect, FeeError, HttpMethod, HttpReply, Json, Mode, PayInput, PayResult,
  QuoteResult, Receipt, Requirements, Run, World, charge_failed, fee_charged,
  fee_charged_non_custodial, get, json_object, no_object, no_rail, no_wallet, paid_fetch, post,
  probed, returned, thrown, unknown_network,
}

abbrev is_safe : Verdict → Bool
is_safe safe = true
is_safe _ = false

abbrev is_some : Option Chain → Bool
is_some none = false
is_some (some c) = true

abbrev pub is_ok : ℕ → Bool
is_ok status = leb 200 status && ltb status 300

module _ (world : World) (config : Config) (mode : Mode) where
  unfoldable pub assert_url_allowed : Text → Bool
  assert_url_allowed url =
      any (starts_with url) config.allowed_payment_prefixes
      || is_safe (assert_public_https_url world.network url)

  abbrev parsed_json : Text → Bool → Json
  parsed_json body false = no_object
  parsed_json body true = or_default (world.parse_json body) no_object

  unfoldable pub try_parse_body : Text → Option Text → Json
  unfolding lower_case
  try_parse_body [] content_type = no_object
  try_parse_body (c ∷ t) content_type =
      parsed_json (c ∷ t)
        (includes (lower_case (or_default content_type [])) (codes "application/json"))

  abbrev from_object : Json → List Requirements
  from_object no_object = []
  from_object (json_object (some accepts) itself) = accepts
  from_object (json_object none (some itself)) = itself ∷ []
  from_object (json_object none none) = []

  abbrev from_header : Option Text → List Requirements
  from_header none = []
  from_header (some []) = []
  from_header (some (c ∷ t)) = from_object (or_default (world.decode_header (c ∷ t)) no_object)

  abbrev or_header : List Requirements → Option Text → List Requirements
  or_header [] header = from_header header
  or_header (a ∷ accepts) header = a ∷ accepts

  unfoldable pub extract_accepts : Json → Option Text → List Requirements
  extract_accepts body header = or_header (from_object body) header

  abbrev decimals_of : Option Chain → ℕ
  decimals_of none = 6
  decimals_of (some c) = c.usdc_decimals

  unfoldable pub decimals_for_network : Text → ℕ
  decimals_for_network network =
      if starts_with network (codes "stellar:")
      then config.stellar.usdc_decimals
      else if starts_with network (codes "eip155:")
      then decimals_of config.evm
      else if starts_with network (codes "solana:")
      then decimals_of config.solana
      else 6

  abbrev caip2_of : Option Chain → List Text
  caip2_of none = []
  caip2_of (some c) = c.caip2 ∷ []

  unfoldable pub can_pay : Text → Bool
  can_pay network =
      has (config.stellar.caip2 ∷ caip2_of config.evm ++ caip2_of config.solana) network
      || starts_with network (codes "stellar:")
      || (starts_with network (codes "eip155:") && is_some config.evm)
      || (starts_with network (codes "solana:") && is_some config.solana)

  abbrev first_of : List Requirements → Option Requirements
  first_of [] = none
  first_of (a ∷ accepts) = some a

  abbrev payable_or_first : Option Requirements → List Requirements → Option Requirements
  payable_or_first (some a) accepts = some a
  payable_or_first none accepts = first_of accepts

  unfoldable pub choose_entry : List Requirements → Option Requirements
  unfolding can_pay
  choose_entry accepts = payable_or_first (find (λ a. can_pay a.network) accepts) accepts

  abbrev free_quote : QuoteResult
  free_quote = record {
    payment_required = false;
    chain = none;
    asset = none;
    resource_amount = none;
    service_fee = config.fee_usdc;
    total_estimate = none;
    pay_to = none;
  }

  -- `none` if an amount is no decimal text, which throws.
  abbrev quote_of : Option Requirements → Option QuoteResult
  unfolding decimals_for_network
  quote_of none = some (record free_quote { payment_required = true })
  quote_of (some entry) =
      let amount = atoms_to_decimal_string entry.amount (decimals_for_network entry.network) in
      elim (add_decimal_strings amount config.fee_usdc) [
        | none ↦ none
        | some total ↦ some (record {
          payment_required = true;
          chain = some entry.network;
          asset = entry.asset;
          resource_amount = some amount;
          service_fee = config.fee_usdc;
          total_estimate = some total;
          pay_to = some entry.pay_to;
        })
      ]

  abbrev pub quote_reply : HttpReply → Option QuoteResult
  unfolding try_parse_body extract_accepts choose_entry quote_of
  quote_reply reply =
      if reply.status == 402
      then quote_of (
          choose_entry
            (extract_accepts (try_parse_body reply.body reply.content_type) reply.payment_required))
      else some free_quote

  abbrev pub quote_result : Text → Option QuoteResult → Run QuoteResult
  quote_result url none = thrown (probed url ∷ [])
  quote_result url (some q) = returned q (probed url ∷ [])

  abbrev pub quote_fetched : Text → Option HttpReply → Run QuoteResult
  unfolding quote_reply
  quote_fetched url none = thrown (probed url ∷ [])
  quote_fetched url (some reply) = quote_result url (quote_reply reply)

  -- An address that is not allowed throws before anything is sent.
  unfoldable pub quote : PayInput → Run QuoteResult
  unfolding assert_url_allowed quote_fetched
  quote input =
      if assert_url_allowed input.url
      then quote_fetched input.url (world.fetch input)
      else thrown []

  abbrev pub has_fee_rail : Text → Bool
  has_fee_rail network =
      starts_with network (codes "stellar:")
      || (starts_with network (codes "eip155:") && is_some config.evm && not mode.stellar_only)
      || (starts_with network (codes "solana:") && is_some config.solana)

  -- A fee that is charged, or why it is not.
  pub record Fee : Type 0 where
    pub receipt : Option Text
    pub error : Option FeeError
    pub effects : List Effect

  abbrev pub no_fee : Fee
  no_fee = record { receipt = none; error = none; effects = [] }

  abbrev charged : Option Text × Text → Effect → Fee
  charged (some receipt, message) effect = record {
    receipt = some receipt;
    error = none;
    effects = effect ∷ [];
  }
  charged (none, message) effect = record {
    receipt = none;
    error = some (charge_failed message);
    effects = effect ∷ [];
  }

  abbrev pub custodial_fee : Option Text → Fee
  custodial_fee none = record { receipt = none; error = some unknown_network; effects = [] }
  custodial_fee (some chain) =
      if has_fee_rail chain
      then charged (world.charge chain) (fee_charged chain)
      else record { receipt = none; error = some no_rail; effects = [] }

  -- `none` throws: the fee is converted before the errors are caught.
  abbrev pub service_fee : Option Text → Option Fee
  unfolding decimal_to_base_units
  service_fee chain =
      if mode.is_non_custodial
      then (elim (decimal_to_base_units config.fee_usdc config.stellar.usdc_decimals) [
        | none ↦ none
        | some atomic ↦
            some
              (charged world.charge_non_custodial (fee_charged_non_custodial config.stellar.caip2))
      ])
      else some (custodial_fee chain)

  abbrev network_of : Option Receipt → Option Text
  network_of none = none
  network_of (some r) = r.network

  abbrev is_paid : Option Receipt → Bool
  is_paid none = false
  is_paid (some r) = true

  abbrev pub paid_result : HttpReply → Option Receipt → Fee → PayResult
  paid_result reply receipt fee = record {
    status = reply.status;
    ok = is_ok reply.status;
    payment_made = is_paid receipt;
    chain = network_of receipt;
    fee_receipt = fee.receipt;
    fee_error = fee.error;
  }

  abbrev pub with_fee : Text → HttpReply → Option Receipt → Option Fee → Run PayResult
  with_fee url reply receipt none = thrown (paid_fetch url ∷ [])
  with_fee url reply receipt (some fee) =
      returned (paid_result reply receipt fee) (paid_fetch url ∷ fee.effects)

  abbrev pub after_payment : Text → Option (HttpReply × Option Receipt) → Run PayResult
  unfolding service_fee
  after_payment url none = thrown (paid_fetch url ∷ [])
  after_payment url (some (reply, receipt)) = with_fee url reply receipt (
      if is_paid receipt && is_ok reply.status
      then service_fee (network_of receipt)
      else some no_fee)

  abbrev is_stellar_chain : Option Text → Bool
  is_stellar_chain none = true
  is_stellar_chain (some chain) = starts_with chain (codes "stellar:")

  abbrev pub refusal : QuoteResult → PayResult
  refusal q = record {
    status = 402;
    ok = false;
    payment_made = false;
    chain = q.chain;
    fee_receipt = none;
    fee_error = some no_wallet;
  }

  abbrev pub then_effects : List Effect → Run PayResult → Run PayResult
  then_effects effects (returned r later) = returned r (effects ++ later)
  then_effects effects (thrown later) = thrown (effects ++ later)

  abbrev pub unless_stellar : PayInput → Run QuoteResult → Run PayResult
  unfolding after_payment
  unless_stellar input (thrown effects) = thrown effects
  unless_stellar input (returned q effects) =
      if q.payment_required && is_stellar_chain q.chain
      then returned (refusal q) effects
      else then_effects effects (after_payment input.url (world.fetch_with_payment input))

  -- Without a linked wallet the resource is asked for its price first.
  unfoldable pub by_wallet : PayInput → Bool → Run PayResult
  unfolding unless_stellar
  by_wallet input true = unless_stellar input (quote input)
  by_wallet input false = after_payment input.url (world.fetch_with_payment input)

  unfoldable pub pay : PayInput → Run PayResult
  unfolding assert_url_allowed by_wallet
  pay input =
      if assert_url_allowed input.url then by_wallet input mode.no_wallet_linked else thrown []
