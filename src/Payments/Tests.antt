-- ===== src/Payments/Tests.antt =====
-- Payments at the MCP server, and the theorems at them.
use verivyx_monorepo.Prelude.{
  ◌≡◌, ◌↔◌, ◌⊎◌, refl, inl, Bool, true, false, none, some, List, [], ◌∷◌, Text, codes, text_eq, has,
  starts_with, includes, arith,
}
use verivyx_monorepo.Prelude.Int.{pos, negsuc}
use verivyx_monorepo.Prelude.Parse.{
  split, parse_int, signed_prefix, unsigned_prefix, trim, trim_start, trim_end, trim_end_step,
  is_space, to_lower, big_int, string_integer, after_zero, digits_value, digits_from,
}
use verivyx_monorepo.Prelude.Decimal.{show, show_fuel, pad_start, value}
use verivyx_monorepo.Gate.Detect.{lower_case}
use verivyx_monorepo.Gate.Ranges.{split_double_colon}
use verivyx_monorepo.Gate.Ranges.Laws.{address}
use verivyx_monorepo.Payments.Money.{
  strip_leading, strip_end, atoms_to_decimal_string, decimal_to_base_units, fraction_length,
  format_scaled, add_decimal_strings,
}
use verivyx_monorepo.Payments.Money.Laws.{decimal_to_base_units-atoms}
use verivyx_monorepo.Payments.Guard.{
  ipv4_to_number, is_blocked_number, is_blocked_v4, expand_v6, is_blocked_v6, mapped_match, Network,
  safe, is_blocked_ip, check_ips, assert_public_https_url,
}
use verivyx_monorepo.Payments.Guard.Laws.{
  IsReserved, IsPublic, is_blocked_ip-IsReserved, assert_public_https_url-IsPublic,
}
use verivyx_monorepo.Payments.Types.{
  PayInput, get, Requirements, json_object, Config, Mode, Effect, probed, paid_fetch, fee_charged,
  FeeError, PayResult, returned, World,
}
use verivyx_monorepo.Payments.Service.{
  assert_url_allowed, try_parse_body, extract_accepts, decimals_for_network, can_pay, choose_entry,
  quote, by_wallet, pay,
}
use verivyx_monorepo.Payments.Service.Laws.{IsAllowed, IsRefused, IsPassedOn, pay_answers}

payments_all : Unit {0}
unfolding text_eq has starts_with includes split parse_int signed_prefix unsigned_prefix trim
    trim_start trim_end trim_end_step is_space to_lower big_int string_integer after_zero
    digits_value digits_from show show_fuel pad_start lower_case split_double_colon strip_leading
    strip_end atoms_to_decimal_string decimal_to_base_units fraction_length format_scaled
    add_decimal_strings ipv4_to_number is_blocked_number is_blocked_v4 expand_v6 is_blocked_v6
    mapped_match is_blocked_ip check_ips assert_public_https_url assert_url_allowed try_parse_body
    extract_accepts decimals_for_network can_pay choose_entry quote by_wallet pay
payments_all = tt

decimal_to_base_units-atoms_example :
    decimal_to_base_units (atoms_to_decimal_string (codes "1500000") 6) 6
    ≡ some (pos (value (codes "1500000")))
decimal_to_base_units-atoms_example =
    decimal_to_base_units-atoms (codes "1500000") 6 refl (inl (omega arith))

printed : atoms_to_decimal_string (codes "1500000") 6 ≡ codes "1.5"
unfolding payments_all
printed = refl

added : add_decimal_strings (codes "0.01") (codes "1.5") ≡ some (codes "1.51")
unfolding payments_all
added = refl

-- A negative amount is printed, but its fraction is read as a positive one.
negative_read : decimal_to_base_units (atoms_to_decimal_string (codes "-15") 1) 1 ≡ some (negsuc 4)
unfolding payments_all
negative_read = refl

abbrev net : Network
net = record {
  is_ipv4 = λ ip. true;
  is_ipv6 = λ ip. false;
  parse_url = λ url. some (record { protocol = codes "https:"; hostname = codes "shop.example" });
  resolve = λ host. some (codes "93.184.216.34" ∷ []);
}

is_blocked_ip-IsReserved_example :
    (is_blocked_ip net (address 2851995649) ≡ true) ↔ IsReserved 2851995649
is_blocked_ip-IsReserved_example = is_blocked_ip-IsReserved net 2851995649 (omega arith) refl

metadata_blocked : is_blocked_ip net (codes "169.254.169.254") ≡ true
unfolding payments_all
metadata_blocked = refl

abbrev shop : Text
shop = codes "https://shop.example/item"

shop_safe : assert_public_https_url net shop ≡ safe
unfolding payments_all
shop_safe = refl

assert_public_https_url-IsPublic_example : IsPublic net shop
assert_public_https_url-IsPublic_example = assert_public_https_url-IsPublic net shop shop_safe

abbrev stellar_price : Requirements
stellar_price = record {
  network = codes "stellar:testnet";
  asset = none;
  amount = codes "100000";
  pay_to = codes "GSHOP";
}

abbrev world : World
world = record {
  network = net;
  fetch = λ input. some (record {
    status = 402;
    body = codes "{}";
    content_type = some (codes "application/json; charset=utf-8");
    payment_required = none;
  });
  fetch_with_payment = λ input. some (
    record { status = 200; body = codes "item"; content_type = none; payment_required = none },
    some (record { network = some (codes "stellar:testnet") }),
  );
  charge = λ chain. (none, codes "fee rail is down");
  charge_non_custodial = (none, codes "fee rail is down");
  parse_json = λ t. some (json_object (some (stellar_price ∷ [])) none);
  decode_header = λ t. none;
}

abbrev config : Config
config = record {
  fee_usdc = codes "0.01";
  allowed_payment_prefixes = [];
  stellar = record { caip2 = codes "stellar:testnet"; usdc_decimals = 7 };
  evm = none;
  solana = none;
}

abbrev mode : Bool → Mode
mode unlinked = record {
  is_non_custodial = false;
  no_wallet_linked = unlinked;
  stellar_only = false;
}

abbrev input : PayInput
input = record { url = shop; method = get; body = none; headers = [] }

abbrev answer_paid : PayResult
answer_paid = record {
  status = 200;
  ok = true;
  payment_made = true;
  chain = some (codes "stellar:testnet");
  fee_receipt = none;
  fee_error = some (FeeError.charge_failed (codes "fee rail is down"));
}

abbrev paid_effects : List Effect
paid_effects = paid_fetch shop ∷ fee_charged (codes "stellar:testnet") ∷ []

paid : pay world config (mode false) input ≡ returned answer_paid paid_effects
unfolding payments_all
paid = refl

pay_answers_example :
    IsAllowed world config (mode false) shop
    × (IsRefused world config (mode false) input answer_paid paid_effects
        ⊎ IsPassedOn world config (mode false) input answer_paid paid_effects)
pay_answers_example = pay_answers world config (mode false) input answer_paid paid_effects paid

unlinked_refused :
    pay world config (mode true) input
    ≡ returned
        (record {
          status = 402;
          ok = false;
          payment_made = false;
          chain = some (codes "stellar:testnet");
          fee_receipt = none;
          fee_error = some FeeError.no_wallet;
        })
        (probed shop ∷ [])
unfolding payments_all
unlinked_refused = refl
