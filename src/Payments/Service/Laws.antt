-- ===== src/Payments/Service/Laws.antt =====
-- Proofs about quoting and paying.
use verivyx_monorepo.Prelude.{
  ◌≡◌, ◌⊎◌, ◌∙◌, ap, refl, inl, inr, subst, Bool, true, false, ◌&&◌, Option, none, some, List, [],
  ◌∷◌, ◌++◌, Text, starts_with, any, All, Bool-cases, arith,
}
use verivyx_monorepo.Payments.Guard.{
  Verdict, safe, invalid_url, not_https, resolver_failed, unresolved, blocked,
  assert_public_https_url,
}
use verivyx_monorepo.Payments.Guard.Laws.{IsPublic, assert_public_https_url-IsPublic}
use verivyx_monorepo.Payments.Types.{
  PayInput, HttpReply, Config, Mode, Receipt, Effect, probed, paid_fetch, PayResult, QuoteResult,
  Run, returned, thrown, World,
}
use verivyx_monorepo.Payments.Service.{
  is_safe, assert_url_allowed, quote_reply, quote_result, quote_fetched, quote, Fee, no_fee,
  service_fee, paid_result, after_payment, is_ok, network_of, is_paid, is_stellar_chain, refusal,
  then_effects, unless_stellar, by_wallet, pay,
}
use verivyx_monorepo.Payments.Service.Charges.{AtMostOne, IsPaidFor, after_payment-IsPaidFor}

abbrev pub effects_of : {A : Type 0} → Run A → List Effect
effects_of (returned a effects) = effects
effects_of (thrown effects) = effects

module _ (world : World) (config : Config) (mode : Mode) where
  -- A trusted prefix, or a public https URL.
  abbrev pub IsAllowed : Text → Type 0
  IsAllowed url =
      (any (starts_with url) config.allowed_payment_prefixes ≡ true) ⊎ IsPublic world.network url

  is_safe_sound : (v : Verdict) → is_safe v ≡ true → v ≡ safe
  is_safe_sound safe h = refl
  is_safe_sound invalid_url h = cc
  is_safe_sound not_https h = cc
  is_safe_sound resolver_failed h = cc
  is_safe_sound unresolved h = cc
  is_safe_sound (blocked ip) h = cc

  assert_url_allowed-IsAllowed :
      (url : Text) → assert_url_allowed world config mode url ≡ true → IsAllowed url
  unfolding assert_url_allowed
  assert_url_allowed-IsAllowed url h =
      elim (Bool-cases (any (starts_with url) config.allowed_payment_prefixes)) [
        | inl trusted ↦ inl trusted
        | inr other ↦ inr (
            assert_public_https_url-IsPublic world.network url
              (is_safe_sound (assert_public_https_url world.network url) (rw other at h)))
      ]

  -- The resource was asked for its price.
  abbrev pub IsProbe : Text → Effect → Type 0
  IsProbe url e = e ≡ probed url

  -- The quoted price is to be paid on Stellar.
  abbrev pub NeedsWallet : QuoteResult → Type 0
  NeedsWallet price =
      (price.payment_required ≡ true) × (is_stellar_chain world config mode price.chain ≡ true)

  abbrev pub NeedsNoWallet : QuoteResult → Type 0
  NeedsNoWallet price =
      (price.payment_required ≡ false) ⊎ (is_stellar_chain world config mode price.chain ≡ false)

  -- The caller is told to link a wallet: nothing but the question for the price is sent.
  pub record IsRefused (input : PayInput) (r : PayResult) (effects : List Effect) : Type 0 where
    pub unlinked : mode.no_wallet_linked ≡ true
    pub price : QuoteResult
    pub quoted : quote world config mode input ≡ returned price effects
    pub needed : NeedsWallet price
    pub result : r ≡ refusal world config mode price
    pub unpaid : All (IsProbe input.url) effects

  -- What was asked before: nothing with a linked wallet, and else the price, which needs none.
  abbrev pub MayPay : PayInput → List Effect → Type 0
  MayPay input before =
      ((mode.no_wallet_linked ≡ false) × (before ≡ []))
      ⊎ ((price : QuoteResult) × (quote world config mode input ≡ returned price before)
          × NeedsNoWallet price
          × All (IsProbe input.url) before)

  -- The answer to the one paying fetch, and at most one charge of a fee, for a payment that was made
  -- and served.
  pub record IsPassedOn (input : PayInput) (r : PayResult) (effects : List Effect) : Type 0 where
    pub before : List Effect
    pub may_pay : MayPay input before
    pub reply : HttpReply
    pub receipt : Option Receipt
    pub fee : Fee world config mode
    pub answered : world.fetch_with_payment input ≡ some (reply, receipt)
    pub result : r ≡ paid_result world config mode reply receipt fee
    pub sent : effects ≡ before ++ (paid_fetch input.url ∷ fee.effects)
    pub at_most_one : AtMostOne world config mode fee.effects
    pub due :
        ((fee ≡ no_fee world config mode)
          × ((is_paid world config mode receipt ≡ false) ⊎ (is_ok reply.status ≡ false)))
        ⊎ ((is_paid world config mode receipt ≡ true)
            × (is_ok reply.status ≡ true)
            × (service_fee world config mode (network_of world config mode receipt) ≡ some fee))

  paid_for-IsPassedOn :
      (input : PayInput) (r : PayResult) (before later effects : List Effect)
      → MayPay input before
      → effects ≡ before ++ later
      → IsPaidFor world config mode input r later
      → IsPassedOn input r effects
  paid_for-IsPassedOn input r before later effects may joined paid = record {
    before = before;
    may_pay = may;
    reply = paid.reply;
    receipt = paid.receipt;
    fee = paid.fee;
    answered = paid.answered;
    result = paid.result;
    sent = joined ∙ ap (λ x. before ++ x) paid.sent;
    at_most_one = paid.at_most_one;
    due = paid.due;
  }

  then_effects_inv :
      (before : List Effect) (run : Run PayResult) (r : PayResult) (effects : List Effect)
      → then_effects world config mode before run ≡ returned r effects
      → (later : List Effect) × (run ≡ returned r later) × (effects ≡ before ++ later)
  then_effects_inv before (returned s later) r effects h = (later, cc, cc)
  then_effects_inv before (thrown later) r effects h = absurd (cc h)

  -- A quote sends a probe at most.
  quote-unpaid :
      (input : PayInput) → All (IsProbe input.url) (effects_of (quote world config mode input))
  unfolding quote quote_fetched
  quote-unpaid input = elim (Bool-cases (assert_url_allowed world config mode input.url)) [
    | inr refused ↦ rw refused tt
    | inl allowed ↦ rw allowed (by_reply (world.fetch input))
  ]
    where
      by_quote :
          (q : Option QuoteResult)
          → All (IsProbe input.url) (effects_of (quote_result world config mode input.url q))
      by_quote none = (refl, tt)
      by_quote (some q) = (refl, tt)

      by_reply :
          (o : Option HttpReply)
          → All (IsProbe input.url) (effects_of (quote_fetched world config mode input.url o))
      by_reply none = (refl, tt)
      by_reply (some reply) = by_quote (quote_reply world config mode reply)

  unless_stellar_inv :
      (input : PayInput) (run : Run QuoteResult) (r : PayResult) (effects : List Effect)
      → mode.no_wallet_linked ≡ true
      → quote world config mode input ≡ run
      → All (IsProbe input.url) (effects_of run)
      → unless_stellar world config mode input run ≡ returned r effects
      → IsRefused input r effects ⊎ IsPassedOn input r effects
  unfolding unless_stellar
  unless_stellar_inv input (thrown before) r effects unlinked quoted unpaid h = absurd (cc h)
  unless_stellar_inv input (returned q before) r effects unlinked quoted unpaid h =
      elim (Bool-cases (q.payment_required && is_stellar_chain world config mode q.chain)) [
        | inl stellar ↦
            let same : returned (refusal world config mode q) before ≡ returned r effects =
              rw stellar at h in
            let kept : before ≡ effects = cc in
            inl (record {
              unlinked = unlinked;
              price = q;
              quoted = cc;
              needed = (ground arith, ground arith);
              result = cc;
              unpaid = subst (All (IsProbe input.url)) kept unpaid;
            })
        | inr other ↦
            let (later, run, joined) =
              then_effects_inv before
                (after_payment world config mode input.url (world.fetch_with_payment input)) r
                effects (rw other at h) in
            inr (
              paid_for-IsPassedOn input r before later effects
                (inr (q, quoted, ground arith, unpaid)) joined
                (after_payment-IsPaidFor world config mode input (world.fetch_with_payment input) r
                  later refl run))
      ]

  by_wallet_inv :
      (input : PayInput) (unlinked : Bool) (r : PayResult) (effects : List Effect)
      → mode.no_wallet_linked ≡ unlinked
      → by_wallet world config mode input unlinked ≡ returned r effects
      → IsRefused input r effects ⊎ IsPassedOn input r effects
  unfolding by_wallet
  by_wallet_inv input true r effects unlinked h =
      unless_stellar_inv input (quote world config mode input) r effects unlinked refl
        (quote-unpaid input) h
  by_wallet_inv input false r effects linked h = inr (
      paid_for-IsPassedOn input r [] effects effects (inl (linked, refl)) refl (
        after_payment-IsPaidFor world config mode input (world.fetch_with_payment input) r effects
          refl h))

  -- A payment is answered only for a URL that is allowed. Without a linked wallet the resource is
  -- asked for its price; if that is to be paid on Stellar, the answer is the refusal that tells the
  -- caller to link a wallet, and nothing else is sent. In all other cases there is exactly one
  -- paying fetch, and its answer is passed on with the fee's receipt or error; after it at most one
  -- fee is charged, and only for a payment that was made and served.
  pub pay_answers :
      (input : PayInput) (r : PayResult) (effects : List Effect)
      → pay world config mode input ≡ returned r effects
      → IsAllowed input.url × (IsRefused input r effects ⊎ IsPassedOn input r effects)
  unfolding pay
  pay_answers input r effects h =
      elim (Bool-cases (assert_url_allowed world config mode input.url)) [
        | inr refused ↦ absurd (cc (rw refused at h))
        | inl allowed ↦ (
          assert_url_allowed-IsAllowed input.url allowed,
          by_wallet_inv input mode.no_wallet_linked r effects refl (rw allowed at h),
        )
      ]
