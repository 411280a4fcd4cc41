-- ===== src/Payments/Service/Charges.antt =====
-- Proofs about the answer to a paying fetch, and the fee after it.
use verivyx_monorepo.Prelude.{
  ◌≡◌, ◌⊎◌, refl, inl, inr, subst, true, false, ◌&&◌, Option, none, some, List, [], ◌∷◌, Text,
  Bool-cases, Option-cases, arith,
}
use verivyx_monorepo.Payments.Money.{decimal_to_base_units}
use verivyx_monorepo.Payments.Types.{
  PayInput, HttpReply, Config, Mode, Receipt, Effect, probed, paid_fetch, fee_charged,
  fee_charged_non_custodial, PayResult, returned, World,
}
use verivyx_monorepo.Payments.Service.{
  Fee, no_fee, has_fee_rail, charged, custodial_fee, service_fee, paid_result, with_fee,
  after_payment, is_ok, network_of, is_paid,
}

some_inj : {A : Type 0} (a b : A) → some a ≡ some b → a ≡ b
some_inj a b h = cc h

module _ (world : World) (config : Config) (mode : Mode) where
  -- What a fee sends: nothing, or one charge.
  abbrev pub IsCharge : Effect → Type 0
  IsCharge (fee_charged network) = Unit
  IsCharge (fee_charged_non_custodial network) = Unit
  IsCharge (probed url) = ⊥
  IsCharge (paid_fetch url) = ⊥

  abbrev pub AtMostOne : List Effect → Type 0
  AtMostOne charges = (charges ≡ []) ⊎ ((e : Effect) × IsCharge e × (charges ≡ e ∷ []))

  charged-AtMostOne :
      (told : Option Text × Text) (e : Effect)
      → IsCharge e
      → AtMostOne (charged world config mode told e).effects
  charged-AtMostOne (none, message) e h = inr (e, h, refl)
  charged-AtMostOne (some receipt, message) e h = inr (e, h, refl)

  custodial_fee-AtMostOne :
      (network : Option Text) → AtMostOne (custodial_fee world config mode network).effects
  custodial_fee-AtMostOne none = inl refl
  custodial_fee-AtMostOne (some chain) = elim (Bool-cases (has_fee_rail world config mode chain)) [
    | inl rail ↦ rw rail (charged-AtMostOne (world.charge chain) (fee_charged chain) tt)
    | inr no_rail ↦ rw no_rail (inl refl)
  ]

  service_fee-AtMostOne :
      (network : Option Text) (fee : Fee world config mode)
      → service_fee world config mode network ≡ some fee
      → AtMostOne fee.effects
  unfolding service_fee
  service_fee-AtMostOne network fee h = elim (Bool-cases mode.is_non_custodial) [
    | inl own ↦
        elim (Option-cases (decimal_to_base_units config.fee_usdc config.stellar.usdc_decimals)) [
          | inl bad ↦ absurd (cc (rw (own, bad) at h))
          | inr (atomic, good) ↦
              subst (λ (f : Fee world config mode). AtMostOne f.effects)
                (some_inj _ _ (rw (own, good) at h))
                (charged-AtMostOne world.charge_non_custodial
                  (fee_charged_non_custodial config.stellar.caip2) tt)
        ]
    | inr custodial ↦
        subst (λ (f : Fee world config mode). AtMostOne f.effects)
          (some_inj _ _ (rw custodial at h)) (custodial_fee-AtMostOne network)
  ]

  -- The run of the payment alone.
  pub record IsPaidFor (input : PayInput) (r : PayResult) (effects : List Effect) : Type 0 where
    pub reply : HttpReply
    pub receipt : Option Receipt
    pub fee : Fee world config mode
    pub answered : world.fetch_with_payment input ≡ some (reply, receipt)
    pub result : r ≡ paid_result world config mode reply receipt fee
    pub sent : effects ≡ paid_fetch input.url ∷ fee.effects
    pub at_most_one : AtMostOne fee.effects
    pub due :
        ((fee ≡ no_fee world config mode)
          × ((is_paid world config mode receipt ≡ false) ⊎ (is_ok reply.status ≡ false)))
        ⊎ ((is_paid world config mode receipt ≡ true)
            × (is_ok reply.status ≡ true)
            × (service_fee world config mode (network_of world config mode receipt) ≡ some fee))

  pub after_payment-IsPaidFor :
      (input : PayInput) (o : Option (HttpReply × Option Receipt)) (r : PayResult)
      (effects : List Effect)
      → world.fetch_with_payment input ≡ o
      → after_payment world config mode input.url o ≡ returned r effects
      → IsPaidFor input r effects
  unfolding after_payment
  after_payment-IsPaidFor input none r effects answered h = absurd (cc h)
  after_payment-IsPaidFor input (some (reply, receipt)) r effects answered h =
      elim (Bool-cases (is_paid world config mode receipt && is_ok reply.status)) [
        | inr unpaid ↦
            let result : returned
                  (paid_result world config mode reply receipt (no_fee world config mode))
                  (paid_fetch input.url ∷ [])
                ≡ returned r effects =
              rw unpaid at h in
            record {
              reply = reply;
              receipt = receipt;
              fee = no_fee world config mode;
              answered = answered;
              result = cc;
              sent = cc;
              at_most_one = inl refl;
              due = inl (refl, ground arith);
            }
        | inl due ↦
            by_fee (service_fee world config mode (network_of world config mode receipt)) refl
              (ground arith) (ground arith) (rw due at h)
      ]
    where
      by_fee :
          (o : Option (Fee world config mode))
          → service_fee world config mode (network_of world config mode receipt) ≡ o
          → is_paid world config mode receipt ≡ true
          → is_ok reply.status ≡ true
          → with_fee world config mode input.url reply receipt o ≡ returned r effects
          → IsPaidFor input r effects
      by_fee none e paid served k = absurd (cc k)
      by_fee (some fee) e paid served k = record {
        reply = reply;
        receipt = receipt;
        fee = fee;
        answered = answered;
        result = cc;
        sent = cc;
        at_most_one = service_fee-AtMostOne (network_of world config mode receipt) fee e;
        due = inr (paid, served, e);
      }
