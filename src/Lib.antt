-- ===== src/Lib.antt =====
-- Verivyx: a paywall for content that AI agents pay for with x402 payments on Stellar. This library
-- models the parts that decide about money and access, and proves what they guarantee.
--
-- The parts and how they interact. A publisher's site runs the gate of the SDK in front of its
-- handlers: the gate classifies a visitor and asks the backend to authorize a payment or a session.
-- A payment is a Stellar transaction, which a facilitator verifies and settles: the exact scheme of
-- the MCP server's Stellar core for plain x402, and the payment relayer for payments through the
-- paywall contracts and adapters. The MCP server limits the rate of its callers, quotes and pays
-- resources for them, and guards which URLs it fetches. The authentication service gives a visitor a
-- session for a proof of work and a plausible browser.
--
-- Prelude holds what they share: texts as lists of code units, Boolean tests and lists on native
-- numbers, integers, and the string functions of JavaScript that the sources call.
--
-- Facilitator: services/mcp-server/src/core/stellar.
--   Facilitator.Types, Events, Auth, Verify   verify of exact/facilitator/scheme.ts with
--     validateSimulationEvents and validateAuthEntries, the signature status of shared.ts and the
--     network constants and ledger estimate of constants.ts and utils.ts
--   Facilitator.Settle                        settle and pollForTransaction of the same scheme
--   Facilitator.Stages, Effects, Signatures, Soundness, Settlement   proofs
-- Relayer: services/payment-relayer/src.
--   Relayer.Amount, Validation, Operations    validation.ts, routing.ts, payer.ts, and the
--     validators and POST /verify of index.ts
--   Relayer.Chain, Settle                     the submissions and POST /settle of index.ts
--   Relayer.Idempotency                       InMemoryIdempotency of idempotency.ts
--   Relayer.Lock                              RedisLock of lock.ts
-- Gate: services/publisher-sdk/packages/core/src.
--   Gate.Glob, Detect, Decision, Protect      isMatched and protect of index.ts, detect.ts,
--     decision.ts, getCookie of unlock.ts, settle.ts
--   Gate.Ranges, Crawlers                     crawlerverify.ts
--   Gate.BotAuth.Items, Fields, Keys, Verify  webbotauth.ts
--   Gate.Identity                             the classifier on these two verifiers
-- RateLimit: services/mcp-server/src/rateLimit.ts, the in-memory engine.
-- Payments: services/mcp-server/src.
--   Payments.Money, Guard                     money.ts and ssrf.ts
--   Payments.Types, Service                   quote and pay of chains/payments.ts
-- AuthService: services/auth-service.
--   AuthService.Checks                        lib.ts
--   AuthService.Reputation                    reputation.ts
--   AuthService.Types, Requests, Human        the rate limiter, POST /challenge and
--     POST /verify-human of index.ts
-- Modules below the ones listed hold the proofs about their parent, and those named Tests run the
-- models on concrete inputs.
--
-- State and effects. Handlers are functions into results that keep the source's error cases apart:
-- Checked and Step for the facilitator, Outcome and Run for the relayer, Result for the gate. A Run
-- is also the trace of what was sent and of the lock. The states of the idempotency provider, of the
-- lock and of the limiter are explicit; calls in any order are an inductive relation on them.
-- What is not in the repository is a parameter: the RPC and Horizon servers, the Stellar SDK's
-- parsing and signing, SHA-256, WebCrypto and base64, JSON web tokens, the databases, URL parsing,
-- and the replies of the network.
--
-- Bounds and fuel. Amounts, fees and ledgers are unbounded numbers, as the sources use strings and
-- BigInt for amounts. The two polling loops recur on the attempts that the source allows (20 for the
-- relayer, the timeout in seconds for the facilitator), so no fuel is chosen here. All other loops
-- recur on lists.
--
-- Where the models stop. Time passes only where a state has a clock; a timer that wins its race is
-- an input, and what its loser does later is not ordered against the rest. Logging, metrics and the
-- onDecision hook are left out. The guard of the MCP server resolves a host by itself; that the
-- fetch after it resolves the same addresses is not modelled. Not modelled are the Redis variants of
-- the idempotency and of the limiter, the session wallets, the set-up of the payment rails, the
-- OAuth and key handling of the MCP server, the accounts, consent and administration of the
-- authentication service, the adapters of the SDK, the browser and web code, and what is not
-- TypeScript: the Go gateway and hydration service, the Rust contracts and the PHP plugin.
pub mod Prelude
pub mod Facilitator
pub mod Relayer
pub mod Gate
pub mod RateLimit
pub mod AuthService
pub mod Payments
