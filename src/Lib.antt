-- ===== src/Lib.antt =====
-- The gateway orchestrator: a payment service in front of several payment providers. A request to
-- create a payment is routed to one or more providers and tried with them in turn; a capture, refund
-- or void goes to the provider that has the payment; providers report by webhooks; the status can be
-- looked up. Every request can be sent again without being carried out twice.
--
-- Parts and where they are modelled:
--   Domain       src/domain: enums, entities, the provider interface, and the table of transitions
--                (`stateTransitions`, `ensureTransition`)
--   Effect       errors of src/errors, and methods that change the state and may throw
--   Value        the JSON values that are hashed, logged and received
--   Repositories src/infrastructure/repositories/in-memory.repositories.ts, one module for each
--   Runtime      what a process is started with, and the state: the stores, the identifiers and clock
--                readings taken, and the world outside, which the providers act on
--   Routing      src/services/routing.service.ts, `resolveCandidates`
--   Payments     src/services/payment.service.ts: Input (inputs and hashes), Support (the private
--                helpers), Initial (`executeInitialFlow`), Stored (`executeStoredOperation`), Lookup,
--                Webhook (`handleWebhook`); Keyed and Reachable are about all of them
--   Onboarding   src/services/onboarding.service.ts
--   Polling      src/utils/payment-polling.ts
--   Http         src/controllers/payment.controller.ts and src/middleware/error.middleware.ts
--   Sql          src/infrastructure/repositories/mysql.repositories.ts: the statements that are sent, on
--                tables as lists of rows; each table and the in-memory repository it stands for
--   HttpClient   src/infrastructure/http.client.ts, the retries of a request
--   Providers    src/providers: Simulated (PayFast and Stitch), Payflex, Peach, the XML,
--                webhooks, states, callback URLs, lookups and redirect flows of Payu, and
--                Config, the configuration that src/infrastructure/provider-registry.ts resolves
--   Validation   src/utils/validators.ts, the checks across fields
--   Examples     concrete runs
-- The definitions have the source's names in snake case. A method is a function from the state to an
-- outcome, returned or thrown, and the state after it, so that what was written before a throw stays
-- written. A provider is a record of such functions on a world of any type; nothing is assumed of it
-- but where a theorem says so. `randomUUID`, the clock, SHA-256 and `JSON.stringify` are parameters,
-- of which nothing is assumed. Where the in-memory repository hands out its own objects, an
-- assignment to a field is a write to the store (`assign`), and the theorems hold with and without
-- that sharing.
--
-- A table's text columns compare by a parameter, the collation; what a JSON column returns is a
-- parameter too. An adapter of src/providers is a provider of the interface that the services use, over the
-- HTTP client; `axios`, URI and form encoding, HMAC, `JSON.parse` and letter case are parameters.
-- The maps that an adapter keeps are part of the world that it acts on.
--
-- The loops are structural recursion on the candidates, the rules, the header values, the parts of a
-- form and the attempts that are left, so that no fuel is needed but for the digits of a number, of
-- which 21 are enough for all that is printed without an exponent. Amounts and times are natural
-- numbers. A method runs to its end before the next one starts: interleavings at `await` are not
-- modelled.
--
-- Not modelled: the Mongo repositories, doTransaction and the provider of PayU, the checks of
-- single fields in request validation, which are those of a package, the other controllers,
-- Express, configuration, logging and metrics; of the database, the connection, foreign keys and
-- the lengths of columns.
pub mod Prelude
pub mod Value
pub mod Effect
pub mod Domain
pub mod Repositories
pub mod Runtime
pub mod Routing
pub mod Payments
pub mod Sql
pub mod Onboarding
pub mod Polling
pub mod Providers
pub mod Validation
pub mod Http
pub mod HttpClient
mod Examples
