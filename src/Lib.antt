-- ===== src/Lib.antt =====
-- The backend of NYZRating: a multi-tenant platform that sells message plans by subscription.
-- This library models the parts of backend/ that decide: how an event is delivered, what a
-- subscription costs, who may hold a session and what a user may do.
--
-- Parts. Operations of the platform write events into an outbox table (Events); workers claim
-- them in batches, run the registered handlers under a time limit, and acknowledge them or count
-- a failure. The billing app reads its catalog, computes the billing period and the price of a
-- plan, and prorates an upgrade (Billing, on the dates of Calendar). A login opens a refresh
-- session; a refresh token is exchanged for a new pair of tokens by rotation, and a logout closes
-- the session (Auth, on the users of Users). A checked request is then allowed by role and
-- permission (Access). The host of a request leads to a tenant (Tenant). What users type is
-- validated (Validation). A login asks for a password and for a second factor under a limit of
-- attempts (Auth.TwoFactor, Auth.Login). The jtis of access tokens in force are kept in an
-- allowlist (Auth.Allowlist). A daily cycle renews, restricts and invoices the subscriptions
-- (Billing.Workflows, on the tables of Billing.Store). Sensitive routes are throttled (Throttle),
-- and forms take tax numbers (Settings) and mobile numbers (Traffic).
--
-- Events.Outbox        backend/core/kernel/events/outbox.py, outbox_queries.py, outbox_models.py
-- Events.Policy        backend/core/kernel/events/worker_policy.py
-- Events.Worker        backend/core/kernel/events/worker_loop.py, dispatcher.py, worker.py
-- Billing.Domain       backend/apps/billing/domain.py, models.py
-- Billing.Catalog      backend/apps/billing/catalog.py
-- Billing.Calculations backend/apps/billing/calculations.py
-- Billing.Proration    backend/apps/billing/subscription_proration.py
-- Users                backend/core/modules/users/domain, repository/persistence/user_repository.py
-- Users.Profile        backend/core/modules/users/domain/policies/profile_policy.py
-- Auth.Tokens          backend/core/modules/auth/service/token_service.py
-- Auth.Sessions        backend/core/modules/auth/domain/dto/session.py,
--                      repository/persistence/session_repository.py
-- Auth.Refresh         backend/core/modules/auth/use_cases/refresh_service.py, refresh_result.py
-- Auth.Logout          backend/core/modules/auth/use_cases/logout_service.py
-- Auth.TwoFactor       backend/core/modules/auth/use_cases/two_factor_service.py and the
--                      repositories of the second factor in repository/persistence
-- Auth.Login           backend/core/modules/auth/use_cases/login_service.py,
--                      backend/core/kernel/db/session.py (the transaction)
-- Billing.Store        backend/apps/billing/repositories.py, models.py
-- Billing.Workflows    backend/apps/billing/workflows.py, and what it calls of service.py
-- Throttle             backend/core/kernel/security/rate_limit.py
-- Settings.TaxId       backend/apps/settings/domain/hu_tax_id.py
-- Traffic.HuMobilePhone backend/apps/traffic/domain/hu_mobile_phone.py
-- Auth.Allowlist       backend/core/modules/auth/repository/token_allowlist.py,
--                      backend/core/kernel/config/environment.py
-- Tenant.Slugs         backend/core/modules/tenant/slug/policy.py
-- Tenant.Signup        backend/core/modules/tenant/signup/abuse_controls.py
-- Access               backend/core/kernel/security/permission_service.py,
--                      backend/core/modules/auth/domain/authorization_policy.py
-- Tenant               backend/core/modules/tenant/domain/tenant_policy.py
-- Validation.Password  backend/shared/validation/password.py
--
-- Correspondence. A function or method keeps its name in the model; a method's object is its
-- first arguments, or the parameters of a section. A table is the list of its rows by ascending
-- id with the next id; a database session is one step on the table, and a race between
-- transactions is a choice of steps, or a table that a query has seen before another wrote.
-- Readings of the clock and fresh identifiers are arguments. Dates are those of the proleptic
-- Gregorian calendar, and instants are microseconds; money is in cents as natural numbers. A text
-- is its list of code points, and lower case is exact for comparisons with ASCII. An exception is
-- `none` or a constructor of the result.
--
-- Loops. Every loop is structural recursion on a list or on the number of rounds that the source
-- itself bounds: the units of a prepaid cycle are tried among the months paid. The search for a
-- business day from the 5th of a month runs on seven rounds, and a weekend takes two.
--
-- Parameters. The JWT library with SHA-256 is the record Jwt, handlers of events are functions,
-- the copy of a payload is a function, and the digits of Unicode are a predicate. SHA-256 of a
-- code, bcrypt, HMAC-SHA-1, Base32, Redis and the sending of an e-mail are functions. The
-- hypotheses on libraries are DecodesEncoded (a token that was signed is accepted from its iat
-- and nbf to a second before its exp), HashesFit (a hash has at most 255 characters), IsDigits
-- (the value of a decimal is from 0 to 9) and AreDecimals (the decimals of ASCII are decimals,
-- and separators are not).
--
-- Not modelled: HTTP, configuration, logs, metrics and the audit; the reports of the outbox;
-- Redis; the payments and the changes of plan in the billing service, the signup service, and the
-- rest of the traffic and settings apps; the platform console and the web client.
pub mod Prelude
pub mod Calendar
pub mod Access
pub mod Auth
pub mod Billing
pub mod Events
pub mod Settings
pub mod Tenant
pub mod Throttle
pub mod Traffic
pub mod Users
pub mod Validation
