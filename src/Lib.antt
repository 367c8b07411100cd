-- ===== src/Lib.antt =====
-- A verification library for the v-backend server: orders, stock, backorders, charges, plans and their
-- subscriptions, the public catalog, and sessions.
--
-- The server is a NestJS application over PostgreSQL. Sellers (tenants) place orders for their
-- customers. Creating an order (src/modules/orders) takes the goods out of stock; a product that is
-- flagged for overselling is sold past its stock, and what is missing becomes a backorder. Incoming
-- stock (src/modules/stock-movements) is allocated to the pending backorders, oldest first. Orders
-- are charged by billings (src/modules/billings), whose due dates follow the customer's billing mode
-- (src/shared/billing). Plans limit what an account may create
-- (src/modules/subscriptions/services/plan-limits.service.ts), and an admin can grant exceptions
-- (src/modules/account-exceptions). The plans follow the subscriptions at the payment provider, whose
-- events and lists keep the accounts in step (src/modules/subscriptions). Customers see a store, log
-- in and order through the public catalog (src/modules/catalog). Sellers hold signed tokens and a
-- second factor (src/modules/auth).
--
-- Files and what they model:
--   Base      shared names: Boolean tests, tables as lists with their queries, integers over the
--             native numbers (stock levels and totals fall below zero), the result of a call.
--   Db        the tables (prisma/schema.prisma) as one record of lists, the tenant context
--             (src/shared/tenant/tenant.context.ts), reads and writes of stock rows.
--   Cache     Redis as an interface with its laws (src/shared/redis).
--   Auth      Tokens: TokenService, TokenBlacklistService, JwtAuthGuard, the refresh and the logout.
--             TwoFactor: TwoFactorService. Sessions, BackupCodes: their theorems.
--   Calendar  JavaScript's Date as a civil date with milliseconds, in the server's time zone.
--   Orders    Create, Lines, Change: PrismaOrderRepository.create, addItem, updateStatus, delete.
--             Service: OrdersService. Ledger, Oversell, Cancel, Tenancy: their theorems.
--   Stock     Movements: PrismaStockMovementRepository.create and allocateBackorders; Allocation and
--             Movements/Outcomes: their theorems.
--   Billings  Scheduler: computeDueDate. Status: deriveBillingStatus. Records and Service:
--             PrismaBillingRepository and BillingsService. Consistency, Writes, Untouched, FromOrders,
--             Reach, Payments, Sync, Scope: their theorems; Reach also covers the calls of
--             OrdersService, which write charges too.
--   Plans     Exceptions: resolveActiveExceptions. Limits: PlanLimitsService. Agreement: theorems.
--   Catalog   Data: the tables. Customers and Products: PrismaCatalogRepository and the listing.
--             Ordering: CatalogService.createOrder. Access: the codes, invites and logins of
--             CatalogService. Slug: src/shared/catalog/slug-generator.ts.
--             Queried, Prices, Listing, Guesses, Passwords, Invites, Buyers, Sold, FreeSlug: their theorems.
--   Subscriptions  Store and Repository: the tables with calls that may throw half way. Service:
--             SubscriptionService. Webhooks: WebhookService. Reconcile: SubscriptionReconcileService.
--             Events, Deliveries, Handled, Progress, Reconciled, Agreement, Settles: their theorems.
--   Tests     concrete states, and the theorems applied to them.
--
-- A handler is a function from the state to a result: the new state with the value that is returned,
-- or the exception. A database transaction that throws leaves no trace, so an error carries no state;
-- the calls of Subscriptions, Catalog and Auth run in no transaction, and return the state that they
-- leave with either result.
-- One call runs at a time: the row locks that order concurrent calls are not modelled. Every loop is
-- structural recursion over a list, except for the calendar's carry of days into months, whose fuel is
-- the number of days, which is enough since a month has at least one, and for the search for a free
-- slug, whose fuel is the 99 rounds that the code allows. Redis, the JWT library, hashing and the check
-- of one-time codes are parameters, with the laws that the code relies on.
--
-- Ids of accounts and customers are opaque and are numbers here; texts that are compared or rewritten
-- are lists of character codes; amounts are integers of cents and do not overflow. Not modelled:
-- messages of exceptions, log lines, the queue and caches of reads, reads that only join tables, and the
-- rest of auth (password reset, OAuth, email verification), users, promotions, suppliers, reports and
-- administration.
pub mod Base
pub mod Db
pub mod Calendar
pub mod Cache
pub mod Catalog
pub mod Auth
pub mod Orders
pub mod Stock
pub mod Billings
pub mod Plans
pub mod Subscriptions
pub mod Tests
