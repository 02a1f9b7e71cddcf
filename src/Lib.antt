-- ===== src/Lib.antt =====
-- DiddiGo backend: accounts, rides, payments and the driver wallet.
--
-- The backend serves a ride-hailing application: passengers ask for rides, drivers are matched
-- with them and drive them through a status machine, and what a driver earns is kept in a
-- wallet whose balance is explained by a ledger. Drivers take money out through a payout
-- provider.
--
-- Base has what the modules share: the names of the libraries that they use, Boolean tests on
-- numbers (Base/Tests), tables of rows (Base/Rows, Base/Found), ORDER BY (Base/Sort, Base/Permuted), signed
-- amounts (Base/Int), and the transaction of a request over any tables (Base/Transaction, which
-- is get_session of app_base/core/database.py). `Keeps` and `Safe` there have one rule for each
-- way of building a use case: the first for a property of the tables that every step keeps, the
-- second for an invariant together with what is known on the way.
--
-- Ride is app_base/modules/ride/domain/entities.py: `Status` the enumerations and the table
-- ALLOWED_TRANSITIONS, `Entity` the Ride record and Ride.transition. `Machine`, `Stamps` and
-- `History` prove what holds of a ride under any sequence of calls of Ride.transition, where a
-- call that raises InvalidStatusTransition leaves the ride as it was. Moments are
-- microseconds, identifiers are numbers. The record has the fields that the modelled
-- operations use.
--
-- Trip is RideService of app_base/modules/ride/application/services.py with the tables under
-- it: `Entities` the rows, where a Trip is a Ride with the fields that only the use cases read
-- or write; `Rides` and `Extras` the methods of infra/repositories.py; `Money` and `Pricing`
-- the amounts; `Access` the guards that the use cases share; `Progress` the course of a ride
-- (arrival, start code, no-show, waiting), `Finish` its end (update_status, early stop,
-- cancel), `During` what goes with it (stops, supplements, ratings, samples, share link,
-- emergency), `Request` request_ride; `Serve` puts them into one list of requests, each in its
-- own transaction. `Sound`, `Moves`, `Priced`, `Rules`, `Handled`, `Closed`, `Kept` and
-- `Served` prove the invariant of the tables; `Codes`, `Batches` and `Amounts` prove what holds
-- of the start code, of a batch of points that is sent again, and of the amounts. Arithmetic on
-- Decimal is exact; amounts that the code keeps from being negative are natural numbers; the
-- moments, the identifiers and the answers of the map service are arguments, and hashing, the
-- distance of two places and round(float(x)) are parameters (`Externals`).
--
-- Wallet is app_base/modules/payment. `Entities` has the rows of the tables; `Session` the
-- transaction of a request on them; `Ledger`,
-- `Verification`, `Withdrawals`, `Reserve` and `Provider` the methods of
-- infra/repositories.py, each a function from the tables to a result and the tables as the
-- transaction then sees them; `Service` (`Payouts`, `Withdraw`, `Serve`) the use cases of a
-- withdrawal in application/wallet_service.py. `Balance`, `Once`, `Custody`, `Payout`,
-- `Reservation`, `Totals`, `Conservation`, `Settled`, `Requests` and `Guesses` prove what
-- holds of them. `Callbacks` has the recorded events of the provider. `Closed` has what a property of the tables needs of the
-- repository's methods so that every use case keeps it; `Sound`, `Grown` and `Heard` show it
-- of three properties. Amounts are whole hundredths of a franc, the scale of the columns. A
-- unique constraint is a test before the insertion. Requests are taken one after another: the
-- methods that lock their rows (`with_for_update`) may be, but record_ledger_entry_once reads
-- the wallet without a lock, and what concurrent requests do to one wallet is not modelled.
-- The identifiers that uuid4 draws, the moments and the provider's answers are arguments;
-- hashing, stripping and the text of an identifier are parameters (`Externals`).
--
-- Payment is the rest of app_base/modules/payment: `Transactions`, `Debts` and `Topups` have
-- the methods of infra/repositories.py on those rows; `Provider` what the code reads in the
-- provider's answers; `Settlement` what a paid fare or top-up posts to the ledger; `Cash`,
-- `Prepare`, `Webhook` and `Sweep` the use cases of application/services.py (cash, payments
-- through the provider, callbacks, the sweep over what no callback told); `Recharge`
-- create_topup and request_withdrawal_verification of application/wallet_service.py. `Traffic`
-- puts every use case that writes, with those of Wallet, into one list of requests, each in
-- its own transaction. `Kept` shows that each keeps what the repository's methods keep, and
-- `Invariant`, `Delivered`, `Posted`, `Tally`, `Pages` and `Fallback` prove what holds of
-- them. What `hmac`, `json` and the provider answer comes in as arguments; a field of a
-- callback that `UUID` or `int` refuses is a value of its own.
--
-- Dispatch is app_base/modules/ride/application/matching_service.py: `Offers` the store of
-- infra/offer_store.py, with keys that expire; `Fleet` _can_take_ride; `Ranking` _rank_by_eta
-- with the bonus of domain/priority.py; `Candidates` _next_candidates; `World` the tables and
-- the store together, with _give_up, _load_active_ride and release_driver; `Acceptance`
-- accept; `Matching` try_match, decline and advance_expired_offer. `Selection`, `Waves`,
-- `Claims`, `Won` and `Accepted` prove what holds of them. Moments and spans are microseconds.
-- What the location service, the router, the priority ledger and the other repositories answer
-- comes in as arguments. When an operation raises, what it wrote in the store of offers stays
-- and the tables are rolled back.
--
-- Auth is app_base/modules/auth: `Entities` the entities and the repositories, `Service`
-- register, request_otp and verify_otp. Each commits once, after its last write, so a request
-- either changes the tables or leaves them. `Codes` and `Confirmed` prove what becomes of the
-- codes. Validating a phone number, hashing and drawing a code are parameters, tokens are left
-- out.
--
-- No function here takes fuel: every loop of the modelled code runs over a list.
--
-- Not modelled: the creation of quotes, the lists and payloads of rides, driver profiles and
-- vehicles, tokens, partners, notifications, the
-- HTTP layer, settings and migrations; of the payment module, the statement and earnings
-- queries, the return contexts of a payment page and the scheduler of the sweep.
pub mod Auth
pub mod Base
pub mod Dispatch
pub mod Payment
pub mod Ride
pub mod Trip
pub mod Wallet
