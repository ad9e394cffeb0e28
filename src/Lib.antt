-- ===== src/Lib.antt =====
-- AtlasPay, a payment-processing reference system: a verification of its core in app/.
--
-- Parts and how they interact. A merchant's payment is created by a repository
-- (Payments/Repository, app/repository.py with the request of app/models.py). Capture, refund and
-- reversal change its status, the double-entry ledger, the operation records and the outbox in one
-- database transaction (Payments/Operations, app/payment_operations.py). The ledger has an
-- interface of its own (Payments/Ledger, app/ledger.py). The outbox hands events to publishers and
-- consumers (Payments/Outbox, app/outbox.py, with the reset of app/reconciliation.py), and the
-- reconciler reports where the tables disagree (Payments/Reconciliation, app/reconciliation.py).
-- All of them share the tables of migrations/*.sql (Payments/Database). On the network side an
-- authorization in the canonical form (Canonical, app/canonical.py) is mapped to ISO 8583 (Adapter,
-- app/iso8583_adapter.py), encoded (Iso8583, app/iso8583.py), routed to an issuer (Network/Routing,
-- app/network_routing.py) and exchanged over a byte transport (Network/Transport,
-- app/network_transport.py; with injected faults, Network/Faults, app/network_faults.py). The
-- coordinator (Network/Coordinator, app/network_coordinator.py) follows each correlation from
-- registration to its end, and the flow (Network/Flow, with its records in Network/Attempt,
-- app/network_flow.py) joins these parts and records what it observed, unless the writer raises
-- (Network/History, app/network_history.py). The canonical form is also projected to ISO 20022
-- (Iso20022, app/iso20022.py). The chip data that a message carries as bytes is parsed on demand
-- (Emv, app/emv.py, with the grammar that it reads in Emv/Grammar). Metrics and spans of the
-- exchanges are kept beside the stored observations (Telemetry, app/network_observability.py). The
-- operator's snapshot measures the tables and the observations and inspects the books (Snapshot,
-- app/operational_snapshot.py); it is served, like the payments, over HTTP (Http, app/main.py and
-- app/service.py). The schema is brought up to date by the migration runner (Migrations,
-- app/migrations.py), and a hosted demo runs scripted scenarios over all of this once (Demo,
-- app/demo_network.py and app/hosted_demo.py). The modules below a component hold its proofs, named
-- for what they prove. Prelude has Python's data for all of them, and Tests runs the definitions on
-- concrete inputs.
--
-- Correspondence. A definition has the name of its function in the source, without a leading
-- underscore; a function in several stages has a definition for each, the comment above says which.
-- A method takes the state as its last arguments and returns its result with the new state. Where
-- it can raise after a change, the state is returned beside the result (`Result A × State`); where
-- it raises before any change, or rolls back, the state is part of the result. A `str` is its list
-- of code points, `bytes` a list of bytes. An exception is a value of `Error`, by its class,
-- without the text. Numbers that the source guards to be positive are natural numbers, since a
-- negative one fails the same guards as zero does; amounts of the canonical model and balances are
-- integers, and stored amounts have the bound of BIGINT. Times are natural numbers of ticks. A
-- Python dict is a list of entries in its order, a set the list of its members, a table the list of
-- its rows. SQL statements are operations on the lists, with the constraints that they can meet.
--
-- Parameters. The transport, the provider of reversal correlations, publishers and handlers are
-- functions with a state of their own, and may raise; the writer of observations raises as a given
-- schedule says, and the reader of snapshots may raise. The Unicode tables above code point 127 are
-- a parameter, as are Python's `int` on texts that are not ASCII digits, fresh UUIDs, clocks, and
-- the SHA-256 fingerprints and checksums, the database's collation, and what a migration's script
-- does to the schema; where a refusal depends on two fingerprints being different, that is a
-- hypothesis.
--
-- Bounds. Loops are structural recursion on the list they run over. There is fuel in two places:
-- for the decimal digits of a number, where the number itself is enough, and for the BER-TLV
-- parser, where one more than the length of the payload is enough, since each turn and each nested
-- call reads two bytes at least. Bitmaps are 64 bits wide, written to and read from eight bytes.
--
-- Limits of the database. The columns of a payment refuse or cut texts as CHAR(3) and VARCHAR(128)
-- do, and refuse a zero character, as does the key that is claimed; identifiers that are looked up
-- have none. The totals of the balance trigger are BIGINT too.
--
-- Not modelled: logging and the web framework; locks and isolation levels of the database, since
-- each transaction is one step; the texts of exceptions; the command lines; the Java service and
-- the analytics queries, which are programs of their own.
pub mod Prelude
pub mod Iso8583
pub mod Emv
pub mod Canonical
pub mod Adapter
pub mod Iso20022
pub mod Network
pub mod Payments
pub mod Migrations
pub mod Snapshot
pub mod Http
pub mod Telemetry
pub mod Demo
pub mod Tests
