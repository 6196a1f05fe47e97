-- ===== src/Lib.antt =====
-- Models and proofs for the control plane and the gateway agent of a personal VPN, the Go code
-- under services/api.
--
-- The program. An API server holds accounts, sessions, devices and tunnel configurations; a
-- publisher turns the assignments of a gateway into signed snapshots of its peers, which wait in an
-- outbox; an agent on the gateway claims a snapshot, verifies it, applies the difference to the
-- WireGuard interface and acknowledges it.
--
-- The modules, and the code that they model:
--   Auth.Session      services/api/internal/auth/session.go: SessionStore with Issue, RotateRefresh,
--                     RevokeUser, AuthenticateAccess and the helpers that run under its mutex.
--   Auth.Password     services/api/internal/auth/password.go: HashPassword, VerifyPassword, parsePHC.
--   Auth.Service      services/api/internal/auth/service.go: Register, Login, Refresh, Logout.
--   Control           services/api/internal/control/service.go: NewService, RegisterDevice,
--                     ListDevices, ListRegions, RequestRevocation, the validations and randomUUID;
--                     Control.Tunnel has CreateTunnelConfiguration, Control.Steps the histories.
--   Agent.Snapshot    services/api/internal/agent/snapshot.go: Validate, Sign, Verify, Diff.
--   Agent.WireGuard   services/api/internal/agent/wireguard.go: Apply and operationArguments.
--   Agent.Worker      services/api/internal/agent/worker.go: ApplyOnce, retry, and the waits of Run.
--   Agent.Transport   services/api/internal/agent/transport.go: NewHTTPSource, Claim, Ack, Retry.
--   Agent.Tls         services/api/internal/agent/tls.go: ClientTLSConfig, ServerTLSConfig.
--   Agent.Command     services/api/cmd/gateway-agent: what is read before the worker runs.
--   HttpApi           services/api/internal/httpapi: auth.go, devices.go, regions.go, gateway.go and
--                     router.go.
--   Config            services/api/internal/config/config.go: Load.
--   Store             services/api/internal/postgres/store.go. Store.Tables has the tables of
--                     services/api/migrations/0001_initial.sql, Store.Failures the errors and
--                     mapDatabaseError; Store.Outbox and Store.Deliveries EnqueueSnapshot,
--                     ClaimNextSnapshot, ClaimSnapshot, AckSnapshot and RetrySnapshot, and
--                     Store.Machine the life of a snapshot that they follow; Store.Publishing
--                     GatewaysNeedingSnapshot, NextGatewaySnapshotGeneration and
--                     EnqueueCurrentGatewaySnapshot; Store.Confirmation ConfirmGatewaySnapshot,
--                     AckSnapshotDelivery and RetrySnapshotDelivery; Store.Allocation
--                     CreateTunnelConfiguration and activeAddresses, Store.Addresses
--                     firstAvailableAddress; Store.Accounts the users, devices and regions;
--                     Store.Opening Open, OpenWithPasswordFile and openConfig; Store.Service the
--                     store behind the handlers of the gateway.
--   Store.Reconciler  services/api/cmd/reconciler and services/api/cmd/snapshot-publisher.
--   Keys              the check of public keys that control and agent both have.
--   Encoding          what the code uses of encoding/base64, fmt and strings of Go.
--   Prelude           lists, texts, maps, results, integers and tests that all modules share.
--
-- The state of a struct is a record, and a method with a pointer receiver returns the new record
-- beside its results. Every method of SessionStore and of Service runs under one mutex, so a
-- history of concurrent calls is a sequence of calls (Auth.Session.Lifecycle, Control.Steps). A Go
-- map is an association list with distinct keys, whose order stands for the order of a range; a
-- string is the list of its bytes, and a time a number of nanoseconds. An int64 is a signed integer
-- of unlimited size, since the code compares such numbers only; the one sum of the database, the
-- next generation, is checked against the range of a bigint. A uint16 wraps around.
--
-- The database. A table is the list of its rows. A statement is a function of the rows that returns
-- the new ones or the server's code, with the unique keys, foreign keys and checks of the schema
-- that it can violate. A call that commits by itself takes one step, and so does a transaction: what
-- other transactions do meanwhile is an argument, the rows that they lock and the faults that the
-- server raises. A fault is the failure of one numbered call, of which a commit and a statement that
-- commits by itself may have taken effect all the same. Identifiers that gen_random_uuid() draws,
-- the canonical texts of uuids and of JSON objects, which reasons of a retry are texts, which emails
-- users_email_normalized accepts, host() and the order of texts are arguments.
--
-- What is an argument besides: readings of clocks and draws of crypto/rand (of each call), SHA-256,
-- ed25519, argon2, strings.ToLower, encoding/json, netip.ParsePrefix, the store of the users, the
-- runner of commands, the calls of pgx that open a pool, the answers of the delivery source and of
-- the applier (of each round of the worker), and the services behind the handlers, which are records
-- of operations.
--
-- Fuel: digits are computed on fuel, five for decimal numbers and four for hexadecimal ones; the
-- numbers printed are a host, a uint16, a port, and the parameters of argon2, which are below 100000.
-- The allocator has the 65535 attempts of its loop. All other loops are structural. `sort.Slice` and
-- ORDER BY are insertion sorts: the order is total on lists with distinct keys. The endless loop of
-- Run is modelled as the waits after each of a list of rounds.
--
-- Not modelled: Ping and Close of the store, which only call the driver; the listeners, tickers,
-- signals and exits of the commands (services/api/cmd), which join the parts; the clients, the
-- scripts and the deployment.
pub mod Agent
pub mod Auth
pub mod Config
pub mod Control
pub mod Encoding
pub mod HttpApi
pub mod Keys
pub mod Prelude
pub mod Store
