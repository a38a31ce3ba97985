-- ===== src/Lib.antt =====
-- sig0lease: a registrar that takes SIG(0)-signed DNS updates with a lease (RFC 9664) and service
-- registrations (RFC 9665), grants leases by a policy, keeps the leases in a tree, and forwards
-- the updates to an authoritative server. This library models the parts that decide and that keep
-- state; paths are from the repository's root.
--
-- The parts and where they are:
--   Name (pkg/dnsname): names as lists of bytes, folded for US-ASCII only. Fold, EqualFold,
--     Normalize, IsAtOrBelow, Labels, CutFirstLabel and CheckLabel have their names in lower case.
--     Name.Wire is DottedWireLabel, the walk over a wire-format message; Name.Wire.Label is the whole.
--   LeaseOption (pkg/lease/lease.go): the Update Lease option. A receiver that a Go method fills in
--     is the result's value.
--   LeasePolicy (handlers/lease_policy.go, record_ttl.go, clampLease of opcode5.go, toUint32 of
--     opcode5_setup.go, parseLease of opcode5_lease_option.go): policies, granted leases, and the
--     checks on requested ones.
--   NodeLocks (pkg/lease/nodelock.go): the lock table, its mutex as the atomicity of a step;
--     NodeLocks.Steps has the goroutines as a step relation.
--   Dns: what the program reads of the records of codeberg.org/miekg/dns. The library's functions
--     (key tags, type codes, the length and text of an RDATA) are the record DnsLibrary, which the
--     definitions take as an argument.
--   NodeKey (pkg/lease/state.go): NodeKey, NodeKeyFromSIG, NodeKeyName, RecordKey, foldRDATANames.
--   Store (pkg/lease/state.go): InMemoryLeaseStore. Its four maps are association lists with the
--     laws of Go maps (Base.Maps), and each method is a function from the store to the store or an
--     error; the clock's reading is an argument. Store.NonKey has the non-KEY records, and
--     Store.Subtree the operations on subtrees. Store.Invariant states what the maps owe each other,
--     and Store.Steps runs the operations in any order.
--   Expiry (handlers/opcode5_lease.go): nextLeaseEvent, expiryRetryDelay and expiryTimers, with the
--     delay of each armed timer in a map. Expiry.Events is leaseExpirer: what is due, the UPDATE
--     that deletes it, and what is forgotten once it is confirmed. The send is a function that
--     tells whether it was; a timer that fires is a call of `expire` or `run`, and `fire_all` lines
--     up the firings of one node.
--   UpdateHandler (handlers/opcode5_handle.go, opcode5_update_helpers.go, and of opcode5.go and
--     opcode5_lease.go what they call): UpdateHandler.Handle. UpdateHandler.Flow is the handler from
--     the message to the answer; Records and Signer are its checks, Cases the plans of the cases that
--     register and refresh, Deletion the case that deletes. Branches and Inversion take Handle and its
--     plans apart for the proofs. The closures that Handle collects are the
--     data type Mutation, and Changes applies them. A response is its code or its leases and notes;
--     Response is the Pseudo section that a client reads these from.
--   Dnssd (pkg/dnssd/names.go), UpdateCore (pkg/updatecore/ttl.go), Srp (pkg/srp/names.go and
--     instruction.go), Srp.Validate (validate.go), Srp.Fcfs (fcfs.go): an SRP update is classified,
--     validated, and each of its names is evaluated by first come, first served. The pointers from
--     the map of instances and from the list in order of sight to one instance are one list.
--   Client (client/lease_response.go, pkg/srp/response.go): what a client reads from a response.
-- How they interact: the handlers read the lease option and the policy (LeaseOption, LeasePolicy),
-- lock the nodes they touch (NodeLocks), read and write the store under node keys (NodeKey, Store),
-- and arm the timers that end its leases (Expiry); the SRP handler classifies and validates first (Srp), with names compared by Name.
--
-- Bounds and fuel: the walk over a name in a message takes 129 steps for each byte, since each step
-- moves forward or spends one of 127 pointer hops (Name.Wire.Walks), and so the walk always has an end (Name.Wire.Label); the walk over a subtree takes
-- one step for each child entry and two more, since each node's children are pushed once
-- (Store.Subtree.Traversal). A uint32 is a number below 2 ^ 32 where the code relies on it, and
-- conversions to uint32 wrap. Times are nanoseconds without an upper bound.
--
-- Not modelled: sockets, TLS, logging, key files and cryptography, the command line, the SRP handler,
-- and snapshots of the store. What the authoritative server answers to a query or an UPDATE, and
-- whether a KEY verifies a message, are functions that the definitions take as arguments. A KEY's
-- tag does not depend on its TTL, so the KEY that verified a request is used with its first TTL. The order in which a Go map
-- is ranged over is that of the association list. Where records and KEYs share the store, a KEY's
-- node key is taken to differ from every record's identity; the steps of Store.Steps say so, and
-- IsApart of Store.Identities.
pub mod Base
pub mod Name
pub mod LeaseOption
pub mod LeasePolicy
pub mod NodeLocks
pub mod Dns
pub mod NodeKey
pub mod Store
pub mod Expiry
pub mod Dnssd
pub mod UpdateCore
pub mod UpdateHandler
pub mod Srp
pub mod Client
