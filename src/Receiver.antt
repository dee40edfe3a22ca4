-- ===== src/Receiver.antt =====
-- The manager over the in-memory context: what a receiver of payments runs.
pub mod Escrow
pub mod Verify
pub mod Retained
pub mod Round
pub mod Minimum
pub mod Returns
pub mod Complete
pub mod Order
pub mod Store
pub mod Payment
pub mod Arrivals
pub mod Keeps
pub mod Session
pub mod Concurrent
pub mod Channel
use timeline_aggregation_pro.Base.{List, Profile}
use timeline_aggregation_pro.Core.Primitives.{Eip712Domain}
use timeline_aggregation_pro.Core.Checks.{ReceiptCheck}
use timeline_aggregation_pro.Core.Manager.{Manager, new_manager}
use timeline_aggregation_pro.Core.Memory.{InMemoryContext, Unordered, in_memory}

abbrev pub receiver :
    Profile
    → Unordered
    → List (ReceiptCheck InMemoryContext)
    → Eip712Domain
    → Manager InMemoryContext
receiver profile u checks domain_separator =
    new_manager domain_separator (in_memory profile u) checks
