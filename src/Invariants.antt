-- ===== src/Invariants.antt =====
-- Invariants of the server. An invariant that the primitives of the server keep (the interface
-- `Invariant`) is kept by every history of the server's threads.
pub mod Interface
pub mod Handlers
pub mod Histories
pub mod Stable
pub mod Derive
pub mod RoomChanges
pub mod AccountChanges
pub mod Assemble
pub mod Users
pub mod UniqueIds
pub mod Messages
pub mod RoomCounts
pub mod FullRooms
pub mod Protocol
