-- ===== src/Events.antt =====
-- src/events/ and src/relate/settlement.rs: the durable event payloads, the identifiers and entity
-- names under which they are journaled, and the transition machines.
pub mod Settlement
pub mod Payloads
pub mod Machines
pub mod Ids
pub mod Coordinate
