-- ===== src/Event.antt =====
-- The event loop and the reactor, lib_network/src/event.
mod FdMap
pub mod Poller
pub mod Tasks
pub mod Loop
pub mod Listening
pub mod Reactor
