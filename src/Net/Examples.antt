-- ===== src/Net/Examples.antt =====
-- Concrete runs of the model, at which the theorems' conditions hold.
mod Buffers
mod Requests
mod Connections
mod Connects
mod Timers
mod Events
mod Polls
mod Lives
mod Removals
mod Tasks
mod Servers
mod Handshakes
mod Clients
