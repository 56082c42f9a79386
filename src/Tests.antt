-- ===== src/Tests.antt =====
-- The theorems of the library applied to runs on concrete inputs.
mod Leaving
mod Rooms
mod Early
mod Beginnings
mod Stopping
mod Queueing
mod Delivering
mod Messages
mod Frames
mod Table
mod Balancing
mod Chat
mod Clients
mod Threads
