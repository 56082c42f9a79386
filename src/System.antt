-- ===== src/System.antt =====
-- The server process as a whole: its threads share the table of clients and the queues, and take
-- turns in rounds of their loops.
pub mod Closed
pub mod Table
pub mod Listening
pub mod Serving
pub mod Rounds
pub mod Sound
pub mod Fresh
pub mod Admission
pub mod Reach
pub mod Ending
pub mod Delivery
pub mod Running
pub mod Opening
