-- ===== src/Input.antt =====
-- The input library of dependencies/libs/iland/upstream/shims/libinput/input/libinput.c.
pub mod Events
pub mod Queue
pub mod Receive
pub mod Calls
pub mod Stopping
pub mod Pressed
pub mod Edges
pub mod Fifo
pub mod Delivery
pub mod Slots
mod Tests
