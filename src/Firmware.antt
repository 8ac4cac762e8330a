-- ===== src/Firmware.antt =====
-- main.cpp: the program that runs on the device.
pub mod Board
pub mod Epoch
pub mod Report
pub mod Loop
pub mod Batch
pub mod Writing
pub mod Coherence
pub mod Rounds
pub mod Bounds
pub mod Numbering
pub mod Publishing
pub mod Sending
pub mod Booting
pub mod Serving
pub mod Bridge
pub mod Filling
pub mod Fitting
pub mod Dating
