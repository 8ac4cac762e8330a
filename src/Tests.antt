-- ===== src/Tests.antt =====
-- The theorems at concrete inputs, on a scripted platform.
mod Bench
mod Radio
mod Mqtt
mod Session
mod Queue
mod Reports
mod Firmware
mod Boot
mod Serving
