-- ===== src/Mqtt.antt =====
-- class GB4MQTT (gb4mqtt.h, gb4mqtt.cpp): an MQTT client over the socket of GB4XBee.
pub mod Types
pub mod Library
pub mod Client
pub mod Incoming
pub mod Outgoing
pub mod Publish
pub mod Poll
pub mod Frame
pub mod Session
pub mod Keepalive
pub mod Handover
pub mod Completion
pub mod Ending
pub mod Acknowledge
pub mod Fetching
pub mod Graph
pub mod Requests
pub mod Keeping
pub mod Retries
pub mod Sends
pub mod Delivery
pub mod Timeouts
pub mod Busy
pub mod Run
pub mod Establishing
pub mod Connecting
pub mod Results
pub mod Bounds
