-- ===== src/Radio.antt =====
-- class GB4XBee (gb4xbee.h, gb4xbee.cpp): the state machine that configures the modem, opens a
-- socket, connects it and sends and receives on it.
pub mod Types
pub mod Timers
pub mod Commands
pub mod Startup
pub mod Socket
pub mod Message
pub mod Frame
pub mod Graph
pub mod Phases
pub mod Sending
pub mod Evidence
pub mod Bursts
pub mod Waiting
pub mod AccessPoint
pub mod Progress
pub mod Ready
pub mod Bounds
