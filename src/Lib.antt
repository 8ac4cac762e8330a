-- ===== src/Lib.antt =====
-- The firmware of an MQTT client on a Digi XBee cellular modem. It polls: `main` calls
-- `GB4MQTT::poll`, which calls `GB4XBee::poll`, which ticks the XBee driver; the driver runs the
-- two callbacks of xbee_notify.cpp within the tick. No step waits. libs/static_queue is a queue
-- of its own, which the firmware does not include.
--
--  - Notify: class XBeeNotify (xbee_notify.h, xbee_notify.cpp), what the driver last reported; its
--    codes in Notify/Codes. Notify/Receive: class XBeeReceive, the buffer of one received message.
--    Notify/Laws: what the two promise.
--  - Radio: class GB4XBee (gb4xbee.h, gb4xbee.cpp). Radio/Types: its members and constants;
--    Radio/Timers: the waits; Radio/Commands: modem commands and the driver's callbacks;
--    Radio/Startup: `begin` and `pollStartup`; Radio/Socket: `poll` and `connect`; Radio/Message:
--    `sendMessage` and `getReceivedMessage`. Proofs: Frame (what each operation leaves alone),
--    Graph (the state diagram), Phases (rest, connecting, online), Sending, Evidence, Waiting, Bursts,
--    AccessPoint, Progress (the startup), Ready (from power-up or the cooldown to a socket), Bounds
--    (the member arrays).
--  - Mqtt: class GB4MQTT (gb4mqtt.h, gb4mqtt.cpp). Mqtt/Types: its members, MQTTRequest and
--    PacketId; Mqtt/Client: constructor, `begin`, `publish` and accessors; Mqtt/Incoming:
--    `pollIncomming`, `dispatchIncomming` and what they call; Mqtt/Outgoing: the requests and the
--    keepalive timer; Mqtt/Publish: `handlePublishRequests`; Mqtt/Poll: `poll`. Proofs: Frame,
--    Graph (the diagram), Session (the invariant), Run (calls of begin, poll, publish and the
--    setters), Keeping, Retries and Sends (how often a request is sent), Delivery (when it is given up), Timeouts,
--    Busy (a radio that is still sending), Establishing (the way to a session), Connecting
--    (the same from power-up on), Handover (a request that is sent and acknowledged), Completion
--    (from the PUBACK on), Ending (how long a request stays active), Requests, Acknowledge,
--    Fetching, Keepalive, Bounds (the member arrays), Results (what `poll` returns).
--  - Firmware: main.cpp. Firmware/Board: its constants and what it does with the board;
--    Firmware/Epoch: the compile time, and the time of a report; Firmware/Report: the variables of
--    `main` and how a report is put into the buffer; Firmware/Loop: the start of `main` and its
--    loop; Firmware/Bridge: `main` in its other build. Proofs: Dating (month and time), Writing
--    (bytes in the middle of an array), Batch (what the buffer holds), Coherence (client and
--    radio), Rounds (the loop), Bounds (the arrays kept between calls), Fitting (how long reports
--    are), Numbering and Publishing (the messages and the numbers of their reports), Sending (the
--    sixth report), Booting (the radio's startup within the loop), Serving (from power-up to a
--    session), Filling (the other build's buffer).
--  - Queue: libs/static_queue. Queue/Node: LinkedNode (linked_node.h); Queue/Linked: LinkedQueue
--    (linked_queue.h); Queue/Static: StaticQueue (static_queue.h). Proofs: Search (the loop of
--    `findEmptySlot`), Chain (nodes linked both ways), Unlinking, Appending, Contents and Removal
--    (what a LinkedQueue holds, and how `enqueueNode`, `dequeue` and `remove` change it), Length,
--    Slots, Insertion and Departure (StaticQueue), Answers, Walking and Fifo (any calls), Filling
--    and Capacity (a new queue), Splitting and Resetting (`reset`), Pointers, Sound, Upkeep,
--    Withdrawal and Counting (no pointers but those of one chain, and of one
--    node before it that left the queue), Overrun (the end of the array),
--    Leak (a slot that is lost).
--  - Platform and Mqtt/Library: what is not in the repository, as parameters: the Arduino core,
--    the XBee driver, and the serializer of paho.mqtt.embedded-c.
--  - Base: names of the library passed on, machine words, C's memory functions, lists over the
--    native numbers, and programs. Tests: a scripted platform, and the theorems applied to it.
--
-- A method is a program `S → A × S`: for GB4XBee, S is `Sys`, its members with the two globals of
-- xbee_notify.cpp and the world behind the driver; for GB4MQTT it is `Client`, its members with
-- the `Sys` of its radio. A `switch` is a function by clauses on the enumeration, and a method
-- with several of them is as many functions, composed as in the code. A call of the platform moves
-- the world on and returns any result; the theorems assume nothing of it that they do not name.
-- The callbacks that the driver makes within `xbee_dev_tick` are the list of events that the tick
-- returns, in their order.
--
-- An int32_t start time is its bit pattern, and a difference of times is taken modulo 2 ^ 32,
-- as C does; where the code stores it in an int32_t, a pattern from 2 ^ 31 on counts as
-- negative. The counters wrap at their widths. An array is the list of its bytes; members that
-- the constructors leave unset keep what the memory held, and so does the rest of an array
-- that a shorter copy overwrites. A write past the end of an array is a list longer than the
-- array: what it overwrites there is not modelled. The uninitialized `status` of
-- `dispatchIncomming` is a parameter, the same at each call. The length that `_fetch_callback` is
-- given is not negative; past the end of the received bytes its loop copies what lies behind them in
-- memory, a parameter as well. Sequences of calls are lists or counts, of any length; so are
-- the rounds of the endless loop of `main`.
--
-- A node of the queue is a place in a memory of nodes, counted from `m_array[0]`: the places from
-- N_MEMB on lie behind the array, and hold what memory held. nullptr is `none`. The loops of
-- `findEmptySlot` and of `length` take fuel, and give `none` where it runs out: with its index
-- inside the array a search needs at most N_MEMB + 1 rounds, and `length` as many as there are
-- elements. The theorems on whole queues suppose that the memory right behind the array reads as a
-- linked node, since the search looks there; Overrun says what happens if it does not.
--
-- The format of a report and the steps of the two floats are those of main.cpp. Parameters are what
-- `snprintf` makes of a float (%f) and of a number (%d), the constants, sums and differences of
-- `float`, and what `strftime` writes; that `snprintf` cuts the text to its limit and returns the
-- length of the whole is written out. A report has 93 characters besides the time, the floats and the
-- number, so it is cut if these take more than 56. With the 20 characters of the time 36 are left: the
-- theorems from the start of `main` suppose of the first reports, up to one for each round, that the
-- floats and the number take no more (Firmware/Fitting). It is 19 at first, and the floats drift by 0.1
-- and 0.05 from report to report, so that it ends some day. `sscanf`, `strstr` and `mktime` are
-- parameters too; a pointer that `strstr` returns is its distance from the text, and of `strstr` it is
-- supposed where needed that it finds the first place of a word that occurs. A `time_t` and the
-- members of `struct tm` have no bounds.
--
-- The array `ok_buffer` of `pollResponseOK` has 7 bytes, and holds what the stack held where nothing is
-- read into it; where the modem sent more, what is read is longer than the array, as with any other
-- array, and the theorems on the sizes of arrays are not about it.
--
-- Not modelled: the methods without a body, and the test program of the queue.
pub mod Base
pub mod Platform
pub mod Notify
pub mod Radio
pub mod Mqtt
pub mod Firmware
pub mod Queue
pub mod Tests
