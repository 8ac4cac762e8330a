-- ===== src/Tests/Mqtt.antt =====
-- The theorems on the client, applied.
use xbee_mqtt.Base.{
  elapsed, ◌+◌, if◌then◌else◌, ◌≤◌, ◌≡◌, inr, refl, true, false, List, [], ◌∷◌, some, none, arith,
  take, pos, strncpy_bytes,
}
use xbee_mqtt.Platform.{received}
use xbee_mqtt.Radio.Types.{RadioState}
use xbee_mqtt.Radio.Startup
use xbee_mqtt.Radio.Socket
use xbee_mqtt.Radio.Commands.{dev_tick}
use xbee_mqtt.Radio.Message.{get_received_message}
use xbee_mqtt.Mqtt.Types.{MqttReturn, MqttState, Client, Fetch, radio, gb4mqtt_max_packet_size}
use xbee_mqtt.Mqtt.Client.{begin, publish}
use xbee_mqtt.Mqtt.Incoming.{
  dispatch, poll_incomming, read_packet, dispatch_read, dispatch_incomming, check_timeout,
  poll_connack_status,
}
use xbee_mqtt.Mqtt.Outgoing.{poll_keep_alive_timer}
use xbee_mqtt.Mqtt.Poll.{poll, client_step, after_connack_status, standby}
use xbee_mqtt.Mqtt.Publish.{handle_publish_requests, await_puback}
use xbee_mqtt.Mqtt.Graph.{◌⟿◌, poll-⟿, session_start}
use xbee_mqtt.Mqtt.Keepalive.{poll_keep_alive_timer-verdict}
use xbee_mqtt.Mqtt.Acknowledge.{Accepting}
use xbee_mqtt.Mqtt.Requests.{Message, IsSized, publish_message, publish-stores}
use xbee_mqtt.Mqtt.Retries.{sends_left}
use xbee_mqtt.Mqtt.Busy.{IsReady, poll_busy_lost}
use xbee_mqtt.Mqtt.Handover.{entered, Handed, poll_hands_over}
use xbee_mqtt.Mqtt.Delivery.{Ended, poll_end}
use xbee_mqtt.Mqtt.Timeouts.{IsWaiting, Retried, poll_retry, poll_connack_timeout}
use xbee_mqtt.Mqtt.Sends.{hands_over, sends, publish-sends, poll_request}
use xbee_mqtt.Mqtt.Run.{
  Action, begins, polls, publishes, sets_address, FitsUnless, run-begin-coherent,
}
use xbee_mqtt.Tests.Bench.{Bench, bench, library, sys_in, idle_request, client_in}

abbrev report : Message
report = record {
  topic = b'h' ∷ b'i' ∷ 0 ∷ [];
  topic_len = 3;
  payload = 1 ∷ 2 ∷ [];
  payload_len = 2;
  qos = 1;
  disconnect = true;
}

abbrev fresh : Client Bench
fresh = client_in MqttState.init (sys_in RadioState.start 0 [])

abbrev calls : List Action
calls = publishes report ∷ polls ∷ sets_address none ∷ polls ∷ begins ∷ polls ∷ []

run-begin-coherent_example : FitsUnless bench library calls (begin bench fresh).1
unfolding begin Startup.begin
run-begin-coherent_example = run-begin-coherent bench library calls fresh refl

-- A client in a session, with nothing to do.
abbrev settled : Client Bench
settled = client_in MqttState.standby (sys_in RadioState.connected 500 [])

publish-sends_example : sends bench library 50 (publish_message bench report settled) ≤ 1
publish-sends_example = publish-sends bench library report 50 settled

-- A request that waits for its PUBACK since before the timeout: this poll makes it ready again.
abbrev overdue : Client Bench
overdue =
    let c = publish_message bench (record report { disconnect = false }) settled in
    record c {
      mqtt = record c.mqtt {
        request = record c.mqtt.request {
          ready_to_send = false;
          start_time = 4294947296;
          tries = 4;
        };
      };
    }

poll_request_example :
    let r = overdue.mqtt.request in
    let r' = (poll bench library overdue).1.mqtt.request in
    (r'.topic ≡ r.topic)
    × (r'.message ≡ r.message)
    × (r'.message_len ≡ r.message_len)
    × (r'.qos ≡ r.qos)
    × (r'.packet_id ≡ r.packet_id)
    × (r'.disconnect ≡ r.disconnect)
    × (r'.tries ≤ 5)
    × (sends_left r' + (if hands_over bench overdue then 1 else 0) ≤ sends_left r)
poll_request_example = poll_request bench library overdue (omega arith)

overdue-IsWaiting : IsWaiting overdue.mqtt.request
unfolding publish
overdue-IsWaiting = record {
  active = refl;
  sent = refl;
  unacknowledged = refl;
  stays = refl;
  left = omega arith;
}

poll_retry_example : Retried 20500 overdue.mqtt.request (poll bench library overdue).1.mqtt.request
unfolding Socket.poll Socket.socket_step dev_tick publish
poll_retry_example =
    poll_retry bench library overdue 4294947296 20500 (inr refl) overdue-IsWaiting refl refl refl
      refl (omega arith)

abbrev answered : Client Bench
answered = record overdue {
  mqtt = record overdue.mqtt { request = record overdue.mqtt.request { got_puback = true } };
}

answered_ends : (poll bench library answered).1.mqtt.request.active ≡ false
unfolding poll client_step standby Socket.poll Socket.socket_step dev_tick dispatch_incomming
    poll_incomming get_received_message read_packet dispatch_read handle_publish_requests
    await_puback publish
answered_ends = refl

poll_end_example : Ended library answered.mqtt.request (poll bench library answered).1.mqtt.request
unfolding publish
poll_end_example = poll_end bench library answered refl answered_ends

-- 15 seconds after the CONNECT.
abbrev stalled : Client Bench
stalled = client_in MqttState.await_connack (sys_in RadioState.connected 15000 [])

poll_connack_timeout_example : (poll bench library stalled).1.mqtt.state ≡ MqttState.not_connected
unfolding Socket.poll Socket.socket_step dev_tick
poll_connack_timeout_example =
    poll_connack_timeout bench library stalled 0 15000 refl refl refl refl refl (omega arith)

poll-⟿_example : MqttState.standby ⟿ (poll bench library settled).1.mqtt.state
poll-⟿_example = poll-⟿ bench library settled

-- A CONNACK arrives in the tick of this poll.
abbrev welcomed : Client Bench
welcomed =
    client_in MqttState.await_connack
      (sys_in RadioState.connected 500 ((received (pos 7) 0 (32 ∷ 2 ∷ 0 ∷ 0 ∷ []) ∷ []) ∷ []))

welcomed_begins : (poll bench library welcomed).1.mqtt.state ≡ MqttState.begin_standby
unfolding poll client_step poll_connack_status check_timeout after_connack_status Socket.poll
    Socket.socket_step dev_tick dispatch_incomming poll_incomming get_received_message read_packet
    dispatch_read dispatch
welcomed_begins = refl

session_start_example :
    let d = (radio (Socket.poll bench) welcomed).1 in
    let (_, t, message, len) = (poll_incomming bench library gb4mqtt_max_packet_size d).0 in
    (welcomed.mqtt.state ≡ MqttState.await_connack) × Accepting library t message len
session_start_example = session_start bench library welcomed (λ e. cc) welcomed_begins

-- Both timers at 0, and the clock at 90 seconds.
abbrev silent : Client Bench
silent = client_in MqttState.standby (sys_in RadioState.connected 90000 [])

poll_keep_alive_timer-verdict_example :
    (poll_keep_alive_timer bench silent).0 ≡ MqttReturn.keepalive_timer_ping
poll_keep_alive_timer-verdict_example =
    poll_keep_alive_timer-verdict bench silent 0 90000 refl refl refl refl (omega arith)

abbrev fetched : Fetch
fetched = record { source = some (1 ∷ 2 ∷ 3 ∷ []); head = 0 }

idle_request-IsSized : IsSized idle_request
idle_request-IsSized = record { topic = refl; message = refl }

publish-stores_example :
    let r = (publish_message bench report settled).mqtt.request in
    IsSized r
    × (take 3 r.topic ≡ strncpy_bytes 3 report.topic)
    × (take 2 r.message ≡ take 2 report.payload)
    × (r.packet_id ≡ 1)
    × ((publish_message bench report settled).mqtt.packet_id.packet_id ≡ 2)
publish-stores_example =
    publish-stores bench report settled idle_request-IsSized (omega arith) (omega arith)
      (omega arith)

-- A report is to be sent while the radio still sends something else.
abbrev busy : Client Bench
busy = publish_message bench report (client_in MqttState.standby (sys_in RadioState.sending 500 []))

busy-IsReady : IsReady library busy.mqtt.request
unfolding publish
busy-IsReady = record { active = refl; ready = refl; valid = refl }

poll_busy_lost_example :
    let d = (poll bench library busy).1 in
    (d.sys ≡ (Socket.poll bench busy.sys).1)
    × (d.mqtt.request.ready_to_send ≡ false)
    × (d.mqtt.request.active ≡ true)
    × (sends bench library 20 d ≡ 0)
unfolding Socket.poll Socket.socket_step dev_tick publish elapsed
poll_busy_lost_example =
    poll_busy_lost bench library 20 busy (inr refl) refl refl busy-IsReady refl (omega arith)

-- A report that was just published, in a session with a radio that is CONNECTED.
abbrev queued : Client Bench
queued = publish_message bench report settled

queued-IsReady :
    IsReady library (dispatch_incomming bench library (entered bench library queued)).1.mqtt.request
unfolding publish dispatch_incomming poll_incomming get_received_message read_packet dispatch_read
    Socket.poll dev_tick
queued-IsReady = record { active = refl; ready = refl; valid = refl }

poll_hands_over_example :
    let e = (dispatch_incomming bench library (entered bench library queued)).1 in
    Handed bench library e (poll bench library queued).1
unfolding publish Socket.poll Socket.socket_step dev_tick
poll_hands_over_example = poll_hands_over bench library queued (inr refl) refl queued-IsReady refl
