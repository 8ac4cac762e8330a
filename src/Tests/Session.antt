-- ===== src/Tests/Session.antt =====
-- The way to a session, on the scripted platform.
use xbee_mqtt.Base.{
  inr, some, false, ◌≡◌, refl, true, [], ◌∷◌, arith, pos, elapsed, to_size, overwrite,
  strncpy_bytes,
}
use xbee_mqtt.Platform.{notified, received}
use xbee_mqtt.Notify.{callback, count_up}
use xbee_mqtt.Notify.Codes.FrameType
use xbee_mqtt.Notify.Codes.SockMesg
use xbee_mqtt.Notify.Codes.StateMesg
use xbee_mqtt.Notify.Receive.{receive_callback, write, read}
use xbee_mqtt.Radio.Types.{RadioState}
use xbee_mqtt.Radio.Commands.{dev_tick, deliver_all, deliver}
use xbee_mqtt.Radio.Socket
use xbee_mqtt.Radio.Message.{send_message, send_status, get_received_message}
use xbee_mqtt.Mqtt.Types.{MqttState, Client, get_next}
use xbee_mqtt.Mqtt.Client.{publish}
use xbee_mqtt.Mqtt.Incoming.{
  poll_connack_status, check_timeout, dispatch_incomming, dispatch_read, dispatch, poll_incomming,
  read_packet, check_connack, check_puback, set_fetch_data, fetch_callback, copy_loop,
  reset_keep_alive_timer,
}
use xbee_mqtt.Mqtt.Outgoing.{
  send_connect_request, after_connect, connect_status, send_publish_request, send_serialized,
  publish_status,
}
use xbee_mqtt.Mqtt.Poll.{
  standby, drop_connection, poll, client_step, try_connect, await_socket, after_connect_request,
  after_connack_status,
}
use xbee_mqtt.Mqtt.Requests.{Message, publish_message}
use xbee_mqtt.Mqtt.Library.{PacketLibrary, puback}
use xbee_mqtt.Mqtt.Ending.{actions, publish_ends}
use xbee_mqtt.Mqtt.Publish.{
  send_request, after_publish, await_puback, send_disconnect, handle_publish_requests,
}
use xbee_mqtt.Radio.Timers.{reset_socket}
use xbee_mqtt.Mqtt.Completion.{poll-puback}
use xbee_mqtt.Mqtt.Keeping.{in_session}
use xbee_mqtt.Mqtt.Results.{Means, poll-Means}
use xbee_mqtt.Mqtt.Establishing.{after_polls, all_keep, finds, polls_in_session}
use xbee_mqtt.Tests.Bench.{Bench, bench, library, sys_in, client_in}

abbrev report : Message
report = record {
  topic = b'h' ∷ b'i' ∷ 0 ∷ [];
  topic_len = 3;
  payload = 1 ∷ 2 ∷ [];
  payload_len = 2;
  qos = 1;
  disconnect = true;
}

-- A report was published, and the radio has a socket. The answer to the connect request, the report of
-- the connection and the CONNACK come in the third, the fourth and the sixth tick.
abbrev hopeful : Client Bench
hopeful = publish_message bench report (
    client_in MqttState.not_connected (
      sys_in RadioState.socket_ready 500 (
        []
        ∷ []
        ∷ (notified (pos 7) FrameType.sock_connect_resp SockMesg.success ∷ [])
        ∷ (notified (pos 7) FrameType.sock_state StateMesg.connected ∷ [])
        ∷ []
        ∷ (received (pos 7) 0 (32 ∷ 2 ∷ 0 ∷ 0 ∷ []) ∷ [])
        ∷ [])))

all_found : (all_keep bench library 6 hopeful ≡ true) × (finds bench library 6 hopeful ≡ 4)
unfolding all_keep finds poll client_step publish Socket.poll Socket.socket_step dev_tick
    deliver_all deliver try_connect await_socket after_connect_request after_connack_status
    send_connect_request after_connect connect_status send_message send_status poll_connack_status
    check_timeout dispatch_incomming dispatch_read dispatch poll_incomming read_packet
    get_received_message check_connack set_fetch_data fetch_callback copy_loop
    reset_keep_alive_timer elapsed to_size receive_callback write read callback count_up
    Socket.connect Socket.poll_socket Socket.connect_accepted Socket.connection_made overwrite
    strncpy_bytes get_next
all_found = (refl, refl)

polls_in_session_example : in_session (after_polls bench library 6 hopeful).mqtt.state ≡ true
unfolding publish
polls_in_session_example =
    polls_in_session bench library 6 hopeful all_found.0 (omega (arith, all_found.1))

-- A serializer that reads every packet as a PUBACK for the packet 1.
abbrev acking : PacketLibrary
acking = record library {
  packet_read = λ get n f. (puback, (get n f).1, (get n f).2);
  deserialize_ack = λ _ _. some (4, 0, 1);
}

-- The request with the packet id 1 was sent, and the tick of this poll brings a message.
abbrev sent : Client Bench
sent =
    let c = publish_message bench report (
      client_in MqttState.standby
        (sys_in RadioState.connected 500 ((received (pos 7) 0 (64 ∷ 2 ∷ 0 ∷ 1 ∷ []) ∷ []) ∷ []))) in
    record c { mqtt = record c.mqtt { request = record c.mqtt.request { ready_to_send = false } } }

poll-puback_example :
    ((poll bench acking sent).1.mqtt.request
      ≡ record sent.mqtt.request { got_puback = true; active = false })
    × ((poll bench acking sent).1.mqtt.state ≡ MqttState.not_connected)
    × ((poll bench acking sent).1.sys.radio.m_state ≡ RadioState.socket_cooldown_period)
unfolding publish Socket.poll dev_tick poll_incomming read_packet get_received_message
poll-puback_example = poll-puback bench acking sent (inr refl) refl refl refl refl refl refl

-- A session with a radio that is CONNECTED; the second tick brings a message.
abbrev ready : Client Bench
ready =
    client_in MqttState.standby
      (sys_in RadioState.connected 500 ([] ∷ (received (pos 7) 0 (64 ∷ 2 ∷ 0 ∷ 1 ∷ []) ∷ []) ∷ []))

two_actions : actions bench acking 2 (publish_message bench report ready) ≡ 2
unfolding actions poll client_step standby publish Socket.poll Socket.socket_step Socket.poll_socket
    dev_tick deliver_all deliver receive_callback write read get_received_message dispatch_incomming
    dispatch_read dispatch check_puback poll_incomming read_packet set_fetch_data fetch_callback
    copy_loop reset_keep_alive_timer elapsed to_size send_message send_status send_publish_request
    send_serialized publish_status send_request after_publish await_puback send_disconnect
    handle_publish_requests drop_connection overwrite strncpy_bytes get_next reset_socket
two_actions = refl

publish_ends_example :
    (after_polls bench acking 2 (publish_message bench report ready)).mqtt.request.active ≡ false
publish_ends_example = publish_ends bench acking report 2 ready (omega (arith, two_actions))

poll-Means_example :
    Means
      (poll bench library ready).0
      (Socket.poll bench ready.sys).1.radio.m_state
      (poll bench library ready).1
poll-Means_example = poll-Means bench library ready refl
