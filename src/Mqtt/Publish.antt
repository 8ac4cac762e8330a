-- ===== src/Mqtt/Publish.antt =====
-- GB4MQTT::handlePublishRequests: the life of the one queued publish request.
use xbee_mqtt.Base.{
  ℕ, ◌+◌, Bool, true, false, List, [], ◌∷◌, ltb, ◌==◌, if◌then◌else◌, u8, elapsed, Prog, ◌>>=◌,
  ◌>>◌, pure, get,
}
use xbee_mqtt.Platform.{Platform}
use xbee_mqtt.Radio.Types.{call}
use xbee_mqtt.Radio.Message.{send_message}
use xbee_mqtt.Mqtt.Library.{PacketLibrary}
use xbee_mqtt.Mqtt.Types.{
  MqttReturn, Client, on_request, radio, gb4mqtt_publish_timeout, gb4mqtt_publish_max_tries,
}
use xbee_mqtt.Mqtt.Outgoing.{send_publish_request}

abbrev pub disconn : List ℕ
disconn = 0xe0 ∷ 0x00 ∷ []

module _ {W : Type 0} (P : Platform W) (L : PacketLibrary) where
  -- The `switch` on what `sendPublishRequest` returned.
  unfoldable pub after_publish : MqttReturn → Prog (Client W) Bool
  after_publish MqttReturn.publish_sent = do
    r ← get (λ c. c.mqtt.request)
    if r.qos == 0
        then on_request (λ r. record r { active = false })
        else if r.duplicate == 0
        then (do
          if r.disconnect then pure tt else on_request (λ r. record r { duplicate = 1 })
          now ← radio (call P.millis)
          on_request (λ r. record r { start_time = now }))
        else pure tt
    pure true
  after_publish MqttReturn.publish_packet_error = do
    on_request (λ r. record r { active = false })
    pure true
  after_publish MqttReturn.in_progress = pure true
  after_publish _ = pure false

  -- The branch of a request that is ready to send.
  unfoldable pub send_request : Prog (Client W) Bool
  send_request = do
    on_request (λ r. record r { ready_to_send = false })
    req ← get (λ c. c.mqtt.request)
    send_ok ← send_publish_request P L req
    after_publish send_ok

  unfoldable pub send_disconnect : Prog (Client W) (Unit {0})
  send_disconnect = do _ ← radio (send_message P disconn 2); pure tt

  -- The branch of a request that was sent: acknowledged, waiting, timed out.
  unfoldable pub await_puback : Prog (Client W) Bool
  await_puback = do
    r ← get (λ c. c.mqtt.request)
    if r.got_puback
        then (do
          on_request (λ r. record r { active = false })
          if r.disconnect then (do send_disconnect; pure false) else pure true)
        else (do
          now ← radio (call P.millis)
          if ltb (elapsed now r.start_time) gb4mqtt_publish_timeout
              then pure true
              else if r.disconnect
              then (do send_disconnect; on_request (λ r. record r { active = false }); pure false)
              else if ltb gb4mqtt_publish_max_tries r.tries
              then (do on_request (λ r. record r { active = false }); pure false)
              else (do
                later ← radio (call P.millis)
                on_request (λ r. record r {
                  start_time = later;
                  tries = u8 (r.tries + 1);
                  ready_to_send = true;
                })
                pure true))

  -- GB4MQTT::handlePublishRequests
  unfoldable pub handle_publish_requests : Prog (Client W) Bool
  handle_publish_requests = do
    r ← get (λ c. c.mqtt.request)
    if r.active then (if r.ready_to_send then send_request else await_puback) else pure true
