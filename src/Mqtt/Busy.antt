-- ===== src/Mqtt/Busy.antt =====
-- A publish request that meets a busy radio.
use xbee_mqtt.Base.{
  ℕ, zero, suc, ◌≤◌, ◌≡◌, ◌⊎◌, inl, inr, refl, ap, ◌∙◌, true, false, List, arith, ℤ, pos, negsuc,
}
use xbee_mqtt.Platform.{Platform}
use xbee_mqtt.Notify.Receive.{pending}
use xbee_mqtt.Radio.Types.{RadioState}
use xbee_mqtt.Radio.Message.{send_message}
use xbee_mqtt.Radio.Socket
use xbee_mqtt.Mqtt.Library.{PacketLibrary}
use xbee_mqtt.Mqtt.Types.{MqttReturn, MqttState, MqttRequest, Client, radio}
use xbee_mqtt.Mqtt.Outgoing.{
  publish_data, packet_max_size, publish_status, send_serialized, send_publish_request,
}
use xbee_mqtt.Mqtt.Publish.{after_publish, send_request, handle_publish_requests}
use xbee_mqtt.Mqtt.Poll.{standby, client_step, poll}
use xbee_mqtt.Mqtt.Graph.{poll_served}
use xbee_mqtt.Mqtt.Delivery.{is_positive, serializes}
use xbee_mqtt.Mqtt.Timeouts.{dispatch_incomming-nothing}
use xbee_mqtt.Mqtt.Sends.{sends, sends-le-sends_left}

-- A request that is to be sent, and that the serializer makes a packet of.
pub record IsReady (L : PacketLibrary) (r : MqttRequest) : Type 0 where
  pub active : r.active ≡ true
  pub ready : r.ready_to_send ≡ true
  pub valid : serializes L r ≡ true

module _ {W : Type 0} (P : Platform W) (L : PacketLibrary) where
  send_serialized_busy :
      (len : ℤ) (packet : List ℕ) (c : Client W)
      → c.sys.radio.m_state ≡ RadioState.sending
      → is_positive len ≡ true
      → send_serialized P L len packet c ≡ (MqttReturn.in_progress, c)
  unfolding send_serialized send_message publish_status
  send_serialized_busy (pos zero) packet c s h = cc
  send_serialized_busy (pos (suc n)) packet c s h = rw s refl
  send_serialized_busy (negsuc n) packet c s h = cc

  send_request_busy :
      (c : Client W)
      → c.sys.radio.m_state ≡ RadioState.sending
      → serializes L c.mqtt.request ≡ true
      → send_request P L c ≡ (
        true,
        record c {
          mqtt = record c.mqtt { request = record c.mqtt.request { ready_to_send = false } };
        },
      )
  unfolding send_request send_publish_request after_publish
  send_request_busy c s v =
      let q = record c.mqtt.request { ready_to_send = false } in
      let d = record c { mqtt = record c.mqtt { request = q } } in
      let (len, packet) = L.serialize_publish packet_max_size (publish_data q) in
      rw (send_serialized_busy len packet d s v) refl

  pub handle_publish_requests_ready :
      (c : Client W)
      → c.mqtt.request.active ≡ true
      → c.mqtt.request.ready_to_send ≡ true
      → handle_publish_requests P L c ≡ send_request P L c
  unfolding handle_publish_requests
  handle_publish_requests_ready c a b = simp (a, b)

  standby_busy :
      (c : Client W)
      → c.sys.radio.m_state ≡ RadioState.sending
      → pending c.sys.receive ≡ false
      → IsReady L c.mqtt.request
      → (standby P L c).1 ≡ record c {
        mqtt = record c.mqtt { request = record c.mqtt.request { ready_to_send = false } };
      }
  unfolding standby
  standby_busy c s quiet i =
      rw
        (
          dispatch_incomming-nothing P L c quiet,
          handle_publish_requests_ready c i.active i.ready ∙ send_request_busy c s i.valid,
        )
        refl

  -- What such a poll leaves.
  abbrev unready : Client W → Client W
  unready c = record c {
    mqtt = record c.mqtt {
      state = MqttState.standby;
      request = record c.mqtt.request { ready_to_send = false };
    };
    sys = (Socket.poll P c.sys).1;
  }

  session_busy :
      (t : MqttState) (u : RadioState) (c : Client W)
      → (t ≡ MqttState.begin_standby) ⊎ (t ≡ MqttState.standby)
      → c.mqtt.state ≡ t
      → c.sys.radio.m_state ≡ RadioState.sending
      → pending c.sys.receive ≡ false
      → IsReady L c.mqtt.request
      → (client_step P L t u c).1 ≡ record c {
        mqtt = record c.mqtt {
          state = MqttState.standby;
          request = record c.mqtt.request { ready_to_send = false };
        };
      }
  unfolding client_step
  session_busy t u c (inl begins) at s quiet i =
      rw begins
        (standby_busy (record c { mqtt = record c.mqtt { state = MqttState.standby } }) s quiet i)
  session_busy t u c (inr stands) at s quiet i =
      ap (λ t. (client_step P L t u c).1) stands
      ∙ standby_busy c s quiet i
      ∙ ap
          (λ t. record c {
            mqtt = record c.mqtt {
              state = t;
              request = record c.mqtt.request { ready_to_send = false };
            };
          })
          (at ∙ stands)

  poll_busy :
      (c : Client W)
      → (c.mqtt.state ≡ MqttState.begin_standby) ⊎ (c.mqtt.state ≡ MqttState.standby)
      → (Socket.poll P c.sys).1.radio.m_state ≡ RadioState.sending
      → pending (Socket.poll P c.sys).1.receive ≡ false
      → IsReady L c.mqtt.request
      → (poll P L c).1 ≡ unready c
  poll_busy c at s quiet i =
      let e = (radio (Socket.poll P) c).1 in
      (poll_served P L c (rw s)).0
      ∙ session_busy c.mqtt.state e.sys.radio.m_state e at refl s quiet i

  -- A poll in BEGIN_STANDBY or STANDBY that finds the radio SENDING, brings no message, and has an
  -- active request that is ready to be sent, that the serializer makes a packet of, that asks to
  -- disconnect and was tried at most five times: the poll does nothing beyond `radio.poll()`, and yet
  -- takes the request's readiness back and leaves it active. So none of any number of later polls
  -- hands the request over either: it is lost.
  pub poll_busy_lost :
      (n : ℕ) (c : Client W)
      → (c.mqtt.state ≡ MqttState.begin_standby) ⊎ (c.mqtt.state ≡ MqttState.standby)
      → (Socket.poll P c.sys).1.radio.m_state ≡ RadioState.sending
      → pending (Socket.poll P c.sys).1.receive ≡ false
      → IsReady L c.mqtt.request
      → c.mqtt.request.disconnect ≡ true
      → c.mqtt.request.tries ≤ 5
      → let d = (poll P L c).1 in
        (d.sys ≡ (Socket.poll P c.sys).1)
        × (d.mqtt.request.ready_to_send ≡ false)
        × (d.mqtt.request.active ≡ true)
        × (sends P L n d ≡ 0)
  poll_busy_lost n c at s quiet i last tried =
      let e = poll_busy c at s quiet i in
      (
        ap (λ (d : Client W). d.sys) e,
        ap (λ (d : Client W). d.mqtt.request.ready_to_send) e,
        ap (λ (d : Client W). d.mqtt.request.active) e ∙ i.active,
        ground (arith, sends-le-sends_left P L n (poll P L c).1, e),
      )
