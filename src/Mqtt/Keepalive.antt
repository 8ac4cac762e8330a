-- ===== src/Mqtt/Keepalive.antt =====
-- The keepalive timer of GB4MQTT. Its intervals are int32_t, so a difference of 2 ^ 31 milliseconds
-- or more is negative and counts as short.
use xbee_mqtt.Base.{ℕ, ◌+◌, ◌<◌, ◌^◌, ◌≡◌, refl, arith, ltb, if◌then◌else◌, u32, elapsed-add}
use xbee_mqtt.Platform.{Platform}
use xbee_mqtt.Mqtt.Types.{
  MqttReturn, Client, gb4mqtt_network_timeout_interval, gb4mqtt_keepalive_interval,
}
use xbee_mqtt.Mqtt.Library.{PacketLibrary}
use xbee_mqtt.Mqtt.Incoming.{reset_keep_alive_timer}
use xbee_mqtt.Mqtt.Outgoing.{poll_keep_alive_timer}

-- What a connection that has been silent for `d` milliseconds needs.
abbrev pub verdict : ℕ → MqttReturn
verdict d =
    if ltb d (2 ^ 31)
    then (if ltb gb4mqtt_network_timeout_interval d
        then MqttReturn.keepalive_timer_reconnect
        else if ltb gb4mqtt_keepalive_interval d
        then MqttReturn.keepalive_timer_ping
        else MqttReturn.keepalive_timer_running)
    else MqttReturn.keepalive_timer_running

module _ {W : Type 0} (P : Platform W) where
  -- `d` milliseconds after both timers were started, by a clock that reads the same twice: up to a
  -- minute the timer runs, up to two minutes a ping is due, then a reconnection; from 2 ^ 31 on it
  -- runs again.
  pub poll_keep_alive_timer-verdict :
      (c : Client W) (start d : ℕ)
      → c.mqtt.keepalive_period_start_time ≡ u32 start
      → c.mqtt.ping_period_start_time ≡ u32 start
      → (P.millis c.sys.world).0 ≡ u32 (start + d)
      → (P.millis (P.millis c.sys.world).1).0 ≡ u32 (start + d)
      → d < 2 ^ 32
      → (poll_keep_alive_timer P c).0 ≡ verdict d
  unfolding poll_keep_alive_timer
  poll_keep_alive_timer-verdict c start d k p now again h = ground (arith, elapsed-add start d h)

module _ {W : Type 0} (P : Platform W) (L : PacketLibrary) where
  -- A reset starts both timers at the clock's readings, and changes nothing else of the client.
  pub reset_keep_alive_timer_lem :
      (c : Client W)
      → (reset_keep_alive_timer P L c).1.mqtt ≡ record c.mqtt {
        keepalive_period_start_time = (P.millis c.sys.world).0;
        ping_period_start_time = (P.millis (P.millis c.sys.world).1).0;
      }
  unfolding reset_keep_alive_timer
  reset_keep_alive_timer_lem c = refl
