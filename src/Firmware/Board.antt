-- ===== src/Firmware/Board.antt =====
-- main.cpp: the constants of the SENTINEL_DESTINATION build, and what `main` does with the board.
use xbee_mqtt.Base.{ℕ, true, List, [], ◌∷◌}
use xbee_mqtt.Mqtt.Types.{Client}
use xbee_mqtt.Mqtt.Client.{Settings}

-- The Arduino core's part that only `main` calls.
pub record Board (W : Type 0) : Type 0 where
  pub init : W → W
  pub watchdog_disable : W → W
  pub pin_mode : ℕ → ℕ → W → W
  pub digital_write : ℕ → ℕ → W → W
  pub serial_begin : ℕ → W → W
  pub serial_set_timeout : ℕ → W → W
  pub led_builtin : ℕ
  pub output : ℕ
  pub low : ℕ

abbrev pub client_id : List ℕ
client_id = b't' ∷ b'o' ∷ b'n' ∷ b'i' ∷ b't' ∷ b'r' ∷ b'u' ∷ b's' ∷ []

abbrev pub host : List ℕ
host = b'4' ∷ b'0' ∷ b'.' ∷ b'7' ∷ b'8' ∷ b'.' ∷ b'2' ∷ b'2' ∷ b'.' ∷ b'1' ∷ b'7' ∷ []

abbrev pub username : List ℕ
username =
    b'n' ∷ b's' ∷ b'p' ∷ b's' ∷ b'-' ∷ b's' ∷ b'e' ∷ b'n' ∷ b't' ∷ b'i' ∷ b'n' ∷ b'e' ∷ b'l' ∷ b'-'
    ∷ b'i' ∷ b'o' ∷ b't' ∷ b'-' ∷ b'h' ∷ b'u' ∷ b'b' ∷ b'.' ∷ b'a' ∷ b'z' ∷ b'u' ∷ b'r' ∷ b'e'
    ∷ b'-' ∷ b'd' ∷ b'e' ∷ b'v' ∷ b'i' ∷ b'c' ∷ b'e' ∷ b's' ∷ b'.' ∷ b'n' ∷ b'e' ∷ b't' ∷ b'/'
    ∷ b't' ∷ b'o' ∷ b'n' ∷ b'i' ∷ b't' ∷ b'r' ∷ b'u' ∷ b's' ∷ []

abbrev pub password : List ℕ
password = []

-- The arguments of the constructor `mqtt`.
abbrev pub settings : Settings
settings = record {
  radio_baud = 9600;
  radio_apn = b'e' ∷ b'm' ∷ [];
  use_tls = true;
  network_port = 8883;
  network_address = host;
  id = client_id;
  name = username;
  pwd = password;
}

module _ {W : Type 0} where
  abbrev pub on_world : (W → W) → Client W → Client W
  on_world f c = record c { sys = record c.sys { world = f c.sys.world } }

  -- The calls before the constructor.
  unfoldable pub set_up_board : Board W → W → W
  set_up_board B w =
      B.digital_write B.led_builtin B.low
        (B.pin_mode B.led_builtin B.output (B.watchdog_disable (B.init w)))

  -- The two calls of `Serial` between the constructor and `begin`.
  unfoldable pub set_up_serial : Board W → ℕ → W → W
  set_up_serial B baud w = B.serial_set_timeout 10000 (B.serial_begin baud w)
