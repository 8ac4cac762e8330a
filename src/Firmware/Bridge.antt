-- ===== src/Firmware/Bridge.antt =====
-- main.cpp: the BRIDGE_DESTINATION build of `main`.
use xbee_mqtt.Base.{
  ℕ, zero, suc, ◌+◌, ◌*◌, true, List, [], ◌∷◌, if◌then◌else◌, ltb, ◌==◌, elapsed, u32, Prog, ◌>>=◌,
  ◌>>◌, pure, get,
}
use xbee_mqtt.Platform.{Platform}
use xbee_mqtt.Radio.Types.{call}
use xbee_mqtt.Mqtt.Library.{PacketLibrary}
use xbee_mqtt.Mqtt.Types.{Client, radio}
use xbee_mqtt.Mqtt.Client.{Settings, new_client, begin, publish, get_radio_baud}
use xbee_mqtt.Mqtt.Poll.{poll}
use xbee_mqtt.Firmware.Board.{Board, on_world, set_up_board, set_up_serial}
use xbee_mqtt.Firmware.Report.{snprintf_bytes, write_at}

-- The arguments of the constructor `mqtt`.
abbrev pub bridge : Settings
bridge = record {
  radio_baud = 9600;
  radio_apn = b'e' ∷ b'm' ∷ [];
  use_tls = true;
  network_port = 8883;
  network_address =
      b'6' ∷ b'9' ∷ b'.' ∷ b'6' ∷ b'2' ∷ b'.' ∷ b'1' ∷ b'3' ∷ b'4' ∷ b'.' ∷ b'1' ∷ b'5' ∷ b'1' ∷ [];
  id = b't' ∷ b'e' ∷ b's' ∷ b't' ∷ [];
  name = [];
  pwd = [];
}

-- `topic` with its NUL.
abbrev pub bridge_topic : List ℕ
bridge_topic = b'h' ∷ b'e' ∷ b'l' ∷ b'l' ∷ b'o' ∷ 0 ∷ []

abbrev pub sizeof_bridge_topic : ℕ
sizeof_bridge_topic = 6

-- The format holds no conversion: the text is the format itself.
abbrev pub hex_text : List ℕ
hex_text = b' ' ∷ b'0' ∷ b'2' ∷ b'X' ∷ []

-- The loop that fills `cnt_s`, with `n` rounds left.
unfoldable pub fill : ℕ → ℕ → List ℕ → List ℕ
unfolding write_at snprintf_bytes
fill zero i cnt_s = cnt_s
fill (suc n) i cnt_s = fill n (i + 1) (write_at (i * 3) (snprintf_bytes 3 hex_text) cnt_s)

-- The MQTT client and the variables of `main`.
pub record Counting (W : Type 0) : Type 0 where
  pub client : Client W
  pub delay_start : ℕ
  pub cnt : ℕ
  pub objnum : ℕ
  pub cnt_s : List ℕ

module _ {W : Type 0} where
  abbrev on_client : {A : Type 0} → Prog (Client W) A → Prog (Counting W) A
  on_client f d = let (a, client) = f d.client in (a, record d { client = client })

  abbrev on_counting : (Counting W → Counting W) → Prog (Counting W) (Unit {0})
  on_counting f d = (tt, f d)

module _ {W : Type 0} (P : Platform W) (L : PacketLibrary) where
  -- The first `if` of the loop.
  unfoldable pub count_interval : Prog (Counting W) (Unit {0})
  count_interval = do
    now ← on_client (radio (call P.millis))
    start ← get (λ d. d.delay_start)
    if ltb 10000 (elapsed now start)
        then (do
          later ← on_client (radio (call P.millis))
          on_counting (λ d. record d {
            delay_start = later;
            cnt = u32 (d.cnt + 1);
            objnum = u32 (d.objnum + 1);
          }))
        else pure tt

  -- The second `if`.
  unfoldable pub publish_count : Prog (Counting W) (Unit {0})
  publish_count = do
    d ← get (λ d. d)
    if 6 == d.cnt
        then (do
          on_counting (λ d. record d { cnt = 0 })
          _ ← on_client (publish P bridge_topic sizeof_bridge_topic d.cnt_s 192 1 true)
          pure tt)
        else pure tt

  -- One round of the loop.
  unfoldable pub bridge_round : Prog (Counting W) (Unit {0})
  unfolding count_interval publish_count
  bridge_round = do count_interval; publish_count; _ ← on_client (poll P L); pure tt

  -- `main` up to its loop; `raw` is what memory held for `mqtt`, `old` what it held for `cnt_s`.
  unfoldable pub bridge_start : Board W → List ℕ → Client W → Counting W
  unfolding set_up_board set_up_serial new_client get_radio_baud begin fill
  bridge_start B old raw =
      let c = new_client P bridge (on_world (set_up_board B) raw) in
      let (_, c') = begin P (on_world (set_up_serial B (get_radio_baud c)) c) in
      let (now, c'') = radio (call P.millis) c' in
      record { client = c''; delay_start = now; cnt = 0; objnum = 0; cnt_s = fill 64 0 old }
