-- ===== src/Radio/Types.antt =====
-- gb4xbee.h: the data of class GB4XBee.
use xbee_mqtt.Base.{
  ℕ, ◌-◌, Bool, false, List, ltb, ◌==◌, if◌then◌else◌, ℤ, pos, overwrite, strncpy_bytes, Prog,
}
use xbee_mqtt.Notify.{Notify}
use xbee_mqtt.Notify.Receive.{Receive}
use xbee_mqtt.Platform.{Platform}

-- GB4XBee::Return
pub data RadioReturn : Type 0 where
  buffer_full tls_profile_error tls_profile_timeout packet_error init_try_again : RadioReturn
  connect_timeout connect_try_again connect_error apn_read_error socket_error : RadioReturn
  socket_timeout command_timeout command_not_ok command_ok command_in_progress init_done :
      RadioReturn
  init_in_progress apn_read_in_progress apn_not_set apn_is_set socket_in_progress : RadioReturn
  got_socket_id tls_profile_in_progress tls_profile_ok connect_in_progress connected : RadioReturn
  disconnected waiting_message message_received message_sent startup_in_progress : RadioReturn
  startup_complete in_progress : RadioReturn

-- GB4XBee::State
pub data RadioState : Type 0 where
  start await_command_mode_guard_0 begin_command_mode await_command_mode_guard_1 : RadioState
  await_command_mode_response begin_api_mode_command await_api_mode_response : RadioState
  begin_command_mode_exit await_command_mode_exit_response begin_init_xbee_api : RadioState
  await_init_xbee_api_done begin_read_apn await_read_apn_response set_apn : RadioState
  socket_cooldown_period begin_create_socket await_socket_id begin_set_tls_profile : RadioState
  await_tls_profile_response socket_ready await_connect_response await_connection : RadioState
  connected sending max_state : RadioState

-- The number of an enumerator: the code compares states by `<`.
abbrev pub index : RadioState → ℕ
index RadioState.start = 0
index RadioState.await_command_mode_guard_0 = 1
index RadioState.begin_command_mode = 2
index RadioState.await_command_mode_guard_1 = 3
index RadioState.await_command_mode_response = 4
index RadioState.begin_api_mode_command = 5
index RadioState.await_api_mode_response = 6
index RadioState.begin_command_mode_exit = 7
index RadioState.await_command_mode_exit_response = 8
index RadioState.begin_init_xbee_api = 9
index RadioState.await_init_xbee_api_done = 10
index RadioState.begin_read_apn = 11
index RadioState.await_read_apn_response = 12
index RadioState.set_apn = 13
index RadioState.socket_cooldown_period = 14
index RadioState.begin_create_socket = 15
index RadioState.await_socket_id = 16
index RadioState.begin_set_tls_profile = 17
index RadioState.await_tls_profile_response = 18
index RadioState.socket_ready = 19
index RadioState.await_connect_response = 20
index RadioState.await_connection = 21
index RadioState.connected = 22
index RadioState.sending = 23
index RadioState.max_state = 24

abbrev pub lt_state : RadioState → RadioState → Bool
lt_state s t = ltb (index s) (index t)

abbrev pub eq_state : RadioState → RadioState → Bool
eq_state s t = index s == index t

abbrev pub gb4xbee_command_mode_guard_time : ℕ
gb4xbee_command_mode_guard_time = 1200

abbrev pub gb4xbee_access_point_name_size : ℕ
gb4xbee_access_point_name_size = 32

abbrev pub gb4xbee_received_message_max_size : ℕ
gb4xbee_received_message_max_size = 1500

abbrev pub gb4xbee_default_baud : ℕ
gb4xbee_default_baud = 9600

abbrev pub gb4xbee_default_command_timeout : ℕ
gb4xbee_default_command_timeout = 10000

abbrev pub gb4xbee_connect_timeout : ℕ
gb4xbee_connect_timeout = 20000

abbrev pub gb4xbee_socket_create_timeout : ℕ
gb4xbee_socket_create_timeout = 10000

abbrev pub gb4xbee_socket_cooldown_interval : ℕ
gb4xbee_socket_cooldown_interval = 2000

abbrev pub gb4xbee_connect_retry_delay_interval : ℕ
gb4xbee_connect_retry_delay_interval = 1000

abbrev pub gb4xbee_tls_profile_timeout : ℕ
gb4xbee_tls_profile_timeout = 10000

abbrev pub gb4xbee_send_timeout : ℕ
gb4xbee_send_timeout = 1000

-- GB4XBEE_CAST_GUARD of gb4xbee.cpp.
abbrev pub cast_guard_value : ℕ
cast_guard_value = 0x4742_5842

-- The members of GB4XBee. A start time (int32_t) is its bit pattern, an error code an int; `xbee` is
-- the driver's, a part of the world.
pub record Radio : Type 0 where
  pub cast_guard : ℕ
  pub m_state : RadioState
  pub err : ℤ
  pub guard_time_start : ℕ
  pub response_start_time : ℕ
  pub connect_start_time : ℕ
  pub connect_retry_delay_start_time : ℕ
  pub socket_create_start_time : ℕ
  pub socket_cooldown_start_time : ℕ
  pub option_start_time : ℕ
  pub send_start_time : ℕ
  pub access_point_name : List ℕ
  pub access_point_name_len : ℕ
  pub got_access_point_name : Bool
  pub need_set_access_point_name : Bool
  pub baudrate : ℕ
  pub sock : ℤ
  pub transport_protocol : ℕ
  pub tls_profile : ℕ
  pub notify_count : ℕ
  pub connect_in_progress : Bool

-- What a method of GB4XBee reads and writes: its object, the two globals of xbee_notify.cpp and the
-- world behind the driver.
pub record Sys (W : Type 0) : Type 0 where
  pub radio : Radio
  pub notify : Notify
  pub receive : Receive
  pub world : W

module _ {W : Type 0} where
  abbrev pub on_radio : (Radio → Radio) → Prog (Sys W) (Unit {0})
  on_radio f s = (tt, record s { radio = f s.radio })

  abbrev pub set_state : RadioState → Prog (Sys W) (Unit {0})
  set_state t = on_radio (λ r. record r { m_state = t })

  -- A call of the platform that returns a value, and one that returns none.
  abbrev pub call : {A : Type 0} → (W → A × W) → Prog (Sys W) A
  call f s = let (a, w) = f s.world in (a, record s { world = w })

  abbrev pub run : (W → W) → Prog (Sys W) (Unit {0})
  run f s = (tt, record s { world = f s.world })

-- The constructor. Members with no initializer, the last byte of `access_point_name` among them,
-- keep what the memory, `raw`, held.
unfoldable pub new_radio : {W : Type 0} → Platform W → ℕ → List ℕ → Bool → ℕ → Radio → Radio
new_radio P baud apn use_tls use_tls_profile raw = record raw {
  cast_guard = cast_guard_value;
  baudrate = baud;
  guard_time_start = 0;
  response_start_time = 0;
  got_access_point_name = false;
  need_set_access_point_name = false;
  err = pos 0;
  tls_profile = use_tls_profile;
  notify_count = 0;
  connect_in_progress = false;
  transport_protocol = if use_tls then P.protocol_ssl else P.protocol_tcp;
  access_point_name =
      overwrite (strncpy_bytes (gb4xbee_access_point_name_size - 1) apn) raw.access_point_name;
}

-- GB4XBee::getBaud, GB4XBee::getAPN and GB4XBee::state
abbrev pub get_baud : Radio → ℕ
get_baud r = r.baudrate

abbrev pub get_apn : Radio → List ℕ
get_apn r = r.access_point_name

abbrev pub state : Radio → RadioState
state r = r.m_state
