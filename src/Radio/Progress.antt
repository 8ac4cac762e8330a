-- ===== src/Radio/Progress.antt =====
-- How the startup of GB4XBee moves on: what each state of pollStartup waits for, and how many answers
-- it takes to the first socket.
use xbee_mqtt.Base.{
  ℕ, zero, suc, ◌+◌, ◌-◌, ◌≤◌, ◌≡◌, ◌∙◌, refl, ap, inl, inr, arith, Bool, true, false, [], ◌∷◌,
  if◌then◌else◌, ltb, elapsed, memcmp_eq, overwrite, is_zero, Bool-cases,
}
use xbee_mqtt.Platform.{Platform}
use xbee_mqtt.Radio.Types.{RadioState, Sys, index, lt_state, gb4xbee_command_mode_guard_time}
use xbee_mqtt.Radio.Timers.{poll_command_mode_guard}
use xbee_mqtt.Radio.Commands.{
  dev_tick, restart_init_api, poll_response_ok, poll_init_status, poll_apn_status,
}
use xbee_mqtt.Radio.Startup.{startup_step, poll_startup}
use xbee_mqtt.Radio.Socket.{poll}
use xbee_mqtt.Radio.Frame.{m_state_laws, poll_early}
use xbee_mqtt.Radio.Graph.{poll-⟶, ◌⟶◌, stay}
use xbee_mqtt.Radio.AccessPoint.{polls}

-- The state after the one that has what it waits for; `need` says whether the access point name has
-- to be set.
abbrev pub follows : Bool → RadioState → RadioState
follows need RadioState.start = RadioState.await_command_mode_guard_0
follows need RadioState.await_command_mode_guard_0 = RadioState.begin_command_mode
follows need RadioState.begin_command_mode = RadioState.await_command_mode_guard_1
follows need RadioState.await_command_mode_guard_1 = RadioState.await_command_mode_response
follows need RadioState.await_command_mode_response = RadioState.begin_api_mode_command
follows need RadioState.begin_api_mode_command = RadioState.await_api_mode_response
follows need RadioState.await_api_mode_response = RadioState.begin_command_mode_exit
follows need RadioState.begin_command_mode_exit = RadioState.await_command_mode_exit_response
follows need RadioState.await_command_mode_exit_response = RadioState.begin_init_xbee_api
follows need RadioState.begin_init_xbee_api = RadioState.await_init_xbee_api_done
follows need RadioState.await_init_xbee_api_done = RadioState.begin_read_apn
follows need RadioState.begin_read_apn = RadioState.await_read_apn_response
follows true RadioState.await_read_apn_response = RadioState.set_apn
follows false RadioState.await_read_apn_response = RadioState.begin_create_socket
follows need RadioState.set_apn = RadioState.begin_create_socket
follows need st = st

-- How many states lie between this one and the end of the startup.
abbrev pub to_go : RadioState → ℕ
to_go st = 14 - index st

module _ {W : Type 0} (P : Platform W) where
  abbrev pub guard_over : Sys W → Bool
  guard_over s =
      ltb gb4xbee_command_mode_guard_time (elapsed (P.millis s.world).0 s.radio.guard_time_start)

  -- At least three bytes have arrived, and they begin with "OK".
  abbrev pub says_ok : Sys W → Bool
  says_ok s =
      let (n, w) = P.serial_available s.world in
      if ltb n 3
      then false
      else memcmp_eq 2 (b'O' ∷ b'K' ∷ [])
          (overwrite (P.serial_read_bytes n w).0 (P.stale_ok_buffer w))

  -- What the state waits for is there; a state that waits for nothing has it.
  abbrev pub answered_in : RadioState → Sys W → Bool
  answered_in RadioState.await_command_mode_guard_0 s = guard_over s
  answered_in RadioState.await_command_mode_guard_1 s = guard_over s
  answered_in RadioState.await_command_mode_response s = says_ok s
  answered_in RadioState.await_api_mode_response s = says_ok s
  answered_in RadioState.await_command_mode_exit_response s = says_ok s
  answered_in RadioState.await_init_xbee_api_done s =
      is_zero (P.cmd_query_status (dev_tick P s).1.world).0
  answered_in RadioState.await_read_apn_response s = (dev_tick P s).1.radio.got_access_point_name
  answered_in _ s = true

  abbrev pub answered : Sys W → Bool
  answered s = answered_in s.radio.m_state s

  abbrev pub needs_apn : Sys W → Bool
  needs_apn s = (dev_tick P s).1.radio.need_set_access_point_name

  startup_step_lem :
      (st : RadioState) (s : Sys W)
      → s.radio.m_state ≡ st
      → (startup_step P st s).1.radio.m_state
        ≡ (if answered_in st s then follows (needs_apn s) st else st)
  unfolding startup_step restart_init_api poll_command_mode_guard poll_response_ok poll_init_status
      poll_apn_status
  startup_step_lem RadioState.start s h = ground arith
  startup_step_lem _ s h = grind (arith, m_state_laws)

  poll_startup_lem :
      (s : Sys W)
      → (poll_startup P s).1.radio.m_state
        ≡ (if answered s then follows (needs_apn s) s.radio.m_state else s.radio.m_state)
  unfolding poll_startup
  poll_startup_lem s = startup_step_lem s.radio.m_state s refl

  -- A poll during the startup goes on to the next state exactly if what the state waits for is there:
  -- 1200 ms of silence around the escape sequence, at least three bytes that begin with "OK", an
  -- initialization of the driver that reports success, or an access point name that was read, which
  -- skips SET_APN if it need not be set. Otherwise it stays, for however long.
  pub poll_progress :
      (s : Sys W)
      → lt_state s.radio.m_state RadioState.socket_cooldown_period ≡ true
      → (poll P s).1.radio.m_state
        ≡ (if answered s then follows (needs_apn s) s.radio.m_state else s.radio.m_state)
  poll_progress s early = ap (λ t. t.radio.m_state) (poll_early P s early) ∙ poll_startup_lem s

  -- How many of the next `n` polls find what they wait for.
  unfoldable pub answers : ℕ → Sys W → ℕ
  answers zero s = 0
  answers (suc n) s = (if answered s then 1 else 0) + answers n (poll P s).1

  follows-to_go :
      (need : Bool) (st : RadioState)
      → lt_state st RadioState.socket_cooldown_period ≡ true
      → 1 + to_go (follows need st) ≤ to_go st
  follows-to_go true RadioState.await_read_apn_response e = omega arith
  follows-to_go false RadioState.await_read_apn_response e = omega arith
  follows-to_go need RadioState.start e = omega arith
  follows-to_go need _ e = ground arith

  past_edge :
      {st t : RadioState}
      → st ⟶ t
      → lt_state st RadioState.socket_cooldown_period ≡ false
      → to_go t ≡ 0
  past_edge stay late = ground arith
  past_edge _ late = ground arith

  pub poll-to_go :
      (s : Sys W)
      → to_go (poll P s).1.radio.m_state ≤ to_go s.radio.m_state - (if answered s then 1 else 0)
  poll-to_go s = elim (Bool-cases (lt_state s.radio.m_state RadioState.socket_cooldown_period)) [
    | inl early ↦
        let next = poll_progress s early in
        ground (arith, next, follows-to_go (needs_apn s) s.radio.m_state early)
    | inr late ↦ omega (arith, past_edge (poll-⟶ P s) late)
  ]

  polls-to_go :
      (n : ℕ) (s : Sys W) → to_go (polls P n s).radio.m_state ≤ to_go s.radio.m_state - answers n s
  unfolding polls answers
  polls-to_go zero s = omega arith
  polls-to_go (suc n) s = omega (arith, poll-to_go s, polls-to_go n (poll P s).1)

  answers_mono : (n k : ℕ) (s : Sys W) → n ≤ k → answers n s ≤ answers k s
  unfolding answers
  answers_mono zero k s h = omega arith
  answers_mono (suc n) zero s h = absurd (omega arith)
  answers_mono (suc n) (suc k) s h = omega (arith, answers_mono n k (poll P s).1 (omega arith))

  -- As soon as as many polls found what they wait for as there are states up to the end of the
  -- startup (14 from START), the startup is over, however many polls waited in between, and every
  -- later poll is one of the socket's.
  pub startup_ends :
      (n k : ℕ) (s : Sys W)
      → to_go s.radio.m_state ≤ answers n s
      → n ≤ k
      → lt_state (polls P k s).radio.m_state RadioState.socket_cooldown_period ≡ false
  startup_ends n k s enough h = ground (arith, polls-to_go k s, answers_mono n k s h)
