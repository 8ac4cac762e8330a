-- ===== src/Radio/AccessPoint.antt =====
-- The access point name: how the answer of the modem is compared, and what waits for it.
use xbee_mqtt.Base.{
  ℕ, zero, suc, ◌≤◌, ◌≡◌, refl, ◌∙◌, ◌↔◌, Bool, true, false, ◌&&◌, List, [], ◌∷◌, arith, length,
  take, if◌then◌else◌, is_neg, memcmp_eq,
}
use xbee_mqtt.Platform.{Platform, Event, notified, received, at_response}
use xbee_mqtt.Radio.Types.{Radio, RadioState, Sys}
use xbee_mqtt.Radio.Commands.{
  verify_access_point_name, an_command, deliver, deliver_all, dev_tick, send_read_apn,
  poll_apn_status,
}
use xbee_mqtt.Radio.Startup.{startup_step, poll_startup}
use xbee_mqtt.Radio.Socket.{poll}
use xbee_mqtt.Radio.Frame.{dev_tick-m_state, poll_early}

-- `memcmp` finds the two equal exactly if the first is at least that long and they begin alike.
memcmp-take : (b a : List ℕ) → (memcmp_eq (length b) a b ≡ true) ↔ (take (length b) a ≡ b)
unfolding memcmp_eq
memcmp-take [] a = (λ _. refl, λ _. refl)
memcmp-take (y ∷ b) [] = (λ h. cc, λ h. cc)
memcmp-take (y ∷ b) (x ∷ a) =
    (λ h. ground (arith, (memcmp-take b a).0), λ h. ground (arith, (memcmp-take b a).1))

-- For an answer no longer than the array that holds the wanted name: the name is taken for set
-- exactly if the answer is a beginning of the array, be it empty or shorter than the name. The answer
-- is marked as received, and the request to set the name is raised exactly in the other case.
pub verify-prefix :
    (value : List ℕ) (r : Radio)
    → length value ≤ length r.access_point_name
    → let (same, r') = verify_access_point_name value r in
      ((same ≡ true) ↔ (take (length value) r.access_point_name ≡ value))
      × (r'.got_access_point_name ≡ true)
      × (r'.need_set_access_point_name ≡ (if same then r.need_set_access_point_name else true))
unfolding verify_access_point_name
verify-prefix value r room = (
  (
    λ h. ground (arith, (memcmp-take value r.access_point_name).0),
    λ h. ground (arith, (memcmp-take value r.access_point_name).1),
  ),
  ground arith,
  ground arith,
)

-- The events that reach the callback of an AT command.
abbrev pub is_answer : Event → Bool
is_answer (notified _ _ _) = false
is_answer (received _ _ _) = false
is_answer (at_response guard _) = true

abbrev pub no_answer : List Event → Bool
no_answer [] = true
no_answer (e ∷ es) = (if is_answer e then false else true) && no_answer es

module _ {W : Type 0} (P : Platform W) where
  -- `n` calls of `poll`.
  unfoldable pub polls : ℕ → Sys W → Sys W
  polls zero s = s
  polls (suc n) s = polls n (poll P s).1

  deliver_all_unanswered :
      (es : List Event) (s : Sys W)
      → no_answer es ≡ true
      → (deliver_all es s).radio.got_access_point_name ≡ s.radio.got_access_point_name
  unfolding deliver_all deliver
  deliver_all_unanswered [] s h = refl
  deliver_all_unanswered (notified a b c ∷ es) s h =
      ground (arith, deliver_all_unanswered es (deliver (notified a b c) s))
  deliver_all_unanswered (received a b c ∷ es) s h =
      ground (arith, deliver_all_unanswered es (deliver (received a b c) s))
  deliver_all_unanswered (at_response a b ∷ es) s h = cc

  dev_tick_unanswered :
      (s : Sys W)
      → no_answer (P.dev_tick s.world).0 ≡ true
      → (dev_tick P s).1.radio.got_access_point_name ≡ s.radio.got_access_point_name
  unfolding dev_tick
  dev_tick_unanswered s h = deliver_all_unanswered (P.dev_tick s.world).0 _ h

  waiting_step :
      (s : Sys W)
      → s.radio.m_state ≡ RadioState.await_read_apn_response
      → s.radio.got_access_point_name ≡ false
      → no_answer (P.dev_tick s.world).0 ≡ true
      → ((poll P s).1.radio.m_state ≡ RadioState.await_read_apn_response)
        × ((poll P s).1.radio.got_access_point_name ≡ false)
  unfolding poll poll_startup startup_step poll_apn_status
  waiting_step s at got h =
      rw (poll_early P s (rw at)) (ground (arith, dev_tick_unanswered s h, dev_tick-m_state P s))

  waiting_forever :
      (n : ℕ) (s : Sys W)
      → ((w : W) → no_answer (P.dev_tick w).0 ≡ true)
      → s.radio.m_state ≡ RadioState.await_read_apn_response
      → s.radio.got_access_point_name ≡ false
      → (polls n s).radio.m_state ≡ RadioState.await_read_apn_response
  unfolding polls
  waiting_forever zero s silent at got = at
  waiting_forever (suc n) s silent at got =
      let (at', got') = waiting_step s at got (silent s.world) in
      waiting_forever n (poll P s).1 silent at' got'

  request_step :
      (s : Sys W)
      → s.radio.m_state ≡ RadioState.begin_read_apn
      → is_neg (P.cmd_create an_command s.world).0 ≡ true
      → ((poll P s).1.radio.m_state ≡ RadioState.await_read_apn_response)
        × ((poll P s).1.radio.got_access_point_name ≡ s.radio.got_access_point_name)
  unfolding poll poll_startup startup_step send_read_apn
  request_step s at failed = rw (poll_early P s (rw at)) (ground arith)

  -- If the driver cannot create the command that reads the access point name, no callback is
  -- registered; then, as long as no answer to an AT command is delivered, the radio waits for the
  -- answer for ever: there is no retry and no timeout.
  pub read_apn_failure :
      (n : ℕ) (s : Sys W)
      → s.radio.m_state ≡ RadioState.begin_read_apn
      → s.radio.got_access_point_name ≡ false
      → is_neg (P.cmd_create an_command s.world).0 ≡ true
      → ((w : W) → no_answer (P.dev_tick w).0 ≡ true)
      → (polls (suc n) s).radio.m_state ≡ RadioState.await_read_apn_response
  unfolding polls
  read_apn_failure n s at got failed silent =
      let (at', got') = request_step s at failed in
      waiting_forever n (poll P s).1 silent at' (got' ∙ got)
