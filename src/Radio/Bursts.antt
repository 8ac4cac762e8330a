-- ===== src/Radio/Bursts.antt =====
-- Several notifications in one tick of the driver: of all that a tick delivers, GB4XBee::poll looks at
-- the last notification only.
use xbee_mqtt.Base.{
  ℕ, ◌+◌, ◌≤◌, ◌<◌, ◌%◌, ◌^◌, ◌≡◌, ◌≢◌, subst, sym, ◌∙◌, refl, ap, Bool, true, false, ◌&&◌, ◌||◌,
  not, List, [], ◌∷◌, ◌++◌, length, ℤ, ◌==◌, if◌then◌else◌, arith,
}
use xbee_mqtt.Platform.{Platform, Event, notified, received, at_response}
use xbee_mqtt.Notify.{Notify, callback}
use xbee_mqtt.Notify.Codes.FrameType
use xbee_mqtt.Notify.Codes.TxMesg
use xbee_mqtt.Notify.Codes.SockMesg
use xbee_mqtt.Notify.Codes.StateMesg
use xbee_mqtt.Radio.Types.{RadioState, Radio, Sys, lt_state}
use xbee_mqtt.Radio.Timers.{reset_socket}
use xbee_mqtt.Radio.Commands.{dev_tick, deliver, deliver_all}
use xbee_mqtt.Radio.Socket.{
  socket_created, connect_accepted, connection_made, connection_lost, socket_step, poll_socket,
  poll,
}
use xbee_mqtt.Radio.Frame.{dev_tick-radio, dev_tick-m_state, poll_late}

-- The types of frames that XBeeNotify counts.
abbrev pub is_counted : FrameType.FrameType → Bool
is_counted type =
    type == FrameType.tx_status
    || (type == FrameType.sock_create_resp
        || (type == FrameType.sock_connect_resp || type == FrameType.sock_state))

abbrev pub is_silent : List Event → Bool
is_silent [] = true
is_silent (notified sock type message ∷ es) = false
is_silent (received sock status payload ∷ es) = is_silent es
is_silent (at_response guard value ∷ es) = is_silent es

-- Where a notification of the type, with the message, leads the states that wait for one.
abbrev pub verdict : RadioState → FrameType.FrameType → ℕ → RadioState
verdict RadioState.await_socket_id type message =
    if type == FrameType.sock_create_resp && message == SockMesg.success
    then RadioState.socket_ready
    else RadioState.socket_cooldown_period
verdict RadioState.await_connect_response type message =
    if type == FrameType.sock_connect_resp && message == SockMesg.success
    then RadioState.await_connection
    else RadioState.socket_cooldown_period
verdict RadioState.await_connection type message =
    if type == FrameType.sock_state && message == StateMesg.connected
    then RadioState.connected
    else RadioState.socket_cooldown_period
verdict _ type message =
    if (type == FrameType.sock_state && not (message == StateMesg.connected))
      || (type == FrameType.tx_status && not (message == TxMesg.success))
    then RadioState.socket_cooldown_period
    else RadioState.connected

abbrev pub listens : RadioState → Bool
listens RadioState.await_socket_id = true
listens RadioState.await_connect_response = true
listens RadioState.await_connection = true
listens RadioState.connected = true
listens RadioState.sending = true
listens _ = false

module _ (sock : ℤ) (type message : ℕ) (n : Notify) where
  callback-m_count :
      n.m_count < 2 ^ 32
      → (callback sock type message n).m_count
        ≡ (n.m_count + (if is_counted type then 1 else 0)) % 2 ^ 32
  unfolding callback
  callback-m_count h = ground arith

  callback-created :
      is_counted type ≡ true
      → socket_created (callback sock type message n)
        ≡ (type == FrameType.sock_create_resp && message == SockMesg.success)
  unfolding callback socket_created
  callback-created h = ground arith

  callback-accepted :
      is_counted type ≡ true
      → connect_accepted (callback sock type message n)
        ≡ (type == FrameType.sock_connect_resp && message == SockMesg.success)
  unfolding callback connect_accepted
  callback-accepted h = ground arith

  callback-made :
      is_counted type ≡ true
      → connection_made (callback sock type message n)
        ≡ (type == FrameType.sock_state && message == StateMesg.connected)
  unfolding callback connection_made
  callback-made h = ground arith

  callback-lost :
      is_counted type ≡ true
      → connection_lost (callback sock type message n) ≡ (
          (type == FrameType.sock_state && not (message == StateMesg.connected))
          || (type == FrameType.tx_status && not (message == TxMesg.success)))
  unfolding callback connection_lost
  callback-lost h = ground arith

module _ {W : Type 0} where
  deliver_all-append :
      (es fs : List Event) (s : Sys W)
      → deliver_all (es ++ fs) s ≡ deliver_all fs (deliver_all es s)
  unfolding deliver_all
  deliver_all-append [] fs s = refl
  deliver_all-append (e ∷ es) fs s = deliver_all-append es fs (deliver e s)

  deliver_all-silent :
      (es : List Event) (s : Sys W) → is_silent es ≡ true → (deliver_all es s).notify ≡ s.notify
  unfolding deliver_all deliver
  deliver_all-silent [] s h = refl
  deliver_all-silent (notified sock type message ∷ es) s h = cc
  deliver_all-silent (received sock status payload ∷ es) s h =
      deliver_all-silent es (deliver (received sock status payload) s) h
  deliver_all-silent (at_response guard value ∷ es) s h =
      deliver_all-silent es (deliver (at_response guard value) s) h

  deliver-m_count :
      (e : Event) (s : Sys W)
      → s.notify.m_count < 2 ^ 32
      → (k : ℕ) × (k ≤ 1) × ((deliver e s).notify.m_count ≡ (s.notify.m_count + k) % 2 ^ 32)
  unfolding deliver
  deliver-m_count (notified sock type message) s h = (
    if is_counted type then 1 else 0,
    ground arith,
    callback-m_count sock type message s.notify h,
  )
  deliver-m_count (received sock status payload) s h = (0, omega arith, omega arith)
  deliver-m_count (at_response guard value) s h = (0, omega arith, omega arith)

  -- A list of events raises the count by no more than its length.
  deliver_all-m_count :
      (es : List Event) (s : Sys W)
      → s.notify.m_count < 2 ^ 32
      → (k : ℕ) × (k ≤ length es)
        × ((deliver_all es s).notify.m_count ≡ (s.notify.m_count + k) % 2 ^ 32)
  unfolding deliver_all
  deliver_all-m_count [] s h = (0, omega arith, omega arith)
  deliver_all-m_count (e ∷ es) s h =
      let (k, small, here) = deliver-m_count e s h in
      let (l, less, later) = deliver_all-m_count es (deliver e s) (omega (arith, here)) in
      (k + l, omega arith, omega (arith, here, later))

  -- What the tick leaves in the notification, and that its count has moved.
  abbrev Ends : List Event → List Event → ℤ → ℕ → ℕ → Sys W → Type 0
  Ends es fs sock type message s =
      let t = deliver_all (es ++ notified sock type message ∷ fs) s in
      (t.notify ≡ callback sock type message (deliver_all es s).notify)
      × ((t.notify.m_count == s.notify.m_count) ≡ false)

  deliver_all-Ends :
      (es fs : List Event) (sock : ℤ) (type message : ℕ) (s : Sys W)
      → s.notify.m_count < 2 ^ 32
      → length es + 1 < 2 ^ 32
      → is_counted type ≡ true
      → is_silent fs ≡ true
      → Ends es fs sock type message s
  unfolding deliver_all deliver
  deliver_all-Ends es fs sock type message s room few c silent =
      let e = notified sock type message in
      let n = (deliver_all es s).notify in
      let split = ap (λ (t : Sys W). t.notify) (deliver_all-append es (e ∷ fs) s) in
      let end = split ∙ deliver_all-silent fs (deliver e (deliver_all es s)) silent in
      let (k, small, before) = deliver_all-m_count es s room in
      let last = callback-m_count sock type message n (omega (arith, before)) in
      let moved : (callback sock type message n).m_count ≢ s.notify.m_count =
        ground (arith, last, before) in
      (end, rw end (ground arith))

module _ {W : Type 0} (P : Platform W) where
  socket_step-verdict :
      (st : RadioState) (s : Sys W) (sock : ℤ) (type message : ℕ) (n : Notify)
      → listens st ≡ true
      → is_counted type ≡ true
      → s.notify ≡ callback sock type message n
      → (s.notify.m_count == s.radio.notify_count) ≡ false
      → (socket_step P st s).1.radio.m_state ≡ verdict st type message
  unfolding socket_step reset_socket
  socket_step-verdict RadioState.await_socket_id s sock type message n l c e new =
      ground (arith, callback-created sock type message n c)
  socket_step-verdict RadioState.await_connect_response s sock type message n l c e new =
      ground (arith, callback-accepted sock type message n c)
  socket_step-verdict RadioState.await_connection s sock type message n l c e new =
      ground (arith, callback-made sock type message n c)
  socket_step-verdict RadioState.connected s sock type message n l c e new =
      ground (arith, callback-lost sock type message n c)
  socket_step-verdict RadioState.sending s sock type message n l c e new =
      ground (arith, callback-lost sock type message n c)
  socket_step-verdict RadioState.start s sock type message n l c e new = cc
  socket_step-verdict _ s sock type message n l c e new = cc

  tick-Ends :
      (es fs : List Event) (sock : ℤ) (type message : ℕ) (s : Sys W)
      → s.notify.m_count < 2 ^ 32
      → length es + 1 < 2 ^ 32
      → is_counted type ≡ true
      → is_silent fs ≡ true
      → (P.dev_tick s.world).0 ≡ es ++ notified sock type message ∷ fs
      → let t = (dev_tick P s).1 in
        (n : Notify) × (t.notify ≡ callback sock type message n)
        × ((t.notify.m_count == s.notify.m_count) ≡ false)
  unfolding dev_tick
  tick-Ends es fs sock type message s room few c silent all =
      let s' : Sys W = record s { world = (P.dev_tick s.world).1 } in
      let (heard, moved) = deliver_all-Ends es fs sock type message s' room few c silent in
      rw all ((deliver_all es s').notify, heard, moved)

  poll_socket-m_state :
      (s : Sys W)
      → (poll_socket P s).1.radio.m_state
        ≡ (socket_step P (dev_tick P s).1.radio.m_state (dev_tick P s).1).1.radio.m_state
  unfolding poll_socket
  poll_socket-m_state s = refl

  listens_late :
      (st : RadioState) → listens st ≡ true → lt_state st RadioState.socket_cooldown_period ≡ false
  listens_late RadioState.start h = cc
  listens_late _ h = ground arith

  -- In a state that waits for a notification, or is CONNECTED or SENDING, with none pending: whatever a
  -- tick delivers, fewer than 2 ^ 32 events, if a counted notification is the last one in it, then this
  -- one alone says where the poll leads, as if it had come alone; what was notified before it in the
  -- tick, also what the state waits for or a loss of the connection, is not seen.
  pub poll_last :
      (s : Sys W) (es fs : List Event) (sock : ℤ) (type message : ℕ)
      → listens s.radio.m_state ≡ true
      → s.radio.notify_count ≡ s.notify.m_count
      → s.notify.m_count < 2 ^ 32
      → length es + 1 < 2 ^ 32
      → is_counted type ≡ true
      → is_silent fs ≡ true
      → (P.dev_tick s.world).0 ≡ es ++ notified sock type message ∷ fs
      → (poll P s).1.radio.m_state ≡ verdict s.radio.m_state type message
  poll_last s es fs sock type message l pending room few c silent all =
      let t = (dev_tick P s).1 in
      let (n, heard, moved) = tick-Ends es fs sock type message s room few c silent all in
      let same = dev_tick-radio P s in
      let state : t.radio.m_state ≡ s.radio.m_state = dev_tick-m_state P s in
      let new : (t.notify.m_count == t.radio.notify_count) ≡ false =
        subst (λ k. (t.notify.m_count == k) ≡ false)
          (sym (ap (λ (r : Radio). r.notify_count) same ∙ pending)) moved in
      let step =
        socket_step-verdict t.radio.m_state t sock type message n (rw state l) c heard new in
      ap (λ (u : Sys W). u.radio.m_state) (poll_late P s (listens_late s.radio.m_state l))
      ∙ poll_socket-m_state s
      ∙ step
      ∙ ap (λ st. verdict st type message) state

  -- In AWAIT_CONNECT_RESPONSE with no notification pending: if one `xbee_dev_tick` delivers both the
  -- answer that accepts the connect request and the report that the socket is connected, the radio
  -- sees only the second, takes it for a failure and gives the socket up.
  pub poll_burst :
      (s : Sys W) (a b : ℤ)
      → s.radio.m_state ≡ RadioState.await_connect_response
      → s.radio.notify_count ≡ s.notify.m_count
      → s.notify.m_count < 2 ^ 32
      → (P.dev_tick s.world).0
        ≡ notified a FrameType.sock_connect_resp SockMesg.success
          ∷ notified b FrameType.sock_state StateMesg.connected
          ∷ []
      → (poll P s).1.radio.m_state ≡ RadioState.socket_cooldown_period
  poll_burst s a b st quiet room both =
      let first = notified a FrameType.sock_connect_resp SockMesg.success in
      let type = FrameType.sock_state in
      let message = StateMesg.connected in
      poll_last s (first ∷ []) [] b type message (rw st refl) quiet room (omega arith) refl refl
        both
      ∙ ap (λ t. verdict t type message) st
