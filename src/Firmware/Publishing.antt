-- ===== src/Firmware/Publishing.antt =====
-- What the loop of `main` publishes, from its start on.
use xbee_mqtt.Base.{
  ℕ, zero, suc, ◌+◌, ◌<◌, ◌*◌, ◌≡◌, ◌∙◌, ◌⊎◌, Bool, true, false, inl, inr, ap, subst, List, length,
  ◌==◌, if◌then◌else◌, ℤ, arith,
}
use xbee_mqtt.Platform.{Platform}
use xbee_mqtt.Mqtt.Library.{PacketLibrary}
use xbee_mqtt.Mqtt.Types.{Client}
use xbee_mqtt.Firmware.Report.{ReportLibrary, Report}
use xbee_mqtt.Mqtt.Requests.{IsSized}
use xbee_mqtt.Firmware.Board.{Board}
use xbee_mqtt.Firmware.Epoch.{TimeLibrary, compile_epoch}
use xbee_mqtt.Firmware.Loop.{Device, take_report, iterate, rounds, start, configure}
use xbee_mqtt.Firmware.Rounds.{polled, take_report_cases, Tidy, FitsNext, AllFit}
use xbee_mqtt.Firmware.Bounds.{Within, iterate-Within, start-Within}
use xbee_mqtt.Radio.Bounds.{Sized}
use xbee_mqtt.Mqtt.Client.{begin}
use xbee_mqtt.Mqtt.Session.{fits}
use xbee_mqtt.Firmware.Coherence.{rounds-coherent, start-coherent}
use xbee_mqtt.Firmware.Fitting.{Narrow, start-AllFit}
use xbee_mqtt.Firmware.Numbering.{
  Numbered, Batch, new-Batch, QueuesSix, publish_reports-Publishes, take_report-Batch,
}
use xbee_mqtt.Firmware.Batch.{Fills}

module _ {W : Type 0} (P : Platform W) (L : PacketLibrary) (R : ReportLibrary) where
  -- Whether a round publishes the buffer: the number of messages, 0 or 1.
  unfoldable pub message_count : Device W R.Float → ℕ
  message_count d = if 6 == (take_report P L R d).1.report.cnt then 1 else 0

  message_count-flag :
      (d : Device W R.Float) (full : Bool)
      → (6 == (take_report P L R d).1.report.cnt) ≡ full
      → message_count d ≡ (if full then 1 else 0)
  unfolding message_count
  message_count-flag d full h = ap (λ k. if k then 1 else 0) h

  -- The number of messages that a number of rounds publishes.
  unfoldable pub messages : ℕ → Device W R.Float → ℕ
  messages zero d = 0
  messages (suc n) d = message_count d + messages n (iterate P L R d).1

  -- A round publishes nothing, or a message of six reports.
  abbrev pub Publication : ℤ → ℕ → Device W R.Float → Type 0
  Publication epoch first d =
      ((message_count d ≡ 0) × ((polled P L R d).mqtt ≡ d.client.mqtt))
      ⊎ ((message_count d ≡ 1) × QueuesSix P L R epoch first (polled P L R d))

module _ {W : Type 0} (P : Platform W) (L : PacketLibrary) (R : ReportLibrary) where
  iterate-Batch :
      (d : Device W R.Float) (b : Batch R 5 d.report)
      → FitsNext P L R d
      → IsSized d.client.mqtt.request
      → (b' : Batch R 5 (iterate P L R d).1.report) × (b'.first
          ≡ b.first + 6 * message_count P L R d)
        × Publication P L R d.report.epoch b.first d
  unfolding iterate
  iterate-Batch d b short sized =
      let d1 : Device W R.Float = (take_report P L R d).1 in
      let (same, report) = take_report_cases P L R d in
      let (b1, first, epoch) = take_report-Batch P L R d1.report d b short report in
      let (b', after) = publish_reports-Publishes P L R d1 b1 (rw same sized) in
      elim after [
        | inl (room, idle, next) ↦
            let none = message_count-flag P L R d false room in
            (b', omega (arith, next, first, none), inl (none, idle ∙ same))
        | inr (full, queued, next) ↦
            let one = message_count-flag P L R d true full in
            (
              b',
              omega (arith, next, first, one),
              inr (
                one,
                subst (λ e. QueuesSix P L R e b.first (polled P L R d)) epoch
                    (subst (λ n. QueuesSix P L R d1.report.epoch n (polled P L R d)) first queued),
              ),
            )
      ]

  rounds_from-Batch :
      (n : ℕ) (d : Device W R.Float) (b : Batch R 5 d.report)
      → AllFit P L R n d
      → Within d.client
      → let d' = rounds P L R n d in
        (b' : Batch R 5 d'.report) × (b'.first ≡ b.first + 6 * messages P L R n d)
        × Within d'.client
  unfolding rounds messages AllFit
  rounds_from-Batch zero d b fit h = (b, omega arith, h)
  rounds_from-Batch (suc n) d b fit h =
      let (b1, first, _) = iterate-Batch d b fit.0 h.request in
      let tidy : Tidy P L R d = (b.texts, omega (arith, b.few), b.fills) in
      let (b', after, h') =
        rounds_from-Batch n (iterate P L R d).1 b1 fit.1 (iterate-Within P L R d fit.0 tidy h) in
      (b', omega (arith, first, after), h')

  start-Batch :
      (B : Board W) (T : TimeLibrary) (compile_time : List ℕ) (raw : Client W)
      → (b : Batch R 5 (start P L R B T compile_time raw).report) × (b.first ≡ 0)
  unfolding start
  start-Batch B T compile_time raw = new-Batch R _ _

  start-rounds-Batch :
      (n : ℕ) (B : Board W) (T : TimeLibrary) (compile_time : List ℕ) (raw : Client W)
      → Narrow R (compile_epoch T compile_time) n
      → Sized raw.sys
      → IsSized raw.mqtt.request
      → let s = start P L R B T compile_time raw in
        let d = rounds P L R n s in
        (b : Batch R 5 d.report) × (b.first ≡ 6 * messages P L R n s) × Within d.client
  start-rounds-Batch n B T compile_time raw narrow sized request =
      let s = start P L R B T compile_time raw in
      let (b, zeroth) = start-Batch B T compile_time raw in
      let (b', first, h) =
        rounds_from-Batch n s b (start-AllFit P L R n B T compile_time raw narrow).0
          (start-Within P L R B T compile_time raw sized request) in
      (b', omega (arith, first, zeroth), h)

  -- From the start of `main`, with the request's arrays and the client's at their sizes, a `strftime`
  -- that writes 20 characters, and floats and numbers of the first reports, up to one for each round,
  -- that take 36 at most: what a round does after any number of rounds, in which `m` messages were
  -- published. Either it publishes nothing, and the client that it polls has the members that it had;
  -- or it queues, ready to be sent, a bracket and six reports in the format of `main`, whose numbers
  -- count up from `6 m` (shown in 32 bits), each with the latitude and the longitude that so many steps
  -- lead to, and of which the last is followed by the closing bracket, the others by a comma.
  pub rounds-Publication :
      (n : ℕ) (B : Board W) (T : TimeLibrary) (compile_time : List ℕ) (raw : Client W)
      → Narrow R (compile_epoch T compile_time) n
      → Sized raw.sys
      → IsSized raw.mqtt.request
      → let s = start P L R B T compile_time raw in
        let d = rounds P L R n s in Publication P L R d.report.epoch (6 * messages P L R n s) d
  rounds-Publication n B T compile_time raw narrow sized request =
      let s = start P L R B T compile_time raw in
      let (b, at, h) = start-rounds-Batch n B T compile_time raw narrow sized request in
      let d : Device W R.Float = rounds P L R n s in
      let fits_next = (start-AllFit P L R n B T compile_time raw narrow).1 in
      subst (λ k. Publication P L R d.report.epoch k d) at (iterate-Batch d b fits_next h.request).2

  -- The buffer holds a bracket and fewer than six reports in the format of `main`, each followed by
  -- a comma, whose numbers count up from the one given.
  abbrev pub Holds : Report R.Float → ℕ → Type 0
  Holds r first =
      (texts : List (List ℕ)) × (length texts < 6)
      × Fills r texts
      × Numbered R r.epoch 0 first texts

  -- From the start of `main`, with the request's arrays and the client's at their sizes, a `strftime`
  -- that writes 20 characters, and floats and numbers of the first reports, up to one for each round,
  -- that take 36 at most, after any number of rounds in which `m` messages were published: the buffer
  -- has its 900 bytes and holds a bracket and fewer than six reports in the format of `main`, each
  -- followed by a comma, whose numbers count up from `6 m` (shown in 32 bits), each with the latitude
  -- and the longitude that so many steps lead to, and the variables say so; and either `begin` had
  -- failed, or the states of client and radio fit.
  pub rounds-Holds :
      (n : ℕ) (B : Board W) (T : TimeLibrary) (compile_time : List ℕ) (raw : Client W)
      → Narrow R (compile_epoch T compile_time) n
      → Sized raw.sys
      → IsSized raw.mqtt.request
      → let s = start P L R B T compile_time raw in
        let d = rounds P L R n s in
        Holds d.report (6 * messages P L R n s)
        × ((begin P (configure P L R B raw)).0 ≡ false
            ⊎ (fits d.client.mqtt.state d.client.sys.radio ≡ true))
  rounds-Holds n B T compile_time raw narrow sized request =
      let s = start P L R B T compile_time raw in
      let d : Device W R.Float = rounds P L R n s in
      let (b, at, _) = start-rounds-Batch n B T compile_time raw narrow sized request in
      (
        subst (Holds d.report) at (b.texts, omega (arith, b.few), b.fills, b.numbered),
        elim (start-coherent P L R B T compile_time raw) [
          | inl failed ↦ inl failed
          | inr fitting ↦ inr (rounds-coherent P L R n s fitting)
        ],
      )
