-- ===== src/Firmware/Rounds.antt =====
-- The loop of `main`: the buffer of reports from round to round, and the sixth report.
use xbee_mqtt.Base.{
  ℕ, zero, suc, ◌≤◌, ◌<◌, ◌≡◌, ◌∙◌, ◌⊎◌, inl, inr, refl, ap, sym, subst, true, false, List, [], ◌∷◌,
  ◌++◌, length, take, length-append, take-take, arith, ltb, ◌==◌, elapsed, Bool-cases,
}
use xbee_mqtt.Platform.{Platform}
use xbee_mqtt.Mqtt.Library.{PacketLibrary}
use xbee_mqtt.Mqtt.Types.{Client, MqttRequest}
use xbee_mqtt.Mqtt.Client.{publish}
use xbee_mqtt.Mqtt.Poll.{poll}
use xbee_mqtt.Mqtt.Requests.{Message, publish_message, IsSized, publish-stores}
use xbee_mqtt.Firmware.Board.{Board}
use xbee_mqtt.Firmware.Epoch.{TimeLibrary}
use xbee_mqtt.Firmware.Report.{ReportLibrary, Report, add_report, text_of, report_size}
use xbee_mqtt.Firmware.Loop.{
  Device, topic, sizeof_topic, take_report, publish_reports, iterate, start,
}
use xbee_mqtt.Firmware.Batch.{Fills, joined, length-joined, new_report-Fills, add_report-Fills}

-- A request that waits to be sent with the payload, in arrays of the declared sizes.
abbrev pub Queued : List ℕ → MqttRequest → Type 0
Queued payload r =
    IsSized r
    × (r.active ≡ true)
    × (r.ready_to_send ≡ true)
    × (r.message_len ≡ length payload)
    × (take (length payload) r.message ≡ payload)

module _ {W : Type 0} (P : Platform W) (L : PacketLibrary) (R : ReportLibrary) where
  -- The first `if` leaves the members of the client, and the variables or a report more.
  pub take_report_cases :
      (d : Device W R.Float)
      → let d' = (take_report P L R d).1 in
        (d'.client.mqtt ≡ d.client.mqtt)
        × ((d'.report ≡ d.report) ⊎ ((now : ℕ) × (d'.report ≡ add_report R now d.report)))
  unfolding take_report
  take_report_cases d =
      elim (Bool-cases (ltb 10000 (elapsed (P.millis d.client.sys.world).0 d.report.delay_start))) [
        | inl due ↦ rw due (refl, inr (_, refl))
        | inr early ↦ rw early (refl, inl refl)
      ]

  take_report_due :
      (d : Device W R.Float)
      → 10000 < elapsed (P.millis d.client.sys.world).0 d.report.delay_start
      → let d' = (take_report P L R d).1 in
        (d'.client.mqtt ≡ d.client.mqtt) × ((now : ℕ) × (d'.report ≡ add_report R now d.report))
  unfolding take_report
  take_report_due d h =
      let due : ltb 10000 (elapsed (P.millis d.client.sys.world).0 d.report.delay_start) ≡ true =
        ground arith in
      rw due (refl, (_, refl))

  abbrev pub emptied : Report R.Float → Report R.Float
  emptied r = record r { cnt = 0; report_index = 1 }

  -- What the second `if` publishes.
  abbrev pub reports_message : Report R.Float → Message
  reports_message r = record {
    topic = topic;
    topic_len = sizeof_topic;
    payload = r.cnt_s;
    payload_len = r.report_index;
    qos = 1;
    disconnect = true;
  }

  pub publish_reports_idle :
      (d : Device W R.Float) → (6 == d.report.cnt) ≡ false → (publish_reports P L R d).1 ≡ d
  unfolding publish_reports
  publish_reports_idle d h = rw h refl

  pub publish_reports_full :
      (d : Device W R.Float)
      → (6 == d.report.cnt) ≡ true
      → (publish_reports P L R d).1 ≡ record {
        client = publish_message P (reports_message d.report) d.client;
        report = emptied d.report;
      }
  unfolding publish_reports
  publish_reports_full d h = rw h refl

  pub emptied-Fills :
      (r : Report R.Float) (texts : List (List ℕ)) → Fills r texts → Fills (emptied r) []
  emptied-Fills r texts f = record {
    room = f.room;
    count = refl;
    short = tt;
    index = refl;
    written =
        sym (take-take 1 r.report_index r.cnt_s (omega (arith, f.index))) ∙ ap (take 1) f.written;
  }

  -- At the head of the loop the buffer holds fewer than six reports.
  abbrev pub Tidy : Device W R.Float → Type 0
  Tidy d = (texts : List (List ℕ)) × (length texts < 6) × Fills d.report texts

  publish_reports-Tidy :
      (d : Device W R.Float) (texts : List (List ℕ))
      → length texts ≤ 6
      → Fills d.report texts
      → Tidy (publish_reports P L R d).1
  publish_reports-Tidy d texts k f = elim (Bool-cases (6 == d.report.cnt)) [
    | inl full ↦ rw (publish_reports_full d full) ([], omega arith, emptied-Fills d.report texts f)
    | inr room ↦ rw (publish_reports_idle d room) (texts, ground (arith, f.count), f)
  ]

  -- `poll` does not touch the variables of `main`.
  pub iterate-report :
      (d : Device W R.Float)
      → (iterate P L R d).1.report ≡ (publish_reports P L R (take_report P L R d).1).1.report
  unfolding iterate
  iterate-report d = refl

  -- The client that a round polls.
  abbrev pub polled : Device W R.Float → Client W
  polled d = (publish_reports P L R (take_report P L R d).1).1.client

  pub iterate-client : (d : Device W R.Float) → (iterate P L R d).1.client ≡ (poll P L (polled d)).1
  unfolding iterate
  iterate-client d = refl

  pub publish_message-Queued :
      (r : Report R.Float) (texts : List (List ℕ)) (c : Client W)
      → Fills r texts
      → length texts ≡ 6
      → IsSized c.mqtt.request
      → Queued (b'[' ∷ joined texts) (publish_message P (reports_message r) c).mqtt.request
  unfolding publish
  publish_message-Queued r texts c f k s =
      let bound = length-joined texts f.short in
      let n : r.report_index ≡ length (b'[' ∷ joined texts) = omega (arith, f.index) in
      let (sized, _, mes, _, _) =
        publish-stores P (reports_message r) c s (omega arith) (omega (arith, f.index))
          (omega (arith, f.index, f.room)) in
      (
        sized,
        refl,
        refl,
        n,
        ap (λ i. take i (publish_message P (reports_message r) c).mqtt.request.message) (sym n)
            ∙ mes
            ∙ f.written,
      )

module _ {W : Type 0} (P : Platform W) (L : PacketLibrary) (R : ReportLibrary) where
  -- The next report is not cut, whatever the clock shows.
  abbrev pub FitsNext : Device W R.Float → Type 0
  FitsNext d = (now : ℕ) → length (text_of R now d.report) < report_size

  -- In a number of rounds no report is cut.
  unfoldable pub AllFit : ℕ → Device W R.Float → Type 0
  AllFit zero d = Unit {0}
  AllFit (suc n) d = FitsNext d × AllFit n (iterate P L R d).1

  pub take_report-Fills :
      (r : Report R.Float) (d : Device W R.Float) (texts : List (List ℕ))
      → FitsNext d
      → length texts < 6
      → Fills d.report texts
      → (r ≡ d.report) ⊎ ((now : ℕ) × (r ≡ add_report R now d.report))
      → (texts' : List (List ℕ)) × (length texts' ≤ 6) × Fills r texts'
  take_report-Fills r d texts short k f (inl same) = (texts, omega arith, rw same f)
  take_report-Fills r d texts short k f (inr (now, e)) = (
    texts ++ text_of R now d.report ∷ [],
    omega (arith, length-append texts (text_of R now d.report ∷ [])),
    rw e (add_report-Fills R now d.report texts f k (short now)),
  )

  pub iterate-Tidy :
      (d : Device W R.Float) → FitsNext d → Tidy P L R d → Tidy P L R (iterate P L R d).1
  iterate-Tidy d short (texts, k, f) =
      let d1 : Device W R.Float = (take_report P L R d).1 in
      let (texts', k', f') =
        take_report-Fills d1.report d texts short k f (take_report_cases P L R d).1 in
      rw (iterate-report P L R d) (publish_reports-Tidy P L R d1 texts' k' f')

  pub start-Fills :
      (B : Board W) (T : TimeLibrary) (compile_time : List ℕ) (raw : Client W)
      → Fills (start P L R B T compile_time raw).report []
  unfolding start
  start-Fills B T compile_time raw = new_report-Fills R _ _

  -- With five reports in the buffer, the arrays of the request at their sizes, and more than 10000 ms
  -- since the last report, a round queues a request whose message is a bracket and the six reports in
  -- their order, polls, and empties the buffer, if the sixth report is shorter than 150 bytes,
  -- whatever the clock shows. The client that is
  -- polled is otherwise in the state that it was in.
  pub iterate_publishes :
      (d : Device W R.Float) (texts : List (List ℕ))
      → FitsNext d
      → Fills d.report texts
      → length texts ≡ 5
      → IsSized d.client.mqtt.request
      → 10000 < elapsed (P.millis d.client.sys.world).0 d.report.delay_start
      → let c = polled P L R d in
        (now : ℕ) × ((iterate P L R d).1.client ≡ (poll P L c).1)
        × (c.mqtt.state ≡ d.client.mqtt.state)
        × Queued (b'[' ∷ joined (texts ++ text_of R now d.report ∷ [])) c.mqtt.request
        × Fills (iterate P L R d).1.report []
  unfolding publish
  iterate_publishes d texts short f k sized due =
      let d1 : Device W R.Float = (take_report P L R d).1 in
      let (same, (now, e)) = take_report_due P L R d due in
      let all = texts ++ text_of R now d.report ∷ [] in
      let six : length all ≡ 6 = omega (arith, length-append texts (text_of R now d.report ∷ [])) in
      let fills : Fills d1.report all =
        rw e (add_report-Fills R now d.report texts f (omega arith) (short now)) in
      let full : (6 == d1.report.cnt) ≡ true = ground (arith, fills.count) in
      let done = publish_reports_full P L R d1 full in
      let kept : IsSized d1.client.mqtt.request = rw same sized in
      let queued = publish_message-Queued P L R d1.report all d1.client fills six kept in
      (
        now,
        iterate-client P L R d,
        ap (λ (x : Device W R.Float). x.client.mqtt.state) done ∙ ap (λ m. m.state) same,
        subst (λ (x : Device W R.Float). Queued (b'[' ∷ joined all) x.client.mqtt.request)
            (sym done) queued,
        rw (iterate-report P L R d, done) (emptied-Fills P L R d1.report all fills),
      )
