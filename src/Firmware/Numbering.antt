-- ===== src/Firmware/Numbering.antt =====
-- What the loop of `main` ever publishes: six reports with consecutive numbers, in brackets.
use xbee_mqtt.Base.{
  ℕ, suc, ◌+◌, ◌≤◌, ◌<◌, ◌≡◌, ◌⊎◌, true, false, inl, inr, refl, sym, subst, List, [], ◌∷◌, ◌++◌,
  length, length-append, ltb, ◌==◌, if◌then◌else◌, u32, ℤ, arith, Bool-cases,
}
use xbee_mqtt.Platform.{Platform}
use xbee_mqtt.Mqtt.Library.{PacketLibrary}
use xbee_mqtt.Mqtt.Types.{Client}
use xbee_mqtt.Firmware.Epoch.{report_time}
use xbee_mqtt.Firmware.Report.{
  ReportLibrary, Report, new_report, add_report, text_of, report_text, report_size,
}
use xbee_mqtt.Mqtt.Requests.{IsSized}
use xbee_mqtt.Firmware.Loop.{Device, publish_reports}
use xbee_mqtt.Firmware.Rounds.{
  Queued, emptied, emptied-Fills, publish_reports_idle, publish_reports_full,
  publish_message-Queued,
}
use xbee_mqtt.Firmware.Batch.{Fills, joined, new_report-Fills, add_report-Fills}
use xbee_mqtt.Firmware.Rounds.{FitsNext}
use xbee_mqtt.Firmware.Fitting.{Reached, add_report-Reached, lat_after, lon_after}

module _ (R : ReportLibrary) where
  -- The text of the report with a number, counted from the start: where it stands in its message
  -- decides what follows it, and its number the two floats.
  abbrev pub IsReport : ℤ → ℕ → ℕ → List ℕ → Type 0
  IsReport epoch i k text =
      (now : ℕ) × (text
        ≡ report_text R (lat_after R k) (lon_after R k) (R.timestamp (report_time epoch now))
            (u32 k) (if ltb i 5 then b',' else b']'))

  -- Reports from a place in the message on, with numbers that count up.
  abbrev pub Numbered : ℤ → ℕ → ℕ → List (List ℕ) → Type 0
  Numbered epoch i k [] = Unit {0}
  Numbered epoch i k (t ∷ ts) = IsReport epoch i k t × Numbered epoch (i + 1) (k + 1) ts

  IsReport-at :
      (epoch : ℤ) (i j k l : ℕ) (t : List ℕ)
      → i ≡ j
      → k ≡ l
      → IsReport epoch i k t
      → IsReport epoch j l t
  IsReport-at epoch i j k l t p q h =
      subst (λ n. IsReport epoch n l t) p (subst (λ n. IsReport epoch i n t) q h)

  Numbered-append :
      (epoch : ℤ) (i k : ℕ) (ts : List (List ℕ)) (t : List ℕ)
      → Numbered epoch i k ts
      → IsReport epoch (i + length ts) (k + length ts) t
      → Numbered epoch i k (ts ++ t ∷ [])
  Numbered-append epoch i k [] t h l =
      (IsReport-at epoch (i + 0) i (k + 0) k t (omega arith) (omega arith) l, tt)
  Numbered-append epoch i k (s ∷ ts) t h l =
      let at =
        IsReport-at epoch (i + suc (length ts)) (i + 1 + length ts) (k + suc (length ts))
          (k + 1 + length ts) t (omega arith) (omega arith) l in
      (h.0, Numbered-append epoch (i + 1) (k + 1) ts t h.1 at)

  -- The reports in the buffer, at most `k`: the first one's number, and the number that is next.
  pub record Batch (k : ℕ) (r : Report R.Float) : Type 0 where
    pub texts : List (List ℕ)
    pub first : ℕ
    pub few : length texts ≤ k
    pub fills : Fills r texts
    pub numbered : Numbered r.epoch 0 first texts
    pub next : Reached R r.epoch (first + length texts) r

  pub new-Batch : (epoch : ℤ) (now : ℕ) → (b : Batch 5 (new_report R epoch now)) × (b.first ≡ 0)
  unfolding new_report
  new-Batch epoch now = (
    record {
      texts = [];
      first = 0;
      few = omega arith;
      fills = new_report-Fills R now epoch;
      numbered = tt;
      next = (refl, refl, refl, refl);
    },
    refl,
  )

  wider : (r : Report R.Float) → Batch 5 r → Batch 6 r
  wider r b = record {
    texts = b.texts;
    first = b.first;
    few = omega (arith, b.few);
    fills = b.fills;
    numbered = b.numbered;
    next = b.next;
  }

  -- A report that is put into the buffer has the next number.
  add_report-Batch :
      (now : ℕ) (r : Report R.Float)
      → length (text_of R now r) < report_size
      → Batch 5 r
      → Batch 6 (add_report R now r)
  unfolding add_report
  add_report-Batch now r short b =
      let t = text_of R now r in
      let n = length b.texts in
      let f = b.fills in
      let k = b.first + n in
      let (_, lat, lon, number) = b.next in
      let own : IsReport r.epoch r.cnt k t = (now, rw (sym lat, sym lon, sym number) refl) in
      let at : IsReport r.epoch (0 + n) k t =
        IsReport-at r.epoch r.cnt (0 + n) k k t (omega (arith, f.count)) refl own in
      let count : suc k ≡ b.first + length (b.texts ++ t ∷ []) =
        omega (arith, length-append b.texts (t ∷ [])) in
      record {
        texts = b.texts ++ t ∷ [];
        first = b.first;
        few = omega (arith, b.few, length-append b.texts (t ∷ []));
        fills = add_report-Fills R now r b.texts f (omega (arith, b.few)) short;
        numbered = Numbered-append r.epoch 0 b.first b.texts t b.numbered at;
        next =
            subst (λ j. Reached R r.epoch j (add_report R now r)) count
              (add_report-Reached R r.epoch k now r b.next);
      }

module _ {W : Type 0} (P : Platform W) (L : PacketLibrary) (R : ReportLibrary) where
  -- A request waits to be sent with six reports, the first of them with the number given.
  abbrev pub QueuesSix : ℤ → ℕ → Client W → Type 0
  QueuesSix epoch first c =
      (texts : List (List ℕ)) × (length texts ≡ 6)
      × Numbered R epoch 0 first texts
      × Queued (b'[' ∷ joined texts) c.mqtt.request

  -- What the second `if` makes of a buffer of at most six reports.
  abbrev pub Publishes : (d d' : Device W R.Float) → ℕ → Type 0
  Publishes d d' first =
      (b' : Batch R 5 d'.report) × ((((6 == d.report.cnt) ≡ false)
          × (d'.client.mqtt ≡ d.client.mqtt)
          × (b'.first ≡ first))
        ⊎ (((6 == d.report.cnt) ≡ true)
            × QueuesSix d.report.epoch first d'.client
            × (b'.first ≡ first + 6)))

  emptied-Batch : (r : Report R.Float) → Batch R 6 r → Batch R 5 (emptied P L R r)
  emptied-Batch r b = record {
    texts = [];
    first = b.first + length b.texts;
    few = omega arith;
    fills = emptied-Fills P L R r b.texts b.fills;
    numbered = tt;
    next =
        let same : b.first + length b.texts ≡ b.first + length b.texts + 0 = omega arith in
        subst (λ j. Reached R r.epoch j (emptied P L R r)) same b.next;
  }

  fewer : (r : Report R.Float) (b : Batch R 6 r) → length b.texts < 6 → Batch R 5 r
  fewer r b h = record {
    texts = b.texts;
    first = b.first;
    few = omega arith;
    fills = b.fills;
    numbered = b.numbered;
    next = b.next;
  }

  pub publish_reports-Publishes :
      (d : Device W R.Float) (b : Batch R 6 d.report)
      → IsSized d.client.mqtt.request
      → Publishes d (publish_reports P L R d).1 b.first
  unfolding emptied-Batch fewer
  publish_reports-Publishes d b sized = elim (Bool-cases (6 == d.report.cnt)) [
    | inl full ↦
        let six : length b.texts ≡ 6 = ground (arith, b.fills.count, full) in
        let queued = publish_message-Queued P L R d.report b.texts d.client b.fills six sized in
        subst (λ d'. Publishes d d' b.first) (sym (publish_reports_full P L R d full))
          (
            emptied-Batch d.report b,
            inr (full, (b.texts, six, b.numbered, queued), omega (arith, six)),
          )
    | inr room ↦
        let few : length b.texts < 6 = ground (arith, b.fills.count, room, b.few) in
        subst (λ d'. Publishes d d' b.first) (sym (publish_reports_idle P L R d room))
          (fewer d.report b few, inl (room, refl, refl))
  ]

  -- The first `if` puts the next report behind the others, or leaves them.
  pub take_report-Batch :
      (r : Report R.Float) (d : Device W R.Float) (b : Batch R 5 d.report)
      → FitsNext P L R d
      → (r ≡ d.report) ⊎ ((now : ℕ) × (r ≡ add_report R now d.report))
      → (b' : Batch R 6 r) × (b'.first ≡ b.first) × (r.epoch ≡ d.report.epoch)
  unfolding add_report-Batch wider add_report
  take_report-Batch r d b short (inl same) =
      subst (λ r. (b' : Batch R 6 r) × (b'.first ≡ b.first) × (r.epoch ≡ d.report.epoch)) (sym same)
        (wider R d.report b, refl, refl)
  take_report-Batch r d b short (inr (now, e)) =
      subst (λ r. (b' : Batch R 6 r) × (b'.first ≡ b.first) × (r.epoch ≡ d.report.epoch)) (sym e)
        (add_report-Batch R now d.report (short now) b, refl, refl)
