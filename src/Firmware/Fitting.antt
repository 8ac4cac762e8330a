-- ===== src/Firmware/Fitting.antt =====
-- How long the reports of `main` are, and when `snprintf` cuts none of them.
use xbee_mqtt.Base.{
  ℕ, zero, suc, ◌+◌, ◌≤◌, ◌<◌, ◌≡◌, inl, inr, refl, ap, sym, List, length, take, u32, ℤ, arith,
}
use xbee_mqtt.Platform.{Platform}
use xbee_mqtt.Mqtt.Library.{PacketLibrary}
use xbee_mqtt.Mqtt.Types.{Client}
use xbee_mqtt.Firmware.Board.{Board}
use xbee_mqtt.Firmware.Epoch.{TimeLibrary, report_time, compile_epoch}
use xbee_mqtt.Firmware.Report.{
  ReportLibrary, Report, new_report, add_report, text_of, report_size, length-report_text,
}
use xbee_mqtt.Firmware.Loop.{Device, take_report, publish_reports, iterate, rounds, start}
use xbee_mqtt.Firmware.Rounds.{
  FitsNext, AllFit, take_report_cases, publish_reports_idle, publish_reports_full, iterate-report,
}
use xbee_mqtt.Base.{◌==◌, Bool-cases, subst}

module _ (R : ReportLibrary) where
  -- The latitude and the longitude after a number of reports.
  abbrev pub lat_after : ℕ → R.Float
  lat_after zero = R.constant 150 1
  lat_after (suc k) = R.plus_constant (lat_after k) 1 1

  abbrev pub lon_after : ℕ → R.Float
  lon_after zero = R.constant 300 1
  lon_after (suc k) = R.minus_constant (lon_after k) 5 2

  -- `strftime` writes the 20 characters of its format, with a year of four digits, for
  -- every reading of the clock; and the two floats
  -- and the number of each report up to the n-th take 36 characters together. (At the start they take
  -- 9, 9 and 1.)
  pub record Narrow (epoch : ℤ) (n : ℕ) : Type 0 where
    pub times : (now : ℕ) → length (take 32 (R.timestamp (report_time epoch now))) ≤ 20
    pub numbers :
        (k : ℕ)
        → k ≤ n
        → length (R.show_float (lat_after k))
            + length (R.show_float (lon_after k))
            + length (R.show_int (u32 k))
          ≤ 36

  -- The variables after `k` reports.
  abbrev pub Reached : ℤ → ℕ → Report R.Float → Type 0
  Reached epoch k r =
      (r.epoch ≡ epoch) × (r.lat ≡ lat_after k) × (r.lon ≡ lon_after k) × (r.objnum ≡ u32 k)

  pub add_report-Reached :
      (epoch : ℤ) (k now : ℕ) (r : Report R.Float)
      → Reached epoch k r
      → Reached epoch (suc k) (add_report R now r)
  unfolding add_report
  add_report-Reached epoch k now r (e, a, o, i) =
      (e, ap (λ x. R.plus_constant x 1 1) a, ap (λ x. R.minus_constant x 5 2) o, omega (arith, i))

  Reached-fits :
      (epoch : ℤ) (n k now : ℕ) (r : Report R.Float)
      → Narrow epoch n
      → k ≤ n
      → Reached epoch k r
      → length (text_of R now r) < report_size
  Reached-fits epoch n k now r narrow few (e, a, o, i) =
      rw
        (
          length-report_text R r.lat r.lon (R.timestamp (report_time r.epoch now)) r.objnum _,
          e,
          a,
          o,
          i,
        )
        (omega (arith, narrow.times now, narrow.numbers k few))

module _ {W : Type 0} (P : Platform W) (L : PacketLibrary) (R : ReportLibrary) where
  publish_reports-Reached :
      (epoch : ℤ) (k : ℕ) (d : Device W R.Float)
      → Reached R epoch k d.report
      → Reached R epoch k (publish_reports P L R d).1.report
  publish_reports-Reached epoch k d h = elim (Bool-cases (6 == d.report.cnt)) [
    | inl full ↦ rw (publish_reports_full P L R d full) h
    | inr room ↦ rw (publish_reports_idle P L R d room) h
  ]

  -- A round makes a report more, or none.
  iterate-Reached :
      (epoch : ℤ) (k : ℕ) (d : Device W R.Float)
      → Reached R epoch k d.report
      → (j : ℕ) × (j ≤ suc k) × Reached R epoch j (iterate P L R d).1.report
  iterate-Reached epoch k d h =
      let d1 : Device W R.Float = (take_report P L R d).1 in
      rw (iterate-report P L R d) (elim (take_report_cases P L R d).1 [
        | inl same ↦ (
          k,
          omega arith,
          publish_reports-Reached epoch k d1 (subst (Reached R epoch k) (sym same) h),
        )
        | inr (now, e) ↦ (
          suc k,
          omega arith,
          publish_reports-Reached epoch (suc k) d1 (
              subst (Reached R epoch (suc k)) (sym e)
                (add_report-Reached R epoch k now d.report h)),
        )
      ])

  rounds-Reached :
      (epoch : ℤ) (m n k : ℕ) (d : Device W R.Float)
      → Narrow R epoch m
      → k + n ≤ m
      → Reached R epoch k d.report
      → AllFit P L R n d × FitsNext P L R (rounds P L R n d)
  unfolding AllFit rounds
  rounds-Reached epoch m zero k d narrow few h =
      (tt, λ now. Reached-fits R epoch m k now d.report narrow (omega arith) h)
  rounds-Reached epoch m (suc n) k d narrow few h =
      let (j, le, h') = iterate-Reached epoch k d h in
      let (fit, last) = rounds-Reached epoch m n j (iterate P L R d).1 narrow (omega arith) h' in
      ((λ now. Reached-fits R epoch m k now d.report narrow (omega arith) h, fit), last)

  pub start-AllFit :
      (n : ℕ) (B : Board W) (T : TimeLibrary) (compile_time : List ℕ) (raw : Client W)
      → Narrow R (compile_epoch T compile_time) n
      → let s = start P L R B T compile_time raw in
        AllFit P L R n s × FitsNext P L R (rounds P L R n s)
  unfolding start new_report
  start-AllFit n B T compile_time raw narrow =
      rounds-Reached (compile_epoch T compile_time) n n 0 (start P L R B T compile_time raw) narrow
        (omega arith) (refl, refl, refl, refl)
