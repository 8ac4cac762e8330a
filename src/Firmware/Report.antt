-- ===== src/Firmware/Report.antt =====
-- main.cpp: the buffer of reports that `main` fills and publishes.
use xbee_mqtt.Base.{
  ℕ, ◌+◌, ◌-◌, List, [], ◌∷◌, ◌++◌, if◌then◌else◌, length, take, drop, replicate, overwrite, ltb,
  u32, ℤ, ◌≡◌, length-append, arith, codes,
}
use xbee_mqtt.Firmware.Board.{client_id}
use xbee_mqtt.Firmware.Epoch.{report_time}

abbrev pub report_size : ℕ
report_size = 150

abbrev pub number_of_reports : ℕ
number_of_reports = 6

abbrev pub report_buffer_size : ℕ
report_buffer_size = 900

-- The floats of the target and the C library's part in a report: a constant, given by its digits
-- and how many of them stand behind the point; `+=` and `-=` of a float and such a constant; what
-- the conversions `%f` and `%d` make of a float and of the 32 bits of a number; and the text that
-- `strftime` leaves in `t_buf` for the `gmtime` of a time.
pub record ReportLibrary : Type 1 where
  pub Float : Type 0
  pub constant : ℕ → ℕ → Float
  pub plus_constant : Float → ℕ → ℕ → Float
  pub minus_constant : Float → ℕ → ℕ → Float
  pub show_float : Float → List ℕ
  pub show_int : ℕ → List ℕ
  pub timestamp : ℤ → List ℕ

-- The n bytes that `snprintf(_, n, …)` writes at most: the text cut short, and a NUL.
unfoldable pub snprintf_bytes : ℕ → List ℕ → List ℕ
snprintf_bytes n text = take (n - 1) text ++ 0 ∷ []

-- Bytes written at an index of an array.
unfoldable pub write_at : ℕ → List ℕ → List ℕ → List ℕ
unfolding overwrite
write_at i bytes dst = take i dst ++ overwrite bytes (drop i dst)

-- The variables of `main`.
pub record Report (Float : Type 0) : Type 0 where
  pub epoch : ℤ
  pub delay_start : ℕ
  pub lat : Float
  pub lon : Float
  pub cnt_s : List ℕ
  pub report_index : ℕ
  pub cnt : ℕ
  pub objnum : ℕ

module _ (R : ReportLibrary) where
  -- What `snprintf` makes of its format, before it cuts it.
  unfoldable pub report_text : R.Float → R.Float → List ℕ → ℕ → ℕ → List ℕ
  report_text lat lon t_buf objnum last =
      codes "{\"device_id\":\""
      ++ client_id
      ++ (codes "\",\"latitude\":"
          ++ R.show_float lat
          ++ (codes ",\"longitude\":"
              ++ R.show_float lon
              ++ (codes ",\"robotState\":\"Error\",\"timestamp\":\""
                  ++ take 32 t_buf
                  ++ (codes "\",\"cnt\":" ++ R.show_int objnum ++ b'}' ∷ last ∷ []))))

  -- The format has 85 characters of its own, and the name of the device has eight.
  pub length-report_text :
      (lat lon : R.Float) (t : List ℕ) (k last : ℕ)
      → length (report_text lat lon t k last)
        ≡ 93
          + length (R.show_float lat)
          + length (R.show_float lon)
          + length (take 32 t)
          + length (R.show_int k)
  unfolding report_text
  length-report_text lat lon t k last =
      let name = codes "{\"device_id\":\"" ++ client_id in
      let a = R.show_float lat in
      let o = R.show_float lon in
      let z = R.show_int k ++ b'}' ∷ last ∷ [] in
      let y = codes "\",\"cnt\":" ++ z in
      let x = codes ",\"robotState\":\"Error\",\"timestamp\":\"" ++ (take 32 t ++ y) in
      let w = codes ",\"longitude\":" ++ (o ++ x) in
      omega (
        arith,
        length-append a w,
        length-append o x,
        length-append (take 32 t) y,
        length-append (R.show_int k) (b'}' ∷ last ∷ []),
      )

  -- The variables at the start of the loop, with the reading of `millis()`.
  unfoldable pub new_report : ℤ → ℕ → Report R.Float
  new_report epoch now = record {
    epoch = epoch;
    delay_start = now;
    lat = R.constant 150 1;
    lon = R.constant 300 1;
    cnt_s = b'[' ∷ replicate 899 0;
    report_index = 1;
    cnt = 0;
    objnum = 0;
  }

  -- The text of the next report, where `now` is the new `delay_start`.
  abbrev pub text_of : ℕ → Report R.Float → List ℕ
  text_of now r =
      report_text r.lat r.lon (R.timestamp (report_time r.epoch now)) r.objnum
        (if ltb r.cnt 5 then b',' else b']')

  -- The body of the first `if`, after the second reading of `millis()`.
  unfoldable pub add_report : ℕ → Report R.Float → Report R.Float
  unfolding snprintf_bytes write_at
  add_report now r = record {
    epoch = r.epoch;
    delay_start = now;
    lat = R.plus_constant r.lat 1 1;
    lon = R.minus_constant r.lon 5 2;
    cnt_s = write_at r.report_index (snprintf_bytes report_size (text_of now r)) r.cnt_s;
    report_index = r.report_index + length (text_of now r);
    cnt = u32 (r.cnt + 1);
    objnum = u32 (r.objnum + 1);
  }
