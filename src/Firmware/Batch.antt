-- ===== src/Firmware/Batch.antt =====
-- The reports in the buffer of `main`, and what is published of them.
use xbee_mqtt.Base.{
  ℕ, ◌+◌, ◌*◌, ◌≤◌, ◌<◌, ◌≡◌, ◌∙◌, refl, sym, ap, List, [], ◌∷◌, ◌++◌, length, take, length-append,
  length-take, take-all, arith, ℤ,
}
use mathlib.Core.List.{append-nil, append_assoc}
use xbee_mqtt.Firmware.Report.{
  ReportLibrary, Report, new_report, add_report, text_of, report_size, report_buffer_size,
  snprintf_bytes,
}
use xbee_mqtt.Firmware.Writing.{
  take-write_at, length-write_at, length-write_at_past, take-snprintf_bytes, length-snprintf_bytes,
}

abbrev pub joined : List (List ℕ) → List ℕ
joined [] = []
joined (t ∷ ts) = t ++ joined ts

-- Each of the texts is shorter than the limit of `snprintf`.
abbrev pub Short : List (List ℕ) → Type 0
Short [] = Unit {0}
Short (t ∷ ts) = (length t < report_size) × Short ts

joined-append : (ts : List (List ℕ)) (t : List ℕ) → joined (ts ++ t ∷ []) ≡ joined ts ++ t
joined-append [] t = append-nil t
joined-append (u ∷ ts) t =
    ap (λ xs. u ++ xs) (joined-append ts t) ∙ sym (append_assoc u (joined ts) t)

Short-append :
    (ts : List (List ℕ)) (t : List ℕ) → Short ts → length t < report_size → Short (ts ++ t ∷ [])
Short-append [] t s h = (h, tt)
Short-append (u ∷ ts) t s h = (s.0, Short-append ts t s.1 h)

pub length-joined : (ts : List (List ℕ)) → Short ts → length (joined ts) ≤ 149 * length ts
length-joined [] s = omega arith
length-joined (t ∷ ts) s = omega (arith, length-append t (joined ts), length-joined ts s.1, s.0)

-- The buffer holds a bracket and the texts, and the index stands behind them.
pub record Fills {Float : Type 0} (r : Report Float) (texts : List (List ℕ)) : Type 0 where
  pub room : length r.cnt_s ≡ report_buffer_size
  pub count : r.cnt ≡ length texts
  pub short : Short texts
  pub index : r.report_index ≡ 1 + length (joined texts)
  pub written : take r.report_index r.cnt_s ≡ b'[' ∷ joined texts

module _ (R : ReportLibrary) (now : ℕ) where
  pub new_report-Fills : (epoch : ℤ) → Fills (new_report R epoch now) []
  unfolding new_report
  new_report-Fills epoch = record {
    room = refl;
    count = refl;
    short = tt;
    index = refl;
    written = refl;
  }

  -- A report that `snprintf` does not cut is put behind those that are there.
  pub add_report-Fills :
      (r : Report R.Float) (texts : List (List ℕ))
      → Fills r texts
      → length texts < 6
      → length (text_of R now r) < report_size
      → Fills (add_report R now r) (texts ++ text_of R now r ∷ [])
  unfolding add_report
  add_report-Fills r texts f k h =
      let t = text_of R now r in
      let bound = length-joined texts f.short in
      let bytes = snprintf_bytes report_size t in
      let size = length-snprintf_bytes report_size t in
      record {
        room = length-write_at r.report_index bytes r.cnt_s (omega arith) ∙ f.room;
        count = omega (arith, length-append texts (t ∷ []));
        short = Short-append texts t f.short h;
        index = rw (joined-append texts t) (omega (arith, f.index, length-append (joined texts) t));
        written =
            take-write_at r.report_index (length t) bytes r.cnt_s (omega arith) (omega arith)
            ∙ rw (f.written, take-snprintf_bytes report_size t (omega arith), joined-append texts t)
                refl;
      }

  -- A text that `snprintf` cuts moves the index past the bytes that were written.
  pub add_report_cut :
      (r : Report R.Float)
      → length r.cnt_s ≡ report_buffer_size
      → r.report_index ≤ report_buffer_size
      → report_size ≤ length (text_of R now r)
      → let r' = add_report R now r in
        (r.report_index + report_size ≤ r'.report_index)
        × (take (r.report_index + report_size) r'.cnt_s
            ≡ take r.report_index r.cnt_s ++ (take 149 (text_of R now r) ++ 0 ∷ []))
  unfolding add_report snprintf_bytes
  add_report_cut r room inside h =
      let t = text_of R now r in
      let bytes = take 149 t ++ 0 ∷ [] in
      let size : length bytes ≡ 150 =
        omega (arith, length-append (take 149 t) (0 ∷ []), length-take 149 t) in
      (
        omega arith,
        take-write_at r.report_index 150 bytes r.cnt_s (omega arith) (omega arith)
            ∙ ap (λ ys. take r.report_index r.cnt_s ++ ys) (take-all bytes 150 (omega arith)),
      )

  -- With fewer than 150 bytes left, such a text is written past the end of the buffer.
  pub add_report_overrun :
      (r : Report R.Float)
      → length r.cnt_s ≡ report_buffer_size
      → r.report_index ≤ report_buffer_size
      → report_buffer_size < r.report_index + report_size
      → report_size ≤ length (text_of R now r)
      → report_buffer_size < length (add_report R now r).cnt_s
  unfolding add_report
  add_report_overrun r room inside past h =
      let t = text_of R now r in
      let bytes = snprintf_bytes report_size t in
      omega (
        arith,
        length-snprintf_bytes report_size t,
        length-write_at_past r.report_index bytes r.cnt_s
            (omega (arith, length-snprintf_bytes report_size t)) (omega arith),
      )
