-- ===== src/Firmware/Epoch.antt =====
-- main.cpp: the time at which the program was compiled, read from the texts that the compiler puts for
-- __DATE__ and __TIME__, and the time of a report.
use xbee_mqtt.Base.{ℕ, List, [], ◌∷◌, ℤ, pos, ◌+ℤ◌, ◌-ℤ◌, ◌/ℤ◌, int32}

-- The members of `struct tm` that `main` sets; the others are 0.
pub record Tm : Type 0 where
  pub tm_sec : ℤ
  pub tm_min : ℤ
  pub tm_hour : ℤ
  pub tm_mday : ℤ
  pub tm_mon : ℤ
  pub tm_year : ℤ

-- What `sscanf` stores for "%s %d %d %d:%d:%d": a word and five numbers.
pub record Scanned : Type 0 where
  pub word : List ℕ
  pub first : ℤ
  pub second : ℤ
  pub third : ℤ
  pub fourth : ℤ
  pub fifth : ℤ

-- The C library's part. `strstr` returns a pointer: its distance from the text that is searched.
pub record TimeLibrary : Type 0 where
  pub sscanf : List ℕ → Scanned
  pub strstr : List ℕ → List ℕ → ℤ
  pub mktime : Tm → ℤ

-- The names of the months.
abbrev pub mon : List ℕ
mon =
    b'J' ∷ b'a' ∷ b'n' ∷ b'F' ∷ b'e' ∷ b'b' ∷ b'M' ∷ b'a' ∷ b'r' ∷ b'A' ∷ b'p' ∷ b'r' ∷ b'M' ∷ b'a'
    ∷ b'y' ∷ b'J' ∷ b'u' ∷ b'n' ∷ b'J' ∷ b'u' ∷ b'l' ∷ b'A' ∷ b'u' ∷ b'g' ∷ b'S' ∷ b'e' ∷ b'p'
    ∷ b'O' ∷ b'c' ∷ b't' ∷ b'N' ∷ b'o' ∷ b'v' ∷ b'D' ∷ b'e' ∷ b'c' ∷ []

module _ (T : TimeLibrary) where
  -- `btm` as it is given to `mktime`, for the text `compile_time`.
  unfoldable pub compile_tm : List ℕ → Tm
  compile_tm compile_time =
      let scanned = T.sscanf compile_time in
      let compile_month = scanned.word in
      record {
        tm_sec = scanned.fifth;
        tm_min = scanned.fourth;
        tm_hour = scanned.third;
        tm_mday = scanned.first;
        tm_mon = T.strstr mon compile_month /ℤ 3;
        tm_year = scanned.second -ℤ pos 1900;
      }

  -- `epoch`
  unfoldable pub compile_epoch : List ℕ → ℤ
  unfolding compile_tm
  compile_epoch compile_time = T.mktime (compile_tm compile_time)

-- `epoch + (delay_start / 1000)`, where `delay_start` is an int given by its bit pattern.
unfoldable pub report_time : ℤ → ℕ → ℤ
unfolding ◌/ℤ◌ int32
report_time epoch delay_start = epoch +ℤ int32 delay_start /ℤ 1000
