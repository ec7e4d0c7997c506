-- ===== src/Settings/Words.antt =====
-- ReadInt, WriteInt, ReadLong and WriteLong of WidgetSettings.cpp.
use rgbmixer.Base.{ℕ, ◌+◌, ◌*◌, ◌/◌, ◌%◌, ◌≤◌, ◌<◌, ◌≡◌, ◌⊎◌, inr, ◌∙◌, u8, u16, arith}
use rgbmixer.Arduino.{Eeprom}
use rgbmixer.Settings.{Settings, eeprom_read, read_int, write_int, read_long, write_long}

-- Two ranges of cells that do not meet.
abbrev pub Apart : ℕ → ℕ → ℕ → ℕ → Type 0
Apart a m b n = (a + m ≤ b) ⊎ (b + n ≤ a)

module _ {S : Type 0} ⦃e : Eeprom S⦄ where
  -- A cell elsewhere keeps its byte.
  pub read-write_int_ne :
      (s : Settings S) (o v a : ℕ)
      → o + 1 < 1024
      → a < 1024
      → Apart o 2 a 1
      → eeprom_read (write_int s o v) a ≡ eeprom_read s a
  unfolding write_int
  read-write_int_ne s o v a ho ha apart =
      e.read-write_ne (e.write s.eeprom o (u8 (v / 256))) (o + 1) a (u8 v) ho ha (ground arith)
      ∙ e.read-write_ne s.eeprom o a (u8 (v / 256)) (omega arith) ha (ground arith)

  pub read_int-write_int :
      (s : Settings S) (o v : ℕ) → o + 1 < 1024 → read_int (write_int s o v) o ≡ v % 65536
  unfolding read_int write_int
  read_int-write_int s o v ho =
      let s' = e.write s.eeprom o (u8 (v / 256)) in
      let high : e.read (e.write s' (o + 1) (u8 v)) o ≡ u8 (v / 256) =
        (e.read-write_ne s' (o + 1) o (u8 v) ho (omega arith) (omega arith)
          ∙ e.read-write s.eeprom o (u8 (v / 256)) (omega arith) (omega arith)) in
      let low : e.read (e.write s' (o + 1) (u8 v)) (o + 1) ≡ u8 v =
        e.read-write s' (o + 1) (u8 v) ho (omega arith) in
      rw (high, low) (omega arith)

  pub read_int-write_int_ne :
      (s : Settings S) (o v p : ℕ)
      → o + 1 < 1024
      → p + 1 < 1024
      → Apart o 2 p 2
      → read_int (write_int s o v) p ≡ read_int s p
  unfolding read_int
  read_int-write_int_ne s o v p ho hp apart = rw (
    read-write_int_ne s o v p ho (omega arith) (ground arith),
    read-write_int_ne s o v (p + 1) ho hp (ground arith),
  )

  pub read_int-lt : (s : Settings S) (o : ℕ) → read_int s o < 65536
  unfolding read_int
  read_int-lt s o = omega arith

  -- A long is its two ints.
  pub read_long_lem :
      (s : Settings S) (o : ℕ) → read_long s o ≡ read_int s o * 65536 + read_int s (o + 2)
  unfolding read_long
  read_long_lem s o = omega (arith, read_int-lt s o, read_int-lt s (o + 2))

  pub read_long-write_long :
      (s : Settings S) (o v : ℕ) → o + 3 < 1024 → read_long (write_long s o v) o ≡ v % 4294967296
  unfolding write_long
  read_long-write_long s o v ho =
      let s' = write_int s o (u16 (v / 65536)) in
      let high =
        (read_int-write_int_ne s' (o + 2) (u16 v) o (omega arith) (omega arith) (inr (omega arith))
          ∙ read_int-write_int s o (u16 (v / 65536)) (omega arith)) in
      let low = read_int-write_int s' (o + 2) (u16 v) (omega arith) in
      rw (read_long_lem, high, low) (omega arith)

  pub read_int-write_long_ne :
      (s : Settings S) (o v p : ℕ)
      → o + 3 < 1024
      → p + 1 < 1024
      → Apart o 4 p 2
      → read_int (write_long s o v) p ≡ read_int s p
  unfolding write_long
  read_int-write_long_ne s o v p ho hp apart =
      read_int-write_int_ne _ (o + 2) (u16 v) p (omega arith) hp (ground arith)
      ∙ read_int-write_int_ne s o (u16 (v / 65536)) p (omega arith) hp (ground arith)

  pub read-write_long_ne :
      (s : Settings S) (o v a : ℕ)
      → o + 3 < 1024
      → a < 1024
      → Apart o 4 a 1
      → eeprom_read (write_long s o v) a ≡ eeprom_read s a
  unfolding write_long
  read-write_long_ne s o v a ho ha apart =
      read-write_int_ne _ (o + 2) (u16 v) a (omega arith) ha (ground arith)
      ∙ read-write_int_ne s o (u16 (v / 65536)) a (omega arith) ha (ground arith)
