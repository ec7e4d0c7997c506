-- ===== src/Arduino.antt =====
-- What the firmware takes from the Arduino libraries, which are not part of the repository:
-- the EEPROM library as an interface with its documented laws, and the pin calls as values.
use rgbmixer.Base.{ℕ, ◌<◌, ◌≡◌, ◌≢◌}

-- `EEPROM.read` and `EEPROM.write` over a store `S`; the ATmega328P has 1024 cells of a byte.
pub record Eeprom (S : Type 0) : Type 0 where
  pub read : S → ℕ → ℕ
  pub write : S → ℕ → ℕ → S
  pub read-lt : (s : S) (a : ℕ) → read s a < 256
  pub read-write : (s : S) (a v : ℕ) → a < 1024 → v < 256 → read (write s a v) a ≡ v
  pub read-write_ne :
      (s : S) (a b v : ℕ) → a < 1024 → b < 1024 → a ≢ b → read (write s a v) b ≡ read s b

-- The calls that set an output pin.
pub data PinCall : Type 0 where
  pin_mode_output : ℕ → PinCall
  digital_write : ℕ → ℕ → PinCall
  analog_write : ℕ → ℕ → PinCall
