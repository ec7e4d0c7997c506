-- ===== src/Rdm/Handlers/Message/Addressed.antt =====
-- The test of HandleRDMMessage whether a message is for this device.
use rgbmixer.Base.{ℕ, ◌+◌, ◌*◌, ◌<◌, ◌≡◌, refl, true, ◌&&◌, ◌||◌, ◌==◌, arith, u16}
use rgbmixer.Arduino.{Eeprom}
use rgbmixer.Settings.{
  Settings, eeprom_read, read_int, esta_id, serial_number, matches_serial_number,
}
use rgbmixer.Settings.Words.{read_long_lem}
use rgbmixer.Rdm.Sender.{Memory}
use rgbmixer.Rdm.Handlers.Message.{is_to_us, is_broadcast}

-- The manufacturer and the device in the destination of a message.
abbrev pub destination_esta : Memory → ℕ
destination_esta msg = msg 3 * 256 + msg 4

abbrev pub destination_serial : Memory → ℕ
destination_serial msg = ((msg 5 * 256 + msg 6) * 256 + msg 7) * 256 + msg 8

abbrev pub AreUidBytes : Memory → Type 0
AreUidBytes msg = msg 3 < 256 × msg 4 < 256 × msg 5 < 256 × msg 6 < 256 × msg 7 < 256 × msg 8 < 256

-- Four bytes agree one by one where the numbers that they form agree.
four_bytes :
    (a b c d p q r s : ℕ)
    → a < 256
    → b < 256
    → c < 256
    → d < 256
    → p < 256
    → q < 256
    → r < 256
    → s < 256
    → (a == p && (b == q && (c == r && (d == s && true))))
      ≡ (((p * 256 + q) * 256 + r) * 256 + s == (a * 256 + b) * 65536 + (c * 256 + d))
four_bytes a b c d p q r s ha hb hc hd hp hq hr hs = ground arith

pub is_broadcast_lem :
    (msg : Memory) → AreUidBytes msg → is_broadcast msg ≡ (destination_serial msg == 0xffffffff)
unfolding is_broadcast
is_broadcast_lem msg bytes = ground (arith, bytes.2, bytes.3, bytes.4, bytes.5)

module _ {S : Type 0} ⦃e : Eeprom S⦄ where
  serial_number-bytes :
      (s : Settings S)
      → serial_number s
        ≡ (eeprom_read s 6 * 256 + eeprom_read s 7) * 65536
          + (eeprom_read s 8 * 256 + eeprom_read s 9)
  unfolding serial_number read_int
  serial_number-bytes s = omega (
    arith,
    read_long_lem s 6,
    e.read-lt s.eeprom 6,
    e.read-lt s.eeprom 7,
    e.read-lt s.eeprom 8,
    e.read-lt s.eeprom 9,
  )

  matches_serial_number_lem :
      (s : Settings S) (msg : Memory)
      → AreUidBytes msg
      → matches_serial_number s (λ i. msg (5 + i)) ≡ (destination_serial msg == serial_number s)
  unfolding matches_serial_number
  matches_serial_number_lem s msg bytes = rw (serial_number-bytes s) (
      four_bytes (eeprom_read s 6) (eeprom_read s 7) (eeprom_read s 8) (eeprom_read s 9) (msg 5)
        (msg 6) (msg 7) (msg 8) (e.read-lt s.eeprom 6) (e.read-lt s.eeprom 7) (e.read-lt s.eeprom 8)
        (e.read-lt s.eeprom 9) bytes.2 bytes.3 bytes.4 bytes.5)

  pub is_to_us_lem :
      (msg : Memory) (s : Settings S)
      → AreUidBytes msg
      → is_to_us msg s ≡ (
          destination_esta msg == esta_id s
            && (destination_serial msg == serial_number s || destination_serial msg == 0xffffffff)
          || (destination_esta msg == 0xffff && destination_serial msg == 0xffffffff))
  unfolding is_to_us
  is_to_us_lem msg s bytes =
      let esta : u16 (msg 3 * 256 + msg 4) ≡ destination_esta msg =
        omega (arith, bytes.0, bytes.1) in
      rw (matches_serial_number_lem s msg bytes, is_broadcast_lem msg bytes, esta) refl

-- A message is for this device if its destination is the device's own UID, all devices of its
-- manufacturer, or all devices, and in no other case; the bytes of the message are below 256.
pub is_to_us-destination :
    {S : Type 0} ⦃e : Eeprom S⦄ (msg : Memory) (s : Settings S)
    → ((i : ℕ) → msg i < 256)
    → is_to_us msg s ≡ (
        destination_esta msg == esta_id s
          && (destination_serial msg == serial_number s || destination_serial msg == 0xffffffff)
        || (destination_esta msg == 0xffff && destination_serial msg == 0xffffffff))
is_to_us-destination msg s bytes =
    is_to_us_lem msg s (bytes 3, bytes 4, bytes 5, bytes 6, bytes 7, bytes 8)
