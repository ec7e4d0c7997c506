-- ===== src/Settings/Restart.antt =====
-- Init of WidgetSettings.cpp after a setting was changed and the device was restarted.
use rgbmixer.Base.{ℕ, ◌<◌, ◌≡◌, ◌∙◌, arith}
use rgbmixer.Arduino.{Eeprom}
use rgbmixer.Settings.{
  Settings, read_int, start_address, set_start_address, serial_number, set_serial_number,
  personality, set_personality, init, magic_number, magic_number_offset,
}
use rgbmixer.Settings.Start.{init_restored, read_int-eeprom_write_ne}
use rgbmixer.Settings.Words.{
  read_int-write_int, read_int-write_int_ne, read_long-write_long, read_int-write_long_ne,
}

module _ {S : Type 0} ⦃e : Eeprom S⦄ (s : Settings S)
    (valid : read_int s magic_number_offset ≡ magic_number) where
  start_address_kept : (v : ℕ) → v < 65536 → start_address (init (set_start_address s v)) ≡ v
  unfolding set_start_address read_int
  start_address_kept v small =
      let there : read_int (set_start_address s v) 0 ≡ magic_number =
        (read_int-write_int_ne s 2 v 0 (omega arith) (omega arith) (omega arith) ∙ valid) in
      (init_restored (set_start_address s v) there).0
      ∙ read_int-write_int s 2 v (omega arith)
      ∙ omega arith

  personality_kept : (v : ℕ) → v < 256 → personality (init (set_personality s v)) ≡ v
  unfolding set_personality read_int
  personality_kept v small =
      let there : read_int (set_personality s v) 0 ≡ magic_number =
        (read_int-eeprom_write_ne s 48 v 0 (omega arith) small (omega arith) (omega arith)
          ∙ valid) in
      (init_restored (set_personality s v) there).1 ∙ e.read-write s.eeprom 48 v (omega arith) small

  serial_number_kept : (v : ℕ) → v < 4294967296 → serial_number (init (set_serial_number s v)) ≡ v
  unfolding set_serial_number serial_number
  serial_number_kept v small =
      let there : read_int (set_serial_number s v) 0 ≡ magic_number =
        (read_int-write_long_ne s 6 v 0 (omega arith) (omega arith) (omega arith) ∙ valid) in
      (init_restored (set_serial_number s v) there).4
      ∙ read_long-write_long s 6 v (omega arith)
      ∙ omega arith

-- On a device whose EEPROM is set up, a start address, a personality and a serial number that were
-- set are there again after a restart.
pub init-set_settings :
    {S : Type 0} ⦃e : Eeprom S⦄ (s : Settings S) (address number serial : ℕ)
    → read_int s magic_number_offset ≡ magic_number
    → address < 65536
    → number < 256
    → serial < 4294967296
    → (start_address (init (set_start_address s address)) ≡ address)
      × (personality (init (set_personality s number)) ≡ number)
      × (serial_number (init (set_serial_number s serial)) ≡ serial)
init-set_settings s address number serial valid a n l = (
  start_address_kept s valid address a,
  personality_kept s valid number n,
  serial_number_kept s valid serial l,
)
