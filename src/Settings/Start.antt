-- ===== src/Settings/Start.antt =====
-- Init of WidgetSettings.cpp on a later start, the power cycles and the sensor value.
use rgbmixer.Base.{ℕ, ◌+◌, ◌*◌, ◌/◌, ◌%◌, ◌<◌, ◌≡◌, refl, sym, ap₂, ◌∙◌, u32, arith, eq→==}
use rgbmixer.Arduino.{Eeprom}
use rgbmixer.Settings.{
  Settings, eeprom_read, eeprom_write, read_int, write_int, read_long, write_long, start_address,
  esta_id, serial_number, device_power_cycles, set_device_power_cycles,
  increment_device_power_cycles, sensor_value, save_sensor_value, personality, init_restore, init,
  magic_number, magic_number_offset, dmx_personality_value,
}
use rgbmixer.Settings.Words.{
  read_int-write_int, read_int-write_int_ne, read_int-lt, read_long_lem, read_long-write_long,
  read_int-write_long_ne, read-write_long_ne, Apart,
}

module _ {S : Type 0} ⦃e : Eeprom S⦄ where
  pub sensor_value-device_power_cycles :
      (s : Settings S) → sensor_value s ≡ device_power_cycles s % 65536
  unfolding sensor_value device_power_cycles
  sensor_value-device_power_cycles s =
      omega (arith, read_long_lem s 44, read_int-lt s 44, read_int-lt s 46)

  -- To save a sensor value replaces the low 16 bits of the power cycles by it, and keeps the high
  -- ones.
  pub device_power_cycles-save_sensor_value :
      (s : Settings S) (v : ℕ)
      → device_power_cycles (save_sensor_value s v)
        ≡ device_power_cycles s / 65536 * 65536 + v % 65536
  unfolding device_power_cycles save_sensor_value
  device_power_cycles-save_sensor_value s v =
      rw
        (
          read_long_lem,
          read_int-write_int_ne s 46 v 44 (omega arith) (omega arith) (omega arith),
          read_int-write_int s 46 v (omega arith),
        )
        (omega (arith, read_long_lem s 44, read_int-lt s 44, read_int-lt s 46))

  pub read_int-eeprom_write_ne :
      (s : Settings S) (a v p : ℕ)
      → a < 1024
      → v < 256
      → p + 1 < 1024
      → Apart a 1 p 2
      → read_int (eeprom_write s a v) p ≡ read_int s p
  unfolding read_int
  read_int-eeprom_write_ne s a v p ha hv hp apart = rw (
    e.read-write_ne s.eeprom a p v ha (omega arith) (ground arith),
    e.read-write_ne s.eeprom a (p + 1) v ha hp (ground arith),
  )

  -- A count more, and no other setting changes but the recorded sensor value.
  pub increment_device_power_cycles_lem :
      (s : Settings S)
      → let s' = increment_device_power_cycles s in
        (device_power_cycles s' ≡ (device_power_cycles s + 1) % 4294967296)
        × (start_address s' ≡ start_address s)
        × (personality s' ≡ personality s)
        × (esta_id s' ≡ esta_id s)
        × (serial_number s' ≡ serial_number s)
        × (read_int s' magic_number_offset ≡ read_int s magic_number_offset)
        × (eeprom_read s' dmx_personality_value ≡ eeprom_read s dmx_personality_value)
  unfolding increment_device_power_cycles set_device_power_cycles device_power_cycles start_address
      personality esta_id serial_number write_long write_int
  increment_device_power_cycles_lem s =
      let count = u32 (read_long s 44 + 1) in
      (
        read_long-write_long s 44 count (omega arith) ∙ omega arith,
        refl,
        refl,
        read_int-write_long_ne s 44 count 4 (omega arith) (omega arith) (omega arith),
        read_long_lem _ 6
            ∙ ap₂ (λ h l. h * 65536 + l)
                (read_int-write_long_ne s 44 count 6 (omega arith) (omega arith) (omega arith))
                (read_int-write_long_ne s 44 count 8 (omega arith) (omega arith) (omega arith))
            ∙ sym (read_long_lem s 6),
        read_int-write_long_ne s 44 count 0 (omega arith) (omega arith) (omega arith),
        read-write_long_ne s 44 count 48 (omega arith) (omega arith) (omega arith),
      )

-- A start with the magic number in place restores the copies in RAM from the EEPROM, counts one
-- power cycle more in 32 bits, and keeps the identity.
pub init_restored :
    {S : Type 0} ⦃e : Eeprom S⦄ (s : Settings S)
    → read_int s magic_number_offset ≡ magic_number
    → let s' = init s in
      (start_address s' ≡ read_int s 2)
      × (personality s' ≡ eeprom_read s 48)
      × (device_power_cycles s' ≡ (device_power_cycles s + 1) % 4294967296)
      × (esta_id s' ≡ esta_id s)
      × (serial_number s' ≡ serial_number s)
unfolding init init_restore
init_restored s valid =
    let restored = init_restore s in
    let later = increment_device_power_cycles_lem restored in
    rw (eq→== _ _ valid) (
      later.1 ∙ (unfold start_address in refl),
      later.2 ∙ (unfold personality in refl),
      later.0 ∙ (unfold device_power_cycles read_long read_int in refl),
      later.3 ∙ (unfold esta_id read_int in refl),
      later.4 ∙ (unfold serial_number read_long read_int in refl),
    )
