-- ===== src/Settings/Defaults.antt =====
-- Init of WidgetSettings.cpp on the first start of a device.
use rgbmixer.Base.{
  ℕ, ◌+◌, ◌*◌, ◌<◌, ◌≡◌, refl, ◌≢◌, sym, ap₂, ◌∙◌, arith, ne→==, mem_of, mem_of-lt, length, codes,
  lt→ltb, true, subst, if◌then◌else◌,
}
use rgbmixer.Arduino.{Eeprom}
use rgbmixer.Settings.{
  Settings, eeprom_write, read_int, write_int, write_long, start_address, set_start_address,
  esta_id, set_esta_id, serial_number, set_serial_number, set_device_label, device_power_cycles,
  set_device_power_cycles, increment_device_power_cycles, sensor_value, save_sensor_value,
  personality, set_personality, perform_write, device_label, init_defaults, init, magic_number,
  default_label, magic_number_offset,
}
use rgbmixer.Settings.Written.{written-label}
use rgbmixer.Settings.Start.{
  read_int-eeprom_write_ne, increment_device_power_cycles_lem, sensor_value-device_power_cycles,
  device_power_cycles-save_sensor_value,
}
use rgbmixer.Settings.Words.{
  read_int-write_int, read_int-write_int_ne, read_long_lem, read_long-write_long,
  read_int-write_long_ne,
}

module _ {S : Type 0} ⦃e : Eeprom S⦄ where
  -- The EEPROM after the defaults were written.
  defaults_lem :
      (s : Settings S)
      → let s' = init_defaults s in
        (read_int s' 0 ≡ magic_number)
        × (start_address s' ≡ 1)
        × (personality s' ≡ 1)
        × (esta_id s' ≡ 0x7a70)
        × (serial_number s' ≡ 1)
        × (device_power_cycles s' ≡ 0)
  unfolding init_defaults set_start_address set_esta_id set_serial_number set_device_label
      set_device_power_cycles save_sensor_value set_personality start_address personality esta_id
      serial_number device_power_cycles read_int
  defaults_lem s =
      let s1 = write_int s 0 magic_number in
      let s2 = set_start_address s1 1 in
      let s3 = write_int s2 4 0x7a70 in
      let s4 = write_long s3 6 1 in
      let s5 = set_device_label s4 (mem_of default_label) (length default_label) in
      let s6 = write_long s5 44 0 in
      let s7 = write_int s6 46 0 in
      let label : (p : ℕ) → read_int s5 p ≡ read_int s4 p = (λ p. unfold read_int in refl) in
      let tail : (p : ℕ) → p + 1 < 44 → read_int (eeprom_write s7 48 1) p ≡ read_int s4 p =
        (λ p low.
          read_int-eeprom_write_ne s7 48 1 p (omega arith) (omega arith) (omega arith) (omega arith)
          ∙ read_int-write_int_ne s6 46 0 p (omega arith) (omega arith) (omega arith)
          ∙ read_int-write_long_ne s5 44 0 p (omega arith) (omega arith) (omega arith)
          ∙ label p) in
      let cycles_low : read_int (eeprom_write s7 48 1) 46 ≡ 0 =
        (read_int-eeprom_write_ne s7 48 1 46 (omega arith) (omega arith) (omega arith) (omega arith)
          ∙ read_int-write_int s6 46 0 (omega arith)) in
      let cycles : device_power_cycles s7 ≡ 0 =
        (device_power_cycles-save_sensor_value s6 0
          ∙ rw (read_long-write_long s5 44 0 (omega arith)) refl) in
      (
        tail 0 (omega arith)
            ∙ read_int-write_long_ne s3 6 1 0 (omega arith) (omega arith) (omega arith)
            ∙ read_int-write_int_ne s2 4 0x7a70 0 (omega arith) (omega arith) (omega arith)
            ∙ (unfold read_int in refl)
            ∙ read_int-write_int_ne s1 2 1 0 (omega arith) (omega arith) (omega arith)
            ∙ read_int-write_int s 0 magic_number (omega arith),
        unfold write_int write_long in refl,
        refl,
        tail 4 (omega arith)
            ∙ read_int-write_long_ne s3 6 1 4 (omega arith) (omega arith) (omega arith)
            ∙ read_int-write_int s2 4 0x7a70 (omega arith),
        read_long_lem _ 6
            ∙ ap₂ (λ h l. h * 65536 + l) (tail 6 (omega arith)) (tail 8 (omega arith))
            ∙ sym (read_long_lem s4 6)
            ∙ read_long-write_long s3 6 1 (omega arith),
        read_long_lem _ 44
            ∙ ap₂ (λ h l. h * 65536 + l)
                (read_int-eeprom_write_ne s7 48 1 44 (omega arith) (omega arith) (omega arith)
                  (omega arith))
                (read_int-eeprom_write_ne s7 48 1 46 (omega arith) (omega arith) (omega arith)
                  (omega arith))
            ∙ sym (read_long_lem s7 44)
            ∙ cycles,
      )

  -- The label that waits after it.
  label_lem :
      (s : Settings S)
      → let (done, s') = perform_write (increment_device_power_cycles (init_defaults s)) in
        (done ≡ true) × (device_label s' 32 ≡ codes "Default Label")
  unfolding init_defaults set_start_address set_esta_id set_serial_number set_device_label
      set_device_power_cycles save_sensor_value set_personality write_int write_long
      increment_device_power_cycles perform_write
  label_lem s =
      let started = increment_device_power_cycles (init_defaults s) in
      (
        refl,
        written-label started (omega arith) (λ i low.
            subst (λ b. (if b then mem_of default_label i else s.m_label_buffer i) < 256)
              (sym (lt→ltb i 14 (omega arith))) (mem_of-lt default_label i (ground arith))),
      )

-- The first start gives every setting its default and counts as one power cycle. The recorded
-- sensor value, set to 0 before that, is 1 after it, since it shares its cells with the count. The
-- default label waits, and the first write in the background stores it: it is then read back.
pub init_blank :
    {S : Type 0} ⦃e : Eeprom S⦄ (s : Settings S)
    → read_int s magic_number_offset ≢ magic_number
    → let s' = init s in
      let (done, later) = perform_write s' in
      (read_int s' magic_number_offset ≡ magic_number)
      × (start_address s' ≡ 1)
      × (personality s' ≡ 1)
      × (esta_id s' ≡ 0x7a70)
      × (serial_number s' ≡ 1)
      × (device_power_cycles s' ≡ 1)
      × (sensor_value s' ≡ 1)
      × (done ≡ true)
      × (device_label later 32 ≡ codes "Default Label")
unfolding init
init_blank s blank =
    let first = defaults_lem s in
    let later = increment_device_power_cycles_lem (init_defaults s) in
    let counted : device_power_cycles (increment_device_power_cycles (init_defaults s)) ≡ 1 =
      (later.0 ∙ rw (first.5) refl) in
    rw (ne→== _ _ blank) (
      later.5 ∙ first.0,
      later.1 ∙ first.1,
      later.2 ∙ first.2,
      later.3 ∙ first.3,
      later.4 ∙ first.4,
      counted,
      sensor_value-device_power_cycles _ ∙ rw counted refl,
      (label_lem s).0,
      (label_lem s).1,
    )
