-- ===== src/Responder/Fresh.antt =====
-- Init of WidgetSettings.cpp on settings whose RAM the constructors just cleared.
use rgbmixer.Base.{
  ℕ, ◌+◌, ◌≤◌, ◌<◌, ◌≡◌, ◌∙◌, refl, sym, subst, none, some, ◌==◌, if◌then◌else◌, u32, mem_of,
  mem_of-lt, arith, Bool-cases, inl, inr, eq→==, ne→==, lt→ltb,
}
use rgbmixer.Arduino.{Eeprom}
use rgbmixer.Settings
use rgbmixer.Settings.{
  Settings, eeprom_read, read_int, read_long, write_int, write_long, default_label, magic_number,
}
use rgbmixer.Settings.Label.{device_label-cells}
use rgbmixer.Settings.Words.{read-write_int_ne, read-write_long_ne}
use rgbmixer.Responder.View.{waiting_label, IsSound}

module _ {S : Type 0} ⦃e : Eeprom S⦄ where
  -- The count of the power cycles lies beside the label,
  label-counted :
      (s t : Settings S)
      → ((a : ℕ) → 10 ≤ a → a < 44 → eeprom_read t a ≡ eeprom_read s a)
      → Settings.device_label (Settings.increment_device_power_cycles t) 32
        ≡ Settings.device_label s 32
  unfolding Settings.increment_device_power_cycles Settings.set_device_power_cycles
  label-counted s t agree =
      device_label-cells s _ 32
        (λ a low high.
          read-write_long_ne t 44 (u32 (Settings.device_power_cycles t + 1)) a (omega arith)
            (omega arith) (inr (omega arith))
          ∙ agree a low high)
        (omega arith)

  -- and so do the defaults.
  init_defaults-cell :
      (s : Settings S) (a : ℕ)
      → 10 ≤ a
      → a < 44
      → eeprom_read (Settings.init_defaults s) a ≡ eeprom_read s a
  unfolding Settings.init_defaults Settings.set_start_address Settings.set_esta_id
      Settings.set_serial_number Settings.set_device_label Settings.set_device_power_cycles
      Settings.save_sensor_value Settings.set_personality write_long write_int
  init_defaults-cell s a low high =
      let s1 = write_int s 0 magic_number in
      let s2 = write_int s1 2 1 in
      let s3 = write_int s2 4 0x7a70 in
      let s4 = write_long s3 6 1 in
      let s6 = write_long s4 44 0 in
      let s7 = write_int s6 46 0 in
      e.read-write_ne s7.eeprom 48 a 1 (omega arith) (omega arith) (omega arith)
      ∙ read-write_int_ne s6 46 0 a (omega arith) (omega arith) (inr (omega arith))
      ∙ read-write_long_ne s4 44 0 a (omega arith) (omega arith) (inr (omega arith))
      ∙ read-write_long_ne s3 6 1 a (omega arith) (omega arith) (inl (omega arith))
      ∙ read-write_int_ne s2 4 0x7a70 a (omega arith) (omega arith) (inl (omega arith))
      ∙ read-write_int_ne s1 2 1 a (omega arith) (omega arith) (inl (omega arith))
      ∙ read-write_int_ne s 0 magic_number a (omega arith) (omega arith) (inl (omega arith))

  -- The RAM of the label after Init.
  defaults-waiting :
      (s : Settings S) → waiting_label (Settings.init_defaults s) ≡ some default_label
  unfolding Settings.init_defaults Settings.set_start_address Settings.set_esta_id
      Settings.set_serial_number Settings.set_device_label Settings.set_device_power_cycles
      Settings.save_sensor_value Settings.set_personality write_int write_long
  defaults-waiting s = refl

  pub init-IsSound : (s : Settings S) → IsSound (Settings.init (Settings.constructed s))
  unfolding Settings.init Settings.init_restore Settings.init_defaults Settings.set_start_address
      Settings.set_esta_id Settings.set_serial_number Settings.set_device_label
      Settings.set_device_power_cycles Settings.save_sensor_value Settings.set_personality write_int
      write_long Settings.increment_device_power_cycles
  init-IsSound s = elim (Bool-cases (read_int (Settings.constructed s) 0 == magic_number)) [
    | inl valid ↦ rw valid (record { fits = omega arith; bytes = λ i low. absurd (omega arith) })
    | inr blank ↦ rw blank (record {
      fits = omega arith;
      bytes = λ i low.
          subst (λ b. (if b then mem_of default_label i else s.m_label_buffer i) < 256)
            (sym (lt→ltb i 14 (omega arith))) (mem_of-lt default_label i (ground arith));
    })
  ]

  pub init-label :
      (s : Settings S)
      → Settings.device_label (Settings.init (Settings.constructed s)) 32
        ≡ Settings.device_label s 32
  unfolding Settings.init Settings.init_restore
  init-label s = elim (Bool-cases (read_int (Settings.constructed s) 0 == magic_number)) [
    | inl valid ↦ rw valid (label-counted s _ (λ a low high. refl))
    | inr blank ↦ rw blank (label-counted s _ (init_defaults-cell (Settings.constructed s)))
  ]

  pub restored-waiting :
      (s : Settings S)
      → read_int s 0 ≡ magic_number
      → waiting_label (Settings.init (Settings.constructed s)) ≡ none
  unfolding Settings.init Settings.init_restore Settings.increment_device_power_cycles
      Settings.set_device_power_cycles write_long write_int read_int
  restored-waiting s valid = rw (eq→== _ _ valid)

  pub blank-waiting :
      (s : Settings S)
      → ¬ (read_int s 0 ≡ magic_number)
      → waiting_label (Settings.init (Settings.constructed s)) ≡ some default_label
  unfolding Settings.init Settings.increment_device_power_cycles Settings.set_device_power_cycles
      write_long write_int read_int
  blank-waiting s other = rw (ne→== _ _ other) (defaults-waiting (Settings.constructed s))
