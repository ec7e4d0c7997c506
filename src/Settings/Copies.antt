-- ===== src/Settings/Copies.antt =====
-- Init, PerformWrite and the setters of WidgetSettings.cpp, and the copies in RAM.
use rgbmixer.Base.{
  ℕ, ◌+◌, ◌%◌, ◌≤◌, ◌≡◌, refl, sym, ◌∙◌, Bool, true, false, ◌==◌, if◌then◌else◌, arith, Bool-cases,
  inl, inr, ==→eq, mem_of, length,
}
use rgbmixer.Arduino.{Eeprom}
use rgbmixer.Settings.{
  Settings, read_int, write_int, write_long, set_start_address, set_esta_id, set_serial_number,
  set_device_label, device_power_cycles, set_device_power_cycles, increment_device_power_cycles,
  save_sensor_value, write_label, perform_write, start_address, personality, esta_id, serial_number,
  read_long, init_defaults, init_restore, init, magic_number, default_label, default_serial_number,
}
use rgbmixer.Settings.Start.{init_restored}
use rgbmixer.Settings.Words.{read_int-write_int}
use rgbmixer.Settings.Coherent.{
  HasAddress, IsCoherent, write_int-keeps, write_long-keeps, write_label-keeps,
  eeprom_write-IsCoherent, cell-HasAddress, set_start_address-HasAddress,
  set_personality-IsCoherent, same-HasAddress, same-IsCoherent,
}

module _ {S : Type 0} ⦃e : Eeprom S⦄ where
  pub set_serial_number-IsCoherent :
      (s : Settings S) (v : ℕ) → IsCoherent s → IsCoherent (set_serial_number s v)
  unfolding set_serial_number
  set_serial_number-IsCoherent s v h =
      write_long-keeps IsCoherent eeprom_write-IsCoherent s 6 v (omega arith) (omega arith) h

  pub set_device_power_cycles-IsCoherent :
      (s : Settings S) (v : ℕ) → IsCoherent s → IsCoherent (set_device_power_cycles s v)
  unfolding set_device_power_cycles
  set_device_power_cycles-IsCoherent s v h =
      write_long-keeps IsCoherent eeprom_write-IsCoherent s 44 v (omega arith) (omega arith) h

  pub save_sensor_value-IsCoherent :
      (s : Settings S) (v : ℕ) → IsCoherent s → IsCoherent (save_sensor_value s v)
  unfolding save_sensor_value
  save_sensor_value-IsCoherent s v h =
      write_int-keeps IsCoherent eeprom_write-IsCoherent s 46 v (omega arith) (omega arith) h

  pub set_device_label-IsCoherent :
      (s : Settings S) (label : ℕ → ℕ) (size : ℕ)
      → IsCoherent s
      → IsCoherent (set_device_label s label size)
  unfolding set_device_label
  set_device_label-IsCoherent s label size h = same-IsCoherent s _ refl refl refl (omega arith) h

  either_way :
      (pending : Bool) (s w : Settings S)
      → IsCoherent s
      → IsCoherent w
      → IsCoherent
          (let done : Bool × Settings S = if pending then (true, w) else (false, s) in done.1)
  either_way true s w h k = k
  either_way false s w h k = h

  pub perform_write-IsCoherent : (s : Settings S) → IsCoherent s → IsCoherent (perform_write s).1
  unfolding perform_write
  perform_write-IsCoherent s h =
      let label =
        write_label-keeps IsCoherent eeprom_write-IsCoherent s s.m_label_size 0
          (omega (arith, h.has_address.label_fits)) h in
      let size =
        write_int-keeps IsCoherent eeprom_write-IsCoherent (write_label s s.m_label_size 0) 10
          s.m_label_size (omega arith) (omega arith) label in
      either_way s.m_label_pending s _ h
        (same-IsCoherent _ _ refl refl refl (size.has_address.label_fits) size)

  increment_device_power_cycles-IsCoherent :
      (s : Settings S) → IsCoherent s → IsCoherent (increment_device_power_cycles s)
  unfolding increment_device_power_cycles
  increment_device_power_cycles-IsCoherent s h = set_device_power_cycles-IsCoherent s _ h

  init_restore-IsCoherent :
      (s : Settings S)
      → read_int s 0 ≡ magic_number
      → s.m_label_size ≤ 32
      → IsCoherent (init_restore s)
  unfolding init_restore read_int
  init_restore-IsCoherent s valid fits = record {
    has_address = record { set_up = valid; address = refl; label_fits = fits };
    number = refl;
  }

  init_defaults-IsCoherent : (s : Settings S) → s.m_label_size ≤ 32 → IsCoherent (init_defaults s)
  unfolding init_defaults set_esta_id set_serial_number set_device_label set_device_power_cycles
      save_sensor_value
  init_defaults-IsCoherent s fits =
      let s1 = write_int s 0 magic_number in
      let s2 = set_start_address s1 1 in
      let s3 = write_int s2 4 0x7a70 in
      let s4 = write_long s3 6 default_serial_number in
      let s5 = set_device_label s4 (mem_of default_label) (length default_label) in
      let s6 = write_long s5 44 0 in
      let s7 = write_int s6 46 0 in
      let h2 : HasAddress s2 =
        set_start_address-HasAddress s1 1 (omega arith)
          (read_int-write_int s 0 magic_number (omega arith)) (unfold write_int in fits) in
      let h3 =
        write_int-keeps HasAddress cell-HasAddress s2 4 0x7a70 (omega arith) (omega arith) h2 in
      let h4 = write_long-keeps HasAddress cell-HasAddress s3 6 1 (omega arith) (omega arith) h3 in
      let h5 : HasAddress s5 = same-HasAddress s4 s5 refl refl (omega arith) h4 in
      let h6 = write_long-keeps HasAddress cell-HasAddress s5 44 0 (omega arith) (omega arith) h5 in
      let h7 = write_int-keeps HasAddress cell-HasAddress s6 46 0 (omega arith) (omega arith) h6 in
      set_personality-IsCoherent s7 1 (omega arith) h7

  -- Whatever the EEPROM holds.
  pub init-IsCoherent : (s : Settings S) → s.m_label_size ≤ 32 → IsCoherent (init s)
  unfolding init
  init-IsCoherent s fits = elim (Bool-cases (read_int s 0 == magic_number)) [
    | inl valid ↦ rw valid (
        increment_device_power_cycles-IsCoherent (init_restore s)
          (init_restore-IsCoherent s (==→eq _ _ valid) fits))
    | inr blank ↦ rw blank (
        increment_device_power_cycles-IsCoherent (init_defaults s)
          (init_defaults-IsCoherent s fits))
  ]

  -- A start from coherent settings whose RAM was lost.
  pub init-lost_copies :
      (s u : Settings S)
      → u.eeprom ≡ s.eeprom
      → IsCoherent s
      → (start_address (init u) ≡ start_address s)
        × (personality (init u) ≡ personality s)
        × (esta_id (init u) ≡ esta_id s)
        × (serial_number (init u) ≡ serial_number s)
        × (device_power_cycles (init u) ≡ (device_power_cycles s + 1) % 4294967296)
  unfolding start_address personality esta_id serial_number device_power_cycles read_long
  init-lost_copies s u store h =
      let ints : (p : ℕ) → read_int u p ≡ read_int s p = (λ p. unfold read_int in rw store) in
      let started = init_restored u (ints 0 ∙ h.has_address.set_up) in
      (
        started.0 ∙ ints 2 ∙ sym (h.has_address.address),
        started.1 ∙ (rw store) ∙ sym (h.number),
        started.3 ∙ ints 4,
        started.4 ∙ rw (ints 6, ints 8),
        started.2 ∙ rw (ints 44, ints 46),
      )
