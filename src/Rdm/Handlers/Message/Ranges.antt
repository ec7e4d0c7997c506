-- ===== src/Rdm/Handlers/Message/Ranges.antt =====
-- The SET handlers of RDMHandlers.cpp and the range of the personality and the start address.
use rgbmixer.Base.{◌≤◌, ◌<◌, ◌≡◌, ◌⊎◌, refl, none, arith}
use rgbmixer.Arduino.{Eeprom}
use rgbmixer.Settings
use rgbmixer.Settings.{Settings}
use rgbmixer.Device.{Device}
use rgbmixer.Rdm.Sender.{Memory}
use rgbmixer.Rdm.Handlers.Tables.{
  Board, SetHandler, set_language, set_device_label, set_personality, set_start_address,
  set_sensor_value, record_sensor, set_device_power_cycles, set_identify_device, set_serial,
}
use rgbmixer.Rdm.Handlers.Set.Answers.{set_check, set_before}

-- The personality is in the table, and the address is a DMX slot or one of those that the check
-- lets through as negative.
pub record InRange {S : Type 0} (s : Settings S) : Type 0 where
  pub in_table : (1 ≤ s.m_personality) × (s.m_personality ≤ 3)
  pub from_one : 1 ≤ s.m_start_address
  pub a_slot :
      (s.m_start_address ≤ 512) ⊎ ((32768 ≤ s.m_start_address) × (s.m_start_address < 65536))

module _ {S : Type 0} ⦃e : Eeprom S⦄ where
  pub same_copies :
      (s s' : Settings S)
      → s'.m_personality ≡ s.m_personality
      → s'.m_start_address ≡ s.m_start_address
      → InRange s
      → InRange s'
  same_copies s s' p a h = record {
    in_table = rw p (h.in_table);
    from_one = rw a (h.from_one);
    a_slot = rw a (h.a_slot);
  }

  pub set_before-InRange :
      (board : Board) (h : SetHandler) (msg : Memory) (d : Device S)
      → set_check h msg ≡ none
      → InRange d.settings
      → InRange (set_before board h msg d).settings
  unfolding set_before set_check Settings.set_device_label Settings.set_personality
      Settings.set_start_address Settings.save_sensor_value Settings.set_device_power_cycles
      Settings.set_serial_number Settings.write_long Settings.write_int
  set_before-InRange board set_language msg d ok h = h
  set_before-InRange board set_device_label msg d ok h = same_copies _ _ refl refl h
  set_before-InRange board set_personality msg d ok h = record {
    in_table = ground (arith, ok);
    from_one = h.from_one;
    a_slot = h.a_slot;
  }
  set_before-InRange board set_start_address msg d ok h = record {
    in_table = h.in_table;
    from_one = ground (arith, ok);
    a_slot = ground (arith, ok);
  }
  set_before-InRange board set_sensor_value msg d ok h = same_copies _ _ refl refl h
  set_before-InRange board record_sensor msg d ok h = same_copies _ _ refl refl h
  set_before-InRange board set_device_power_cycles msg d ok h = same_copies _ _ refl refl h
  set_before-InRange board set_identify_device msg d ok h = h
  set_before-InRange board set_serial msg d ok h = same_copies _ _ refl refl h
