-- ===== src/Mixer/Ranges.antt =====
-- main of main.cpp and the range of the personality and the start address.
use rgbmixer.Base.{
  ℕ, zero, suc, Bool, true, false, ◌+◌, ◌≡◌, ◌≢◌, refl, List, some, if◌then◌else◌, inl, arith,
}
use rgbmixer.Arduino.{Eeprom}
use rgbmixer.Settings
use rgbmixer.Settings.{Settings, read_int, magic_number, magic_number_offset}
use rgbmixer.Settings.Defaults.{init_blank}
use rgbmixer.Device.{Device}
use rgbmixer.UsbPro.Receiver
use rgbmixer.Rdm.Handlers.Tables.{Board}
use rgbmixer.Rdm.Handlers.Message.Ranges.{InRange, same_copies, set_before-InRange}
use rgbmixer.Mixer.Invariant.{main-keeps}
use rgbmixer.Mixer.{power_on, main}

module _ {S : Type 0} ⦃e : Eeprom S⦄ where
  -- The write of the label in the background leaves the copies in RAM.
  write_label-personality :
      (s : Settings S) (left i : ℕ)
      → (Settings.write_label s left i).m_personality ≡ s.m_personality
  unfolding Settings.write_label
  write_label-personality s zero i = refl
  write_label-personality s (suc left) i =
      write_label-personality (Settings.eeprom_write s (12 + i) (s.m_label_buffer i)) left (i + 1)

  write_label-start_address :
      (s : Settings S) (left i : ℕ)
      → (Settings.write_label s left i).m_start_address ≡ s.m_start_address
  unfolding Settings.write_label
  write_label-start_address s zero i = refl
  write_label-start_address s (suc left) i =
      write_label-start_address (Settings.eeprom_write s (12 + i) (s.m_label_buffer i)) left (i + 1)

  either_way :
      (pending : Bool) (s w : Settings S)
      → InRange s
      → InRange w
      → InRange (let done : Bool × Settings S = if pending then (true, w) else (false, s) in done.1)
  either_way true s w h k = k
  either_way false s w h k = h

  perform_write-InRange : (s : Settings S) → InRange s → InRange (Settings.perform_write s).1
  unfolding Settings.perform_write Settings.write_int
  perform_write-InRange s h = either_way s.m_label_pending s _ h (
      same_copies s _ (write_label-personality s s.m_label_size 0)
        (write_label-start_address s s.m_label_size 0) h)

  init-InRange :
      (s : Settings S)
      → read_int s magic_number_offset ≢ magic_number
      → InRange (Settings.init (power_on s).settings)
  unfolding power_on read_int Settings.start_address Settings.personality
  init-InRange s blank =
      let first = init_blank (power_on s).settings blank in
      record {
        in_table = rw (first.2) (omega arith);
        from_one = rw (first.1) (omega arith);
        a_slot = rw (first.1) (inl (omega arith));
      }

-- On a device that started blank, at any time before an overrun, the personality is one of the
-- three of the table, and the start address is a DMX slot or lies among the addresses from 0x8000
-- on, which the check of SET DMX_START_ADDRESS lets through.
pub main-InRange :
    {S : Type 0} ⦃e : Eeprom S⦄ (s : Settings S) (stack : ℕ → ℕ)
    (events : List (Receiver.Event Board)) (r : Receiver.Receiver) (d : Device S)
    → read_int s magic_number_offset ≢ magic_number
    → main s stack events ≡ some (r, d)
    → InRange d.settings
main-InRange s stack events r d blank run =
    main-keeps InRange set_before-InRange perform_write-InRange s stack events r d
      (init-InRange s blank) run
