-- ===== src/Mixer/Restart.antt =====
-- main of main.cpp, and a loss of power at any time.
use rgbmixer.Base.{ℕ, ◌+◌, ◌%◌, ◌≡◌, List, none, some, arith}
use rgbmixer.Arduino.{Eeprom}
use rgbmixer.Settings.{
  Settings, init, start_address, personality, device_power_cycles, esta_id, serial_number,
}
use rgbmixer.Settings.Coherent.{
  IsCoherent, set_start_address-IsCoherent, set_personality-IsCoherent,
}
use rgbmixer.Settings.Copies.{
  set_serial_number-IsCoherent, set_device_power_cycles-IsCoherent, save_sensor_value-IsCoherent,
  set_device_label-IsCoherent, perform_write-IsCoherent, init-IsCoherent, init-lost_copies,
}
use rgbmixer.Device.{Device}
use rgbmixer.UsbPro.Receiver
use rgbmixer.Rdm.Sender.{Memory}
use rgbmixer.Rdm.Handlers.Tables.{
  Board, SetHandler, set_language, set_device_label, set_personality, set_start_address,
  set_sensor_value, record_sensor, set_device_power_cycles, set_identify_device, set_serial,
}
use rgbmixer.Rdm.Handlers.Set.Answers.{set_check, set_before}
use rgbmixer.Mixer.Invariant.{main-keeps}
use rgbmixer.Mixer.{power_on, main}

module _ {S : Type 0} ⦃e : Eeprom S⦄ where
  set_before-IsCoherent :
      (board : Board) (h : SetHandler) (msg : Memory) (d : Device S)
      → set_check h msg ≡ none
      → IsCoherent d.settings
      → IsCoherent (set_before board h msg d).settings
  unfolding set_before set_check
  set_before-IsCoherent board set_language msg d ok h = h
  set_before-IsCoherent board set_device_label msg d ok h = set_device_label-IsCoherent _ _ _ h
  set_before-IsCoherent board set_personality msg d ok h =
      set_personality-IsCoherent _ _ (ground (arith, ok)) h.has_address
  set_before-IsCoherent board set_start_address msg d ok h =
      set_start_address-IsCoherent _ _ (omega arith) h
  set_before-IsCoherent board set_sensor_value msg d ok h = save_sensor_value-IsCoherent _ _ h
  set_before-IsCoherent board record_sensor msg d ok h = save_sensor_value-IsCoherent _ _ h
  set_before-IsCoherent board set_device_power_cycles msg d ok h =
      set_device_power_cycles-IsCoherent _ _ h
  set_before-IsCoherent board set_identify_device msg d ok h = h
  set_before-IsCoherent board set_serial msg d ok h = set_serial_number-IsCoherent _ _ h

-- Whatever the EEPROM held at the start, at any time after Init and before an overrun, the EEPROM
-- is set up and the copies in RAM of the start address and of the personality agree with it.
pub main-IsCoherent :
    {S : Type 0} ⦃e : Eeprom S⦄ (s : Settings S) (stack : ℕ → ℕ)
    (events : List (Receiver.Event Board)) (r : Receiver.Receiver) (d : Device S)
    → main s stack events ≡ some (r, d)
    → IsCoherent d.settings
main-IsCoherent s stack events r d run =
    main-keeps IsCoherent set_before-IsCoherent perform_write-IsCoherent s stack events r d
      (unfold power_on in init-IsCoherent _ (omega arith)) run

-- Between any two rounds of the loop of Read, before an overrun, whatever the EEPROM held at the
-- start, a loss of power loses neither the start address nor the personality nor the identity: a
-- device that starts with the EEPROM of that time, whatever its RAM holds, has the same ones, the
-- last being the manufacturer id and the serial number, and counts one power cycle more. Nothing
-- is said of a loss within a round, such as between the writes of two bytes of one setting.
pub main-restart :
    {S : Type 0} ⦃e : Eeprom S⦄ (s : Settings S) (stack : ℕ → ℕ)
    (events : List (Receiver.Event Board)) (r : Receiver.Receiver) (d : Device S) (t : Settings S)
    → main s stack events ≡ some (r, d)
    → t.eeprom ≡ d.settings.eeprom
    → let again = init (power_on t).settings in
      (start_address again ≡ start_address d.settings)
      × (personality again ≡ personality d.settings)
      × (esta_id again ≡ esta_id d.settings)
      × (serial_number again ≡ serial_number d.settings)
      × (device_power_cycles again ≡ (device_power_cycles d.settings + 1) % 4294967296)
main-restart s stack events r d t run kept =
    init-lost_copies d.settings (power_on t).settings (unfold power_on in kept)
      (main-IsCoherent s stack events r d run)
