-- ===== src/Responder/Started.antt =====
-- Init of WidgetSettings.cpp and the start of main.cpp against the responder that they start.
use rgbmixer.Base.{
  ℕ, ◌+◌, ◌≡◌, ◌∙◌, refl, sym, subst, false, List, [], ◌∷◌, none, some, ◌==◌, if◌then◌else◌,
  Bool-cases, inl, inr, ==→eq, eq→==,
}
use rgbmixer.Arduino.{Eeprom}
use rgbmixer.Settings
use rgbmixer.Settings.{
  Settings, eeprom_read, read_int, read_long, write_int, write_long, default_label, magic_number,
}
use rgbmixer.Settings.Start.{init_restored}
use rgbmixer.Settings.Defaults.{init_blank}
use rgbmixer.Device.{Device, change_settings}
use rgbmixer.Rdm.Handlers.Queue.{empty}
use rgbmixer.Mixer.{pwm_pins, dark_from, power_on, set_up}
use rgbmixer.Responder.{Responder}
use rgbmixer.Responder.Service.{restart}
use rgbmixer.Responder.View.{view, IsSound}
use rgbmixer.Responder.Fresh.{init-IsSound, init-label, restored-waiting, blank-waiting}
use rgbmixer.Responder.Keeps.{Quiet}

-- A device that starts for the first time, with what the cells of the label hold; its default label
-- waits.
abbrev pub factory : List ℕ → Responder
factory label = record {
  address = 1;
  mode = 1;
  maker = 0x7a70;
  serial = 1;
  cycles = 1;
  label = label;
  unwritten = some default_label;
  identify = false;
  queue = empty;
  counted = 0;
}

module _ {S : Type 0} ⦃e : Eeprom S⦄ where
  -- What the EEPROM alone keeps.
  abbrev pub stored : Settings S → Responder
  stored s = record {
    address = read_int s 2;
    mode = eeprom_read s 48;
    maker = Settings.esta_id s;
    serial = Settings.serial_number s;
    cycles = Settings.device_power_cycles s;
    label = Settings.device_label s 32;
    unwritten = none;
    identify = false;
    queue = empty;
    counted = 0;
  }

  -- The responder that an EEPROM starts.
  abbrev pub started : Settings S → Responder
  started s =
      if read_int s 0 == magic_number
      then restart (stored s)
      else factory (Settings.device_label s 32)

  dark_from-Quiet :
      (personality : ℕ) (left : List ℕ) (i : ℕ) (d : Device S)
      → Quiet d (dark_from personality left i d)
  unfolding dark_from
  dark_from-Quiet personality [] i d = (refl, refl, refl)
  dark_from-Quiet personality (pin ∷ rest) i d = dark_from-Quiet personality rest (i + 1) _

  set_up-Quiet :
      (s : Settings S) → Quiet (change_settings Settings.init (power_on s)) (set_up (power_on s))
  unfolding set_up
  set_up-Quiet s = dark_from-Quiet _ pwm_pins 0 _

  restored :
      (s : Settings S)
      → read_int s 0 ≡ magic_number
      → view (change_settings Settings.init (power_on s)) ≡ restart (stored s)
  unfolding power_on restart Settings.device_power_cycles Settings.esta_id Settings.serial_number
      read_long read_int Settings.device_label
  restored s valid =
      let (address, mode, cycles, maker, serial) = init_restored (Settings.constructed s) valid in
      λ j. record {
        address = address j;
        mode = mode j;
        maker = maker j;
        serial = serial j;
        cycles = cycles j;
        label = init-label s j;
        unwritten = restored-waiting s valid j;
        identify = false;
        queue = empty;
        counted = 0;
      }

  blank :
      (s : Settings S)
      → ¬ (read_int s 0 ≡ magic_number)
      → view (change_settings Settings.init (power_on s)) ≡ factory (Settings.device_label s 32)
  unfolding power_on read_int
  blank s other =
      let (valid, address, mode, maker, serial, cycles, sensor, done, stored_label) =
        init_blank (Settings.constructed s) other in
      λ j. record {
        address = address j;
        mode = mode j;
        maker = maker j;
        serial = serial j;
        cycles = cycles j;
        label = init-label s j;
        unwritten = blank-waiting s other j;
        identify = false;
        queue = empty;
        counted = 0;
      }

  pub started_lem : (s : Settings S) → view (set_up (power_on s)) ≡ started s
  started_lem s = elim (Bool-cases (read_int s 0 == magic_number)) [
    | inl valid ↦ (set_up-Quiet s).0 ∙ restored s (==→eq _ _ valid) ∙ rw valid
    | inr other ↦ (set_up-Quiet s).0 ∙ blank s (λ same. let yes = eq→== _ _ same in cc) ∙ rw other
  ]

  pub set_up-IsSound : (s : Settings S) → IsSound (set_up (power_on s)).settings
  unfolding power_on
  set_up-IsSound s = subst IsSound (sym (set_up-Quiet s).2) (init-IsSound s)

  pub set_up-silent : (s : Settings S) → (set_up (power_on s)).serial ≡ []
  unfolding power_on
  set_up-silent s = (set_up-Quiet s).1
