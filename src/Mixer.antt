-- ===== src/Mixer.antt =====
-- main.cpp: the responses to the USB Pro messages, the PWM outputs and the main loop.
pub mod Actions
pub mod Output
pub mod Invariant
pub mod Restart
pub mod Ranges
pub mod Queue
pub mod Stream
pub mod Loopback
pub mod Pins
pub mod Dark
pub mod Serve
use rgbmixer.Base.{
  ℕ, zero, suc, ◌+◌, ◌-◌, ◌*◌, ◌/◌, ◌%◌, ◌^◌, Bool, true, false, not, ◌&&◌, ◌||◌, List, [], ◌∷◌,
  ◌++◌, Option, ltb, leb, ◌==◌, if◌then◌else◌, u8, u16, ◌>>>◌, mem_of, length,
}
use rgbmixer.Arduino.{Eeprom, PinCall, pin_mode_output, digital_write, analog_write}
use rgbmixer.Settings
use rgbmixer.Settings.{Settings}
use rgbmixer.Device.{Device, Cmd, ◌>>◌, ◌>>=◌, skip, setting, change_settings, set_pin}
use rgbmixer.Common.{device_name, manufacturer_name}
use rgbmixer.UsbPro.Labels.{
  parameters_label, dmx_data_label, serial_number_label, manufacturer_label, name_label, rdm_label,
}
use rgbmixer.UsbPro.Sender.{
  send_message_header, send_message_footer, write, write_bytes, write_message,
}
use rgbmixer.UsbPro.Receiver
use rgbmixer.Rdm.Sender.{Memory}
use rgbmixer.Rdm.Handlers.Tables.{Board, identify_led_pin}
use rgbmixer.Rdm.Handlers.Message.{handle_rdm_message}

abbrev pub led_pin : ℕ
led_pin = 13

abbrev pub pwm_pins : List ℕ
pwm_pins = 3 ∷ 5 ∷ 6 ∷ 9 ∷ 10 ∷ 11 ∷ []

abbrev pub device_params : List ℕ
device_params = 0 ∷ 1 ∷ 0 ∷ 0 ∷ 40 ∷ []

abbrev pub device_id : List ℕ
device_id = 1 ∷ 0 ∷ []

-- The bytes of a long in memory, the low one first.
abbrev pub long_memory : ℕ → List ℕ
long_memory l = u8 l ∷ u8 (l >>> 8) ∷ u8 (l >>> 16) ∷ u8 (l >>> 24) ∷ []

-- Which of the six outputs a personality inverts.
unfoldable pub is_inverted : ℕ → ℕ → Bool
is_inverted personality i = (ltb i 3 && ltb 1 personality) || (leb 3 i && personality == 3)

unfoldable pub pwm_value : ℕ → ℕ → ℕ → ℕ
unfolding is_inverted
pwm_value personality i value = if is_inverted personality i then 255 - value else value

module _ {S : Type 0} where
  -- The loop of SetPWM over the pins left, from round `i`; it ends with the data.
  unfoldable pub set_pwm_from : ℕ → ℕ → Memory → ℕ → List ℕ → ℕ → Cmd S
  set_pwm_from start_address personality bytes size [] i = skip
  set_pwm_from start_address personality bytes size (pin ∷ rest) i =
      let slot = u16 (start_address + i) in
      let others = set_pwm_from start_address personality bytes size rest (i + 1) in
      if ltb slot size
      then (do set_pin (analog_write pin (pwm_value personality i (bytes slot))); others)
      else skip

  -- The loop of main that sets the outputs to dark.
  unfoldable pub dark_from : ℕ → List ℕ → ℕ → Cmd S
  dark_from personality [] i = skip
  dark_from personality (pin ∷ rest) i = do
    set_pin (pin_mode_output pin)
    set_pin (analog_write pin (if is_inverted personality i then 255 else 0))
    dark_from personality rest (i + 1)

  -- `led_state = !led_state; digitalWrite(LED_PIN, led_state)`.
  unfoldable pub toggle_led : Cmd S
  toggle_led = do
    (λ d. record d { led_state = not d.led_state })
    (λ d. set_pin (digital_write led_pin (if d.led_state then 1 else 0)) d)

  unfoldable pub send_device_response : Cmd S
  send_device_response = do
    send_message_header name_label (length device_id + length device_name)
    write_bytes (mem_of device_id) (length device_id)
    write_bytes (mem_of device_name) (length device_name)
    send_message_footer

  unfoldable pub queue_set_device_label : Cmd S
  queue_set_device_label d = record d { m_device_label_pending = true }

module _ {S : Type 0} ⦃e : Eeprom S⦄ where
  unfoldable pub send_serial_number_response : Cmd S
  send_serial_number_response = do
    serial ← setting Settings.serial_number
    send_message_header serial_number_label 4
    write_bytes (mem_of (long_memory serial)) 4
    send_message_footer

  unfoldable pub send_manufacturer_response : Cmd S
  send_manufacturer_response = do
    esta_id ← setting Settings.esta_id
    send_message_header manufacturer_label (2 + length manufacturer_name)
    write (u8 esta_id)
    write (u8 (esta_id >>> 8))
    write_bytes (mem_of manufacturer_name) (length manufacturer_name)
    send_message_footer

  -- The first slot is the start address less one, in an unsigned int.
  unfoldable pub set_pwm : Memory → ℕ → Cmd S
  set_pwm bytes size = do
    address ← setting Settings.start_address
    personality ← setting Settings.personality
    set_pwm_from (u16 (address + 65535)) personality bytes size pwm_pins 0

  unfoldable pub idle : Cmd S
  idle d =
      let (written, s) = Settings.perform_write d.settings in
      let d' = record d { settings = s } in if written then queue_set_device_label d' else d'

  unfoldable pub take_action : Board → ℕ → Memory → ℕ → Cmd S
  take_action board label message message_size =
      if label == parameters_label
      then write_message parameters_label (length device_params) (mem_of device_params)
      else if label == dmx_data_label
      then (if message 0 == 0
          then (do toggle_led; set_pwm (λ i. message (1 + i)) message_size)
          else skip)
      else if label == serial_number_label
      then send_serial_number_response
      else if label == name_label
      then send_device_response
      else if label == manufacturer_label
      then send_manufacturer_response
      else if label == rdm_label
      then (do toggle_led; handle_rdm_message board message message_size)
      else skip

  -- The global objects after their constructors ran.
  unfoldable pub power_on : Settings S → Device S
  power_on s = record {
    settings = Settings.constructed s;
    m_message_count = 0;
    m_current_checksum = 0;
    m_identify_mode_enabled = false;
    m_device_label_pending = false;
    m_sent_device_label = false;
    led_state = false;
    serial = [];
    pins = pin_mode_output identify_led_pin ∷ digital_write identify_led_pin 0 ∷ [];
  }

  -- main, up to the call of `receiver.Read`.
  unfoldable pub set_up : Cmd S
  set_up = do
    change_settings Settings.init
    personality ← setting Settings.personality
    dark_from personality pwm_pins 0
    set_pin (pin_mode_output led_pin)
    (λ d. set_pin (digital_write led_pin (if d.led_state then 1 else 0)) d)

  -- main over the events so far; each byte comes with the board at that time.
  unfoldable pub main :
      Settings S → (ℕ → ℕ) → List (Receiver.Event Board) → Option (Receiver.Receiver × Device S)
  main s stack events =
      Receiver.read take_action idle events (Receiver.start stack) (set_up (power_on s))
