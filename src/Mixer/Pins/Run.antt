-- ===== src/Mixer/Pins/Run.antt =====
-- The pins over the run of main of main.cpp.
use rgbmixer.Base.{
  ℕ, ◌+◌, ◌<◌, ◌≡◌, refl, Bool, false, not, ◌&&◌, List, [], ◌∷◌, ◌++◌, none, some, ◌==◌,
  if◌then◌else◌, All, Bool-cases, inl, inr, arith,
}
use rgbmixer.Arduino.{Eeprom, pin_mode_output, digital_write}
use rgbmixer.Settings
use rgbmixer.Settings.{Settings}
use rgbmixer.Device.{Device, ◌>>◌, skip, change_settings}
use rgbmixer.UsbPro.Receiver
use rgbmixer.UsbPro.Receiver.Bytes.{AreBytesAt, IsByteEvent, read-keeps}
use rgbmixer.UsbPro.Sender.{
  send_message_header, send_message_footer, write, write_bytes, write_message,
}
use rgbmixer.Rdm.Sender.{Memory}
use rgbmixer.Rdm.Answer.{Answer, status, reply, deliver}
use rgbmixer.Rdm.Handlers.Tables.{
  Board, GetHandler, SetHandler, identify_led_pin, get_queued_message, set_identify_device,
  set_device_label,
}
use rgbmixer.Rdm.Handlers.Get.Answers.{after_get}
use rgbmixer.Rdm.Handlers.Set.Answers.{set_check, set_before, set_after}
use rgbmixer.Rdm.Handlers.Message.Invariant.{handle_rdm_message-keeps_device}
use rgbmixer.Mixer.Actions.{take_action_cases}
use rgbmixer.Mixer.Pins.{
  Shows, Shows-snoc, bit, bit-small, ShowsFlags, outputs, set_pwm_from-ShowsFlags,
  dark_from-ShowsFlags, toggle_led-ShowsFlags,
}
use rgbmixer.Mixer.{
  led_pin, pwm_pins, dark_from, set_pwm, toggle_led, queue_set_device_label, idle, take_action,
  power_on, set_up, main, send_serial_number_response, send_device_response,
  send_manufacturer_response,
}

-- SetIdentifyDevice accepts 0 and 1.
identify-accepted :
    (msg : Memory)
    → set_check set_identify_device msg ≡ none
    → msg 24 < 2 × msg 24 ≡ bit (not (msg 24 == 0))
unfolding set_check
identify-accepted msg accepted = (ground (arith, accepted), ground (arith, accepted))

module _ {S : Type 0} ⦃e : Eeprom S⦄ where
  deliver-ShowsFlags :
      (msg : Memory) (a : Answer) (d : Device S) → ShowsFlags d → ShowsFlags (deliver msg a d)
  unfolding deliver
  deliver-ShowsFlags msg (status c) d h = h
  deliver-ShowsFlags msg (reply rt command_class pid param_data) d h = h

  after_get-ShowsFlags :
      (h : GetHandler) (msg : Memory) (d : Device S) → ShowsFlags d → ShowsFlags (after_get h msg d)
  unfolding after_get
  after_get-ShowsFlags get_queued_message msg d h = elim (Bool-cases d.m_device_label_pending) [
    | inl pending ↦ rw pending h
    | inr idle' ↦ rw idle' (elim (Bool-cases (d.m_sent_device_label && msg 24 == 1)) [
      | inl again ↦ rw again h
      | inr done ↦ rw done h
    ])
  ]
  after_get-ShowsFlags handler msg d h = h

  set_before-ShowsFlags :
      (board : Board) (h : SetHandler) (msg : Memory) (d : Device S)
      → set_check h msg ≡ none
      → ShowsFlags d
      → ShowsFlags (set_before board h msg d)
  unfolding set_before
  set_before-ShowsFlags board set_identify_device msg d accepted h =
      let (small, same) = identify-accepted msg accepted in
      Shows-snoc d.pins (digital_write identify_led_pin (msg 24)) _ d.led_state (not (msg 24 == 0))
        d.led_state h (refl, small) same refl
  set_before-ShowsFlags board handler msg d accepted h = h

  set_after-ShowsFlags :
      (h : SetHandler) (b : Bool) (d : Device S) → ShowsFlags d → ShowsFlags (set_after h b d)
  unfolding set_after
  set_after-ShowsFlags set_device_label false d h = h
  set_after-ShowsFlags handler b d h = h

  dmx-ShowsFlags :
      (msg : Memory) (size : ℕ) (d : Device S)
      → AreBytesAt msg
      → ShowsFlags d
      → ShowsFlags
          ((if msg 0 == 0 then (toggle_led >> set_pwm (λ i. msg (1 + i)) size) else skip) d)
  unfolding set_pwm
  dmx-ShowsFlags msg size d small h = elim (Bool-cases (msg 0 == 0)) [
    | inl dmx ↦ rw dmx (
        set_pwm_from-ShowsFlags _ _ (λ i. msg (1 + i)) size pwm_pins 0 (toggle_led d) outputs
          (λ i. small (1 + i)) (toggle_led-ShowsFlags d h))
    | inr other ↦ rw other h
  ]

  take_action-ShowsFlags :
      (board : Board) (label : ℕ) (msg : Memory) (size : ℕ) (d : Device S)
      → AreBytesAt msg
      → ShowsFlags d
      → ShowsFlags (take_action board label msg size d)
  unfolding send_serial_number_response send_device_response send_manufacturer_response
      send_message_header send_message_footer write write_bytes write_message
  take_action-ShowsFlags board label msg size d small h =
      take_action_cases board label msg size d ShowsFlags h (dmx-ShowsFlags msg size d small h) h h
        h
        (handle_rdm_message-keeps_device ShowsFlags deliver-ShowsFlags after_get-ShowsFlags
          set_before-ShowsFlags set_after-ShowsFlags board msg size (toggle_led d)
          (toggle_led-ShowsFlags d h))
        h

  idle-ShowsFlags : (d : Device S) → ShowsFlags d → ShowsFlags (idle d)
  unfolding idle queue_set_device_label
  idle-ShowsFlags d h = elim (Bool-cases (Settings.perform_write d.settings).0) [
    | inl wrote ↦ rw wrote h
    | inr nothing ↦ rw nothing h
  ]

  set_up-ShowsFlags : (s : Settings S) → ShowsFlags (set_up (power_on s))
  unfolding set_up power_on
  set_up-ShowsFlags s =
      let first : Shows (power_on s).pins false false =
        ((refl, ((refl, omega arith), tt)), refl, refl) in
      let started = change_settings Settings.init (power_on s) in
      let dark = dark_from (Settings.personality started.settings) pwm_pins 0 started in
      let shown =
        dark_from-ShowsFlags (Settings.personality started.settings) pwm_pins 0 started outputs
          first in
      Shows-snoc (dark.pins ++ pin_mode_output led_pin ∷ [])
        (digital_write led_pin (bit dark.led_state)) dark.m_identify_mode_enabled dark.led_state
        dark.m_identify_mode_enabled dark.led_state
        (Shows-snoc dark.pins (pin_mode_output led_pin) _ _ _ _ shown refl refl refl)
        (refl, bit-small dark.led_state) refl refl

-- At any time of a run before an overrun, on any bytes, and whatever bytes the memory of the
-- buffer holds at power on: each call that drives a pin fits what is wired there (the identify LED
-- and the activity LED get 0 or 1, one of the six outputs a byte, and no other pin is driven). The
-- identify LED shows the flag of the identify mode, and the activity LED shows `led_state`.
pub main-ShowsFlags :
    {S : Type 0} ⦃e : Eeprom S⦄ (s : Settings S) (stack : ℕ → ℕ)
    (events : List (Receiver.Event Board)) (r : Receiver.Receiver) (d : Device S)
    → All IsByteEvent events
    → AreBytesAt stack
    → main s stack events ≡ some (r, d)
    → ShowsFlags d
unfolding main Receiver.start
main-ShowsFlags s stack events r d bytes small run =
    read-keeps take_action idle ShowsFlags (λ b l m n d. take_action-ShowsFlags b l m n d)
      idle-ShowsFlags events (Receiver.start stack) (set_up (power_on s)) r d bytes small
      (set_up-ShowsFlags s) run
