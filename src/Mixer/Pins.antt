-- ===== src/Mixer/Pins.antt =====
-- The pins that main.cpp and SetIdentifyDevice of RDMHandlers.cpp drive.
pub mod Run
use rgbmixer.Base.{
  ℕ, ◌+◌, ◌-◌, ◌<◌, ◌≡◌, ◌∙◌, refl, sym, ap, subst, Bool, true, false, not, ◌||◌, ◌&&◌, List, [],
  ◌∷◌, ◌++◌, none, some, ltb, ◌==◌, if◌then◌else◌, u16, All, All-append, Bool-cases, inl, inr,
  arith,
}
use rgbmixer.Arduino.{Eeprom, PinCall, pin_mode_output, digital_write, analog_write}
use rgbmixer.Settings
use rgbmixer.Settings.{Settings}
use rgbmixer.Device.{Device, ◌>>◌, skip}
use rgbmixer.UsbPro.Receiver
use rgbmixer.UsbPro.Receiver.Bytes.{AreBytesAt, IsByteEvent, read-keeps}
use rgbmixer.UsbPro.Sender.{
  send_message_header, send_message_footer, write, write_bytes, write_message,
}
use rgbmixer.Rdm.Sender.{Memory}
use rgbmixer.Rdm.Answer.{Answer, status, reply, deliver}
use rgbmixer.Rdm.Handlers.Tables.{
  Board, GetHandler, SetHandler, identify_led_pin, get_queued_message, set_identify_device,
  set_device_label,
}
use rgbmixer.Rdm.Handlers.Get.Answers.{after_get}
use rgbmixer.Rdm.Handlers.Set.Answers.{set_check, set_before, set_after}
use rgbmixer.Rdm.Handlers.Message.Invariant.{handle_rdm_message-keeps_device}
use rgbmixer.Mixer.Actions.{take_action_cases}
use rgbmixer.Mixer.{
  led_pin, pwm_pins, is_inverted, pwm_value, set_pwm_from, set_pwm, dark_from, toggle_led,
  queue_set_device_label, idle, take_action, power_on, set_up, main, send_serial_number_response,
  send_device_response, send_manufacturer_response,
}

abbrev pub has : ℕ → List ℕ → Bool
has pin [] = false
has pin (x ∷ xs) = pin == x || has pin xs

-- A call that fits what is wired to the pin: an LED gets 0 or 1, a PWM output a byte.
abbrev pub IsWired : PinCall → Type 0
IsWired (pin_mode_output pin) = has pin (identify_led_pin ∷ led_pin ∷ pwm_pins) ≡ true
IsWired (digital_write pin value) = has pin (identify_led_pin ∷ led_pin ∷ []) ≡ true × value < 2
IsWired (analog_write pin value) = has pin pwm_pins ≡ true × value < 256

-- What a pin is set to after a call, and after some calls.
abbrev after : ℕ → PinCall → ℕ → ℕ
after pin (pin_mode_output q) value = value
after pin (digital_write q value') value = if pin == q then value' else value
after pin (analog_write q value') value = if pin == q then value' else value

abbrev pub level : ℕ → List PinCall → ℕ → ℕ
level pin [] value = value
level pin (c ∷ cs) value = level pin cs (after pin c value)

abbrev pub bit : Bool → ℕ
bit b = if b then 1 else 0

pub bit-small : (b : Bool) → bit b < 2
bit-small true = omega arith
bit-small false = omega arith

-- Every call fits its pin, and the two LEDs show the flags.
abbrev pub Shows : List PinCall → Bool → Bool → Type 0
Shows pins identify led =
    All IsWired pins × level identify_led_pin pins 0 ≡ bit identify × level led_pin pins 0 ≡ bit led

level-snoc :
    (pin : ℕ) (cs : List PinCall) (c : PinCall) (value : ℕ)
    → level pin (cs ++ c ∷ []) value ≡ after pin c (level pin cs value)
level-snoc pin [] c value = refl
level-snoc pin (c' ∷ cs) c value = level-snoc pin cs c (after pin c' value)

Shows-snoc :
    (pins : List PinCall) (c : PinCall) (identify led identify' led' : Bool)
    → Shows pins identify led
    → IsWired c
    → after identify_led_pin c (bit identify) ≡ bit identify'
    → after led_pin c (bit led) ≡ bit led'
    → Shows (pins ++ c ∷ []) identify' led'
Shows-snoc pins c identify led identify' led' h wired shown lit = (
  All-append IsWired pins (c ∷ []) h.0 (wired, tt),
  level-snoc identify_led_pin pins c 0 ∙ ap (after identify_led_pin c) h.1 ∙ shown,
  level-snoc led_pin pins c 0 ∙ ap (after led_pin c) h.2 ∙ lit,
)

-- A PWM output, which is no LED.
abbrev IsOutput : ℕ → Type 0
IsOutput pin =
    has pin pwm_pins ≡ true
    × has pin (identify_led_pin ∷ led_pin ∷ pwm_pins) ≡ true
    × (identify_led_pin == pin) ≡ false
    × (led_pin == pin) ≡ false

outputs : All IsOutput pwm_pins
outputs = (
  (refl, refl, refl, refl),
  (
    (refl, refl, refl, refl),
    (
      (refl, refl, refl, refl),
      ((refl, refl, refl, refl), ((refl, refl, refl, refl), ((refl, refl, refl, refl), tt))),
    ),
  ),
)

Shows-analog_write :
    (pins : List PinCall) (pin value : ℕ) (identify led : Bool)
    → IsOutput pin
    → value < 256
    → Shows pins identify led
    → Shows (pins ++ analog_write pin value ∷ []) identify led
Shows-analog_write pins pin value identify led out small h =
    Shows-snoc pins (analog_write pin value) identify led identify led h (out.0, small)
      (rw out.2 refl) (rw out.3 refl)

pwm_value-IsByte : (personality i value : ℕ) → value < 256 → pwm_value personality i value < 256
unfolding pwm_value
pwm_value-IsByte personality i value small = elim (Bool-cases (is_inverted personality i)) [
  | inl turned ↦ rw turned (omega arith)
  | inr plain ↦ rw plain small
]

module _ {S : Type 0} where
  -- The device shows its flags.
  abbrev pub ShowsFlags : Device S → Type 0
  ShowsFlags d = Shows d.pins d.m_identify_mode_enabled d.led_state

  set_pwm_from-ShowsFlags :
      (start personality : ℕ) (bytes : Memory) (size : ℕ) (left : List ℕ) (i : ℕ) (d : Device S)
      → All IsOutput left
      → AreBytesAt bytes
      → ShowsFlags d
      → ShowsFlags (set_pwm_from start personality bytes size left i d)
  unfolding set_pwm_from
  set_pwm_from-ShowsFlags start personality bytes size [] i d out small h = h
  set_pwm_from-ShowsFlags start personality bytes size (pin ∷ rest) i d out small h =
      elim (Bool-cases (ltb (u16 (start + i)) size)) [
        | inl more ↦ rw more (
            set_pwm_from-ShowsFlags start personality bytes size rest (i + 1) _ out.1 small (
              Shows-analog_write d.pins pin _ _ _ out.0
                (pwm_value-IsByte personality i _ (small (u16 (start + i)))) h))
        | inr full ↦ rw full h
      ]

  dark_from-ShowsFlags :
      (personality : ℕ) (left : List ℕ) (i : ℕ) (d : Device S)
      → All IsOutput left
      → ShowsFlags d
      → ShowsFlags (dark_from personality left i d)
  unfolding dark_from
  dark_from-ShowsFlags personality [] i d out h = h
  dark_from-ShowsFlags personality (pin ∷ rest) i d out h =
      let dark : (if is_inverted personality i then 255 else 0) < 256 =
        elim (Bool-cases (is_inverted personality i)) [
          | inl turned ↦ rw turned (omega arith)
          | inr plain ↦ rw plain (omega arith)
        ] in
      dark_from-ShowsFlags personality rest (i + 1) _ out.1 (
        Shows-analog_write (d.pins ++ pin_mode_output pin ∷ []) pin _ _ _ out.0 dark
          (Shows-snoc d.pins (pin_mode_output pin) _ _ _ _ h out.0.1 refl refl))

  toggle_led-ShowsFlags : (d : Device S) → ShowsFlags d → ShowsFlags (toggle_led d)
  unfolding toggle_led
  toggle_led-ShowsFlags d h =
      Shows-snoc d.pins (digital_write led_pin (bit (not d.led_state))) _ d.led_state _
        (not d.led_state) h (refl, bit-small (not d.led_state)) refl refl
