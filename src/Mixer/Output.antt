-- ===== src/Mixer/Output.antt =====
-- SetPWM and its call in TakeAction of main.cpp.
use rgbmixer.Base.{
  ℕ, zero, suc, refl, Bool, true, false, ◌+◌, ◌-◌, ◌≤◌, ◌≡◌, ◌∙◌, not, List, [], ◌∷◌, ◌++◌,
  append-nil, append_assoc, ltb, if◌then◌else◌, u16, length, take, take-nil, ltb→lt, eq→==, arith,
  Bool-cases, inl, inr,
}
use rgbmixer.Arduino.{Eeprom, PinCall, analog_write, digital_write}
use rgbmixer.Settings
use rgbmixer.Device.{Device}
use rgbmixer.UsbPro.Labels.{dmx_data_label}
use rgbmixer.Rdm.Sender.{Memory}
use rgbmixer.Rdm.Handlers.Tables.{Board}
use rgbmixer.Mixer.{
  pwm_pins, is_inverted, pwm_value, set_pwm_from, set_pwm, take_action, toggle_led, led_pin,
}

abbrev outputs_of : Bool → Bool → List (ℕ × Bool)
outputs_of first second =
    (3, first) ∷ (5, first) ∷ (6, first) ∷ (9, second) ∷ (10, second) ∷ (11, second) ∷ []

-- The pins of the outputs in their order, each with whether the personality inverts it: 2 inverts the
-- first three, 3 inverts all six. A number over 3 stands for 2, and 0 for 1.
pub outputs : ℕ → List (ℕ × Bool)
outputs zero = outputs_of false false
outputs (suc zero) = outputs_of false false
outputs (suc (suc (suc zero))) = outputs_of true true
outputs personality = outputs_of true false

-- Each pin with its value, from slot `slot` of the data on.
pub pin_values : Memory → ℕ → List (ℕ × Bool) → List PinCall
pin_values bytes slot [] = []
pin_values bytes slot ((pin, inverts) ∷ rest) =
    analog_write pin (if inverts then 255 - bytes slot else bytes slot)
    ∷ pin_values bytes (slot + 1) rest

-- The same as SetPWM computes it, from round `i` on.
computed : ℕ → Memory → ℕ → List ℕ → ℕ → List PinCall
computed personality bytes slot [] i = []
computed personality bytes slot (pin ∷ rest) i =
    analog_write pin (pwm_value personality i (bytes slot))
    ∷ computed personality bytes (slot + 1) rest (i + 1)

computed_lem :
    (personality : ℕ) (bytes : Memory) (slot : ℕ)
    → computed personality bytes slot pwm_pins 0 ≡ pin_values bytes slot (outputs personality)
unfolding computed pin_values outputs pwm_value is_inverted
computed_lem zero bytes slot = refl
computed_lem (suc zero) bytes slot = refl
computed_lem (suc (suc zero)) bytes slot = refl
computed_lem (suc (suc (suc zero))) bytes slot = refl
computed_lem (suc (suc (suc (suc n)))) bytes slot = ground arith

module _ {S : Type 0} where
  set_pwm_from_lem :
      (start personality : ℕ) (bytes : Memory) (size : ℕ) (left : List ℕ) (i : ℕ) (d : Device S)
      → start + i + length left ≤ 65536
      → set_pwm_from start personality bytes size left i d ≡ record d {
        pins = d.pins ++ take (size - (start + i)) (computed personality bytes (start + i) left i);
      }
  unfolding set_pwm_from computed
  set_pwm_from_lem start personality bytes size [] i d fits = rw (take-nil, append-nil)
  set_pwm_from_lem start personality bytes size (pin ∷ rest) i d fits =
      let slot : u16 (start + i) ≡ start + i = omega arith in
      let next : start + i + 1 ≡ start + (i + 1) = omega arith in
      elim (Bool-cases (ltb (start + i) size)) [
        | inl more ↦
            let room : size - (start + i) ≡ suc (size - (start + (i + 1))) =
              omega (arith, ltb→lt (start + i) size more) in
            rw (slot, more, room, next)
              (set_pwm_from_lem start personality bytes size rest (i + 1) _ (omega arith) ∙ (λ j.
                record d {
                  pins =
                      append_assoc d.pins
                        (analog_write pin (pwm_value personality i (bytes (start + i))) ∷ [])
                        (take (size - (start + (i + 1)))
                          (computed personality bytes (start + (i + 1)) rest (i + 1)))
                        j;
                }))
        | inr full ↦
            let none_left : size - (start + i) ≡ 0 = ground (arith, full) in
            rw (slot, full, none_left, append-nil)
      ]

-- A DMX message with the null start code, where the start address is from 1 to 65530, toggles the
-- LED and sets the outputs in the order of their pins, each from its slot behind the start address
-- with the inversion of the personality, as far as `message_size` reaches.
pub take_action-dmx :
    {S : Type 0} ⦃e : Eeprom S⦄ (board : Board) (msg : Memory) (size : ℕ) (d : Device S)
    → msg 0 ≡ 0
    → 1 ≤ Settings.start_address d.settings
    → Settings.start_address d.settings ≤ 65530
    → let start = Settings.start_address d.settings - 1 in
      let led = not d.led_state in
      take_action board dmx_data_label msg size d ≡ record d {
        led_state = led;
        pins =
            (d.pins ++ digital_write led_pin (if led then 1 else 0) ∷ [])
            ++ take
                (size - start)
                (pin_values (λ i. msg (1 + i)) start (outputs (Settings.personality d.settings)));
      }
unfolding take_action toggle_led set_pwm
take_action-dmx board msg size d null low high =
    let start : u16 (Settings.start_address d.settings + 65535)
        ≡ Settings.start_address d.settings - 1 =
      omega arith in
    let at_first : Settings.start_address d.settings - 1 + 0
        ≡ Settings.start_address d.settings - 1 =
      omega arith in
    let written =
      set_pwm_from_lem (Settings.start_address d.settings - 1) (Settings.personality d.settings)
        (λ i. msg (1 + i)) size pwm_pins 0 (toggle_led d) (omega arith) in
    rw (eq→== _ _ null, start) (rw (at_first, computed_lem) at written)
