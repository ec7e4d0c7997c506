-- ===== src/Mixer/Invariant.antt =====
-- A rule for the invariants of the settings over the run of main of main.cpp.
use rgbmixer.Base.{
  none, ℕ, Bool, true, false, ◌+◌, ◌≡◌, refl, sym, subst, List, [], ◌∷◌, some, u16, ltb, ◌==◌,
  if◌then◌else◌, Bool-cases, inl, inr,
}
use rgbmixer.Arduino.{Eeprom}
use rgbmixer.Settings
use rgbmixer.Settings.{Settings, read_int, write_int, magic_number, magic_number_offset}
use rgbmixer.Device.{Device, ◌>>◌, skip}
use rgbmixer.UsbPro.Sender.{
  send_message_header, send_message_footer, write, write_bytes, write_message,
}
use rgbmixer.UsbPro.Receiver
use rgbmixer.UsbPro.Receiver.Induction.{read_inv}
use rgbmixer.Rdm.Sender.{Memory}
use rgbmixer.Rdm.Handlers.Tables.{Board, SetHandler}
use rgbmixer.Rdm.Handlers.Set.Answers.{set_check, set_before}
use rgbmixer.Rdm.Handlers.Message.Invariant.{handle_rdm_message-keeps}
use rgbmixer.Mixer.Actions.{take_action_cases}
use rgbmixer.Mixer.{
  pwm_pins, set_pwm_from, set_pwm, dark_from, toggle_led, queue_set_device_label, idle, take_action,
  power_on, set_up, main, send_serial_number_response, send_device_response,
  send_manufacturer_response,
}

module _ {S : Type 0} where
  set_pwm_from-settings :
      (start personality : ℕ) (bytes : Memory) (size : ℕ) (left : List ℕ) (i : ℕ) (d : Device S)
      → (set_pwm_from start personality bytes size left i d).settings ≡ d.settings
  unfolding set_pwm_from
  set_pwm_from-settings start personality bytes size [] i d = refl
  set_pwm_from-settings start personality bytes size (pin ∷ rest) i d =
      elim (Bool-cases (ltb (u16 (start + i)) size)) [
        | inl more ↦ rw more (set_pwm_from-settings start personality bytes size rest (i + 1) _)
        | inr full ↦ rw full
      ]

  dark_from-settings :
      (personality : ℕ) (left : List ℕ) (i : ℕ) (d : Device S)
      → (dark_from personality left i d).settings ≡ d.settings
  unfolding dark_from
  dark_from-settings personality [] i d = refl
  dark_from-settings personality (pin ∷ rest) i d = dark_from-settings personality rest (i + 1) _

module _ {S : Type 0} ⦃e : Eeprom S⦄ where
  queued-settings :
      (written : Bool) (d : Device S)
      → (if written then queue_set_device_label d else d).settings ≡ d.settings
  unfolding queue_set_device_label
  queued-settings true d = refl
  queued-settings false d = refl

  dmx-settings :
      (msg : Memory) (size : ℕ) (d : Device S)
      → ((if msg 0 == 0 then (toggle_led >> set_pwm (λ i. msg (1 + i)) size) else skip) d).settings
        ≡ d.settings
  unfolding set_pwm toggle_led
  dmx-settings msg size d = elim (Bool-cases (msg 0 == 0)) [
    | inl dmx ↦ rw dmx (set_pwm_from-settings _ _ _ _ pwm_pins 0 (toggle_led d))
    | inr other ↦ rw other
  ]

-- A property of the settings that the accepted SETs and the write of the label keep, holds as long
-- as the firmware runs, if it holds after Init.
module _ {ℓ} {S : Type 0} ⦃e : Eeprom S⦄ (P : Settings S → Type ℓ)
    (on_set : (board : Board) (h : SetHandler) (msg : Memory) (d : Device S)
      → set_check h msg ≡ none
      → P d.settings
      → P (set_before board h msg d).settings)
    (on_write : (s : Settings S) → P s → P (Settings.perform_write s).1) where
  take_action-keeps :
      (board : Board) (label : ℕ) (msg : Memory) (size : ℕ) (d : Device S)
      → P d.settings
      → P (take_action board label msg size d).settings
  unfolding toggle_led send_serial_number_response send_device_response send_manufacturer_response
      send_message_header send_message_footer write write_bytes write_message
  take_action-keeps board label msg size d =
      take_action_cases board label msg size d (λ d'. P d.settings → P d'.settings) (λ held. held)
        (λ held. subst P (sym (dmx-settings msg size d)) held) (λ held. held) (λ held. held)
        (λ held. held) (handle_rdm_message-keeps P on_set board msg size (toggle_led d))
        (λ held. held)

  idle-keeps : (d : Device S) → P d.settings → P (idle d).settings
  unfolding idle
  idle-keeps d h =
      let (written, s) = Settings.perform_write d.settings in
      subst P (sym (queued-settings written (record d { settings = s }))) (on_write d.settings h)

  pub main-keeps :
      (s : Settings S) (stack : ℕ → ℕ) (events : List (Receiver.Event Board))
      (r : Receiver.Receiver) (d : Device S)
      → P (Settings.init (power_on s).settings)
      → main s stack events ≡ some (r, d)
      → P d.settings
  unfolding main set_up
  main-keeps s stack events r d first run =
      read_inv take_action idle (λ d d'. P d.settings → P d'.settings) (λ d held. held)
        (λ d d' d'' h k held. k (h held)) (λ b l m n d. take_action-keeps b l m n d) idle-keeps
        events (Receiver.start stack) (set_up (power_on s)) r d run
        (subst P (sym (dark_from-settings _ pwm_pins 0 _)) first)
