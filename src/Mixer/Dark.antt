-- ===== src/Mixer/Dark.antt =====
-- Start addresses behind the data: SetPWM and TakeAction of main.cpp after SetStartAddress of
-- RDMHandlers.cpp.
use rgbmixer.Base.{ℕ, ◌+◌, ◌≤◌, ◌<◌, ◌≡◌, refl, ◌∙◌, ap, Bool, false, none, ltb, u16, eq→==, arith}
use rgbmixer.Arduino.{Eeprom}
use rgbmixer.Settings
use rgbmixer.Device.{Device}
use rgbmixer.UsbPro.Labels.{dmx_data_label}
use rgbmixer.UsbPro.Receiver.{message_capacity}
use rgbmixer.Rdm.Sender.{Memory}
use rgbmixer.Rdm.Handlers.Tables.{Board, set_start_address}
use rgbmixer.Rdm.Handlers.Set.{call_set_handler}
use rgbmixer.Rdm.Handlers.Set.Answers.{set_check, set_before, set_outcome, request_int}
use rgbmixer.Rdm.Handlers.Set.Refines.{call_set_handler-outcome}
use rgbmixer.Rdm.Handlers.Message.Invariant.{deliver-settings, set_after-settings}
use rgbmixer.Mixer.{set_pwm_from, set_pwm, take_action, toggle_led}

module _ {S : Type 0} ⦃e : Eeprom S⦄ where
  -- The first slot is behind the data, which ends the loop at once.
  take_action-short :
      (board : Board) (data' : Memory) (size : ℕ) (d : Device S)
      → data' 0 ≡ 0
      → size < Settings.start_address d.settings
      → Settings.start_address d.settings < 65536
      → take_action board dmx_data_label data' size d ≡ toggle_led d
  unfolding take_action set_pwm set_pwm_from toggle_led
  take_action-short board data' size d null short word =
      let past : ltb (u16 (u16 (Settings.start_address d.settings + 65535) + 0)) size ≡ false =
        ground arith in
      rw (eq→== _ _ null, past)

  set_start_address-kept :
      (board : Board) (was_broadcast : Bool) (sub_device : ℕ) (msg : Memory) (d : Device S)
      → set_check set_start_address msg ≡ none
      → let set = call_set_handler board set_start_address was_broadcast sub_device msg d in
        Settings.start_address set.settings ≡ request_int msg
  unfolding set_outcome
  set_start_address-kept board was_broadcast sub_device msg d ok =
      let d' = set_before board set_start_address msg d in
      let stored : Settings.start_address d'.settings ≡ request_int msg =
        (unfold set_before Settings.set_start_address Settings.start_address in refl) in
      rw (call_set_handler-outcome board set_start_address was_broadcast sub_device msg d, ok)
        (ap Settings.start_address
            (set_after-settings set_start_address was_broadcast _ ∙ deliver-settings msg _ d')
          ∙ stored)

-- A SET of the start address that the check lets through, with a value from 0x8000 on, is stored,
-- and then a DMX message with the null start code, which the buffer limits to 600 bytes, sets no
-- output: all that it does is to toggle the LED.
pub set_start_address-dark :
    {S : Type 0} ⦃e : Eeprom S⦄ (board : Board) (was_broadcast : Bool) (sub_device : ℕ)
    (msg : Memory) (data' : Memory) (size : ℕ) (d : Device S)
    → set_check set_start_address msg ≡ none
    → 0x8000 ≤ request_int msg
    → data' 0 ≡ 0
    → size ≤ message_capacity
    → let set = call_set_handler board set_start_address was_broadcast sub_device msg d in
      (Settings.start_address set.settings ≡ request_int msg)
      × (take_action board dmx_data_label data' size set ≡ toggle_led set)
set_start_address-dark board was_broadcast sub_device msg data' size d ok high null fits =
    let set = call_set_handler board set_start_address was_broadcast sub_device msg d in
    let kept = set_start_address-kept board was_broadcast sub_device msg d ok in
    (
      kept,
      take_action-short board data' size set null (omega (arith, kept, high, fits))
          (omega (arith, kept)),
    )
