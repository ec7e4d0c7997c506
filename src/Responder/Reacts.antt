-- ===== src/Responder/Reacts.antt =====
-- TakeAction of main.cpp against what the device promises.
use rgbmixer.Base.{
  ℕ, ◌+◌, ◌≡◌, ◌∙◌, refl, sym, false, List, [], ◌∷◌, append-nil, append_assoc, ◌==◌, ltb, u16,
  length, cells, arith, Bool-cases, inl, inr,
}
use rgbmixer.Arduino.{Eeprom}
use rgbmixer.Device.{Device}
use rgbmixer.UsbPro.Frame.{frame_bytes, stream}
use rgbmixer.UsbPro.Labels.{dmx_data_label, rdm_label}
use rgbmixer.UsbPro.Sender.{
  send_message_header, send_message_footer, write, write_bytes, write_message,
}
use rgbmixer.Rdm.Sender.{Memory}
use rgbmixer.Rdm.Handlers.Tables.{Board}
use rgbmixer.Mixer.{
  pwm_pins, set_pwm_from, set_pwm, toggle_led, idle, take_action, send_serial_number_response,
  send_device_response, send_manufacturer_response,
}
use rgbmixer.Rdm.Handlers.Message.{handle_rdm_message}
use rgbmixer.Responder.Service.{settle}
use rgbmixer.Responder.View.{view, IsSound}
use rgbmixer.Responder.Payload.{hear}
use rgbmixer.Responder.Hears.{hear_lem}
use rgbmixer.Responder.Keeps.{Keeps, Quiet, puts_out, quiet_lem}
use rgbmixer.Responder.Settled.{idle_lem}
use rgbmixer.Responder.Actions.{
  Query, parameters, serial_number, maker, name, query_label, Action, silence, says, asks, lights,
  other, is_known_label, payload_of, IsAction, reply_to, react,
}

module _ {S : Type 0} ⦃e : Eeprom S⦄ where
  query_lem :
      (board : Board) (q : Query) (msg : Memory) (size : ℕ) (d : Device S)
      → IsSound d.settings
      → Keeps d (take_action board (query_label q) msg size d) (view d, reply_to q (view d) ∷ [])
  unfolding take_action send_serial_number_response send_device_response send_manufacturer_response
      send_message_header send_message_footer write write_bytes write_message frame_bytes
  query_lem board parameters msg size d sound = puts_out d _ _ refl refl (simp append_assoc) sound
  query_lem board serial_number msg size d sound =
      puts_out d _ _ refl refl (simp append_assoc) sound
  query_lem board maker msg size d sound = puts_out d _ _ refl refl (simp append_assoc) sound
  query_lem board name msg size d sound = puts_out d _ _ refl refl (simp append_assoc) sound

  set_pwm_from-Quiet :
      (start personality : ℕ) (bytes : Memory) (size : ℕ) (left : List ℕ) (i : ℕ) (d : Device S)
      → Quiet d (set_pwm_from start personality bytes size left i d)
  unfolding set_pwm_from
  set_pwm_from-Quiet start personality bytes size [] i d = (refl, refl, refl)
  set_pwm_from-Quiet start personality bytes size (pin ∷ rest) i d =
      elim (Bool-cases (ltb (u16 (start + i)) size)) [
        | inl more ↦ rw more (set_pwm_from-Quiet start personality bytes size rest (i + 1) _)
        | inr full ↦ rw full (refl, refl, refl)
      ]

  lights-Quiet :
      (board : Board) (msg : Memory) (size : ℕ) (d : Device S)
      → Quiet d (take_action board dmx_data_label msg size d)
  unfolding take_action set_pwm toggle_led
  lights-Quiet board msg size d = elim (Bool-cases (msg 0 == 0)) [
    | inl null ↦ rw null (set_pwm_from-Quiet _ _ (λ i. msg (1 + i)) size pwm_pins 0 (toggle_led d))
    | inr slots ↦ rw slots (refl, refl, refl)
  ]

  other-Quiet :
      (board : Board) (label : ℕ) (msg : Memory) (size : ℕ) (d : Device S)
      → is_known_label label ≡ false
      → Quiet d (take_action board label msg size d)
  unfolding take_action
  other-Quiet board label msg size d unknown =
      let no_parameters : (label == 3) ≡ false = ground (arith, unknown) in
      let no_dmx : (label == 6) ≡ false = ground (arith, unknown) in
      let no_serial : (label == 10) ≡ false = ground (arith, unknown) in
      let no_name : (label == 78) ≡ false = ground (arith, unknown) in
      let no_maker : (label == 77) ≡ false = ground (arith, unknown) in
      let no_rdm : (label == 82) ≡ false = ground (arith, unknown) in
      rw (no_parameters, no_dmx, no_serial, no_name, no_maker, no_rdm) (refl, refl, refl)

  silence_lem : (d : Device S) → IsSound d.settings → Keeps d (idle d) (settle (view d), [])
  unfolding stream
  silence_lem d sound =
      let settles = idle_lem d sound in
      record {
        state = settles.state;
        told = settles.told ∙ sym (append-nil d.serial);
        sound = settles.sound;
      }

  says_lem :
      (board : Board) (msg : Memory) (bytes : List ℕ) (d : Device S)
      → Keeps
          (toggle_led d)
          (handle_rdm_message board msg (length bytes) (toggle_led d))
          (hear board bytes (view (toggle_led d)))
      → Keeps d (take_action board rdm_label msg (length bytes) d) (hear board bytes (view d))
  unfolding take_action toggle_led
  says_lem board msg bytes d keeps = record {
    state = keeps.state;
    told = keeps.told;
    sound = keeps.sound;
  }

  -- What the firmware does with the action, with its bytes in the buffer.
  unfoldable pub acted : Action → Memory → Device S → Device S
  acted silence msg = idle
  acted (says board bytes) msg = take_action board rdm_label msg (length bytes)
  acted (asks board query payload) msg = take_action board (query_label query) msg (length payload)
  acted (lights board payload) msg = take_action board dmx_data_label msg (length payload)
  acted (other board label payload) msg = take_action board label msg (length payload)

  -- A call with the bytes of an action.
  pub take_action_lem :
      (a : Action) (msg : Memory) (d : Device S)
      → IsAction a
      → cells msg 0 (length (payload_of a)) ≡ payload_of a
      → IsSound d.settings
      → Keeps d (acted a msg d) (react a (view d))
  unfolding acted react
  take_action_lem silence msg d ok held sound = silence_lem d sound
  take_action_lem (says board bytes) msg d ok held sound =
      says_lem board msg bytes d
        (hear_lem msg bytes ok held board (toggle_led d) (unfold toggle_led in sound))
  take_action_lem (asks board query payload) msg d ok held sound =
      query_lem board query msg (length payload) d sound
  take_action_lem (lights board payload) msg d ok held sound =
      quiet_lem d _ (lights-Quiet board msg (length payload) d) sound
  take_action_lem (other board label payload) msg d ok held sound =
      quiet_lem d _ (other-Quiet board label msg (length payload) d ok.1) sound
