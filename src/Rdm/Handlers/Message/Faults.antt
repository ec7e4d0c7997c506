-- ===== src/Rdm/Handlers/Message/Faults.antt =====
-- HandleRDMMessage of RDMHandlers.cpp on requests that a responder should not take as it does.
use rgbmixer.Base.{
  ℕ, ◌+◌, ◌*◌, ◌/◌, ◌%◌, ◌<◌, ◌≤◌, ◌≡◌, ◌⊎◌, inl, inr, refl, ◌∙◌, ap, sym, Bool, true, false, not,
  ◌&&◌, ◌++◌, none, ◌==◌, sum, cells, arith, Bool-cases,
}
use rgbmixer.Arduino.{Eeprom}
use rgbmixer.Settings
use rgbmixer.Device.{Device}
use rgbmixer.UsbPro.Frame.{frame_bytes}
use rgbmixer.Rdm.Enums.{set_command, pid_sensor_value, pid_dmx_personality}
use rgbmixer.Rdm.Packet.{Packet}
use rgbmixer.Rdm.Sender.{Memory}
use rgbmixer.Rdm.Reply.{packet_frame}
use rgbmixer.Rdm.Answer.{deliver}
use rgbmixer.Rdm.Handlers.Tables.{Board, set_sensor_value, set_personality}
use rgbmixer.Rdm.Handlers.Set.Answers.{
  no_sensor, set_check, refusal, set_before, set_answer, set_after, set_outcome,
}
use rgbmixer.Rdm.Handlers.Message.{
  is_broadcast, is_malformed, is_get_or_set, sub_device, param_id, handle_rdm_message,
}
use rgbmixer.Rdm.Handlers.Message.Parameters.{parameter}
use rgbmixer.Rdm.Handlers.Message.Rejected.{rejection}
use rgbmixer.Rdm.Handlers.Message.Decide.{
  writes, decide, decide_fields, decide_pid, decide_set, perform, not-rejected,
  handle_rdm_message-perform,
}
use rgbmixer.Rdm.Handlers.Message.Corrupt.{accepted}
use rgbmixer.Rdm.Handlers.Message.Invariant.{deliver-settings, set_after-settings}

-- The decision on a SET for the root device or for all sub devices.
decide-set :
    (msg : Memory)
    → (sub_device msg ≡ 0) ⊎ (sub_device msg ≡ 0xffff)
    → msg 20 ≡ set_command
    → decide msg
      ≡ decide_pid (is_broadcast msg) (sub_device msg) (msg 20) (msg 23) (parameter (param_id msg))
unfolding decide_fields
decide-set msg subs set =
    let inside : (not (sub_device msg == 0) && not (sub_device msg == 0xffff)) ≡ false =
      ground arith in
    rw inside

decide-sensor :
    (msg : Memory)
    → (sub_device msg ≡ 0) ⊎ (sub_device msg ≡ 0xffff)
    → msg 20 ≡ set_command
    → param_id msg ≡ pid_sensor_value
    → decide msg ≡ writes set_sensor_value
unfolding decide_pid decide_set parameter
decide-sensor msg subs set sensor = decide-set msg subs set ∙ rw (sensor, set)

decide-personality :
    (msg : Memory)
    → (sub_device msg ≡ 0) ⊎ (sub_device msg ≡ 0xffff)
    → msg 20 ≡ set_command
    → param_id msg ≡ pid_dmx_personality
    → decide msg ≡ writes set_personality
unfolding decide_pid decide_set parameter
decide-personality msg subs set mode = decide-set msg subs set ∙ rw (mode, set)

known_class : (msg : Memory) → msg 20 ≡ set_command → is_get_or_set msg ≡ true
unfolding is_get_or_set
known_class msg set = rw set

module _ {S : Type 0} ⦃e : Eeprom S⦄ where
  sensor-packet :
      (board : Board) (msg : Memory) (b : Bool) (d : Device S)
      → msg 23 ≡ 1
      → (p : Packet) × ((set_outcome board set_sensor_value b msg
            (set_check set_sensor_value msg)
            d).serial
          ≡ d.serial ++ frame_bytes (packet_frame p))
  unfolding set_check set_outcome set_before set_answer set_after refusal deliver
  sensor-packet board msg b d one = elim (Bool-cases (no_sensor msg)) [
    | inl unknown ↦ rw (one, unknown) (_, refl)
    | inr known ↦ rw (one, known) (_, refl)
  ]

  personality-set :
      (board : Board) (msg : Memory) (b : Bool) (d : Device S)
      → msg 23 ≡ 1
      → 1 ≤ msg 24
      → msg 24 ≤ 3
      → Settings.personality
          (set_outcome board set_personality b msg (set_check set_personality msg) d).settings
        ≡ msg 24
  unfolding set_outcome
  personality-set board msg b d one low high =
      let ok : set_check set_personality msg ≡ none = (unfold set_check in ground arith) in
      rw ok (
        ap Settings.personality (set_after-settings set_personality b _ ∙ deliver-settings msg _ _)
        ∙ (unfold set_before Settings.personality Settings.set_personality in refl))

-- A broadcast SET of SENSOR_VALUE with one byte of data, for the root device or for all sub
-- devices, that passes the checks of the message, is answered by an RDM packet, though no device
-- may answer a broadcast.
pub handle_rdm_message-sensor_broadcast :
    {S : Type 0} ⦃e : Eeprom S⦄ (board : Board) (msg : Memory) (size : ℕ) (d : Device S)
    → rejection msg size d ≡ none
    → is_broadcast msg ≡ true
    → (sub_device msg ≡ 0) ⊎ (sub_device msg ≡ 0xffff)
    → msg 20 ≡ set_command
    → param_id msg ≡ pid_sensor_value
    → msg 23 ≡ 1
    → (p : Packet) × ((handle_rdm_message board msg size d).serial
        ≡ d.serial ++ frame_bytes (packet_frame p))
unfolding perform
handle_rdm_message-sensor_broadcast board msg size d ours all subs set sensor one =
    let (p, put_out) = sensor-packet board msg (is_broadcast msg) d one in
    (
      p,
      rw
          (
            handle_rdm_message-perform board msg size d ours (known_class msg set),
            decide-sensor msg subs set sensor,
          )
          put_out,
    )

-- The high byte of the sum of the 24 bytes before the data.
abbrev pub checksum_high : Memory → ℕ
checksum_high msg = sum (cells msg 0 24) % 65536 / 256

-- A SET of DMX_PERSONALITY of 26 bytes, for the root device or for all sub devices, that passes
-- the checks of the message, has no parameter data. If it says that it has one byte, the high byte
-- of its checksum is taken for the data: if that is 1, 2 or 3, it is the personality from then on.
pub handle_rdm_message-no_data :
    {S : Type 0} ⦃e : Eeprom S⦄ (board : Board) (msg : Memory) (d : Device S)
    → rejection msg 26 d ≡ none
    → (sub_device msg ≡ 0) ⊎ (sub_device msg ≡ 0xffff)
    → msg 20 ≡ set_command
    → param_id msg ≡ pid_dmx_personality
    → msg 23 ≡ 1
    → msg 25 < 256
    → 1 ≤ checksum_high msg
    → checksum_high msg ≤ 3
    → Settings.personality (handle_rdm_message board msg 26 d).settings ≡ checksum_high msg
unfolding perform
handle_rdm_message-no_data board msg d ours subs set mode one byte low high =
    let (formed, right, us) = not-rejected msg 26 d ours in
    let length_byte : msg 2 ≡ 24 = (unfold is_malformed in ground (arith, formed)) in
    let total : sum (cells msg 0 24) % 65536 ≡ msg 24 * 256 + msg 25 =
      (accepted msg 26 right ∙ ap (λ o. msg o * 256 + msg (o + 1)) length_byte) in
    let taken : sum (cells msg 0 24) % 65536 / 256 ≡ msg 24 = omega arith in
    rw
      (
        handle_rdm_message-perform board msg 26 d ours (known_class msg set),
        decide-personality msg subs set mode,
      )
      (personality-set board msg (is_broadcast msg) d one (omega arith) (omega arith) ∙ sym taken)
