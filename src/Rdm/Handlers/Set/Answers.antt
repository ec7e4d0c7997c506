-- ===== src/Rdm/Handlers/Set/Answers.antt =====
-- What each SET request is checked for, what it changes, and what it is answered.
use rgbmixer.Base.{
  ℕ, ◌+◌, ◌*◌, Bool, true, false, not, ◌&&◌, ◌||◌, [], Option, none, some, ltb, ◌==◌, if◌then◌else◌,
  u16, u32,
}
use rgbmixer.Arduino.{Eeprom, digital_write}
use rgbmixer.Settings
use rgbmixer.Device.{Device, change_settings, set_pin}
use rgbmixer.Rdm.Enums.{ack_timer, NackReason, format_error, data_out_of_range}
use rgbmixer.Rdm.Packet.{int_bytes}
use rgbmixer.Rdm.Sender.{Memory}
use rgbmixer.Rdm.Answer.{Answer, answer, acks, nacks, unless_broadcast, deliver}
use rgbmixer.Rdm.Handlers.Tables.{
  Board, SetHandler, set_language, set_device_label, set_personality, set_start_address,
  set_sensor_value, record_sensor, set_device_power_cycles, set_identify_device, set_serial,
}
use rgbmixer.Rdm.Handlers.Parts.{read_temperature_sensor}
use rgbmixer.Rdm.Handlers.Get.Answers.{sensor_bytes}

-- The parameter data as a big-endian int or long.
abbrev pub request_int : Memory → ℕ
request_int msg = u16 (msg 24 * 256 + msg 25)

abbrev pub request_long : Memory → ℕ
request_long msg = u32 (msg 24 * 16777216 + msg 25 * 65536 + msg 26 * 256 + msg 27)

-- A wrong data length first, then a value out of range.
abbrev pub refuse : Bool → Bool → Option NackReason
refuse wrong_size out_of_range =
    if wrong_size then some format_error else if out_of_range then some data_out_of_range else none

-- Neither the one sensor nor all of them.
abbrev pub no_sensor : Memory → Bool
no_sensor msg = not (msg 24 == 0) && not (msg 24 == 0xff)

unfoldable pub set_check : SetHandler → Memory → Option NackReason
set_check set_language msg = refuse (not (msg 23 == 2)) (not (b'e' == msg 24 && b'n' == msg 25))
set_check set_device_label msg = refuse (ltb 32 (msg 23)) false
set_check set_personality msg = refuse (not (msg 23 == 1)) (msg 24 == 0 || ltb 3 (msg 24))
set_check set_start_address msg =
    refuse (not (msg 23 == 2))
      (request_int msg == 0 || (ltb 512 (request_int msg) && ltb (request_int msg) 0x8000))
set_check set_sensor_value msg = refuse (not (msg 23 == 1)) (no_sensor msg)
set_check record_sensor msg = refuse (not (msg 23 == 1)) (no_sensor msg)
set_check set_device_power_cycles msg = refuse (not (msg 23 == 4)) false
set_check set_identify_device msg =
    refuse (not (msg 23 == 1)) (not (msg 24 == 0) && not (msg 24 == 1))
set_check set_serial msg = refuse (not (msg 23 == 4)) (request_long msg == 0xffffffff)

-- A refusal of a broadcast is a status, but SENSOR_VALUE refuses a sensor by a packet always.
unfoldable pub refusal : SetHandler → Bool → Memory → NackReason → Answer
refusal set_sensor_value was_broadcast msg data_out_of_range = nacks msg data_out_of_range
refusal h was_broadcast msg reason = unless_broadcast was_broadcast (nacks msg reason)

module _ {S : Type 0} ⦃e : Eeprom S⦄ where
  -- The change before the answer is sent.
  unfoldable pub set_before : Board → SetHandler → Memory → Device S → Device S
  set_before board set_language msg d = d
  set_before board set_device_label msg d =
      change_settings (λ s. Settings.set_device_label s (λ i. msg (24 + i)) (msg 23)) d
  set_before board set_personality msg d =
      change_settings (λ s. Settings.set_personality s (msg 24)) d
  set_before board set_start_address msg d =
      change_settings (λ s. Settings.set_start_address s (request_int msg)) d
  set_before board set_sensor_value msg d = change_settings (λ s. Settings.save_sensor_value s 0) d
  set_before board record_sensor msg d =
      change_settings (λ s. Settings.save_sensor_value s (read_temperature_sensor board)) d
  set_before board set_device_power_cycles msg d =
      change_settings (λ s. Settings.set_device_power_cycles s (request_long msg)) d
  set_before board set_identify_device msg d =
      set_pin (digital_write 12 (msg 24)) (record d { m_identify_mode_enabled = not (msg 24 == 0) })
  set_before board set_serial msg d =
      change_settings (λ s. Settings.set_serial_number s (request_long msg)) d

  -- The answer, by the device as it is then. SENSOR_VALUE answers a broadcast too.
  unfoldable pub set_answer : Board → SetHandler → Bool → Memory → Device S → Answer
  set_answer board set_device_label was_broadcast msg d =
      unless_broadcast was_broadcast (answer msg ack_timer (int_bytes 4))
  set_answer board set_sensor_value was_broadcast msg d = acks msg (sensor_bytes board msg d)
  set_answer board h was_broadcast msg d = unless_broadcast was_broadcast (acks msg [])

  -- A label leaves a message in the queue.
  unfoldable pub set_after : SetHandler → Bool → Device S → Device S
  set_after set_device_label false d = record d {
    m_device_label_pending = true;
    m_message_count = if d.m_message_count == 255 then 255 else d.m_message_count + 1;
  }
  set_after h was_broadcast d = d

  unfoldable pub set_outcome :
      Board → SetHandler → Bool → Memory → Option NackReason → Device S → Device S
  set_outcome board h was_broadcast msg (some reason) d =
      deliver msg (refusal h was_broadcast msg reason) d
  set_outcome board h was_broadcast msg none d =
      let d' = set_before board h msg d in
      set_after h was_broadcast (deliver msg (set_answer board h was_broadcast msg d') d')
