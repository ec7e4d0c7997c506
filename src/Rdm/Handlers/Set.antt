-- ===== src/Rdm/Handlers/Set.antt =====
-- The SET handlers of RDMHandlers.cpp.
pub mod Answers
pub mod Refines
use rgbmixer.Base.{
  ℕ, zero, suc, ◌+◌, ◌*◌, ◌/◌, ◌%◌, ◌^◌, Bool, true, false, ◌&&◌, ◌||◌, not, List, [], ◌∷◌, ltb,
  ◌==◌, if◌then◌else◌, u16, u32, int_lt, ◌<<<◌, mem_of, length,
}
use rgbmixer.Arduino.{Eeprom, digital_write}
use rgbmixer.Settings
use rgbmixer.Device.{Device, Cmd, ◌>>◌, change_settings, set_pin}
use rgbmixer.Rdm.Enums.{status_broadcast, NackReason, format_error, data_out_of_range}
use rgbmixer.Rdm.Sender.{
  Memory, return_rdm_error_response, send_empty_ack, send_ack_timer, send_nack, nack_or_broadcast,
  increment_message_count,
}
use rgbmixer.Rdm.Handlers.Tables.{
  Board, SetHandler, set_language, set_device_label, set_personality, set_start_address,
  set_sensor_value, record_sensor, set_device_power_cycles, set_identify_device, set_serial,
  supported_language, max_label_size, max_dmx_address, personality_count, identify_led_pin,
}
use rgbmixer.Rdm.Handlers.Parts.{read_temperature_sensor, send_sensor_response}

-- The loop that reads a long from the parameter data: `left` rounds from round `i`.
unfoldable pub long_from : Memory → ℕ → ℕ → ℕ → ℕ
long_from received_message zero i value = value
long_from received_message (suc left) i value =
    long_from received_message left (i + 1) (u32 (u32 (value <<< 8) + received_message (24 + i)))

-- The loop of HandleSetLanguage: the parameter data is the supported language.
unfoldable pub matches_language : List ℕ → Memory → ℕ → Bool
matches_language [] received_message i = true
matches_language (c ∷ cs) received_message i =
    (c == received_message (24 + i)) && matches_language cs received_message (i + 1)

module _ {S : Type 0} where
  unfoldable pub label_pending : Cmd S
  label_pending d = record d { m_device_label_pending = true }

  unfoldable pub set_identify_mode : Bool → Cmd S
  set_identify_mode enabled d = record d { m_identify_mode_enabled = enabled }

module _ {S : Type 0} ⦃e : Eeprom S⦄ where
  -- The end of most SET handlers.
  unfoldable pub ack_or_broadcast : Bool → Memory → Cmd S
  ack_or_broadcast was_broadcast received_message =
      if was_broadcast
      then return_rdm_error_response status_broadcast
      else send_empty_ack received_message

  unfoldable pub handle_set_language : Bool → ℕ → Memory → Cmd S
  unfolding ack_or_broadcast
  handle_set_language was_broadcast sub_device msg =
      if not (msg 23 == 2)
      then nack_or_broadcast was_broadcast msg format_error
      else if not (matches_language supported_language msg 0)
      then nack_or_broadcast was_broadcast msg data_out_of_range
      else ack_or_broadcast was_broadcast msg

  unfoldable pub handle_set_device_label : Bool → ℕ → Memory → Cmd S
  handle_set_device_label was_broadcast sub_device msg =
      if ltb max_label_size (msg 23) then nack_or_broadcast was_broadcast msg format_error else (do
        change_settings (λ s. Settings.set_device_label s (λ i. msg (24 + i)) (msg 23))
        if was_broadcast
            then return_rdm_error_response status_broadcast
            else (do send_ack_timer msg 4; label_pending; increment_message_count))

  unfoldable pub handle_set_personality : Bool → ℕ → Memory → Cmd S
  unfolding ack_or_broadcast
  handle_set_personality was_broadcast sub_device msg =
      if not (msg 23 == 1)
      then nack_or_broadcast was_broadcast msg format_error
      else if msg 24 == 0 || ltb personality_count (msg 24)
      then nack_or_broadcast was_broadcast msg data_out_of_range
      else (do
        change_settings (λ s. Settings.set_personality s (msg 24))
        ack_or_broadcast was_broadcast msg)

  -- `new_start_address` is a signed int, and so is the comparison with MAX_DMX_ADDRESS.
  unfoldable pub handle_set_start_address : Bool → ℕ → Memory → Cmd S
  unfolding ack_or_broadcast
  handle_set_start_address was_broadcast sub_device msg =
      let new_start_address = u16 (msg 24 <<< 8 + msg 25) in
      if not (msg 23 == 2)
      then nack_or_broadcast was_broadcast msg format_error
      else if new_start_address == 0 || int_lt max_dmx_address new_start_address
      then nack_or_broadcast was_broadcast msg data_out_of_range
      else (do
        change_settings (λ s. Settings.set_start_address s new_start_address)
        ack_or_broadcast was_broadcast msg)

  unfoldable pub handle_set_sensor_value : Board → Bool → ℕ → Memory → Cmd S
  handle_set_sensor_value board was_broadcast sub_device msg =
      if not (msg 23 == 1)
      then nack_or_broadcast was_broadcast msg format_error
      else if not (msg 24 == 0) && not (msg 24 == 0xff)
      then send_nack msg data_out_of_range
      else (do
        change_settings (λ s. Settings.save_sensor_value s 0)
        send_sensor_response board msg)

  unfoldable pub handle_record_sensor : Board → Bool → ℕ → Memory → Cmd S
  unfolding ack_or_broadcast
  handle_record_sensor board was_broadcast sub_device msg =
      if not (msg 23 == 1)
      then nack_or_broadcast was_broadcast msg format_error
      else if not (msg 24 == 0) && not (msg 24 == 0xff)
      then nack_or_broadcast was_broadcast msg data_out_of_range
      else (do
        change_settings (λ s. Settings.save_sensor_value s (read_temperature_sensor board))
        ack_or_broadcast was_broadcast msg)

  unfoldable pub handle_set_device_power_cycles : Bool → ℕ → Memory → Cmd S
  unfolding ack_or_broadcast
  handle_set_device_power_cycles was_broadcast sub_device msg =
      if not (msg 23 == 4) then nack_or_broadcast was_broadcast msg format_error else (do
        change_settings (λ s. Settings.set_device_power_cycles s (long_from msg 4 0 0))
        ack_or_broadcast was_broadcast msg)

  unfoldable pub handle_set_identify_device : Bool → ℕ → Memory → Cmd S
  unfolding ack_or_broadcast
  handle_set_identify_device was_broadcast sub_device msg =
      if not (msg 23 == 1)
      then nack_or_broadcast was_broadcast msg format_error
      else if not (msg 24 == 0) && not (msg 24 == 1)
      then nack_or_broadcast was_broadcast msg data_out_of_range
      else (do
        set_identify_mode (not (msg 24 == 0))
        set_pin (digital_write identify_led_pin (msg 24))
        ack_or_broadcast was_broadcast msg)

  unfoldable pub handle_set_serial : Bool → ℕ → Memory → Cmd S
  unfolding ack_or_broadcast
  handle_set_serial was_broadcast sub_device msg =
      let new_serial_number = long_from msg 4 0 0 in
      if not (msg 23 == 4)
      then nack_or_broadcast was_broadcast msg format_error
      else if new_serial_number == 0xffffffff
      then nack_or_broadcast was_broadcast msg data_out_of_range
      else (do
        change_settings (λ s. Settings.set_serial_number s new_serial_number)
        ack_or_broadcast was_broadcast msg)

  -- A call through the pointer of a SET handler.
  unfoldable pub call_set_handler : Board → SetHandler → Bool → ℕ → Memory → Cmd S
  call_set_handler board set_language = handle_set_language
  call_set_handler board set_device_label = handle_set_device_label
  call_set_handler board set_personality = handle_set_personality
  call_set_handler board set_start_address = handle_set_start_address
  call_set_handler board set_sensor_value = handle_set_sensor_value board
  call_set_handler board record_sensor = handle_record_sensor board
  call_set_handler board set_device_power_cycles = handle_set_device_power_cycles
  call_set_handler board set_identify_device = handle_set_identify_device
  call_set_handler board set_serial = handle_set_serial
