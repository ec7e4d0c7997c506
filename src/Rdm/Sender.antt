-- ===== src/Rdm/Sender.antt =====
-- RDMSender.h and RDMSender.cpp. A received message is the memory from its first byte on.
use rgbmixer.Base.{ℕ, ◌+◌, ◌-◌, Bool, ◌==◌, if◌then◌else◌, u8, u16, ◌<<<◌, ◌>>>◌}
use rgbmixer.Arduino.{Eeprom}
use rgbmixer.Settings.{esta_id, serial_number}
use rgbmixer.Device.{Cmd, ◌>>◌, ◌>>=◌, setting}
use rgbmixer.UsbPro.Labels.{rdm_label}
use rgbmixer.UsbPro.Sender.{send_message_header, send_message_footer, write}
use rgbmixer.Rdm.Enums.{
  StatusCode, status_ok, status_broadcast, status_code, ResponseType, ack, ack_timer, nack,
  response_code, NackReason, nack_code, start_code, sub_start_code, minimum_rdm_packet_size,
  get_command, get_command_response, set_command_response,
}

abbrev pub Memory : Type 0
Memory = ℕ → ℕ

module _ {S : Type 0} where
  unfoldable pub return_rdm_error_response : StatusCode → Cmd S
  return_rdm_error_response error_code = do
    send_message_header rdm_label 1
    write (status_code error_code)
    send_message_footer

  unfoldable pub add_to_checksum : ℕ → Cmd S
  add_to_checksum b d = record d { m_current_checksum = u16 (d.m_current_checksum + b) }

  unfoldable pub send_byte_and_checksum : ℕ → Cmd S
  unfolding add_to_checksum
  send_byte_and_checksum b = do add_to_checksum b; write b

  unfoldable pub send_int_and_checksum : ℕ → Cmd S
  send_int_and_checksum i = do send_byte_and_checksum (u8 (i >>> 8)); send_byte_and_checksum (u8 i)

  unfoldable pub send_long_and_checksum : ℕ → Cmd S
  send_long_and_checksum l = do
    send_int_and_checksum (u16 (l >>> 16))
    send_int_and_checksum (u16 l)

  unfoldable pub end_rdm_response : Cmd S
  end_rdm_response = do
    (λ d. write (u8 (d.m_current_checksum >>> 8)) d)
    (λ d. write (u8 d.m_current_checksum) d)
    send_message_footer

  unfoldable pub reset_checksum : Cmd S
  reset_checksum d = record d { m_current_checksum = 0 }

  unfoldable pub increment_message_count : Cmd S
  increment_message_count d =
      if d.m_message_count == 255 then d else record d { m_message_count = d.m_message_count + 1 }

  unfoldable pub decrement_message_count : Cmd S
  decrement_message_count d =
      if d.m_message_count == 0 then d else record d { m_message_count = d.m_message_count - 1 }

module _ {S : Type 0} ⦃e : Eeprom S⦄ where
  unfoldable pub start_custom_response : Memory → ResponseType → ℕ → ℕ → ℕ → Cmd S
  unfolding reset_checksum
  start_custom_response received_message response_type param_data_size command_class pid = do
    reset_checksum
    send_message_header rdm_label (u16 (1 + minimum_rdm_packet_size + param_data_size))
    send_byte_and_checksum (status_code status_ok)
    send_byte_and_checksum start_code
    send_byte_and_checksum sub_start_code
    send_byte_and_checksum (u8 (minimum_rdm_packet_size - 2 + param_data_size))
    send_byte_and_checksum (received_message 9)
    send_byte_and_checksum (received_message 10)
    send_byte_and_checksum (received_message 11)
    send_byte_and_checksum (received_message 12)
    send_byte_and_checksum (received_message 13)
    send_byte_and_checksum (received_message 14)
    esta ← setting esta_id
    send_int_and_checksum esta
    serial ← setting serial_number
    send_long_and_checksum serial
    send_byte_and_checksum (received_message 15)
    send_byte_and_checksum (response_code response_type)
    (λ d. send_byte_and_checksum d.m_message_count d)
    send_byte_and_checksum (received_message 18)
    send_byte_and_checksum (received_message 19)
    send_byte_and_checksum command_class
    send_byte_and_checksum (u8 (pid >>> 8))
    send_byte_and_checksum (u8 pid)
    send_byte_and_checksum (u8 param_data_size)

  unfoldable pub start_rdm_response : Memory → ResponseType → ℕ → Cmd S
  start_rdm_response received_message response_type param_data_size =
      start_custom_response received_message response_type param_data_size
        (if received_message 20 == get_command then get_command_response else set_command_response)
        (u16 (received_message 21 <<< 8 + received_message 22))

  unfoldable pub start_rdm_ack_response : Memory → ℕ → Cmd S
  unfolding start_rdm_response
  start_rdm_ack_response received_message param_data_size =
      start_rdm_response received_message ack param_data_size

  unfoldable pub send_empty_ack : Memory → Cmd S
  send_empty_ack received_message = do start_rdm_ack_response received_message 0; end_rdm_response

  unfoldable pub send_ack_timer : Memory → ℕ → Cmd S
  send_ack_timer received_message response_time = do
    start_rdm_response received_message ack_timer 2
    send_int_and_checksum response_time
    end_rdm_response

  unfoldable pub send_nack : Memory → NackReason → Cmd S
  send_nack received_message nack_reason = do
    start_rdm_response received_message nack 2
    send_int_and_checksum (nack_code nack_reason)
    end_rdm_response

  unfoldable pub nack_or_broadcast : Bool → Memory → NackReason → Cmd S
  nack_or_broadcast was_broadcast received_message nack_reason =
      if was_broadcast
      then return_rdm_error_response status_broadcast
      else send_nack received_message nack_reason
