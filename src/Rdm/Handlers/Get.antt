-- ===== src/Rdm/Handlers/Get.antt =====
-- The GET handlers of RDMHandlers.cpp.
pub mod Answers
pub mod Laws
pub mod Refines
use rgbmixer.Base.{
  ℕ, zero, suc, ◌+◌, ◌-◌, ◌*◌, ◌/◌, ◌%◌, ◌^◌, Bool, true, false, ◌&&◌, ◌||◌, List, [], ◌∷◌, Option,
  none, some, ltb, ◌==◌, if◌then◌else◌, u8, u16, ◌<<<◌, mem_of, length,
}
use rgbmixer.Arduino.{Eeprom}
use rgbmixer.Settings.{
  Settings, sensor_value, device_label, personality, start_address, device_power_cycles,
}
use rgbmixer.Device.{Device, Cmd, ◌>>◌, ◌>>=◌, skip, setting}
use rgbmixer.Common.{device_name, device_name_size, manufacturer_name, manufacturer_name_size}
use rgbmixer.Rdm.Enums.{
  ack, data_out_of_range, get_command_response, set_command_response, pid_device_label,
  pid_status_messages, status_get_last_message,
}
use rgbmixer.Rdm.Sender.{
  Memory, send_byte_and_checksum, send_int_and_checksum, send_long_and_checksum, start_rdm_response,
  start_rdm_ack_response, start_custom_response, end_rdm_response, send_nack,
  decrement_message_count,
}
use rgbmixer.Rdm.Handlers.Tables.{
  Board, PidDefinition, GetHandler, get_queued_message, get_supported_parameters,
  get_parameter_description, get_device_info, get_product_detail_id, get_device_model_description,
  get_manufacturer_label, get_device_label, get_language, get_software_version, get_personality,
  get_personality_description, get_start_address, get_sensor_definition, get_sensor_value,
  get_device_power_cycles, get_identify_device, pid_definitions, RdmPersonality, personality_entry,
  personality_count, supported_language, software_version_string, set_serial_pid_description,
  temperature_sensor_description, temp_sensor_pin, software_version, max_label_size,
}
use rgbmixer.Rdm.Handlers.Parts.{
  read_temperature_sensor, personality_slots, count_supported, send_array, send_supported,
  label_sent, clear_sent_device_label, send_sensor_response, handle_string_request,
}

module _ {S : Type 0} ⦃e : Eeprom S⦄ where
  unfoldable pub handle_get_queued_message : Memory → Cmd S
  handle_get_queued_message received_message d =
      if d.m_device_label_pending
      then (do
        decrement_message_count
        label_sent
        start_custom_response received_message ack 0 set_command_response pid_device_label
        end_rdm_response)
          d
      else if d.m_sent_device_label && received_message 24 == status_get_last_message
      then (do
        start_custom_response received_message ack 0 set_command_response pid_device_label
        end_rdm_response)
          d
      else (do
        clear_sent_device_label
        start_custom_response received_message ack 0 get_command_response pid_status_messages
        end_rdm_response)
          d

  unfoldable pub handle_get_supported_parameters : Memory → Cmd S
  handle_get_supported_parameters received_message = do
    start_rdm_ack_response received_message (count_supported pid_definitions 0 * 2)
    send_supported pid_definitions
    end_rdm_response

  unfoldable pub handle_get_parameter_description : Memory → Cmd S
  handle_get_parameter_description received_message =
      if u16 (received_message 24 <<< 8 + received_message 25) == 0x8000
      then (do
        start_rdm_ack_response received_message (20 + length set_serial_pid_description)
        send_int_and_checksum 0x8000
        send_byte_and_checksum 4
        send_byte_and_checksum 0x03
        send_byte_and_checksum 0x02
        send_byte_and_checksum 0
        send_byte_and_checksum 0
        send_byte_and_checksum 0
        send_long_and_checksum 0
        send_long_and_checksum 0xfffffffe
        send_long_and_checksum 1
        send_array (mem_of set_serial_pid_description) (length set_serial_pid_description) 0
        end_rdm_response)
      else send_nack received_message data_out_of_range

  unfoldable pub handle_get_device_info : Board → Memory → Cmd S
  handle_get_device_info board received_message = do
    start_rdm_ack_response received_message 19
    send_int_and_checksum 256
    send_int_and_checksum 2
    send_int_and_checksum 0x0508
    send_long_and_checksum software_version
    number ← setting personality
    send_int_and_checksum (personality_slots board number)
    send_byte_and_checksum number
    send_byte_and_checksum personality_count
    address ← setting start_address
    send_int_and_checksum address
    send_int_and_checksum 0
    send_byte_and_checksum 1
    end_rdm_response

  unfoldable pub handle_get_product_detail_id : Memory → Cmd S
  handle_get_product_detail_id received_message = do
    start_rdm_ack_response received_message 2
    send_int_and_checksum 0x0403
    end_rdm_response

  unfoldable pub handle_get_device_model_description : Memory → Cmd S
  handle_get_device_model_description received_message =
      handle_string_request received_message (mem_of device_name) device_name_size

  unfoldable pub handle_get_manufacturer_label : Memory → Cmd S
  handle_get_manufacturer_label received_message =
      handle_string_request received_message (mem_of manufacturer_name) manufacturer_name_size

  unfoldable pub handle_get_device_label : Memory → Cmd S
  handle_get_device_label received_message = do
    label ← setting (λ s. device_label s max_label_size)
    handle_string_request received_message (mem_of label) (length label)

  unfoldable pub handle_get_language : Memory → Cmd S
  handle_get_language received_message =
      handle_string_request received_message (mem_of supported_language) (length supported_language)

  unfoldable pub handle_get_software_version : Memory → Cmd S
  handle_get_software_version received_message = do
    start_rdm_ack_response received_message (length software_version_string)
    send_array (mem_of software_version_string) (length software_version_string) 0
    end_rdm_response

  unfoldable pub handle_get_personality : Memory → Cmd S
  handle_get_personality received_message = do
    start_rdm_ack_response received_message 2
    number ← setting personality
    send_byte_and_checksum number
    send_byte_and_checksum personality_count
    end_rdm_response

  describe_personality : Memory → ℕ → Option RdmPersonality → Cmd S
  describe_personality received_message number none = skip
  describe_personality received_message number (some p) = do
    start_rdm_ack_response received_message (3 + length p.description)
    send_byte_and_checksum number
    send_int_and_checksum p.slots
    send_array (mem_of p.description) (length p.description) 0
    end_rdm_response

  -- The guard leaves only the numbers that are in the table.
  unfoldable pub handle_get_personality_description : Memory → Cmd S
  unfolding describe_personality
  handle_get_personality_description received_message =
      let number = received_message 24 in
      if number == 0 || ltb personality_count number
      then send_nack received_message data_out_of_range
      else describe_personality received_message number (personality_entry number)

  unfoldable pub handle_get_start_address : Memory → Cmd S
  handle_get_start_address received_message = do
    address ← setting start_address
    start_rdm_ack_response received_message 2
    send_int_and_checksum address
    end_rdm_response

  unfoldable pub handle_get_sensor_definition : Memory → Cmd S
  handle_get_sensor_definition received_message =
      if received_message 24 == 0
      then (do
        start_rdm_ack_response received_message (13 + length temperature_sensor_description)
        send_byte_and_checksum (received_message 24)
        send_byte_and_checksum 0x00
        send_byte_and_checksum 1
        send_byte_and_checksum 1
        send_int_and_checksum 0
        send_int_and_checksum 1500
        send_int_and_checksum 100
        send_int_and_checksum 400
        send_byte_and_checksum 1
        send_array (mem_of temperature_sensor_description) (length temperature_sensor_description) 0
        end_rdm_response)
      else send_nack received_message data_out_of_range

  unfoldable pub handle_get_sensor_value : Board → Memory → Cmd S
  handle_get_sensor_value board received_message =
      if received_message 24 == 0
      then send_sensor_response board received_message
      else send_nack received_message data_out_of_range

  unfoldable pub handle_get_device_power_cycles : Memory → Cmd S
  handle_get_device_power_cycles received_message = do
    power_cycles ← setting device_power_cycles
    start_rdm_ack_response received_message 4
    send_long_and_checksum power_cycles
    end_rdm_response

  unfoldable pub handle_get_identify_device : Memory → Cmd S
  handle_get_identify_device received_message = do
    start_rdm_ack_response received_message 1
    enabled ← (λ d. d.m_identify_mode_enabled)
    send_byte_and_checksum (if enabled then 1 else 0)
    end_rdm_response

  -- A call through the pointer of a GET handler.
  unfoldable pub call_get_handler : Board → GetHandler → Memory → Cmd S
  call_get_handler board get_queued_message = handle_get_queued_message
  call_get_handler board get_supported_parameters = handle_get_supported_parameters
  call_get_handler board get_parameter_description = handle_get_parameter_description
  call_get_handler board get_device_info = handle_get_device_info board
  call_get_handler board get_product_detail_id = handle_get_product_detail_id
  call_get_handler board get_device_model_description = handle_get_device_model_description
  call_get_handler board get_manufacturer_label = handle_get_manufacturer_label
  call_get_handler board get_device_label = handle_get_device_label
  call_get_handler board get_language = handle_get_language
  call_get_handler board get_software_version = handle_get_software_version
  call_get_handler board get_personality = handle_get_personality
  call_get_handler board get_personality_description = handle_get_personality_description
  call_get_handler board get_start_address = handle_get_start_address
  call_get_handler board get_sensor_definition = handle_get_sensor_definition
  call_get_handler board get_sensor_value = handle_get_sensor_value board
  call_get_handler board get_device_power_cycles = handle_get_device_power_cycles
  call_get_handler board get_identify_device = handle_get_identify_device
