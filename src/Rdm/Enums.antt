-- ===== src/Rdm/Enums.antt =====
-- RDMEnums.h: the codes of the protocol.
use rgbmixer.Base.{ℕ}

pub data StatusCode : Type 0 where
  status_ok status_broadcast status_failed status_failed_checksum : StatusCode
  status_invalid_destination status_invalid_command : StatusCode

abbrev pub status_code : StatusCode → ℕ
status_code status_ok = 0
status_code status_broadcast = 1
status_code status_failed = 2
status_code status_failed_checksum = 3
status_code status_invalid_destination = 4
status_code status_invalid_command = 5

abbrev pub start_code : ℕ
start_code = 0xcc

abbrev pub sub_start_code : ℕ
sub_start_code = 0x01

-- With the checksum.
abbrev pub minimum_rdm_packet_size : ℕ
minimum_rdm_packet_size = 26

abbrev pub get_command : ℕ
get_command = 0x20

abbrev pub get_command_response : ℕ
get_command_response = 0x21

abbrev pub set_command : ℕ
set_command = 0x30

abbrev pub set_command_response : ℕ
set_command_response = 0x31

pub data ResponseType : Type 0 where
  ack ack_timer nack : ResponseType

abbrev pub response_code : ResponseType → ℕ
response_code ack = 0
response_code ack_timer = 1
response_code nack = 2

pub data NackReason : Type 0 where
  unknown_pid format_error unsupported_command_class data_out_of_range : NackReason
  sub_device_out_of_range : NackReason

abbrev pub nack_code : NackReason → ℕ
nack_code unknown_pid = 0x0000
nack_code format_error = 0x0001
nack_code unsupported_command_class = 0x0005
nack_code data_out_of_range = 0x0006
nack_code sub_device_out_of_range = 0x0009

-- rdm_pid, a module of constants.
abbrev pub pid_queued_message : ℕ
pid_queued_message = 0x0020

abbrev pub pid_status_messages : ℕ
pid_status_messages = 0x0030

abbrev pub pid_supported_parameters : ℕ
pid_supported_parameters = 0x0050

abbrev pub pid_parameter_description : ℕ
pid_parameter_description = 0x0051

abbrev pub pid_device_info : ℕ
pid_device_info = 0x0060

abbrev pub pid_product_detail_id_list : ℕ
pid_product_detail_id_list = 0x0070

abbrev pub pid_device_model_description : ℕ
pid_device_model_description = 0x0080

abbrev pub pid_manufacturer_label : ℕ
pid_manufacturer_label = 0x0081

abbrev pub pid_device_label : ℕ
pid_device_label = 0x0082

abbrev pub pid_language_capabilities : ℕ
pid_language_capabilities = 0x00A0

abbrev pub pid_language : ℕ
pid_language = 0x00B0

abbrev pub pid_software_version_label : ℕ
pid_software_version_label = 0x00C0

abbrev pub pid_dmx_personality : ℕ
pid_dmx_personality = 0x00E0

abbrev pub pid_dmx_personality_description : ℕ
pid_dmx_personality_description = 0x00E1

abbrev pub pid_dmx_start_address : ℕ
pid_dmx_start_address = 0x00F0

abbrev pub pid_sensor_definition : ℕ
pid_sensor_definition = 0x0200

abbrev pub pid_sensor_value : ℕ
pid_sensor_value = 0x0201

abbrev pub pid_record_sensors : ℕ
pid_record_sensors = 0x0202

abbrev pub pid_device_power_cycles : ℕ
pid_device_power_cycles = 0x0405

abbrev pub pid_identify_device : ℕ
pid_identify_device = 0x1000

abbrev pub pid_manufacturer_set_serial : ℕ
pid_manufacturer_set_serial = 0x8000

abbrev pub status_get_last_message : ℕ
status_get_last_message = 0x01
