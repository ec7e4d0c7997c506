-- ===== src/Rdm/Handlers/Get/Answers.antt =====
-- What each GET request is answered, as lists of bytes, and how a GET changes the device.
use rgbmixer.Base.{
  ℕ, ◌+◌, ◌-◌, true, false, ◌&&◌, ◌||◌, List, [], ◌∷◌, ◌++◌, Option, none, some, ◌==◌,
  if◌then◌else◌, u16, ◌<<<◌,
}
use rgbmixer.Arduino.{Eeprom}
use rgbmixer.Settings
use rgbmixer.Device.{Device}
use rgbmixer.Common.{device_name, manufacturer_name}
use rgbmixer.Rdm.Enums.{
  ack, data_out_of_range, get_command_response, set_command_response, pid_device_label,
  pid_status_messages,
}
use rgbmixer.Rdm.Packet.{int_bytes, long_bytes}
use rgbmixer.Rdm.Sender.{Memory}
use rgbmixer.Rdm.Answer.{Answer, reply, acks, nacks}
use rgbmixer.Rdm.Handlers.Tables.{
  Board, PidDefinition, GetHandler, get_queued_message, get_supported_parameters,
  get_parameter_description, get_device_info, get_product_detail_id, get_device_model_description,
  get_manufacturer_label, get_device_label, get_language, get_software_version, get_personality,
  get_personality_description, get_start_address, get_sensor_definition, get_sensor_value,
  get_device_power_cycles, get_identify_device, pid_definitions, RdmPersonality, personality_entry,
  supported_language, software_version_string, set_serial_pid_description,
  temperature_sensor_description,
}
use rgbmixer.Rdm.Handlers.Parts.{read_temperature_sensor, personality_slots}

-- The ids of the table's entries that are marked as supported, in the table's order.
abbrev pub supported_bytes : List PidDefinition → List ℕ
supported_bytes [] = []
supported_bytes (p ∷ ps) =
    if p.include_in_supported_params
    then int_bytes p.pid ++ supported_bytes ps
    else supported_bytes ps

abbrev pub describe : Memory → ℕ → Option RdmPersonality → Answer
describe msg number none = nacks msg data_out_of_range
describe msg number (some p) = acks msg (number ∷ (int_bytes p.slots ++ p.description))

module _ {S : Type 0} ⦃e : Eeprom S⦄ where
  abbrev pub sensor_bytes : Board → Memory → Device S → List ℕ
  sensor_bytes board msg d =
      msg 24
      ∷ (int_bytes (read_temperature_sensor board)
          ++ int_bytes 0
          ++ int_bytes 0
          ++ int_bytes (Settings.sensor_value d.settings))

  abbrev pub queued_answer : Memory → Device S → Answer
  queued_answer msg d =
      if d.m_device_label_pending || (d.m_sent_device_label && msg 24 == 1)
      then reply ack set_command_response pid_device_label []
      else reply ack get_command_response pid_status_messages []

  unfoldable pub get_answer : Board → GetHandler → Memory → Device S → Answer
  get_answer board get_queued_message msg d = queued_answer msg d
  get_answer board get_supported_parameters msg d = acks msg (supported_bytes pid_definitions)
  get_answer board get_parameter_description msg d =
      if u16 (msg 24 <<< 8 + msg 25) == 0x8000
      then acks msg (
          int_bytes 0x8000
          ++ (4 ∷ 3 ∷ 2 ∷ 0 ∷ 0 ∷ 0 ∷ [])
          ++ long_bytes 0
          ++ long_bytes 0xfffffffe
          ++ long_bytes 1
          ++ set_serial_pid_description)
      else nacks msg data_out_of_range
  get_answer board get_device_info msg d =
      let number = Settings.personality d.settings in
      acks msg (
        int_bytes 256
        ++ int_bytes 2
        ++ int_bytes 0x0508
        ++ long_bytes 1
        ++ int_bytes (personality_slots board number)
        ++ (number ∷ 3 ∷ [])
        ++ int_bytes (Settings.start_address d.settings)
        ++ int_bytes 0
        ++ (1 ∷ []))
  get_answer board get_product_detail_id msg d = acks msg (int_bytes 0x0403)
  get_answer board get_device_model_description msg d = acks msg device_name
  get_answer board get_manufacturer_label msg d = acks msg manufacturer_name
  get_answer board get_device_label msg d = acks msg (Settings.device_label d.settings 32)
  get_answer board get_language msg d = acks msg supported_language
  get_answer board get_software_version msg d = acks msg software_version_string
  get_answer board get_personality msg d = acks msg (Settings.personality d.settings ∷ 3 ∷ [])
  get_answer board get_personality_description msg d =
      describe msg (msg 24) (personality_entry (msg 24))
  get_answer board get_start_address msg d =
      acks msg (int_bytes (Settings.start_address d.settings))
  get_answer board get_sensor_definition msg d =
      if msg 24 == 0
      then acks msg (
          (msg 24 ∷ 0 ∷ 1 ∷ 1 ∷ [])
          ++ int_bytes 0
          ++ int_bytes 1500
          ++ int_bytes 100
          ++ int_bytes 400
          ++ (1 ∷ temperature_sensor_description))
      else nacks msg data_out_of_range
  get_answer board get_sensor_value msg d =
      if msg 24 == 0 then acks msg (sensor_bytes board msg d) else nacks msg data_out_of_range
  get_answer board get_device_power_cycles msg d =
      acks msg (long_bytes (Settings.device_power_cycles d.settings))
  get_answer board get_identify_device msg d =
      acks msg ((if d.m_identify_mode_enabled then 1 else 0) ∷ [])

  -- Only QUEUED_MESSAGE changes the device: it hands out the pending label message, remembers that
  -- it was sent, and forgets it when something else is asked for.
  unfoldable pub after_get : GetHandler → Memory → Device S → Device S
  after_get get_queued_message msg d =
      if d.m_device_label_pending
      then record d {
        m_message_count = d.m_message_count - 1;
        m_device_label_pending = false;
        m_sent_device_label = true;
      }
      else if d.m_sent_device_label && msg 24 == 1
      then d
      else record d { m_sent_device_label = false }
  after_get handler msg d = d
