-- ===== src/Responder.antt =====
-- What the RDM responder promises, apart from the EEPROM, the buffers and the bytes by which
-- RDMHandlers.cpp, RDMSender.cpp and WidgetSettings.cpp keep it: a state, and what a message of a
-- host does to it and is answered.
pub mod Service
pub mod View
pub mod Asked
pub mod Enough
pub mod Stored
pub mod Changed
pub mod Served
pub mod Heard
pub mod Settled
pub mod Payload
pub mod Actions
pub mod Keeps
pub mod Parsed
pub mod Hears
pub mod Reacts
pub mod Fresh
pub mod Started
pub mod Heeds
pub mod Run
pub mod Lives
use rgbmixer.Base.{
  ℕ, ◌+◌, ◌-◌, ◌*◌, ◌/◌, ◌%◌, Bool, true, false, not, ◌&&◌, ◌||◌, List, [], ◌∷◌, ◌++◌, Option, none,
  some, ltb, ◌==◌, if◌then◌else◌, length, mem_of,
}
use rgbmixer.Common.{device_name, manufacturer_name}
use rgbmixer.Settings.Written.{up_to_nul}
use rgbmixer.UsbPro.Frame.{Frame}
use rgbmixer.Rdm.Enums.{
  status_broadcast, status_invalid_destination, ResponseType, ack, ack_timer, nack, response_code,
  NackReason, nack_code, format_error, data_out_of_range, get_command, get_command_response,
  set_command_response,
}
use rgbmixer.Rdm.Packet.{Packet, int_bytes, long_bytes}
use rgbmixer.Rdm.Reply.{status_frame, packet_frame}
use rgbmixer.Rdm.Answer.{Answer, status, reply, unless_broadcast}
use rgbmixer.Rdm.Handlers.Parts.{read_temperature_sensor, personality_slots}
use rgbmixer.Rdm.Handlers.Tables.{
  Board, GetHandler, get_queued_message, get_supported_parameters, get_parameter_description,
  get_device_info, get_product_detail_id, get_device_model_description, get_manufacturer_label,
  get_device_label, get_language, get_software_version, get_personality,
  get_personality_description, get_start_address, get_sensor_definition, get_sensor_value,
  get_device_power_cycles, get_identify_device, SetHandler, set_language, set_device_label,
  set_personality, set_start_address, set_sensor_value, record_sensor, set_device_power_cycles,
  set_identify_device, set_serial, pid_definitions, RdmPersonality, personality_entry,
  supported_language, software_version_string, set_serial_pid_description,
  temperature_sensor_description,
}
use rgbmixer.Rdm.Handlers.Get.Answers.{supported_bytes}
use rgbmixer.Rdm.Handlers.Set.Answers.{refuse}
use rgbmixer.Rdm.Handlers.Queue.{Queue, empty, waiting, next, response}
use rgbmixer.Rdm.Handlers.Message.Decide.{Decision, refuses, reads, writes}
use rgbmixer.Rdm.Handlers.Message.Requests.{Request, decide_request}

-- The label that was set and not written yet is `unwritten`. The recorded sensor value is the low
-- half of the power cycles, as the two share their cells.
pub record Responder : Type 0 where
  pub address : ℕ
  pub mode : ℕ
  pub maker : ℕ
  pub serial : ℕ
  pub cycles : ℕ
  pub label : List ℕ
  pub unwritten : Option (List ℕ)
  pub identify : Bool
  pub queue : Queue
  pub counted : ℕ

-- A request and the host that sends it.
pub record Message : Type 0 where
  pub host_esta : ℕ
  pub host_serial : ℕ
  pub transaction : ℕ
  pub request : Request

-- The data of a request as a byte, two bytes, four bytes; the high one comes first.
abbrev pub byte_of : List ℕ → ℕ
byte_of bytes = mem_of bytes 0

abbrev pub int_of : List ℕ → ℕ
int_of bytes = mem_of bytes 0 * 256 + mem_of bytes 1

abbrev pub long_of : List ℕ → ℕ
long_of bytes =
    mem_of bytes 0 * 16777216 + mem_of bytes 1 * 65536 + mem_of bytes 2 * 256 + mem_of bytes 3

abbrev pub is_to_all : Request → Bool
is_to_all q = q.serial == 0xffffffff

abbrev pub is_named : Request → Responder → Bool
is_named q v =
    q.esta == v.maker && (q.serial == v.serial || q.serial == 0xffffffff)
    || (q.esta == 0xffff && q.serial == 0xffffffff)

abbrev pub answers : Request → ResponseType → List ℕ → Answer
answers q rt bytes =
    reply rt (if q.command_class == get_command then get_command_response else set_command_response)
      q.pid bytes

abbrev pub accepts : Request → List ℕ → Answer
accepts q bytes = answers q ack bytes

abbrev pub denies : Request → NackReason → Answer
denies q reason = answers q nack (int_bytes (nack_code reason))

-- The sensor that was asked for, its value, and the recorded one.
abbrev pub sensor_report : Board → Request → Responder → List ℕ
sensor_report board q v =
    byte_of q.param_data
    ∷ (int_bytes (read_temperature_sensor board)
        ++ int_bytes 0
        ++ int_bytes 0
        ++ int_bytes (v.cycles % 65536))

abbrev pub describes : Request → ℕ → Option RdmPersonality → Answer
describes q number none = denies q data_out_of_range
describes q number (some p) = accepts q (number ∷ (int_bytes p.slots ++ p.description))

unfoldable pub asked : Board → GetHandler → Request → Responder → Answer
asked board get_queued_message q v = response v.queue (byte_of q.param_data == 1)
asked board get_supported_parameters q v = accepts q (supported_bytes pid_definitions)
asked board get_parameter_description q v =
    if int_of q.param_data == 0x8000
    then accepts q (
        int_bytes 0x8000
        ++ (4 ∷ 3 ∷ 2 ∷ 0 ∷ 0 ∷ 0 ∷ [])
        ++ long_bytes 0
        ++ long_bytes 0xfffffffe
        ++ long_bytes 1
        ++ set_serial_pid_description)
    else denies q data_out_of_range
asked board get_device_info q v = accepts q (
    int_bytes 256
    ++ int_bytes 2
    ++ int_bytes 0x0508
    ++ long_bytes 1
    ++ int_bytes (personality_slots board v.mode)
    ++ (v.mode ∷ 3 ∷ [])
    ++ int_bytes v.address
    ++ int_bytes 0
    ++ (1 ∷ []))
asked board get_product_detail_id q v = accepts q (int_bytes 0x0403)
asked board get_device_model_description q v = accepts q device_name
asked board get_manufacturer_label q v = accepts q manufacturer_name
asked board get_device_label q v = accepts q v.label
asked board get_language q v = accepts q supported_language
asked board get_software_version q v = accepts q software_version_string
asked board get_personality q v = accepts q (v.mode ∷ 3 ∷ [])
asked board get_personality_description q v =
    describes q (byte_of q.param_data) (personality_entry (byte_of q.param_data))
asked board get_start_address q v = accepts q (int_bytes v.address)
asked board get_sensor_definition q v =
    if byte_of q.param_data == 0
    then accepts q (
        (0 ∷ 0 ∷ 1 ∷ 1 ∷ [])
        ++ int_bytes 0
        ++ int_bytes 1500
        ++ int_bytes 100
        ++ int_bytes 400
        ++ (1 ∷ temperature_sensor_description))
    else denies q data_out_of_range
asked board get_sensor_value q v =
    if byte_of q.param_data == 0
    then accepts q (sensor_report board q v)
    else denies q data_out_of_range
asked board get_device_power_cycles q v = accepts q (long_bytes v.cycles)
asked board get_identify_device q v = accepts q ((if v.identify then 1 else 0) ∷ [])

-- A GET changes the queue alone, by handing out its message.
unfoldable pub asked_after : GetHandler → Request → Responder → Responder
asked_after get_queued_message q v = record v {
  queue = next v.queue (byte_of q.param_data == 1);
  counted = elim v.queue [ waiting ↦ v.counted - 1 | _ ↦ v.counted ];
}
asked_after h q v = v

-- Why a SET is refused, first for its size.
unfoldable pub check : SetHandler → List ℕ → Option NackReason
check set_language bytes =
    refuse (not (length bytes == 2)) (not (mem_of bytes 0 == b'e' && mem_of bytes 1 == b'n'))
check set_device_label bytes = refuse (ltb 32 (length bytes)) false
check set_personality bytes =
    refuse (not (length bytes == 1)) (byte_of bytes == 0 || ltb 3 (byte_of bytes))
check set_start_address bytes =
    refuse (not (length bytes == 2))
      (int_of bytes == 0 || (ltb 512 (int_of bytes) && ltb (int_of bytes) 0x8000))
check set_device_power_cycles bytes = refuse (not (length bytes == 4)) false
check set_identify_device bytes = refuse (not (length bytes == 1)) (ltb 1 (byte_of bytes))
check set_serial bytes = refuse (not (length bytes == 4)) (long_of bytes == 0xffffffff)
-- The one sensor, or all of them.
check sensor bytes =
    refuse (not (length bytes == 1)) (not (byte_of bytes == 0) && not (byte_of bytes == 0xff))

-- What it changes.
unfoldable pub change : Board → SetHandler → List ℕ → Responder → Responder
change board set_language bytes v = v
change board set_device_label bytes v = record v { unwritten = some bytes }
change board set_personality bytes v = record v { mode = byte_of bytes }
change board set_start_address bytes v = record v { address = int_of bytes }
change board set_sensor_value bytes v = record v { cycles = v.cycles / 65536 * 65536 }
change board record_sensor bytes v = record v {
  cycles = v.cycles / 65536 * 65536 + read_temperature_sensor board % 65536;
}
change board set_device_power_cycles bytes v = record v { cycles = long_of bytes }
change board set_identify_device bytes v = record v { identify = not (byte_of bytes == 0) }
change board set_serial bytes v = record v { serial = long_of bytes }

-- How it is confirmed. SENSOR_VALUE confirms a broadcast too.
unfoldable pub confirm : Board → SetHandler → Request → Responder → Answer
confirm board set_device_label q v =
    unless_broadcast (is_to_all q) (answers q ack_timer (int_bytes 4))
confirm board set_sensor_value q v = accepts q (sensor_report board q v)
confirm board h q v = unless_broadcast (is_to_all q) (accepts q [])

-- SENSOR_VALUE denies an unknown sensor to a broadcast too.
unfoldable pub deny : SetHandler → Request → NackReason → Answer
deny set_sensor_value q data_out_of_range = denies q data_out_of_range
deny h q reason = unless_broadcast (is_to_all q) (denies q reason)

-- A label that one host set leaves a message.
unfoldable pub remember : SetHandler → Bool → Responder → Responder
remember set_device_label false v = record v {
  queue = waiting;
  counted = if v.counted == 255 then 255 else v.counted + 1;
}
remember h to_all v = v
