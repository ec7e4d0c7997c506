-- ===== src/Rdm/Handlers/Message/Parameters.antt =====
-- The parameters of the device, apart from PID_DEFINITIONS of RDMHandlers.cpp and the loop over it.
use rgbmixer.Base.{ℕ, ◌≡◌, Bool, true, false, Option, none, some, ◌==◌, if◌then◌else◌}
use rgbmixer.Rdm.Handlers.Tables.{
  PidDefinition, GetHandler, get_queued_message, get_supported_parameters,
  get_parameter_description, get_device_info, get_product_detail_id, get_device_model_description,
  get_manufacturer_label, get_device_label, get_language, get_software_version, get_personality,
  get_personality_description, get_start_address, get_sensor_definition, get_sensor_value,
  get_device_power_cycles, get_identify_device, SetHandler, set_language, set_device_label,
  set_personality, set_start_address, set_sensor_value, record_sensor, set_device_power_cycles,
  set_identify_device, set_serial, pid_definitions,
}
use rgbmixer.Rdm.Handlers.Message.{find_pid}
use rgbmixer.Rdm.Handlers.Message.Lookup.{find_pid-first}

-- A parameter that a GET asks for, with the bytes that it carries; one that a SET sets; one of both.
abbrev asks : ℕ → GetHandler → ℕ → Bool → PidDefinition
asks pid h size listed = record {
  pid = pid;
  get_handler = some h;
  set_handler = none;
  get_argument_size = size;
  include_in_supported_params = listed;
}

abbrev sets : ℕ → SetHandler → ℕ → PidDefinition
sets pid h size = record {
  pid = pid;
  get_handler = none;
  set_handler = some h;
  get_argument_size = size;
  include_in_supported_params = true;
}

abbrev both : ℕ → GetHandler → SetHandler → ℕ → Bool → PidDefinition
both pid g h size listed = record {
  pid = pid;
  get_handler = some g;
  set_handler = some h;
  get_argument_size = size;
  include_in_supported_params = listed;
}

-- The number of a parameter, and what serves it.
unfoldable pub parameter : ℕ → Option PidDefinition
parameter pid =
    if 0x0020 == pid
    then some (asks 0x0020 get_queued_message 1 true)
    else if 0x0050 == pid
    then some (asks 0x0050 get_supported_parameters 0 false)
    else if 0x0051 == pid
    then some (asks 0x0051 get_parameter_description 2 false)
    else if 0x0060 == pid
    then some (asks 0x0060 get_device_info 0 false)
    else if 0x0070 == pid
    then some (asks 0x0070 get_product_detail_id 0 true)
    else if 0x0080 == pid
    then some (asks 0x0080 get_device_model_description 0 true)
    else if 0x0081 == pid
    then some (asks 0x0081 get_manufacturer_label 0 true)
    else if 0x0082 == pid
    then some (both 0x0082 get_device_label set_device_label 0 true)
    else if 0x00a0 == pid
    then some (asks 0x00a0 get_language 0 true)
    else if 0x00b0 == pid
    then some (both 0x00b0 get_language set_language 0 true)
    else if 0x00c0 == pid
    then some (asks 0x00c0 get_software_version 0 false)
    else if 0x00e0 == pid
    then some (both 0x00e0 get_personality set_personality 0 true)
    else if 0x00e1 == pid
    then some (asks 0x00e1 get_personality_description 1 true)
    else if 0x00f0 == pid
    then some (both 0x00f0 get_start_address set_start_address 0 false)
    else if 0x0200 == pid
    then some (asks 0x0200 get_sensor_definition 1 true)
    else if 0x0201 == pid
    then some (both 0x0201 get_sensor_value set_sensor_value 1 true)
    else if 0x0202 == pid
    then some (sets 0x0202 record_sensor 0)
    else if 0x0405 == pid
    then some (both 0x0405 get_device_power_cycles set_device_power_cycles 0 true)
    else if 0x1000 == pid
    then some (both 0x1000 get_identify_device set_identify_device 0 false)
    else if 0x8000 == pid
    then some (sets 0x8000 set_serial 4)
    else none

-- The loop over the table finds them, and no others.
pub parameter_lem : (pid : ℕ) → find_pid pid pid_definitions none ≡ parameter pid
unfolding parameter pid_definitions
parameter_lem pid = find_pid-first pid
