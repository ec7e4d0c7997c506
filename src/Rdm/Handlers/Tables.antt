-- ===== src/Rdm/Handlers/Tables.antt =====
-- The constants and the tables of RDMHandlers.cpp. A pointer to a member function is a constructor
-- that names the function.
use rgbmixer.Base.{
  ℕ, Bool, true, false, List, [], ◌∷◌, Option, none, some, ◌-◌, get_elem?, ◌==◌, if◌then◌else◌,
  codes, c_string,
}
use rgbmixer.Rdm.Enums.{
  pid_queued_message, pid_supported_parameters, pid_parameter_description, pid_device_info,
  pid_product_detail_id_list, pid_device_model_description, pid_manufacturer_label,
  pid_device_label, pid_language_capabilities, pid_language, pid_software_version_label,
  pid_dmx_personality, pid_dmx_personality_description, pid_dmx_start_address,
  pid_sensor_definition, pid_sensor_value, pid_record_sensors, pid_device_power_cycles,
  pid_identify_device, pid_manufacturer_set_serial,
}

-- What the handlers take from the board: the analog inputs at the time of the message, and the
-- byte that stands where the table of personalities would have its entry for a number out of range.
pub record Board : Type 0 where
  pub analog_read : ℕ → ℕ
  pub stray_slots : ℕ → ℕ

-- The member functions that a parameter's definition may point to.
pub data GetHandler : Type 0 where
  get_queued_message get_supported_parameters get_parameter_description : GetHandler
  get_device_info get_product_detail_id get_device_model_description : GetHandler
  get_manufacturer_label get_device_label get_language get_software_version : GetHandler
  get_personality get_personality_description get_start_address : GetHandler
  get_sensor_definition get_sensor_value get_device_power_cycles : GetHandler
  get_identify_device : GetHandler

pub data SetHandler : Type 0 where
  set_language set_device_label set_personality set_start_address : SetHandler
  set_sensor_value record_sensor set_device_power_cycles set_identify_device : SetHandler
  set_serial : SetHandler

pub record PidDefinition : Type 0 where
  pub pid : ℕ
  pub get_handler : Option GetHandler
  pub set_handler : Option SetHandler
  pub get_argument_size : ℕ
  pub include_in_supported_params : Bool

abbrev definition : ℕ → Option GetHandler → Option SetHandler → ℕ → Bool → PidDefinition
definition pid get set size listed = record {
  pid = pid;
  get_handler = get;
  set_handler = set;
  get_argument_size = size;
  include_in_supported_params = listed;
}

unfoldable pub pid_definitions : List PidDefinition
pid_definitions =
    definition pid_queued_message (some get_queued_message) none 1 true
    ∷ definition pid_supported_parameters (some get_supported_parameters) none 0 false
    ∷ definition pid_parameter_description (some get_parameter_description) none 2 false
    ∷ definition pid_device_info (some get_device_info) none 0 false
    ∷ definition pid_product_detail_id_list (some get_product_detail_id) none 0 true
    ∷ definition pid_device_model_description (some get_device_model_description) none 0 true
    ∷ definition pid_manufacturer_label (some get_manufacturer_label) none 0 true
    ∷ definition pid_device_label (some get_device_label) (some set_device_label) 0 true
    ∷ definition pid_language_capabilities (some get_language) none 0 true
    ∷ definition pid_language (some get_language) (some set_language) 0 true
    ∷ definition pid_software_version_label (some get_software_version) none 0 false
    ∷ definition pid_dmx_personality (some get_personality) (some set_personality) 0 true
    ∷ definition pid_dmx_personality_description (some get_personality_description) none 1 true
    ∷ definition pid_dmx_start_address (some get_start_address) (some set_start_address) 0 false
    ∷ definition pid_sensor_definition (some get_sensor_definition) none 1 true
    ∷ definition pid_sensor_value (some get_sensor_value) (some set_sensor_value) 1 true
    ∷ definition pid_record_sensors none (some record_sensor) 0 true
    ∷ definition pid_device_power_cycles (some get_device_power_cycles)
        (some set_device_power_cycles) 0 true
    ∷ definition pid_identify_device (some get_identify_device) (some set_identify_device) 0 false
    ∷ definition pid_manufacturer_set_serial none (some set_serial) 4 true
    ∷ []

pub record RdmPersonality : Type 0 where
  pub personality_number : ℕ
  pub slots : ℕ
  pub description : List ℕ

-- The descriptions are literals: their lengths, by `strlen`, leave the NUL out.
unfoldable pub rdm_personalities : List RdmPersonality
rdm_personalities =
    record { personality_number = 1; slots = 6; description = codes "6x PWM" }
    ∷ record { personality_number = 2; slots = 6; description = codes "3x inverted PWM, 3x PWM" }
    ∷ record { personality_number = 3; slots = 6; description = codes "6x inverted PWM" }
    ∷ []

abbrev pub personality_count : ℕ
personality_count = 3

-- `rdm_personalities[number - 1]`, if it lies in the table.
unfoldable pub personality_entry : ℕ → Option RdmPersonality
unfolding rdm_personalities
personality_entry number = if number == 0 then none else get_elem? rdm_personalities (number - 1)

abbrev pub supported_language : List ℕ
supported_language = codes "en"

-- Sent with its NUL.
abbrev pub software_version_string : List ℕ
software_version_string = c_string "1.0"

abbrev pub set_serial_pid_description : List ℕ
set_serial_pid_description = codes "Set Serial Number"

abbrev pub temperature_sensor_description : List ℕ
temperature_sensor_description = codes "Case Temperature"

abbrev pub identify_led_pin : ℕ
identify_led_pin = 12

abbrev pub temp_sensor_pin : ℕ
temp_sensor_pin = 0

abbrev pub software_version : ℕ
software_version = 1

abbrev pub max_dmx_address : ℕ
max_dmx_address = 512

abbrev pub max_label_size : ℕ
max_label_size = 32
