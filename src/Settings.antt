-- ===== src/Settings.antt =====
-- WidgetSettings.h and WidgetSettings.cpp: the settings kept in EEPROM, the copies of two of them
-- in RAM, and the device label that waits to be written.
pub mod Words
pub mod Label
pub mod Start
pub mod Defaults
pub mod Restart
pub mod Coherent
pub mod Copies
pub mod Fields
pub mod Written
use rgbmixer.Base.{
  ℕ, zero, suc, ◌+◌, ◌*◌, ◌/◌, ◌%◌, ◌^◌, min, Bool, true, false, ◌&&◌, List, [], ◌∷◌, ltb, ◌==◌,
  if◌then◌else◌, u8, u16, u32, ◌<<<◌, ◌>>>◌, c_string, mem_of, length,
}
use rgbmixer.Arduino.{Eeprom}

abbrev pub magic_number : ℕ
magic_number = 0x4f4d

abbrev pub default_serial_number : ℕ
default_serial_number = 1

abbrev pub default_label : List ℕ
default_label = c_string "Default Label"

abbrev pub max_label_length : ℕ
max_label_length = 32

-- The EEPROM layout.
abbrev pub magic_number_offset : ℕ
magic_number_offset = 0

abbrev pub start_address_offset : ℕ
start_address_offset = 2

abbrev pub esta_id_offset : ℕ
esta_id_offset = 4

abbrev pub serial_number_offset : ℕ
serial_number_offset = 6

abbrev pub device_label_size_offset : ℕ
device_label_size_offset = 10

abbrev pub device_label_offset : ℕ
device_label_offset = 12

abbrev pub device_power_cycles_offset : ℕ
device_power_cycles_offset = 44

abbrev pub sensor_0_recorded_value : ℕ
sensor_0_recorded_value = 46

abbrev pub dmx_personality_value : ℕ
dmx_personality_value = 48

pub record Settings (S : Type 0) : Type 0 where
  pub eeprom : S
  pub m_start_address : ℕ
  pub m_personality : ℕ
  pub m_label_buffer : ℕ → ℕ
  pub m_label_pending : Bool
  pub m_label_size : ℕ

-- The constructor; what it does not set, RAM holds.
abbrev pub constructed : {S : Type 0} → Settings S → Settings S
constructed s = record s { m_label_pending = false; m_label_size = 0 }

module _ {S : Type 0} ⦃e : Eeprom S⦄ where
  -- EEPROM.read and EEPROM.write on the settings' store.
  abbrev pub eeprom_read : Settings S → ℕ → ℕ
  eeprom_read s a = e.read s.eeprom a

  abbrev pub eeprom_write : Settings S → ℕ → ℕ → Settings S
  eeprom_write s a v = record s { eeprom = e.write s.eeprom a v }

  unfoldable pub read_int : Settings S → ℕ → ℕ
  read_int s offset = u16 (eeprom_read s offset <<< 8 + eeprom_read s (offset + 1))

  unfoldable pub write_int : Settings S → ℕ → ℕ → Settings S
  write_int s offset value =
      let s = eeprom_write s offset (u8 (value >>> 8)) in eeprom_write s (offset + 1) (u8 value)

  unfoldable pub read_long : Settings S → ℕ → ℕ
  read_long s offset = let l = u32 (read_int s offset <<< 16) in u32 (l + read_int s (offset + 2))

  unfoldable pub write_long : Settings S → ℕ → ℕ → Settings S
  write_long s offset value =
      let s = write_int s offset (u16 (value >>> 16)) in write_int s (offset + 2) (u16 value)

  unfoldable pub start_address : Settings S → ℕ
  start_address s = s.m_start_address

  unfoldable pub set_start_address : Settings S → ℕ → Settings S
  set_start_address s value =
      let s = write_int s start_address_offset value in record s { m_start_address = value }

  unfoldable pub esta_id : Settings S → ℕ
  esta_id s = read_int s esta_id_offset

  unfoldable pub set_esta_id : Settings S → ℕ → Settings S
  set_esta_id s value = write_int s esta_id_offset value

  unfoldable pub serial_number : Settings S → ℕ
  serial_number s = read_long s serial_number_offset

  unfoldable pub set_serial_number : Settings S → ℕ → Settings S
  set_serial_number s value = write_long s serial_number_offset value

  -- The comparison loop of `MatchesEstaId` and `MatchesSerialNumber`: `left` rounds from round `i`.
  unfoldable pub matches_from : Settings S → ℕ → (ℕ → ℕ) → ℕ → ℕ → Bool
  matches_from s offset bytes zero i = true
  matches_from s offset bytes (suc left) i =
      (eeprom_read s (offset + i) == bytes i) && matches_from s offset bytes left (i + 1)

  unfoldable pub matches_esta_id : Settings S → (ℕ → ℕ) → Bool
  unfolding matches_from
  matches_esta_id s bytes = matches_from s esta_id_offset bytes 4 0

  unfoldable pub matches_serial_number : Settings S → (ℕ → ℕ) → Bool
  unfolding matches_from
  matches_serial_number s bytes = matches_from s 6 bytes 4 0

  -- The bytes copied before the first NUL; the source returns their number.
  unfoldable pub copy_label : Settings S → ℕ → ℕ → List ℕ
  copy_label s zero i = []
  copy_label s (suc left) i =
      let b = eeprom_read s (device_label_offset + i) in
      let rest = copy_label s left (i + 1) in if b == 0 then [] else b ∷ rest

  unfoldable pub device_label : Settings S → ℕ → List ℕ
  device_label s size = copy_label s (u8 (min (read_int s device_label_size_offset) size)) 0

  -- `memcpy` replaces the first `size` bytes of the buffer.
  unfoldable pub set_device_label : Settings S → (ℕ → ℕ) → ℕ → Settings S
  set_device_label s new_label size =
      let size = min max_label_length size in
      record s {
        m_label_buffer = λ i. if ltb i size then new_label i else s.m_label_buffer i;
        m_label_size = size;
        m_label_pending = true;
      }

  unfoldable pub device_power_cycles : Settings S → ℕ
  device_power_cycles s = read_long s device_power_cycles_offset

  unfoldable pub set_device_power_cycles : Settings S → ℕ → Settings S
  set_device_power_cycles s count = write_long s device_power_cycles_offset count

  unfoldable pub increment_device_power_cycles : Settings S → Settings S
  increment_device_power_cycles s = set_device_power_cycles s (u32 (device_power_cycles s + 1))

  unfoldable pub sensor_value : Settings S → ℕ
  sensor_value s = read_int s sensor_0_recorded_value

  unfoldable pub save_sensor_value : Settings S → ℕ → Settings S
  save_sensor_value s value = write_int s sensor_0_recorded_value value

  unfoldable pub personality : Settings S → ℕ
  personality s = s.m_personality

  unfoldable pub set_personality : Settings S → ℕ → Settings S
  set_personality s value =
      let s = eeprom_write s dmx_personality_value value in record s { m_personality = value }

  -- The write loop of `PerformWrite`: `left` rounds from round `i`.
  unfoldable pub write_label : Settings S → ℕ → ℕ → Settings S
  write_label s zero i = s
  write_label s (suc left) i =
      write_label (eeprom_write s (device_label_offset + i) (s.m_label_buffer i)) left (i + 1)

  unfoldable pub perform_write : Settings S → Bool × Settings S
  perform_write s =
      let written =
        write_int (write_label s s.m_label_size 0) device_label_size_offset s.m_label_size in
      if s.m_label_pending then (true, record written { m_label_pending = false }) else (false, s)

  -- The first start of a device: every setting gets its default.
  unfoldable pub init_defaults : Settings S → Settings S
  init_defaults s =
      let s = write_int s magic_number_offset magic_number in
      let s = set_start_address s 1 in
      let s = set_esta_id s 0x7a70 in
      let s = set_serial_number s default_serial_number in
      let s = set_device_label s (mem_of default_label) (length default_label) in
      let s = set_device_power_cycles s 0 in let s = save_sensor_value s 0 in set_personality s 1

  -- A later start: the copies in RAM are read from the EEPROM.
  unfoldable pub init_restore : Settings S → Settings S
  init_restore s = record s {
    m_start_address = read_int s start_address_offset;
    m_personality = eeprom_read s dmx_personality_value;
  }

  unfoldable pub init : Settings S → Settings S
  init s =
      increment_device_power_cycles
        (if read_int s magic_number_offset == magic_number then init_restore s else init_defaults s)
