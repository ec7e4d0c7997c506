-- ===== src/Tests.antt =====
-- A board, a store, a device and messages on which the operations are run.
pub mod Lines
pub mod Runs
pub mod Histories
pub mod Requests
pub mod Services
use rgbmixer.Base.{
  ℕ, ◌+◌, ◌*◌, ◌/◌, ◌%◌, ◌^◌, ◌-◌, ◌≤◌, ◌<◌, ◌≡◌, refl, ◌≢◌, Bool, true, false, not, List, [], ◌∷◌,
  ◌++◌, Option, none, some, length, cells, mem_of, ◌==◌, if◌then◌else◌, take, arith, eq→==, ne→==,
  sym, codes, All, map, u8, ◌>>>◌,
}
use rgbmixer.Arduino.{Eeprom, digital_write}
use rgbmixer.Settings
use rgbmixer.Settings.{Settings}
use rgbmixer.Device.{Device}
use rgbmixer.UsbPro.Frame.{Frame, frame_bytes, stream}
use rgbmixer.UsbPro.Receiver
use rgbmixer.Rdm.Packet.{Packet, packet_bytes}
use rgbmixer.Rdm.Enums.{StatusCode, ack}
use rgbmixer.Rdm.Handlers.Tables.{Board}
use rgbmixer.Rdm.Handlers.Message.{handle_rdm_message}

unfoldable pub store_read : (ℕ → ℕ) → ℕ → ℕ
store_read s a = s a % 256

unfoldable pub store_write : (ℕ → ℕ) → ℕ → ℕ → ℕ → ℕ
store_write s a v b = if b == a then v else s b

pub store_read-write :
    (s : ℕ → ℕ) (a v : ℕ) → a < 1024 → v < 256 → store_read (store_write s a v) a ≡ v
unfolding store_read store_write
store_read-write s a v here byte = rw (eq→== a a refl) (omega arith)

pub store_read-write_ne :
    (s : ℕ → ℕ) (a b v : ℕ)
    → a < 1024
    → b < 1024
    → a ≢ b
    → store_read (store_write s a v) b ≡ store_read s b
unfolding store_read store_write
store_read-write_ne s a b v ha hb other = rw (ne→== b a (λ e. other (sym e))) refl

pub store_read-lt : (s : ℕ → ℕ) (a : ℕ) → store_read s a < 256
unfolding store_read
store_read-lt s a = omega arith

-- The EEPROM as a function from addresses.
instance abbrev pub store_eeprom : Eeprom (ℕ → ℕ)
store_eeprom = record {
  read = store_read;
  write = store_write;
  read-lt = store_read-lt;
  read-write = store_read-write;
  read-write_ne = store_read-write_ne;
}

abbrev pub set_up_eeprom : ℕ → ℕ
set_up_eeprom = mem_of (0x4f ∷ 0x4d ∷ 0 ∷ 1 ∷ 0x7a ∷ 0x70 ∷ 0 ∷ 0 ∷ 0 ∷ 1 ∷ [])

abbrev pub settings_on : (ℕ → ℕ) → Settings (ℕ → ℕ)
settings_on store = record {
  eeprom = store;
  m_start_address = 1;
  m_personality = 2;
  m_label_buffer = λ i. 0;
  m_label_pending = false;
  m_label_size = 0;
}

abbrev pub settings : Settings (ℕ → ℕ)
settings = settings_on set_up_eeprom

abbrev pub device : Device (ℕ → ℕ)
device = record {
  settings = settings;
  m_message_count = 0;
  m_current_checksum = 0;
  m_identify_mode_enabled = false;
  m_device_label_pending = false;
  m_sent_device_label = false;
  led_state = false;
  serial = [];
  pins = [];
}

abbrev pub board : Board
board = record { analog_read = λ pin. 51; stray_slots = λ number. 0 }

abbrev pub device_uid : List ℕ
device_uid = 0x7a ∷ 0x70 ∷ 0 ∷ 0 ∷ 0 ∷ 1 ∷ []

abbrev pub everyone : List ℕ
everyone = 0xff ∷ 0xff ∷ 0xff ∷ 0xff ∷ 0xff ∷ 0xff ∷ []

abbrev pub request : List ℕ → ℕ → ℕ → List ℕ → List ℕ
request destination command_class pid param_data = packet_bytes (record {
  destination = destination;
  source = 0x11 ∷ 0x22 ∷ 0 ∷ 0 ∷ 0 ∷ 9 ∷ [];
  transaction = 5;
  response_type = 1;
  message_count = 0;
  sub_device = 0 ∷ 0 ∷ [];
  command_class = command_class;
  pid = pid;
  param_data = param_data;
})

-- GET DEVICE_INFO, SET DMX_PERSONALITY to 3, a broadcast SET of the start address, and a
-- DISCOVERY_COMMAND.
abbrev pub get_info : List ℕ
get_info = request device_uid 0x20 0x60 []

abbrev pub set_mode : List ℕ
set_mode = request device_uid 0x30 0xe0 (3 ∷ [])

abbrev pub set_all : List ℕ
set_all = request everyone 0x30 0xf0 (0 ∷ 7 ∷ [])

abbrev pub discovery : List ℕ
discovery = request device_uid 0x10 2 []

abbrev pub idle_receiver : Receiver.Receiver
unfolding Receiver.start
idle_receiver = Receiver.start (λ i. 0)

abbrev pub counting : Unit {0} → ℕ → (ℕ → ℕ) → ℕ → List ℕ → List ℕ
counting b label message size seen = size ∷ seen
