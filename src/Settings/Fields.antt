-- ===== src/Settings/Fields.antt =====
-- The getters and setters of WidgetSettings.h and WidgetSettings.cpp as one store of fields.
use rgbmixer.Base.{
  ℕ, ◌+◌, ◌≤◌, ◌<◌, ◌≡◌, refl, ◌∙◌, Bool, true, false, not, ◌&&◌, ◌||◌, ltb, if◌then◌else◌, arith,
  Bool-cases, inl, inr,
}
use rgbmixer.Arduino.{Eeprom}
use rgbmixer.Settings
use rgbmixer.Settings.{
  Settings, eeprom_read, read_int, write_int, read_long, write_long, start_address_offset,
  esta_id_offset, serial_number_offset, device_power_cycles_offset, sensor_0_recorded_value,
  dmx_personality_value,
}
use rgbmixer.Settings.Words.{
  Apart, read-write_int_ne, read_int-write_int, read_long-write_long, read_long_lem,
  read-write_long_ne,
}

pub data Field : Type 0 where
  address maker serial cycles sensor mode : Field

-- The cells of a field, and the values that they hold.
abbrev pub offset : Field → ℕ
offset address = start_address_offset
offset maker = esta_id_offset
offset serial = serial_number_offset
offset cycles = device_power_cycles_offset
offset sensor = sensor_0_recorded_value
offset mode = dmx_personality_value

abbrev pub width : Field → ℕ
width address = 2
width maker = 2
width serial = 4
width cycles = 4
width sensor = 2
width mode = 1

abbrev pub bound : Field → ℕ
bound address = 65536
bound maker = 65536
bound serial = 4294967296
bound cycles = 4294967296
bound sensor = 65536
bound mode = 256

-- Two fields that share a cell.
abbrev pub meets : Field → Field → Bool
meets f g = ltb (offset f) (offset g + width g) && ltb (offset g) (offset f + width f)

abbrev pub same : Field → Field → Bool
same address address = true
same maker maker = true
same serial serial = true
same cycles cycles = true
same sensor sensor = true
same mode mode = true
same f g = false

same→eq : (f g : Field) → same f g ≡ true → f ≡ g
same→eq address address h = refl
same→eq maker maker h = refl
same→eq serial serial h = refl
same→eq cycles cycles h = refl
same→eq sensor sensor h = refl
same→eq mode mode h = refl
same→eq f g h = absurd (cc)

module _ {S : Type 0} ⦃e : Eeprom S⦄ where
  abbrev pub get_field : Field → Settings S → ℕ
  get_field address = Settings.start_address
  get_field maker = Settings.esta_id
  get_field serial = Settings.serial_number
  get_field cycles = Settings.device_power_cycles
  get_field sensor = Settings.sensor_value
  get_field mode = Settings.personality

  abbrev pub set_field : Field → ℕ → Settings S → Settings S
  set_field address v s = Settings.set_start_address s v
  set_field maker v s = Settings.set_esta_id s v
  set_field serial v s = Settings.set_serial_number s v
  set_field cycles v s = Settings.set_device_power_cycles s v
  set_field sensor v s = Settings.save_sensor_value s v
  set_field mode v s = Settings.set_personality s v

  get_field-same :
      (f : Field) (v : ℕ) (s : Settings S) → v < bound f → get_field f (set_field f v s) ≡ v
  unfolding Settings.start_address Settings.set_start_address Settings.esta_id Settings.set_esta_id
      Settings.serial_number Settings.set_serial_number Settings.device_power_cycles
      Settings.set_device_power_cycles Settings.sensor_value Settings.save_sensor_value
      Settings.personality Settings.set_personality
  get_field-same address v s fits = refl
  get_field-same maker v s fits = read_int-write_int s 4 v (omega arith) ∙ omega arith
  get_field-same serial v s fits = read_long-write_long s 6 v (omega arith) ∙ omega arith
  get_field-same cycles v s fits = read_long-write_long s 44 v (omega arith) ∙ omega arith
  get_field-same sensor v s fits = read_int-write_int s 46 v (omega arith) ∙ omega arith
  get_field-same mode v s fits = refl

  -- A setter changes no cell but those of its field.
  pub set_field-cell :
      (g : Field) (v : ℕ) (s : Settings S) (a : ℕ)
      → a < 1024
      → Apart (offset g) (width g) a 1
      → eeprom_read (set_field g v s) a ≡ eeprom_read s a
  unfolding Settings.set_start_address Settings.set_esta_id Settings.set_serial_number
      Settings.set_device_power_cycles Settings.save_sensor_value Settings.set_personality
  set_field-cell address v s a in_store apart =
      read-write_int_ne s 2 v a (omega arith) in_store apart
  set_field-cell maker v s a in_store apart = read-write_int_ne s 4 v a (omega arith) in_store apart
  set_field-cell serial v s a in_store apart =
      read-write_long_ne s 6 v a (omega arith) in_store apart
  set_field-cell cycles v s a in_store apart =
      read-write_long_ne s 44 v a (omega arith) in_store apart
  set_field-cell sensor v s a in_store apart =
      read-write_int_ne s 46 v a (omega arith) in_store apart
  set_field-cell mode v s a in_store apart =
      e.read-write_ne s.eeprom 48 a v (omega arith) in_store (ground arith)

  -- What is read depends on the cells read.
  pub read_int-cells :
      (s t : Settings S) (o : ℕ)
      → ((a : ℕ) → o ≤ a → a < o + 2 → eeprom_read t a ≡ eeprom_read s a)
      → read_int t o ≡ read_int s o
  unfolding read_int
  read_int-cells s t o agree =
      rw (agree o (omega arith) (omega arith), agree (o + 1) (omega arith) (omega arith))

  pub read_long-cells :
      (s t : Settings S) (o : ℕ)
      → ((a : ℕ) → o ≤ a → a < o + 4 → eeprom_read t a ≡ eeprom_read s a)
      → read_long t o ≡ read_long s o
  read_long-cells s t o agree = rw (
    read_long_lem t o,
    read_long_lem s o,
    read_int-cells s t o (λ a low high. agree a low (omega arith)),
    read_int-cells s t (o + 2) (λ a low high. agree a (omega arith) (omega arith)),
  )

  beside :
      (f g : Field) (v : ℕ) (s : Settings S) (a : ℕ)
      → meets f g ≡ false
      → offset f ≤ a
      → a < offset f + width f
      → a < 1024
      → eeprom_read (set_field g v s) a ≡ eeprom_read s a
  beside f g v s a apart low high in_store = set_field-cell g v s a in_store (ground (arith, apart))

  get_field-other :
      (f g : Field) (v : ℕ) (s : Settings S)
      → same f g ≡ false
      → meets f g ≡ false
      → get_field f (set_field g v s) ≡ get_field f s
  unfolding Settings.start_address Settings.esta_id Settings.serial_number
      Settings.device_power_cycles Settings.sensor_value Settings.personality
      Settings.set_start_address Settings.set_esta_id Settings.set_serial_number
      Settings.set_device_power_cycles Settings.save_sensor_value Settings.set_personality write_int
      write_long
  get_field-other address address v s other apart = absurd (cc)
  get_field-other address g v s other apart = refl
  get_field-other mode mode v s other apart = absurd (cc)
  get_field-other mode g v s other apart = refl
  get_field-other maker g v s other apart =
      read_int-cells s (set_field g v s) 4
        (λ a low high. beside maker g v s a apart low high (omega arith))
  get_field-other serial g v s other apart =
      read_long-cells s (set_field g v s) 6
        (λ a low high. beside serial g v s a apart low high (omega arith))
  get_field-other cycles g v s other apart =
      read_long-cells s (set_field g v s) 44
        (λ a low high. beside cycles g v s a apart low high (omega arith))
  get_field-other sensor g v s other apart =
      read_int-cells s (set_field g v s) 46
        (λ a low high. beside sensor g v s a apart low high (omega arith))

-- For any two of the six numeric settings that are one and the same or share no cell of the EEPROM:
-- after one was set to a value that fits its cells, it reads that value, and the other one reads
-- what it read before.
pub get_field-set_field :
    {S : Type 0} ⦃e : Eeprom S⦄ (f g : Field) (v : ℕ) (s : Settings S)
    → v < bound g
    → (same f g || not (meets f g)) ≡ true
    → get_field f (set_field g v s) ≡ (if same f g then v else get_field f s)
get_field-set_field f g v s fits apart = elim (Bool-cases (same f g)) [
  | inl one ↦ rw (one, same→eq f g one) (get_field-same g v s fits)
  | inr two ↦ rw two (get_field-other f g v s two (ground (arith, apart, two)))
]
