-- ===== src/Responder/Stored.antt =====
-- What the setters of WidgetSettings.cpp do to the state of the responder.
use rgbmixer.Base.{
  ℕ, ◌+◌, ◌*◌, ◌/◌, ◌%◌, ◌≤◌, ◌<◌, ◌≡◌, ◌∙◌, refl, ap, true, not, ◌||◌, if◌then◌else◌, min, ltb,
  lt→ltb, inl, inr, List, some, length, cells, cells-mem_of, mem_of, mem_of-lt, AreBytes, arith,
}
use rgbmixer.Arduino.{Eeprom}
use rgbmixer.Settings
use rgbmixer.Settings.{Settings, eeprom_read, write_int, write_long, read_long}
use rgbmixer.Settings.Fields.{
  Field, address, maker, serial, cycles, sensor, mode, offset, width, bound, same, meets, get_field,
  set_field, set_field-cell, get_field-set_field,
}
use rgbmixer.Settings.Words.{Apart}
use rgbmixer.Settings.Label.{device_label-cells}
use rgbmixer.Settings.Start.{device_power_cycles-save_sensor_value}
use rgbmixer.Device.{Device, change_settings}
use rgbmixer.Rdm.Sender.{Memory}
use rgbmixer.Rdm.Handlers.Message.Agree.{cells-agree}
use rgbmixer.Responder.View.{view, waiting_label, IsSound}

beside_label : (g : Field) (a : ℕ) → 10 ≤ a → a < 44 → Apart (offset g) (width g) a 1
beside_label address a low high = inl (omega arith)
beside_label maker a low high = inl (omega arith)
beside_label serial a low high = inl (omega arith)
beside_label cycles a low high = inr (omega arith)
beside_label sensor a low high = inr (omega arith)
beside_label mode a low high = inr (omega arith)

module _ {S : Type 0} ⦃e : Eeprom S⦄ where
  -- A field that is set leaves the label and its buffer alone.
  label-set_field :
      (g : Field) (v : ℕ) (s : Settings S)
      → Settings.device_label (set_field g v s) 32 ≡ Settings.device_label s 32
  label-set_field g v s =
      device_label-cells s (set_field g v s) 32
        (λ a low high. set_field-cell g v s a (omega arith) (beside_label g a low high))
        (omega arith)

  waiting-set_field :
      (g : Field) (v : ℕ) (s : Settings S) → waiting_label (set_field g v s) ≡ waiting_label s
  unfolding Settings.set_start_address Settings.set_esta_id Settings.set_serial_number
      Settings.set_device_power_cycles Settings.save_sensor_value Settings.set_personality write_int
      write_long
  waiting-set_field address v s = refl
  waiting-set_field maker v s = refl
  waiting-set_field serial v s = refl
  waiting-set_field cycles v s = refl
  waiting-set_field sensor v s = refl
  waiting-set_field mode v s = refl

  pub IsSound-set_field :
      (g : Field) (v : ℕ) (s : Settings S) → IsSound s → IsSound (set_field g v s)
  unfolding Settings.set_start_address Settings.set_esta_id Settings.set_serial_number
      Settings.set_device_power_cycles Settings.save_sensor_value Settings.set_personality write_int
      write_long
  IsSound-set_field address v s h = record { fits = h.fits; bytes = h.bytes }
  IsSound-set_field maker v s h = record { fits = h.fits; bytes = h.bytes }
  IsSound-set_field serial v s h = record { fits = h.fits; bytes = h.bytes }
  IsSound-set_field cycles v s h = record { fits = h.fits; bytes = h.bytes }
  IsSound-set_field sensor v s h = record { fits = h.fits; bytes = h.bytes }
  IsSound-set_field mode v s h = record { fits = h.fits; bytes = h.bytes }

  -- The fields are what the store of fields says.
  view-set_field :
      (g : Field) (v : ℕ) (d : Device S)
      → let s = set_field g v d.settings in
        view (change_settings (set_field g v) d) ≡ record (view d) {
          address = get_field address s;
          mode = get_field mode s;
          maker = get_field maker s;
          serial = get_field serial s;
          cycles = get_field cycles s;
        }
  view-set_field g v d = λ j. record (view (change_settings (set_field g v) d)) {
    label = label-set_field g v d.settings j;
    unwritten = waiting-set_field g v d.settings j;
  }

  -- A field that shares no cell with another one is set alone.
  only_field :
      (g : Field) (v : ℕ) (d : Device S)
      → v < bound g
      → (same address g || not (meets address g)) ≡ true
      → (same mode g || not (meets mode g)) ≡ true
      → (same maker g || not (meets maker g)) ≡ true
      → (same serial g || not (meets serial g)) ≡ true
      → (same cycles g || not (meets cycles g)) ≡ true
      → view (change_settings (set_field g v) d) ≡ record (view d) {
        address = if same address g then v else get_field address d.settings;
        mode = if same mode g then v else get_field mode d.settings;
        maker = if same maker g then v else get_field maker d.settings;
        serial = if same serial g then v else get_field serial d.settings;
        cycles = if same cycles g then v else get_field cycles d.settings;
      }
  only_field g v d fits c1 c2 c3 c4 c5 = view-set_field g v d ∙ (λ j. record (view d) {
    address = get_field-set_field address g v d.settings fits c1 j;
    mode = get_field-set_field mode g v d.settings fits c2 j;
    maker = get_field-set_field maker g v d.settings fits c3 j;
    serial = get_field-set_field serial g v d.settings fits c4 j;
    cycles = get_field-set_field cycles g v d.settings fits c5 j;
  })

  module _ (v : ℕ) (d : Device S) where
    pub view-set_personality :
        v < 256
        → view (change_settings (λ s. Settings.set_personality s v) d)
          ≡ record (view d) { mode = v }
    view-set_personality fits = only_field mode v d fits refl refl refl refl refl

    pub view-set_start_address :
        v < 65536
        → view (change_settings (λ s. Settings.set_start_address s v) d)
          ≡ record (view d) { address = v }
    view-set_start_address fits = only_field address v d fits refl refl refl refl refl

    pub view-set_serial_number :
        v < 4294967296
        → view (change_settings (λ s. Settings.set_serial_number s v) d)
          ≡ record (view d) { serial = v }
    view-set_serial_number fits = only_field serial v d fits refl refl refl refl refl

    pub view-set_device_power_cycles :
        v < 4294967296
        → view (change_settings (λ s. Settings.set_device_power_cycles s v) d)
          ≡ record (view d) { cycles = v }
    view-set_device_power_cycles fits = only_field cycles v d fits refl refl refl refl refl

    pub view-save_sensor_value :
        v < 65536
        → view (change_settings (λ s. Settings.save_sensor_value s v) d) ≡ record (view d) {
          cycles = Settings.device_power_cycles d.settings / 65536 * 65536 + v % 65536;
        }
    view-save_sensor_value fits = view-set_field sensor v d ∙ (λ j. record (view d) {
      address = get_field-set_field address sensor v d.settings fits refl j;
      mode = get_field-set_field mode sensor v d.settings fits refl j;
      maker = get_field-set_field maker sensor v d.settings fits refl j;
      serial = get_field-set_field serial sensor v d.settings fits refl j;
      cycles = device_power_cycles-save_sensor_value d.settings v j;
    })

  -- A label that is set waits.
  module _ (msg : Memory) (label : List ℕ) (d : Device S) (fits : length label ≤ 32)
      (same : (i : ℕ) → i < length label → msg i ≡ mem_of label i) where
    set_cells :
        cells
          (Settings.set_device_label d.settings msg (length label)).m_label_buffer
          0
          (length label)
        ≡ label
    unfolding Settings.set_device_label
    set_cells =
        cells-agree _ (mem_of label) (length label) 0 (length label)
          (λ i inside.
            let new : ltb i (min 32 (length label)) ≡ true = lt→ltb _ _ (omega arith) in
            rw new (same i inside))
          (omega arith)
        ∙ cells-mem_of label

    pub view-set_device_label :
        view (change_settings (λ s. Settings.set_device_label s msg (length label)) d)
        ≡ record (view d) { unwritten = some label }
    unfolding Settings.set_device_label Settings.start_address Settings.personality Settings.esta_id
        Settings.serial_number Settings.device_power_cycles Settings.read_int read_long
    view-set_device_label =
        let set = Settings.set_device_label d.settings msg (length label) in
        let whole : set.m_label_size ≡ length label = omega arith in
        let held : cells set.m_label_buffer 0 set.m_label_size ≡ label =
          (ap (cells set.m_label_buffer 0) whole ∙ set_cells) in
        λ j. record (view d) {
          label = device_label-cells d.settings set 32 (λ a low high. refl) (omega arith) j;
          unwritten = some (held j);
        }

    pub IsSound-set_device_label :
        AreBytes label → IsSound (Settings.set_device_label d.settings msg (length label))
    unfolding Settings.set_device_label
    IsSound-set_device_label bytes = record {
      fits = omega arith;
      bytes = λ i inside.
          let new : ltb i (min 32 (length label)) ≡ true = lt→ltb _ _ (omega arith) in
          rw (new, same i (omega arith)) (mem_of-lt label i bytes);
    }
