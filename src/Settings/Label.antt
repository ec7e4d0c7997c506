-- ===== src/Settings/Label.antt =====
-- SetDeviceLabel, PerformWrite and DeviceLabel of WidgetSettings.cpp.
use rgbmixer.Base.{
  ℕ, zero, suc, ◌+◌, ◌≤◌, ◌<◌, ◌≡◌, refl, inl, inr, ◌∙◌, ap, min, List, [], ◌∷◌, ◌==◌, ltb, true,
  false, u8, arith, length, mem_of, mem_of-lt, All, AreBytes, lt→ltb, ne→==, ==→eq, Bool-cases,
}
use rgbmixer.Arduino.{Eeprom}
use rgbmixer.Settings.{
  Settings, eeprom_read, eeprom_write, read_int, write_int, device_label_size_offset, copy_label,
  device_label, set_device_label, write_label, perform_write,
}
use rgbmixer.Settings.Words.{read-write_int_ne, read_int-write_int}

module _ {S : Type 0} ⦃e : Eeprom S⦄ where
  length-copy_label : (s : Settings S) (left i : ℕ) → length (copy_label s left i) ≤ left
  unfolding copy_label
  length-copy_label s zero i = omega arith
  length-copy_label s (suc left) i = ground (arith, length-copy_label s left (i + 1))

  pub length-device_label :
      (s : Settings S) (size : ℕ) → size < 256 → length (device_label s size) ≤ size
  unfolding device_label
  length-device_label s size h =
      omega (arith, length-copy_label s (u8 (min (read_int s device_label_size_offset) size)) 0)

  -- The loop that writes leaves the cells before its range alone,
  pub write_label_below :
      (s : Settings S) (left i a : ℕ)
      → a < 12 + i
      → i + left ≤ 32
      → eeprom_read (write_label s left i) a ≡ eeprom_read s a
  unfolding write_label
  write_label_below s zero i a low fits = refl
  write_label_below s (suc left) i a low fits =
      write_label_below (eeprom_write s (12 + i) (s.m_label_buffer i)) left (i + 1) a (omega arith)
        (omega arith)
      ∙ e.read-write_ne s.eeprom (12 + i) a (s.m_label_buffer i) (omega arith) (omega arith)
          (omega arith)

  written :
      (s : Settings S) (i : ℕ)
      → i < 32
      → s.m_label_buffer i < 256
      → eeprom_read (eeprom_write s (12 + i) (s.m_label_buffer i)) (12 + i) ≡ s.m_label_buffer i
  written s i low bytes = e.read-write s.eeprom (12 + i) (s.m_label_buffer i) (omega arith) bytes

  -- and puts the bytes of the buffer into its range.
  pub write_label_inside :
      (s : Settings S) (left i a : ℕ)
      → i ≤ a
      → a < i + left
      → i + left ≤ 32
      → s.m_label_buffer a < 256
      → eeprom_read (write_label s left i) (12 + a) ≡ s.m_label_buffer a
  unfolding write_label
  write_label_inside s zero i a low high fits bytes = absurd (omega arith)
  write_label_inside s (suc left) i a low high fits bytes =
      let s' = eeprom_write s (12 + i) (s.m_label_buffer i) in
      elim (Bool-cases (a == i)) [
        | inl here ↦
            let e : a ≡ i = ==→eq a i here in
            write_label_below s' left (i + 1) (12 + a) (omega arith) (omega arith)
            ∙ rw e (written s i (omega arith) (rw (← e) bytes))
        | inr there ↦
            write_label_inside s' left (i + 1) a (ground (arith, there)) (omega arith) (omega arith)
              bytes
      ]

  -- Reading stops at the size or at a NUL: cells that hold other bytes are all read.
  copy_label_lem :
      (s : Settings S) (xs : List ℕ) (i : ℕ)
      → ((j : ℕ) → j < length xs → eeprom_read s (12 + (i + j)) ≡ mem_of xs j)
      → All (λ b. 0 < b) xs
      → copy_label s (length xs) i ≡ xs
  unfolding copy_label
  copy_label_lem s [] i same nonzero = refl
  copy_label_lem s (x ∷ xs) i same nonzero =
      let first : eeprom_read s (12 + i) ≡ x =
        (ap (eeprom_read s) (omega arith) ∙ same 0 (omega arith)) in
      let zero' : (x == 0) ≡ false = ne→== x 0 (let h : 0 < x = nonzero.0 in omega arith) in
      let rest =
        copy_label_lem s xs (i + 1)
          (λ j h. ap (eeprom_read s) (omega arith) ∙ same (suc j) (omega arith)) nonzero.1 in
      rw (first, zero', rest)

  copy_label-cells :
      (s t : Settings S) (left i : ℕ)
      → ((a : ℕ) → 10 ≤ a → a < 44 → eeprom_read t a ≡ eeprom_read s a)
      → i + left ≤ 32
      → copy_label t left i ≡ copy_label s left i
  unfolding copy_label
  copy_label-cells s t zero i agree fits = refl
  copy_label-cells s t (suc left) i agree fits =
      let rest = copy_label-cells s t left (i + 1) agree (omega arith) in
      rw (agree (12 + i) (omega arith) (omega arith), rest)

  -- Reading the label looks at the cells of its size and its bytes alone.
  pub device_label-cells :
      (s t : Settings S) (size : ℕ)
      → ((a : ℕ) → 10 ≤ a → a < 44 → eeprom_read t a ≡ eeprom_read s a)
      → size ≤ 32
      → device_label t size ≡ device_label s size
  unfolding device_label read_int
  device_label-cells s t size agree fits =
      rw (agree 10 (omega arith) (omega arith), agree 11 (omega arith) (omega arith))
        (copy_label-cells s t _ 0 agree (omega arith))

module _ {S : Type 0} ⦃e : Eeprom S⦄ (s : Settings S) (label : List ℕ) (fits : length label ≤ 32)
    (bytes : AreBytes label) where
  queued : Settings S
  queued = set_device_label s (mem_of label) (length label)

  stored : Settings S
  unfolding queued
  stored = write_int (write_label queued queued.m_label_size 0) 10 queued.m_label_size

  stored_size : u8 (min (read_int stored 10) 32) ≡ length label
  unfolding stored set_device_label
  stored_size =
      let n = min 32 (length label) in
      omega (arith, read_int-write_int (write_label queued n 0) 10 n (omega arith))

  stored_cell : (j : ℕ) → j < length label → eeprom_read stored (12 + (0 + j)) ≡ mem_of label j
  unfolding stored set_device_label
  stored_cell j h =
      let n = min 32 (length label) in
      let inside : ltb j n ≡ true = lt→ltb j n (omega arith) in
      let byte : queued.m_label_buffer j < 256 = rw inside (mem_of-lt label j bytes) in
      ap (eeprom_read (write_int (write_label queued n 0) 10 n)) (omega arith)
      ∙ read-write_int_ne (write_label queued n 0) 10 n (12 + j) (omega arith) (omega arith)
          (omega arith)
      ∙ write_label_inside queued n 0 j (omega arith) (omega arith) (omega arith) byte
      ∙ rw inside

-- A label of at most 32 bytes, none of them NUL, that was set and then written in the background
-- is what is read back from the EEPROM, and nothing waits to be written then.
pub set_device_label-device_label :
    {S : Type 0} ⦃e : Eeprom S⦄ (s : Settings S) (label : List ℕ)
    → length label ≤ 32
    → AreBytes label
    → All (λ b. 0 < b) label
    → let (done, s') = perform_write (set_device_label s (mem_of label) (length label)) in
      (done ≡ true) × (s'.m_label_pending ≡ false) × (device_label s' 32 ≡ label)
unfolding perform_write device_label set_device_label stored queued
set_device_label-device_label s label fits bytes nonzero =
    let copied : copy_label (stored s label fits bytes) (length label) 0 ≡ label =
      copy_label_lem (stored s label fits bytes) label 0 (stored_cell s label fits bytes) nonzero in
    (
      refl,
      refl,
      device_label-cells (stored s label fits bytes)
            (record (stored s label fits bytes) { m_label_pending = false }) 32 (λ a low high. refl)
            (omega arith)
          ∙ rw (stored_size s label fits bytes) copied,
    )
