-- ===== src/Settings/Written.antt =====
-- The settings after PerformWrite of WidgetSettings.cpp has written a label.
use rgbmixer.Base.{
  ℕ, zero, suc, ◌+◌, ◌%◌, ◌≤◌, ◌<◌, ◌≡◌, ◌⊎◌, inl, inr, refl, ◌∙◌, min, false, List, [], ◌∷◌, ◌==◌,
  if◌then◌else◌, u8, arith, cells,
}
use rgbmixer.Arduino.{Eeprom}
use rgbmixer.Settings.{
  Settings, eeprom_read, eeprom_write, read_int, write_int, copy_label, device_label, write_label,
}
use rgbmixer.Settings.Label.{write_label_below, write_label_inside}
use rgbmixer.Settings.Words.{read-write_int_ne, read_int-write_int}

-- The bytes before the first NUL.
abbrev pub up_to_nul : List ℕ → List ℕ
up_to_nul [] = []
up_to_nul (b ∷ bs) = let rest = up_to_nul bs in if b == 0 then [] else b ∷ rest

module _ {S : Type 0} ⦃e : Eeprom S⦄ where
  write_label_above :
      (s : Settings S) (left i a : ℕ)
      → 44 ≤ a
      → a < 1024
      → i + left ≤ 32
      → eeprom_read (write_label s left i) a ≡ eeprom_read s a
  unfolding write_label
  write_label_above s zero i a high inside fits = refl
  write_label_above s (suc left) i a high inside fits =
      write_label_above (eeprom_write s (12 + i) (s.m_label_buffer i)) left (i + 1) a high inside
        (omega arith)
      ∙ e.read-write_ne s.eeprom (12 + i) a (s.m_label_buffer i) (omega arith) inside (omega arith)

  -- The loop changes the EEPROM alone.
  write_label-ram :
      (s : Settings S) (left i : ℕ)
      → write_label s left i ≡ record s { eeprom = (write_label s left i).eeprom }
  unfolding write_label
  write_label-ram s zero i = refl
  write_label-ram s (suc left) i =
      write_label-ram (eeprom_write s (12 + i) (s.m_label_buffer i)) left (i + 1)

  -- Cells that hold the bytes of a memory are copied up to the first NUL.
  copy_label-up_to_nul :
      (s : Settings S) (m : ℕ → ℕ) (left i : ℕ)
      → ((j : ℕ) → i ≤ j → j < i + left → eeprom_read s (12 + j) ≡ m j)
      → copy_label s left i ≡ up_to_nul (cells m i left)
  unfolding copy_label
  copy_label-up_to_nul s m zero i same = refl
  copy_label-up_to_nul s m (suc left) i same = rw (
    same i (omega arith) (omega arith),
    copy_label-up_to_nul s m left (i + 1) (λ j low high. same j (omega arith) (omega arith)),
  )

  module _ (s : Settings S) where
    abbrev pub written : Settings S
    written = record (write_int (write_label s s.m_label_size 0) 10 s.m_label_size) {
      m_label_pending = false;
    }

    pub written-ram : written ≡ record s { eeprom = written.eeprom; m_label_pending = false }
    unfolding write_int
    written-ram =
        let ram = write_label-ram s s.m_label_size 0 in
        λ j. record (ram j) { eeprom = written.eeprom; m_label_pending = false }

    module _ (fits : s.m_label_size ≤ 32) where
      pub written-cell :
          (a : ℕ) → a < 1024 → (a < 10) ⊎ (44 ≤ a) → eeprom_read written a ≡ eeprom_read s a
      written-cell a inside (inl low) =
          read-write_int_ne (write_label s s.m_label_size 0) 10 s.m_label_size a (omega arith)
            inside (inr (omega arith))
          ∙ write_label_below s s.m_label_size 0 a (omega arith) (omega arith)
      written-cell a inside (inr high) =
          read-write_int_ne (write_label s s.m_label_size 0) 10 s.m_label_size a (omega arith)
            inside (inl (omega arith))
          ∙ write_label_above s s.m_label_size 0 a high inside (omega arith)

      pub written-label :
          ((i : ℕ) → i < s.m_label_size → s.m_label_buffer i < 256)
          → device_label written 32 ≡ up_to_nul (cells s.m_label_buffer 0 s.m_label_size)
      unfolding device_label
      written-label bytes =
          let looped = write_label s s.m_label_size 0 in
          let stored : read_int written 10 ≡ s.m_label_size % 65536 =
            (unfold read_int in read_int-write_int looped 10 s.m_label_size (omega arith)) in
          let size : u8 (min (read_int written 10) 32) ≡ s.m_label_size = omega arith in
          rw size (
            copy_label-up_to_nul written s.m_label_buffer s.m_label_size 0 (λ j low high.
              read-write_int_ne looped 10 s.m_label_size (12 + j) (omega arith) (omega arith)
                (inl (omega arith))
              ∙ write_label_inside s s.m_label_size 0 j low high (omega arith)
                  (bytes j (omega arith))))
