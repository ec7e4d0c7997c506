-- ===== src/Settings/Coherent.antt =====
-- The copies in RAM that WidgetSettings.cpp keeps of two settings, against the EEPROM.
use rgbmixer.Base.{ℕ, zero, suc, ◌+◌, ◌≤◌, ◌<◌, ◌≡◌, ◌∙◌, sym, u8, u16, ◌>>>◌, arith}
use rgbmixer.Arduino.{Eeprom}
use rgbmixer.Settings.{
  Settings, eeprom_read, eeprom_write, read_int, write_int, write_long, set_start_address,
  set_personality, write_label, magic_number,
}
use rgbmixer.Settings.Words.{read_int-write_int, read_int-write_int_ne, read-write_int_ne}

-- The EEPROM is set up, the copy of the start address agrees with it, and the label that waits fits
-- its cells.
pub record HasAddress {S : Type 0} ⦃e : Eeprom S⦄ (s : Settings S) : Type 0 where
  pub set_up : read_int s 0 ≡ magic_number
  pub address : s.m_start_address ≡ read_int s 2
  pub label_fits : s.m_label_size ≤ 32

-- So does the copy of the personality.
pub record IsCoherent {S : Type 0} ⦃e : Eeprom S⦄ (s : Settings S) : Type 0 where
  pub has_address : HasAddress s
  pub number : s.m_personality ≡ eeprom_read s 48

-- The writes between the start address and the personality keep what each of their cells keeps.
module _ {S : Type 0} ⦃e : Eeprom S⦄ (P : Settings S → Type 0)
    (on_cell : (s : Settings S) (a v : ℕ) → 3 < a → a < 48 → P s → P (eeprom_write s a v)) where
  pub write_int-keeps : (s : Settings S) (o v : ℕ) → 3 < o → o + 1 < 48 → P s → P (write_int s o v)
  unfolding write_int
  write_int-keeps s o v low high h =
      on_cell (eeprom_write s o (u8 (v >>> 8))) (o + 1) (u8 v) (omega arith) high
        (on_cell s o (u8 (v >>> 8)) low (omega arith) h)

  pub write_long-keeps :
      (s : Settings S) (o v : ℕ) → 3 < o → o + 3 < 48 → P s → P (write_long s o v)
  unfolding write_long
  write_long-keeps s o v low high h =
      let s' = write_int s o (u16 (v >>> 16)) in
      write_int-keeps s' (o + 2) (u16 v) (omega arith) (omega arith)
        (write_int-keeps s o (u16 (v >>> 16)) low (omega arith) h)

  pub write_label-keeps :
      (s : Settings S) (left i : ℕ) → i + left ≤ 32 → P s → P (write_label s left i)
  unfolding write_label
  write_label-keeps s zero i fits h = h
  write_label-keeps s (suc left) i fits h =
      write_label-keeps (eeprom_write s (12 + i) (s.m_label_buffer i)) left (i + 1) (omega arith)
        (on_cell s (12 + i) (s.m_label_buffer i) (omega arith) (omega arith) h)

module _ {S : Type 0} ⦃e : Eeprom S⦄ where
  eeprom_write-HasAddress :
      (s : Settings S) (a v : ℕ) → 3 < a → a < 1024 → HasAddress s → HasAddress (eeprom_write s a v)
  unfolding read_int
  eeprom_write-HasAddress s a v low high h =
      let at0 = e.read-write_ne s.eeprom a 0 v high (omega arith) (omega arith) in
      let at1 = e.read-write_ne s.eeprom a 1 v high (omega arith) (omega arith) in
      let at2 = e.read-write_ne s.eeprom a 2 v high (omega arith) (omega arith) in
      let at3 = e.read-write_ne s.eeprom a 3 v high (omega arith) (omega arith) in
      record {
        set_up = rw (at0, at1) (h.set_up);
        address = rw (at2, at3) (h.address);
        label_fits = h.label_fits;
      }

  pub eeprom_write-IsCoherent :
      (s : Settings S) (a v : ℕ) → 3 < a → a < 48 → IsCoherent s → IsCoherent (eeprom_write s a v)
  eeprom_write-IsCoherent s a v low high h = record {
    has_address = eeprom_write-HasAddress s a v low (omega arith) h.has_address;
    number =
        h.number ∙ sym (e.read-write_ne s.eeprom a 48 v (omega arith) (omega arith) (omega arith));
  }

  pub cell-HasAddress :
      (s : Settings S) (a v : ℕ) → 3 < a → a < 48 → HasAddress s → HasAddress (eeprom_write s a v)
  cell-HasAddress s a v low high h = eeprom_write-HasAddress s a v low (omega arith) h

  -- The address needs nothing of the one before it.
  pub set_start_address-HasAddress :
      (s : Settings S) (v : ℕ)
      → v < 65536
      → read_int s 0 ≡ magic_number
      → s.m_label_size ≤ 32
      → HasAddress (set_start_address s v)
  unfolding set_start_address read_int write_int
  set_start_address-HasAddress s v small valid fits = record {
    set_up = read_int-write_int_ne s 2 v 0 (omega arith) (omega arith) (omega arith) ∙ valid;
    address = sym (read_int-write_int s 2 v (omega arith) ∙ omega arith);
    label_fits = fits;
  }

  pub set_start_address-IsCoherent :
      (s : Settings S) (v : ℕ) → v < 65536 → IsCoherent s → IsCoherent (set_start_address s v)
  unfolding set_start_address write_int
  set_start_address-IsCoherent s v small h = record {
    has_address =
        set_start_address-HasAddress s v small (h.has_address.set_up) (h.has_address.label_fits);
    number = h.number ∙ sym (read-write_int_ne s 2 v 48 (omega arith) (omega arith) (omega arith));
  }

  pub set_personality-IsCoherent :
      (s : Settings S) (v : ℕ) → v < 256 → HasAddress s → IsCoherent (set_personality s v)
  unfolding set_personality read_int
  set_personality-IsCoherent s v small h =
      let written = eeprom_write-HasAddress s 48 v (omega arith) (omega arith) h in
      record {
        has_address = record {
          set_up = written.set_up;
          address = written.address;
          label_fits = written.label_fits;
        };
        number = sym (e.read-write s.eeprom 48 v (omega arith) small);
      }

  -- Both look at the EEPROM, the copies and the size of the label alone.
  pub same-HasAddress :
      (s t : Settings S)
      → t.eeprom ≡ s.eeprom
      → t.m_start_address ≡ s.m_start_address
      → t.m_label_size ≤ 32
      → HasAddress s
      → HasAddress t
  unfolding read_int
  same-HasAddress s t store address fits h = record {
    set_up = rw store (h.set_up);
    address = rw (store, address) (h.address);
    label_fits = fits;
  }

  pub same-IsCoherent :
      (s t : Settings S)
      → t.eeprom ≡ s.eeprom
      → t.m_start_address ≡ s.m_start_address
      → t.m_personality ≡ s.m_personality
      → t.m_label_size ≤ 32
      → IsCoherent s
      → IsCoherent t
  same-IsCoherent s t store address number fits h = record {
    has_address = same-HasAddress s t store address fits h.has_address;
    number = rw (store, number) (h.number);
  }
