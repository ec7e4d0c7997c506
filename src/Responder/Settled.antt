-- ===== src/Responder/Settled.antt =====
-- Idle of main.cpp against what the responder does when the line is silent.
use rgbmixer.Base.{
  ℕ, ◌+◌, ◌≤◌, ◌<◌, ◌≡◌, ◌∙◌, refl, sym, ap, subst, List, Bool, true, false, inl, inr, Option, none,
  some, if◌then◌else◌, cells, arith,
}
use rgbmixer.Arduino.{Eeprom}
use rgbmixer.Settings
use rgbmixer.Settings.{Settings, read_long, read_int}
use rgbmixer.Settings.Fields.{read_int-cells, read_long-cells}
use rgbmixer.Settings.Written.{up_to_nul, written, written-ram, written-cell, written-label}
use rgbmixer.Device.{Device}
use rgbmixer.Rdm.Handlers.Queue.{waiting}
use rgbmixer.Responder.{Responder}
use rgbmixer.Responder.Service.{settle}
use rgbmixer.Responder.View.{view, waiting_label, IsSound}
use rgbmixer.Mixer.{idle, queue_set_device_label}

-- The responder's state after the line was silent.
pub record Settles {S : Type 0} ⦃e : Eeprom S⦄ (d d' : Device S) : Type 0 where
  pub state : view d' ≡ settle (view d)
  pub told : d'.serial ≡ d.serial
  pub sound : IsSound d'.settings

settle-some :
    (v : Responder) (bytes : List ℕ)
    → v.unwritten ≡ some bytes
    → settle v ≡ record v { label = up_to_nul bytes; unwritten = none; queue = waiting }
unfolding settle
settle-some v bytes e =
    ap
      (λ (o : Option (List ℕ)). elim o [
        | none ↦ v
        | some bytes ↦ record v { label = up_to_nul bytes; unwritten = none; queue = waiting }
      ])
      e

settle-none : (v : Responder) → v.unwritten ≡ none → settle v ≡ v
unfolding settle
settle-none v e =
    ap
      (λ (o : Option (List ℕ)). elim o [
        | none ↦ v
        | some bytes ↦ record v { label = up_to_nul bytes; unwritten = none; queue = waiting }
      ])
      e

module _ {S : Type 0} ⦃e : Eeprom S⦄ (d : Device S) (sound : IsSound d.settings) where
  abbrev new : Device S
  new = queue_set_device_label (record d { settings = written d.settings })

  low_cell :
      (o n : ℕ)
      → o + n ≤ 10
      → (a : ℕ) → o ≤ a
      → a < o + n
      → Settings.eeprom_read (written d.settings) a ≡ Settings.eeprom_read d.settings a
  low_cell o n below a low high =
      written-cell d.settings sound.fits a (omega arith) (inl (omega arith))

  IsSound-written : IsSound new.settings
  unfolding queue_set_device_label
  IsSound-written =
      subst IsSound (sym (written-ram d.settings))
        (record { fits = sound.fits; bytes = sound.bytes })

  view-written : view new ≡ record (view d) {
    label = up_to_nul (cells d.settings.m_label_buffer 0 d.settings.m_label_size);
    unwritten = none;
    queue = waiting;
  }
  unfolding Settings.start_address Settings.personality Settings.esta_id Settings.serial_number
      Settings.device_power_cycles queue_set_device_label
  view-written =
      let s = d.settings in
      λ j. record (view d) {
        address = (written-ram s j).m_start_address;
        mode = (written-ram s j).m_personality;
        maker = read_int-cells s (written s) 4 (low_cell 4 2 (omega arith)) j;
        serial = read_long-cells s (written s) 6 (low_cell 6 4 (omega arith)) j;
        cycles =
            read_long-cells s (written s) 44
              (λ a low high. written-cell s sound.fits a (omega arith) (inr (omega arith))) j;
        label = written-label s sound.fits sound.bytes j;
        unwritten = none;
        queue = waiting;
      }

  waiting_by :
      (flag : Bool)
      → d.settings.m_label_pending ≡ flag
      → waiting_label d.settings
        ≡ (if flag then some (cells d.settings.m_label_buffer 0 d.settings.m_label_size) else none)
  waiting_by flag e =
      ap (λ b. if b then some (cells d.settings.m_label_buffer 0 d.settings.m_label_size) else none)
        e

  -- By the flag of the label that waits.
  by_flag :
      (flag : Bool)
      → d.settings.m_label_pending ≡ flag
      → let result : Bool × Settings S =
          if flag then (true, written d.settings) else (false, d.settings) in
        let (done, s) = result in
        let d' = record d { settings = s } in
        Settles d (if done then queue_set_device_label d' else d')
  by_flag true e = record {
    state = view-written ∙ sym (settle-some (view d) _ (waiting_by _ e));
    told = (unfold queue_set_device_label in refl);
    sound = IsSound-written;
  }
  by_flag false e = record {
    state = sym (settle-none (view d) (waiting_by _ e));
    told = refl;
    sound = sound;
  }

  pub idle_lem : Settles d (idle d)
  unfolding idle Settings.perform_write
  idle_lem = by_flag d.settings.m_label_pending refl
