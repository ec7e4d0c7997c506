-- ===== src/Device.antt =====
-- The state of the firmware: the global objects of main.cpp (WidgetSettings, sender, rdm_handler,
-- led_state) with the fields of their classes, and what was put out so far. A command changes it;
-- a reader inside a `do` block is bound by `←`.
use rgbmixer.Base.{ℕ, Bool, List, [], ◌∷◌, ◌++◌}
use rgbmixer.Arduino.{PinCall}
use rgbmixer.Settings.{Settings}

pub record Device (S : Type 0) : Type 0 where
  pub settings : Settings S
  -- RDMSender
  pub m_message_count : ℕ
  pub m_current_checksum : ℕ
  -- RDMHandler
  pub m_identify_mode_enabled : Bool
  pub m_device_label_pending : Bool
  pub m_sent_device_label : Bool
  -- main.cpp
  pub led_state : Bool
  -- the bytes written to Serial, and the pin calls, oldest first
  pub serial : List ℕ
  pub pins : List PinCall

abbrev pub Cmd : Type 0 → Type 0
Cmd S = Device S → Device S

infixl 5 ◌>>◌ ◌>>=◌
abbrev pub ◌>>◌ : {S : Type 0} → Cmd S → Cmd S → Cmd S
◌>>◌ m k d = k (m d)

abbrev pub ◌>>=◌ : {S A : Type 0} → (Device S → A) → (A → Cmd S) → Cmd S
◌>>=◌ m k d = k (m d) d

abbrev pub skip : {S : Type 0} → Cmd S
skip d = d

-- A setting that is read, and a method of WidgetSettings that changes the settings.
abbrev pub setting : {S A : Type 0} → (Settings S → A) → Device S → A
setting f d = f d.settings

abbrev pub change_settings : {S : Type 0} → (Settings S → Settings S) → Cmd S
change_settings f d = record d { settings = f d.settings }

-- Serial.write of bytes, and a call that sets a pin.
abbrev pub serial_write : {S : Type 0} → List ℕ → Cmd S
serial_write bytes d = record d { serial = d.serial ++ bytes }

abbrev pub set_pin : {S : Type 0} → PinCall → Cmd S
set_pin c d = record d { pins = d.pins ++ c ∷ [] }
