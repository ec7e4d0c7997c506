-- ===== src/Responder/Lives.antt =====
-- Main of main.cpp, again and again, with a loss of power between.
use rgbmixer.Base.{
  ℕ, ◌+◌, ◌%◌, ◌≡◌, ◌∙◌, sym, ap, false, List, [], ◌∷◌, none, some, arith, All, eq→==,
}
use rgbmixer.Arduino.{Eeprom}
use rgbmixer.Settings
use rgbmixer.Settings.{
  Settings, eeprom_read, read_int, read_long, write_int, write_long, default_label, magic_number,
}
use rgbmixer.Settings.Label.{device_label-cells}
use rgbmixer.Settings.Fields.{read_int-cells, read_long-cells}
use rgbmixer.Settings.Coherent.{IsCoherent}
use rgbmixer.Device.{Device}
use rgbmixer.Rdm.Handlers.Queue.{empty}
use rgbmixer.Responder.{Responder}
use rgbmixer.Responder.Service.{restart}
use rgbmixer.Responder.View.{view}
use rgbmixer.UsbPro.Frame.{Frame, stream}
use rgbmixer.UsbPro.Receiver
use rgbmixer.UsbPro.Receiver.{Event}
use rgbmixer.Rdm.Handlers.Tables.{Board}
use rgbmixer.Mixer.{main}
use rgbmixer.Mixer.Restart.{main-IsCoherent}
use rgbmixer.Responder.Actions.{Action, IsAction, actions_in, replay}
use rgbmixer.Responder.Started.{started}
use rgbmixer.Responder.Heeds.{main-actions_in}

-- What the responder does in one session after the other, the last one first: each but the first
-- begins with a loss of power. The frames are those of the last session.
unfoldable pub lived : List Action → List (List Action) → Responder → Responder × List Frame
unfolding replay restart
lived last [] v = replay last v
lived last (before ∷ earlier) v = replay last (restart (lived before earlier v).0)

-- The firmware from the EEPROM of the settings `s`, through sessions of any events with the actions
-- in them. RAM and stack may hold anything at a start; the EEPROM is as the session before left it.
pub data Lives {S : Type 0} ⦃e : Eeprom S⦄ (s : Settings S)
    : List Action → List (List Action) → Device S → Type 0 where
  first :
      {d : Device S} (stack : ℕ → ℕ) (events : List (Event Board)) (r : Receiver.Receiver)
      → main s stack events ≡ some (r, d)
      → Lives s (actions_in events (Receiver.start stack)) [] d
  again :
      {before : List Action} {earlier : List (List Action)} {d d' : Device S} (t : Settings S)
      (stack : ℕ → ℕ) (events : List (Event Board)) (r : Receiver.Receiver)
      → Lives s before earlier d
      → t.eeprom ≡ d.settings.eeprom
      → main t stack events ≡ some (r, d')
      → Lives s (actions_in events (Receiver.start stack)) (before ∷ earlier) d'

module _ {S : Type 0} ⦃e : Eeprom S⦄ where
  -- A start from what coherent settings left in the EEPROM.
  started-restart :
      (d : Device S) (t : Settings S)
      → t.eeprom ≡ d.settings.eeprom
      → IsCoherent d.settings
      → started t ≡ restart (view d)
  unfolding restart Settings.start_address Settings.personality
  started-restart d t kept h =
      let cells_kept : (a : ℕ) → eeprom_read t a ≡ eeprom_read d.settings a = (λ a. rw kept) in
      let int : (p : ℕ) → read_int t p ≡ read_int d.settings p =
        (λ p. read_int-cells d.settings t p (λ a low high. cells_kept a)) in
      let long : (p : ℕ) → read_long t p ≡ read_long d.settings p =
        (λ p. read_long-cells d.settings t p (λ a low high. cells_kept a)) in
      let there : read_int t 0 ≡ magic_number = (int 0 ∙ h.has_address.set_up) in
      let maker : Settings.esta_id t ≡ Settings.esta_id d.settings =
        (unfold Settings.esta_id in int 4) in
      let serial : Settings.serial_number t ≡ Settings.serial_number d.settings =
        (unfold Settings.serial_number in long 6) in
      let cycles : Settings.device_power_cycles t ≡ Settings.device_power_cycles d.settings =
        (unfold Settings.device_power_cycles in long 44) in
      rw (eq→== _ _ there) (λ j. record {
        address = (int 2 ∙ sym h.has_address.address) j;
        mode = (cells_kept 48 ∙ sym h.number) j;
        maker = maker j;
        serial = serial j;
        cycles = (cycles j + 1) % 4294967296;
        label = device_label-cells d.settings t 32 (λ a low high. cells_kept a) (omega arith) j;
        unwritten = none;
        identify = false;
        queue = empty;
        counted = 0;
      })

  Lives-IsCoherent :
      (s : Settings S) (last : List Action) (earlier : List (List Action)) (d : Device S)
      → Lives s last earlier d
      → IsCoherent d.settings
  Lives-IsCoherent s last earlier d (first stack events r run) =
      main-IsCoherent s stack events r d run
  Lives-IsCoherent s last earlier d (again t stack events r life kept run) =
      main-IsCoherent t stack events r d run

-- A device that lost power any number of times: from an EEPROM with any contents, through sessions
-- of any events, each from its start to a time between two rounds of the loop of Read, before an
-- overrun of the receiver's buffer, with RAM and stack that hold anything at a start. At the end
-- the settings, the label that waits, the identify mode, the queued message and the message count
-- of the firmware are those that the responder has after the same actions and the same losses of
-- power, and it wrote to the line in the last session the responder's frames and nothing else.
-- Each action is as in main-actions_in: a frame for RDM holds bytes below 256, at most 600 of
-- them, and if it has the size of a packet, as much data as its data size byte says; the other
-- frames have at most 600 bytes.
pub Lives-lived :
    {S : Type 0} ⦃e : Eeprom S⦄ (s : Settings S) (last : List Action) (earlier : List (List Action))
    (d : Device S)
    → Lives s last earlier d
    → All IsAction last
    → All (All IsAction) earlier
    → (view d ≡ (lived last earlier (started s)).0)
      × (d.serial ≡ stream (lived last earlier (started s)).1)
unfolding lived
Lives-lived s last earlier d (first stack events r run) ok fine =
    main-actions_in s stack events r d run ok
Lives-lived s last earlier d (again {earlier = before} {d = d0} t stack events r life kept run) ok
      fine =
    let (seen, told) = Lives-lived s _ _ d0 life fine.0 fine.1 in
    let starts = started-restart d0 t kept (Lives-IsCoherent s _ _ d0 life) ∙ ap restart seen in
    let (state, serial) = main-actions_in t stack events r d run ok in
    (state ∙ ap (λ v. (replay last v).0) starts, serial ∙ ap (λ v. stream (replay last v).1) starts)
