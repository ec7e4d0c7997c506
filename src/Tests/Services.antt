-- ===== src/Tests/Services.antt =====
-- Runs of the firmware and what the responder does in them.
use rgbmixer.Base.{
  ℕ, ◌≡◌, refl, List, [], ◌∷◌, ◌++◌, map, some, none, length, cells, mem_of, All, inr, arith, codes,
  sum,
}
use rgbmixer.Settings.{Settings, read_int}
use rgbmixer.Device.{Device}
use rgbmixer.UsbPro.Frame.{Frame, frame_bytes, stream}
use rgbmixer.UsbPro.Labels.{rdm_label}
use rgbmixer.UsbPro.Receiver
use rgbmixer.UsbPro.Receiver.{Event}
use rgbmixer.UsbPro.Receiver.Pauses.{Paused, done, pause, arrive, read-Paused}
use rgbmixer.Rdm.Packet.{packet_bytes, packet_body}
use rgbmixer.Rdm.Handlers.Tables.{Board}
use rgbmixer.Rdm.Handlers.Message.{handle_rdm_message}
use rgbmixer.Mixer.{main}
use rgbmixer.Responder.{Message}
use rgbmixer.Responder.Service.{serve}
use rgbmixer.Responder.View.{view}
use rgbmixer.Responder.Heard.{message_bytes, IsMessage, handle_rdm_message-serve}
use rgbmixer.Responder.Actions.{
  Action, silence, says, IsAction, actions_in, replay, Brings, nothing, quiet, frame,
}
use rgbmixer.Responder.Started.{started}
use rgbmixer.Responder.Heeds.{main-actions_in}
use rgbmixer.Responder.Run.{main-Brings}
use rgbmixer.Responder.Lives.{Lives, first, again, lived, Lives-lived}
use rgbmixer.Tests.Lines.{three_bytes, blank, asks_serial, final, first_run}
use rgbmixer.Tests.{
  store_eeprom, store_read, settings_on, settings, device, board, idle_receiver, counting,
}

-- Bytes that come without a pause.
straight : {B : Type 0} (b : B) (xs : List ℕ) → Paused b xs (map (Receiver.byte b) xs)
straight b [] = done
straight b (x ∷ xs) = arrive x (straight b xs)

abbrev slow_bytes : List (Event (Unit {0}))
slow_bytes =
    Receiver.byte tt 0x7e
    ∷ Receiver.idle
    ∷ Receiver.idle
    ∷ map (Receiver.byte tt) (6 ∷ 3 ∷ 0 ∷ 0 ∷ 10 ∷ 20 ∷ 0xe7 ∷ [])

read-Paused_example :
    (m : ℕ → ℕ) × (r' : Receiver.Receiver) × (Receiver.read counting
        (λ seen. 0 ∷ seen)
        slow_bytes
        idle_receiver
        []
      ≡ some (r', counting tt 6 m 3 (0 ∷ 0 ∷ [])))
    × (cells m 0 3 ≡ 0 ∷ 10 ∷ 20 ∷ [])
    × (r'.recv_mode ≡ Receiver.pre_som)
unfolding idle_receiver frame_bytes
read-Paused_example =
    read-Paused counting (λ seen. 0 ∷ seen) tt three_bytes slow_bytes idle_receiver [] (omega arith)
      refl (arrive 0x7e (pause (pause (straight tt (6 ∷ 3 ∷ 0 ∷ 0 ∷ 10 ∷ 20 ∷ 0xe7 ∷ [])))))

-- A SET of the label, as a message.
abbrev name_desk : Message
name_desk = record {
  host_esta = 0x1122;
  host_serial = 9;
  transaction = 5;
  request = record {
    esta = 0x7a70;
    serial = 1;
    command_class = 0x30;
    sub_number = 0;
    pid = 0x82;
    param_data = codes "desk";
  };
}

name_desk-IsMessage : IsMessage name_desk
name_desk-IsMessage = record {
  fits = record {
    esta_fits = omega arith;
    serial_fits = omega arith;
    class_known = inr refl;
    sub_fits = omega arith;
    pid_fits = omega arith;
    data_fits = omega arith;
  };
  are_bytes = omega arith;
}

handle_rdm_message-serve_example :
    let d' =
      handle_rdm_message board
        (mem_of (message_bytes name_desk))
        (length (message_bytes name_desk))
        device in
    let (v', f) = serve board name_desk (view device) in
    (view d' ≡ v') × (d'.serial ≡ [] ++ frame_bytes f)
unfolding packet_bytes packet_body
handle_rdm_message-serve_example =
    handle_rdm_message-serve board (mem_of (message_bytes name_desk)) name_desk device
      name_desk-IsMessage refl
      (record { fits = omega arith; bytes = λ i low. absurd (omega arith) })

-- Bytes of a frame for RDM that are a packet.
abbrev desk_frame : Frame
desk_frame = record { label = rdm_label; payload = message_bytes name_desk }

-- A silent round, the SET, and a silent round in which its label is written.
abbrev desk_actions : List Action
desk_actions = silence ∷ says board (message_bytes name_desk) ∷ silence ∷ []

abbrev desk_events : List (Event Board)
desk_events =
    (Receiver.idle ∷ map (Receiver.byte board) (frame_bytes desk_frame)) ++ Receiver.idle ∷ []

desk-Brings : Brings desk_actions desk_events
unfolding frame_bytes packet_bytes packet_body
desk-Brings =
    frame board desk_frame (omega arith) (pause (straight board (frame_bytes desk_frame)))
      (quiet nothing)

desk-IsAction : All IsAction desk_actions
unfolding packet_bytes packet_body sum
desk-IsAction = (
  tt,
  (record { held = omega arith; are_bytes = omega arith; whole = λ large. omega arith }, (tt, tt)),
)

main-Brings_example :
    (r : Receiver.Receiver) × (d : Device (ℕ → ℕ)) × (main settings (λ i. 0) desk_events
      ≡ some (r, d))
    × (view d ≡ (replay desk_actions (started settings)).0)
    × (d.serial ≡ stream (replay desk_actions (started settings)).1)
main-Brings_example =
    main-Brings settings (λ i. 0) desk_actions desk_events desk-Brings desk-IsAction

abbrev asked : List Action
asked = actions_in asks_serial (Receiver.start (λ i. 0))

asked-IsAction : All IsAction asked
unfolding actions_in Receiver.receive Receiver.start Receiver.dispatch
asked-IsAction = (tt, (omega arith, tt))

main-actions_in_example :
    (view final.1 ≡ (replay asked (started settings)).0)
    × (final.1.serial ≡ stream (replay asked (started settings)).1)
unfolding main Receiver.read Receiver.receive Receiver.start
main-actions_in_example =
    main-actions_in settings (λ i. 0) asks_serial final.0 final.1 refl asked-IsAction

-- A first session on a blank EEPROM, and one after a loss of power.
abbrev again_settings : Settings (ℕ → ℕ)
again_settings = settings_on first_run.1.settings.eeprom

abbrev second_run : Receiver.Receiver × Device (ℕ → ℕ)
unfolding main
second_run = elim (main again_settings (λ i. 0) asks_serial) [
  | none ↦ (idle_receiver, device)
  | some end ↦ end
]

both_sessions : Lives blank asked (asked ∷ []) second_run.1
unfolding main Receiver.read Receiver.receive Receiver.start read_int store_read
both_sessions =
    again again_settings (λ i. 0) asks_serial second_run.0
      (first (λ i. 0) asks_serial first_run.0 refl) refl refl

Lives-lived_example :
    (view second_run.1 ≡ (lived asked (asked ∷ []) (started blank)).0)
    × (second_run.1.serial ≡ stream (lived asked (asked ∷ []) (started blank)).1)
Lives-lived_example =
    Lives-lived blank asked (asked ∷ []) second_run.1 both_sessions asked-IsAction
      (asked-IsAction, tt)
