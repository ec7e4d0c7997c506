-- ===== src/Responder/Hears.antt =====
-- HandleRDMMessage on any bytes, against what the responder does with them.
use rgbmixer.Base.{
  ℕ, ◌+◌, ◌≤◌, ◌≡◌, ◌∙◌, refl, sym, ap, ap₂, subst, true, false, List, [], ◌∷◌, ◌++◌, append-nil,
  append_assoc, some, if◌then◌else◌, length, cells, mem_of, arith, Bool-cases, inl, inr,
}
use rgbmixer.Arduino.{Eeprom}
use rgbmixer.Device.{Device}
use rgbmixer.UsbPro.Frame.{Frame, frame_bytes, stream, stream-append}
use rgbmixer.UsbPro.Sender.{put_frame}
use rgbmixer.Rdm.Enums.{
  StatusCode, status_broadcast, status_failed, status_failed_checksum, status_invalid_destination,
  status_invalid_command,
}
use rgbmixer.Rdm.Reply.{status_frame, return_rdm_error_response_lem}
use rgbmixer.Rdm.Sender.{Memory}
use rgbmixer.Rdm.Handlers.Tables.{Board}
use rgbmixer.Rdm.Handlers.Message.{
  handle_rdm_message, handle_request, is_malformed, verify_checksum, is_get_or_set,
}
use rgbmixer.Rdm.Handlers.Message.Decide.{perform, handle_command_lem}
use rgbmixer.Rdm.Handlers.Message.Rejected.{rejection, handle_rdm_message-rejected}
use rgbmixer.Rdm.Handlers.Message.Requests.{decide_request}
use rgbmixer.Responder.{Responder, Message, is_to_all, is_named}
use rgbmixer.Responder.Service.{serve, carry_out}
use rgbmixer.Responder.View.{view, IsSound}
use rgbmixer.Responder.Served.{perform_lem}
use rgbmixer.Responder.Keeps.{Keeps}
use rgbmixer.Responder.Payload.{
  is_packet, sums_up, complaint, message_in, is_known_class, reports, hear, hear-some, hear-none,
  IsPayload,
}
use rgbmixer.Responder.Parsed.{
  is_malformed_lem, first, verify_checksum_lem, holds, decide_lem, addressed_lem,
}

module _ (msg : Memory) (bytes : List ℕ) (h : IsPayload bytes)
    (held : cells msg 0 (length bytes) ≡ bytes) where
  abbrev mem : Memory
  mem = mem_of bytes

  abbrev n : ℕ
  n = length bytes

  abbrev m : Message
  m = message_in bytes

  module _ {S : Type 0} ⦃e : Eeprom S⦄ (board : Board) (d : Device S)
      (sound : IsSound d.settings) where
    refused :
        (c : StatusCode)
        → rejection msg n d ≡ some c
        → Keeps d (handle_rdm_message board msg n d) (view d, status_frame c ∷ [])
    unfolding stream
    refused c rejected = rw (handle_rdm_message-rejected board msg n d c rejected) (record {
      state = refl;
      told = ap (λ more. d.serial ++ more) (sym (append-nil (frame_bytes (status_frame c))));
      sound = sound;
    })

    module _ (formed : is_malformed msg n ≡ false) (right : verify_checksum msg n ≡ true)
        (large : 26 ≤ n) where
      others_lem :
          is_named m.request (view d) ≡ false
          → Keeps d (handle_rdm_message board msg n d) (
            view d,
            status_frame
                  (if is_to_all m.request then status_broadcast else status_invalid_destination)
                ∷ [],
          )
      unfolding rejection
      others_lem others = refused _ (
          rw (
            formed,
            right,
            addressed_lem msg bytes h held large d,
            others,
            (holds msg bytes h held large).to_all,
          ))

      -- What comes of a message for this device, behind what was put out before.
      served :
          (before : List Frame) (d0 d' : Device S)
          → view d0 ≡ view d
          → d0.serial ≡ d.serial ++ stream before
          → IsSound d0.settings
          → d' ≡ perform board msg (decide_request m.request) d0
          → let (v', f) = carry_out board m (decide_request m.request) (view d) in
            Keeps d d' (v', before ++ f ∷ [])
      unfolding stream
      served before d0 d' seen told sound0 run =
          let does =
            perform_lem (holds msg bytes h held large) board (decide_request m.request) d0 refl
              sound0 in
          let given : (v : Responder) → Frame =
            (λ v. (carry_out board m (decide_request m.request) v).1) in
          record {
            state =
                ap (λ d. view d) run
                ∙ does.state
                ∙ ap (λ v. (carry_out board m (decide_request m.request) v).0) seen;
            told =
                ap (λ d. d.serial) run
                ∙ does.told
                ∙ (λ j. told j ++ frame_bytes (given (seen j)))
                ∙ append_assoc d.serial (stream before) (frame_bytes (given (view d)))
                ∙ ap (λ bytes. d.serial ++ bytes)
                    (ap (λ more. stream before ++ more) (sym (append-nil _))
                      ∙ sym (stream-append before (given (view d) ∷ [])));
            sound = subst (λ d. IsSound d.settings) (sym run) does.sound;
          }

      class_lem : is_get_or_set msg ≡ is_known_class m
      unfolding is_get_or_set
      class_lem = rw (first msg bytes h held large 20 (omega arith)) refl

      runs_known :
          is_named m.request (view d) ≡ true
          → is_known_class m ≡ true
          → handle_rdm_message board msg n d ≡ perform board msg (decide_request m.request) d
      unfolding handle_rdm_message handle_request
      runs_known ours known =
          rw (formed, right, addressed_lem msg bytes h held large d, ours, class_lem, known)
            (handle_command_lem board msg d
              ∙ ap (λ c. perform board msg c d) (decide_lem msg bytes h held large))

      runs_unknown :
          is_named m.request (view d) ≡ true
          → is_known_class m ≡ false
          → handle_rdm_message board msg n d
            ≡ perform board msg
                (decide_request m.request)
                (put_frame (status_frame status_invalid_command) d)
      unfolding handle_rdm_message handle_request
      runs_unknown ours unknown =
          rw (formed, right, addressed_lem msg bytes h held large d, ours, class_lem, unknown)
            (handle_command_lem board msg _
              ∙ ap₂ (perform board msg) (decide_lem msg bytes h held large)
                  (return_rdm_error_response_lem status_invalid_command d))

      handled :
          let (v', f) = serve board m (view d) in
          Keeps d (handle_rdm_message board msg n d) (v', reports m (view d) (f ∷ []))
      unfolding handle_rdm_message handle_request serve stream
      handled = elim (Bool-cases (is_named m.request (view d))) [
        | inr others ↦ rw others (unfold handle_rdm_message in others_lem others)
        | inl ours ↦ rw ours (elim (Bool-cases (is_known_class m)) [
          | inl known ↦
              rw known
                (served [] d _ refl (sym (append-nil d.serial)) sound (runs_known ours known))
          | inr unknown ↦ rw unknown (
              served (status_frame status_invalid_command ∷ [])
                (put_frame (status_frame status_invalid_command) d) _ refl
                (ap (λ more. d.serial ++ more) (sym (append-nil _))) sound
                (runs_unknown ours unknown))
        ])
      ]

  pub hear_lem :
      {S : Type 0} ⦃e : Eeprom S⦄ (board : Board) (d : Device S)
      → IsSound d.settings
      → Keeps d (handle_rdm_message board msg n d) (hear board bytes (view d))
  unfolding complaint rejection
  hear_lem board d sound =
      let device = handle_rdm_message board msg n d in
      elim (Bool-cases (is_packet bytes)) [
        | inr other ↦
            subst (Keeps d device)
              (sym (hear-some board bytes (view d) status_failed (rw other refl)))
              (refused board d sound status_failed
                (rw (is_malformed_lem msg bytes h held, other) refl))
        | inl packet ↦
            let formed : is_malformed msg n ≡ false =
              (is_malformed_lem msg bytes h held ∙ rw packet refl) in
            let large : 26 ≤ n = ground (arith, packet) in
            let counted : mem 2 + 2 ≡ n = ground (arith, packet) in
            let test = verify_checksum_lem msg bytes h held large counted in
            elim (Bool-cases (sums_up bytes)) [
              | inr wrong ↦
                  subst (Keeps d device)
                    (sym (
                      hear-some board bytes (view d) status_failed_checksum
                        (rw (packet, wrong) refl)))
                    (refused board d sound status_failed_checksum (rw (formed, test, wrong) refl))
              | inl right ↦
                  subst (Keeps d device)
                    (sym (hear-none board bytes (view d) (rw (packet, right) refl)))
                    (handled board d sound formed (test ∙ right) large)
            ]
      ]
