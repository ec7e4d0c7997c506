-- ===== src/Rdm/Handlers/Message/Invariant.antt =====
-- A rule for the invariants of the settings under HandleRDMMessage.
use rgbmixer.Base.{ℕ, ◌≡◌, refl, Bool, false, Option, none, some, arith, subst, sym}
use rgbmixer.Arduino.{Eeprom}
use rgbmixer.Settings.{Settings}
use rgbmixer.Device.{Device}
use rgbmixer.Rdm.Enums.{status_invalid_command, NackReason}
use rgbmixer.Rdm.Sender.{Memory}
use rgbmixer.Rdm.Answer.{Answer, status, reply, deliver, nacks}
use rgbmixer.Rdm.Handlers.Tables.{
  Board, GetHandler, SetHandler, get_queued_message, set_device_label,
}
use rgbmixer.Rdm.Handlers.Get.Answers.{after_get, get_answer}
use rgbmixer.Rdm.Handlers.Set.Answers.{set_check, set_before, set_after, set_outcome, refusal}
use rgbmixer.Rdm.Handlers.Message.{handle_rdm_message, handle_command, is_broadcast}
use rgbmixer.Rdm.Handlers.Message.Cases.{handle_rdm_message_cases, handle_command_cases}

module _ {S : Type 0} ⦃e : Eeprom S⦄ where
  pub deliver-settings :
      (msg : Memory) (a : Answer) (d : Device S) → (deliver msg a d).settings ≡ d.settings
  unfolding deliver
  deliver-settings msg (status c) d = refl
  deliver-settings msg (reply rt command_class pid param_data) d = refl

  pub after_get-settings :
      (h : GetHandler) (msg : Memory) (d : Device S) → (after_get h msg d).settings ≡ d.settings
  unfolding after_get
  after_get-settings get_queued_message msg d = ground arith
  after_get-settings h msg d = refl

  pub set_after-settings :
      (h : SetHandler) (b : Bool) (d : Device S) → (set_after h b d).settings ≡ d.settings
  unfolding set_after
  set_after-settings set_device_label false d = refl
  set_after-settings h b d = refl

-- A property of the device that its parts keep: the delivery of an answer, what a GET changes, what
-- an accepted SET changes before its answer and after it. Every message keeps it.
module _ {ℓ} {S : Type 0} ⦃e : Eeprom S⦄ (P : Device S → Type ℓ)
    (on_deliver : (msg : Memory) (a : Answer) (d : Device S) → P d → P (deliver msg a d))
    (on_get : (h : GetHandler) (msg : Memory) (d : Device S) → P d → P (after_get h msg d))
    (on_set : (board : Board) (h : SetHandler) (msg : Memory) (d : Device S)
      → set_check h msg ≡ none
      → P d
      → P (set_before board h msg d))
    (on_answered : (h : SetHandler) (b : Bool) (d : Device S) → P d → P (set_after h b d)) where
  set_outcome-keeps :
      (board : Board) (h : SetHandler) (b : Bool) (msg : Memory) (c : Option NackReason)
      (d : Device S)
      → set_check h msg ≡ c
      → P d
      → P (set_outcome board h b msg c d)
  unfolding set_outcome
  set_outcome-keeps board h b msg (some reason) d e held =
      on_deliver msg (refusal h b msg reason) d held
  set_outcome-keeps board h b msg none d e held =
      on_answered h b _ (on_deliver msg _ _ (on_set board h msg d e held))

  handle_command-keeps :
      (board : Board) (msg : Memory) (d : Device S) → P d → P (handle_command board msg d)
  handle_command-keeps board msg d held =
      handle_command_cases board msg d P (λ c. on_deliver msg (status c) d held)
        (λ reason one. on_deliver msg (nacks msg reason) d held)
        (λ h get one.
          on_deliver msg (get_answer board h msg d) (after_get h msg d) (on_get h msg d held))
        (λ p h set found is_h.
          set_outcome-keeps board h (is_broadcast msg) msg (set_check h msg) d refl held)

  pub handle_rdm_message-keeps_device :
      (board : Board) (msg : Memory) (size : ℕ) (d : Device S)
      → P d
      → P (handle_rdm_message board msg size d)
  handle_rdm_message-keeps_device board msg size d held =
      handle_rdm_message_cases board msg d P (λ c. on_deliver msg (status c) d held)
        (λ reason one. on_deliver msg (nacks msg reason) d held)
        (λ h get one.
          on_deliver msg (get_answer board h msg d) (after_get h msg d) (on_get h msg d held))
        (λ p h set found is_h.
          set_outcome-keeps board h (is_broadcast msg) msg (set_check h msg) d refl held)
        size
        (λ other.
          handle_command-keeps board msg (deliver msg (status status_invalid_command) d)
            (on_deliver msg (status status_invalid_command) d held))

-- A property of the settings that the accepted SETs keep, every message keeps.
pub handle_rdm_message-keeps {ℓ} :
    {S : Type 0} ⦃e : Eeprom S⦄ (P : Settings S → Type ℓ)
    (on_set : (board : Board) (h : SetHandler) (msg : Memory) (d : Device S)
      → set_check h msg ≡ none
      → P d.settings
      → P (set_before board h msg d).settings)
    (board : Board) (msg : Memory) (size : ℕ) (d : Device S)
    → P d.settings
    → P (handle_rdm_message board msg size d).settings
handle_rdm_message-keeps P on_set =
    handle_rdm_message-keeps_device (λ d. P d.settings)
      (λ msg a d held. subst P (sym (deliver-settings msg a d)) held)
      (λ h msg d held. subst P (sym (after_get-settings h msg d)) held) on_set
      (λ h b d held. subst P (sym (set_after-settings h b d)) held)
