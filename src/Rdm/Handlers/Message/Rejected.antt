-- ===== src/Rdm/Handlers/Message/Rejected.antt =====
-- HandleRDMMessage on the messages that it does not handle.
use rgbmixer.Base.{ℕ, ◌≡◌, not, Option, none, some, if◌then◌else◌, Bool-cases, ap, ◌∙◌, inl, inr}
use rgbmixer.Arduino.{Eeprom}
use rgbmixer.Device.{Device}
use rgbmixer.UsbPro.Sender.{put_frame}
use rgbmixer.Rdm.Enums.{
  StatusCode, status_broadcast, status_failed, status_failed_checksum, status_invalid_destination,
}
use rgbmixer.Rdm.Sender.{Memory, return_rdm_error_response}
use rgbmixer.Rdm.Reply.{status_frame, return_rdm_error_response_lem}
use rgbmixer.Rdm.Handlers.Tables.{Board}
use rgbmixer.Rdm.Handlers.Message.{
  is_malformed, verify_checksum, is_to_us, is_broadcast, handle_rdm_message,
}

module _ {S : Type 0} ⦃e : Eeprom S⦄ where
  -- Why a message is not handled: the first of the checks that it fails.
  unfoldable pub rejection : Memory → ℕ → Device S → Option StatusCode
  rejection msg size d =
      if is_malformed msg size
      then some status_failed
      else if not (verify_checksum msg size)
      then some status_failed_checksum
      else if is_to_us msg d.settings
      then none
      else some (if is_broadcast msg then status_broadcast else status_invalid_destination)

  told :
      (given c : StatusCode) (d : Device S)
      → Path (Option StatusCode) (some given) (some c)
      → return_rdm_error_response given d ≡ put_frame (status_frame c) d
  told given c d same =
      let e : given ≡ c = cc in
      return_rdm_error_response_lem given d ∙ ap (λ code. put_frame (status_frame code) d) e

-- A message that fails a check, the first of them the shape, then the checksum, then the
-- destination, is answered by the frame of that check's status, and changes nothing else: no
-- setting, no pin, no queue and no checksum in progress.
pub handle_rdm_message-rejected :
    {S : Type 0} ⦃e : Eeprom S⦄ (board : Board) (msg : Memory) (size : ℕ) (d : Device S)
    (c : StatusCode)
    → rejection msg size d ≡ some c
    → handle_rdm_message board msg size d ≡ put_frame (status_frame c) d
unfolding handle_rdm_message rejection
handle_rdm_message-rejected board msg size d c h = elim (Bool-cases (is_malformed msg size)) [
  | inl bad ↦ rw bad (told status_failed c d (rw bad at h))
  | inr formed ↦ rw formed (elim (Bool-cases (verify_checksum msg size)) [
    | inr bad ↦ rw bad (told status_failed_checksum c d (rw (formed, bad) at h))
    | inl right ↦ rw right (elim (Bool-cases (is_to_us msg d.settings)) [
      | inl us ↦ absurd (let none_some = rw (formed, right, us) at h in cc)
      | inr others ↦ rw others (elim (Bool-cases (is_broadcast msg)) [
        | inl all ↦ rw all (told status_broadcast c d (rw (formed, right, others, all) at h))
        | inr one ↦
            rw one (told status_invalid_destination c d (rw (formed, right, others, one) at h))
      ])
    ])
  ])
]
