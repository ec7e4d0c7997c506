-- ===== src/Rdm/Handlers/Queue.antt =====
-- The queue of RDMHandlers.cpp for the message that a device label was written, as a state machine.
use rgbmixer.Base.{◌≡◌, refl, ◌∙◌, ap, Bool, true, false, [], ◌==◌, arith}
use rgbmixer.Arduino.{Eeprom}
use rgbmixer.Device.{Device}
use rgbmixer.Rdm.Enums.{
  ack, get_command_response, set_command_response, pid_device_label, pid_status_messages,
}
use rgbmixer.Rdm.Sender.{Memory}
use rgbmixer.Rdm.Answer.{Answer, status, reply, deliver}
use rgbmixer.Rdm.Handlers.Tables.{Board, get_queued_message}
use rgbmixer.Rdm.Handlers.Get.{call_get_handler}
use rgbmixer.Rdm.Handlers.Get.Answers.{get_answer, after_get}
use rgbmixer.Rdm.Handlers.Get.Refines.{call_get_handler-deliver}

-- No message, one that waits, or one that was handed out and may be asked for again.
pub data Queue : Type 0 where
  empty waiting handed_out : Queue

abbrev pub queue_state : Bool → Bool → Queue
queue_state true sent = waiting
queue_state false true = handed_out
queue_state false false = empty

abbrev pub queue_of : {S : Type 0} → Device S → Queue
queue_of d = queue_state d.m_device_label_pending d.m_sent_device_label

-- What a GET of QUEUED_MESSAGE does to it, by whether the host asks for the last message again.
unfoldable pub next : Queue → Bool → Queue
next empty again = empty
next waiting again = handed_out
next handed_out true = handed_out
next handed_out false = empty

-- And how it is answered: by the response to the SET of the label, or by no status message.
unfoldable pub response : Queue → Bool → Answer
response waiting again = reply ack set_command_response pid_device_label []
response handed_out true = reply ack set_command_response pid_device_label []
response handed_out false = reply ack get_command_response pid_status_messages []
response empty again = reply ack get_command_response pid_status_messages []

module _ {S : Type 0} ⦃e : Eeprom S⦄ where
  deliver-queue :
      (msg : Memory) (a : Answer) (d : Device S) → queue_of (deliver msg a d) ≡ queue_of d
  unfolding deliver
  deliver-queue msg (status c) d = refl
  deliver-queue msg (reply rt command_class pid param_data) d = refl

  after_get-queue :
      (msg : Memory) (d : Device S)
      → queue_of (after_get get_queued_message msg d) ≡ next (queue_of d) (msg 24 == 1)
  unfolding after_get next
  after_get-queue msg d = ground arith

  response_lem :
      (board : Board) (msg : Memory) (d : Device S)
      → get_answer board get_queued_message msg d ≡ response (queue_of d) (msg 24 == 1)
  unfolding get_answer response
  response_lem board msg d = ground arith

-- A GET of QUEUED_MESSAGE answers and changes the queue as the state machine says.
pub call_get_handler-next :
    {S : Type 0} ⦃e : Eeprom S⦄ (board : Board) (msg : Memory) (d : Device S)
    → let d' = call_get_handler board get_queued_message msg d in
      (d' ≡ deliver msg (response (queue_of d) (msg 24 == 1)) (after_get get_queued_message msg d))
      × (queue_of d' ≡ next (queue_of d) (msg 24 == 1))
call_get_handler-next board msg d =
    let run =
      call_get_handler-deliver board get_queued_message msg d
      ∙ ap (λ a. deliver msg a (after_get get_queued_message msg d)) (response_lem board msg d) in
    (run, ap queue_of run ∙ deliver-queue msg _ _ ∙ after_get-queue msg d)
