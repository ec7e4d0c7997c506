-- ===== src/Mixer/Queue.antt =====
-- The queue of the device label's message when a label is set, handed out and written: Idle of
-- main.cpp with RDMHandlers.cpp.
use rgbmixer.Base.{ℕ, ◌+◌, ◌-◌, ◌<◌, ◌≡◌, refl, ◌∙◌, ap, true, false, arith, none}
use rgbmixer.Arduino.{Eeprom}
use rgbmixer.Settings
use rgbmixer.Device.{Device}
use rgbmixer.Rdm.Sender.{Memory}
use rgbmixer.Rdm.Answer.{Answer, status, reply, deliver}
use rgbmixer.Rdm.Handlers.Tables.{Board, get_queued_message, set_device_label}
use rgbmixer.Rdm.Handlers.Get.{call_get_handler}
use rgbmixer.Rdm.Handlers.Get.Answers.{get_answer, after_get}
use rgbmixer.Rdm.Handlers.Get.Refines.{call_get_handler-deliver}
use rgbmixer.Rdm.Handlers.Set.{call_set_handler}
use rgbmixer.Rdm.Handlers.Set.Answers.{set_check, set_before, set_answer, set_after, set_outcome}
use rgbmixer.Rdm.Handlers.Set.Refines.{call_set_handler-outcome}
use rgbmixer.Rdm.Handlers.Queue.{waiting, queue_of}
use rgbmixer.Mixer.{queue_set_device_label, idle}

module _ {S : Type 0} ⦃e : Eeprom S⦄ where
  -- What the queue and its count look at, and the label that waits.
  abbrev SameQueue : Device S → Device S → Type 0
  SameQueue d d' =
      (d'.settings ≡ d.settings)
      × (d'.m_device_label_pending ≡ d.m_device_label_pending)
      × (d'.m_message_count ≡ d.m_message_count)

  deliver-SameQueue : (msg : Memory) (a : Answer) (d : Device S) → SameQueue d (deliver msg a d)
  unfolding deliver
  deliver-SameQueue msg (status c) d = (refl, refl, refl)
  deliver-SameQueue msg (reply rt command_class pid param_data) d = (refl, refl, refl)

  set_label :
      (board : Board) (msg : Memory) (d : Device S)
      → d.m_message_count < 255
      → let set = set_outcome board set_device_label false msg none d in
        (set.settings.m_label_pending ≡ true)
        × (set.m_device_label_pending ≡ true)
        × (set.m_message_count ≡ d.m_message_count + 1)
  unfolding set_outcome set_after
  set_label board msg d low =
      let d' = set_before board set_device_label msg d in
      let same = deliver-SameQueue msg (set_answer board set_device_label false msg d') d' in
      (
        rw (same.0) (unfold set_before Settings.set_device_label in refl),
        refl,
        rw (same.2) (unfold set_before in ground arith),
      )

  hand_out :
      (board : Board) (query : Memory) (d : Device S)
      → d.m_device_label_pending ≡ true
      → let asked = call_get_handler board get_queued_message query d in
        (asked.settings ≡ d.settings) × (asked.m_message_count ≡ d.m_message_count - 1)
  hand_out board query d waits =
      let d' = after_get get_queued_message query d in
      let same = deliver-SameQueue query (get_answer board get_queued_message query d) d' in
      let after : (d'.settings ≡ d.settings) × (d'.m_message_count ≡ d.m_message_count - 1) =
        (unfold after_get in ground arith) in
      rw (call_get_handler-deliver board get_queued_message query d)
        (same.0 ∙ after.0, same.2 ∙ after.1)

  label_written-idle :
      (d : Device S)
      → d.settings.m_label_pending ≡ true
      → (queue_of (idle d) ≡ waiting) × ((idle d).m_message_count ≡ d.m_message_count)
  unfolding idle queue_set_device_label
  label_written-idle d waits =
      let done : (Settings.perform_write d.settings).0 ≡ true =
        (unfold Settings.perform_write in ground arith) in
      rw done (refl, refl)

-- A SET of the label for this device alone passes its check, while fewer than 255 messages are
-- counted. When a GET then hands out its message before the label is written, the write puts it in
-- the queue again, but the count of messages does not tell of it: it is what it was before the
-- SET.
pub set_device_label-uncounted :
    {S : Type 0} ⦃e : Eeprom S⦄ (board : Board) (sub_device : ℕ) (msg query : Memory) (d : Device S)
    → set_check set_device_label msg ≡ none
    → d.m_message_count < 255
    → let set = call_set_handler board set_device_label false sub_device msg d in
      let asked = call_get_handler board get_queued_message query set in
      (queue_of (idle asked) ≡ waiting) × ((idle asked).m_message_count ≡ d.m_message_count)
set_device_label-uncounted board sub_device msg query d ok low =
    let set = call_set_handler board set_device_label false sub_device msg d in
    let asked = call_get_handler board get_queued_message query set in
    let sets : (set.settings.m_label_pending ≡ true)
        × (set.m_device_label_pending ≡ true)
        × (set.m_message_count ≡ d.m_message_count + 1) =
      rw (call_set_handler-outcome board set_device_label false sub_device msg d, ok)
        (set_label board msg d low) in
    let hands = hand_out board query set sets.1 in
    let writes = label_written-idle asked (ap (λ s. s.m_label_pending) hands.0 ∙ sets.0) in
    (writes.0, writes.1 ∙ omega (arith, hands.1, sets.2))
