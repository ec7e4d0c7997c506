-- ===== src/Rdm/Handlers/ReadBack.antt =====
-- A SET handler of RDMHandlers.cpp, and the GET handler that reads the same parameter afterwards.
use rgbmixer.Base.{
  ℕ, ◌+◌, ◌*◌, ◌%◌, ◌<◌, ◌≡◌, refl, ◌∙◌, ap, ap₂, Bool, not, List, [], ◌∷◌, ◌++◌, none, ◌==◌, u32,
  cells, arith,
}
use rgbmixer.Arduino.{Eeprom}
use rgbmixer.Settings
use rgbmixer.Settings.{Settings}
use rgbmixer.Settings.Words.{read_long-write_long}
use rgbmixer.Device.{Device}
use rgbmixer.Rdm.Packet.{long_bytes}
use rgbmixer.Rdm.Sender.{Memory}
use rgbmixer.Rdm.Answer.{Answer, status, reply, acks, deliver}
use rgbmixer.Rdm.Handlers.Tables.{
  Board, GetHandler, SetHandler, get_language, get_personality, get_start_address,
  get_device_power_cycles, get_identify_device, set_language, set_personality, set_start_address,
  set_device_power_cycles, set_identify_device,
}
use rgbmixer.Rdm.Handlers.Get.{call_get_handler}
use rgbmixer.Rdm.Handlers.Get.Answers.{get_answer, after_get}
use rgbmixer.Rdm.Handlers.Get.Refines.{call_get_handler-deliver}
use rgbmixer.Rdm.Handlers.Set.{call_set_handler}
use rgbmixer.Rdm.Handlers.Set.Answers.{
  request_int, request_long, set_check, set_before, set_after, set_answer, set_outcome,
}
use rgbmixer.Rdm.Handlers.Set.Refines.{call_set_handler-outcome}
use rgbmixer.Rdm.Handlers.Message.Invariant.{deliver-settings, set_after-settings}

-- The handlers of one parameter, and what a GET answers after a SET: the data of the SET, and for
-- the personality the number of personalities behind it.
pub data ReadsBack : SetHandler → GetHandler → (Memory → List ℕ) → Type 0 where
  language : ReadsBack set_language get_language (λ msg. cells msg 24 2)
  personality : ReadsBack set_personality get_personality (λ msg. msg 24 ∷ 3 ∷ [])
  start_address : ReadsBack set_start_address get_start_address (λ msg. cells msg 24 2)
  power_cycles : ReadsBack set_device_power_cycles get_device_power_cycles (λ msg. cells msg 24 4)
  identify : ReadsBack set_identify_device get_identify_device (λ msg. cells msg 24 1)

-- Four bytes as a long, and its bytes.
long_bytes-request :
    (a b c d : ℕ)
    → a < 256
    → b < 256
    → c < 256
    → d < 256
    → long_bytes (u32 (a * 16777216 + b * 65536 + c * 256 + d) % 4294967296) ≡ a ∷ b ∷ c ∷ d ∷ []
long_bytes-request a b c d ha hb hc hd =
    ap₂ ◌++◌ (ap₂ (λ x y. x ∷ y ∷ []) (omega arith) (omega arith))
      (ap₂ (λ x y. x ∷ y ∷ []) (omega arith) (omega arith))

module _ {S : Type 0} ⦃e : Eeprom S⦄ where
  deliver-identify :
      (msg : Memory) (a : Answer) (d : Device S)
      → (deliver msg a d).m_identify_mode_enabled ≡ d.m_identify_mode_enabled
  unfolding deliver
  deliver-identify msg (status c) d = refl
  deliver-identify msg (reply rt command_class pid param_data) d = refl

  -- These GETs do not touch the queue.
  silent_get :
      (query : Memory) (d : Device S) (h : SetHandler) (g : GetHandler) (value : Memory → List ℕ)
      → ReadsBack h g value
      → after_get g query d ≡ d
  unfolding after_get
  silent_get query d h g value language = refl
  silent_get query d h g value personality = refl
  silent_get query d h g value start_address = refl
  silent_get query d h g value power_cycles = refl
  silent_get query d h g value identify = refl

module _ {S : Type 0} ⦃e : Eeprom S⦄ (board : Board) (was_broadcast : Bool) (msg query : Memory)
    (d : Device S) where
  abbrev after_set : SetHandler → Device S
  after_set h = set_outcome board h was_broadcast msg none d

  after_set-settings :
      (h : SetHandler) → (after_set h).settings ≡ (set_before board h msg d).settings
  unfolding set_outcome
  after_set-settings h = set_after-settings h was_broadcast _ ∙ deliver-settings msg _ _

  after_set-identify : (after_set set_identify_device).m_identify_mode_enabled ≡ not (msg 24 == 0)
  unfolding set_outcome set_before set_after set_answer
  after_set-identify =
      let d' = set_before board set_identify_device msg d in
      deliver-identify msg (set_answer board set_identify_device was_broadcast msg d') d'

  read_back :
      (h : SetHandler) (g : GetHandler) (value : Memory → List ℕ)
      → ReadsBack h g value
      → ((i : ℕ) → msg i < 256)
      → set_check h msg ≡ none
      → get_answer board g query (after_set h) ≡ acks query (value msg)
  unfolding get_answer set_check
  read_back h g value language bytes ok =
      ap₂ (λ c1 c2. acks query (c1 ∷ c2 ∷ [])) (ground (arith, ok)) (ground (arith, ok))
  read_back h g value personality bytes ok =
      let kept : Settings.personality (after_set set_personality).settings ≡ msg 24 =
        rw (after_set-settings set_personality)
          (unfold set_before Settings.personality Settings.set_personality in refl) in
      rw kept
  read_back h g value start_address bytes ok =
      let kept : Settings.start_address (after_set set_start_address).settings ≡ request_int msg =
        rw (after_set-settings set_start_address)
          (unfold set_before Settings.start_address Settings.set_start_address in refl) in
      rw kept (
        ap₂ (λ c1 c2. acks query (c1 ∷ c2 ∷ [])) (omega (arith, bytes 24, bytes 25))
          (omega (arith, bytes 24, bytes 25)))
  read_back h g value power_cycles bytes ok =
      let kept : Settings.device_power_cycles (after_set set_device_power_cycles).settings
          ≡ request_long msg % 4294967296 =
        rw (after_set-settings set_device_power_cycles) (
          unfold set_before Settings.device_power_cycles Settings.set_device_power_cycles in
          read_long-write_long d.settings 44 (request_long msg) (omega arith)) in
      rw kept (
        ap (acks query) (
          long_bytes-request (msg 24) (msg 25) (msg 26) (msg 27) (bytes 24) (bytes 25) (bytes 26)
            (bytes 27)))
  read_back h g value identify bytes ok =
      let kept : (after_set set_identify_device).m_identify_mode_enabled ≡ not (msg 24 == 0) =
        after_set-identify in
      rw kept (ap (λ c. acks query (c ∷ [])) (ground (arith, ok)))

-- Of the language, the personality, the start address, the power cycles and the identify mode:
-- after a SET of bytes that passes its check, sent to the device or broadcast, a GET is answered
-- by the data that the SET carried, and for the personality by the number of personalities too.
pub call_set_handler-call_get_handler :
    {S : Type 0} ⦃e : Eeprom S⦄ (board : Board) (h : SetHandler) (g : GetHandler)
    (value : Memory → List ℕ) (was_broadcast : Bool) (sub_device : ℕ) (msg query : Memory)
    (d : Device S)
    → ReadsBack h g value
    → ((i : ℕ) → msg i < 256)
    → set_check h msg ≡ none
    → let d' = call_set_handler board h was_broadcast sub_device msg d in
      call_get_handler board g query d' ≡ deliver query (acks query (value msg)) d'
call_set_handler-call_get_handler board h g value b n msg query d pair bytes ok =
    let d' = set_outcome board h b msg none d in
    rw (call_set_handler-outcome board h b n msg d, ok, call_get_handler-deliver board g query d')
      (ap₂ (deliver query) (read_back board b msg query d h g value pair bytes ok)
        (silent_get query d' h g value pair))
