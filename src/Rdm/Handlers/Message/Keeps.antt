-- ===== src/Rdm/Handlers/Message/Keeps.antt =====
-- HandleRDMMessage on a GET, and the state.
use rgbmixer.Base.{ℕ, ◌≡◌, refl, true, false, ◌==◌, arith, ◌∙◌, sym, eq→==}
use rgbmixer.Arduino.{Eeprom}
use rgbmixer.Device.{Device}
use rgbmixer.Rdm.Enums.{get_command}
use rgbmixer.Rdm.Sender.{Memory}
use rgbmixer.Rdm.Answer.{Answer, status, reply, deliver}
use rgbmixer.Rdm.Handlers.Tables.{Board, GetHandler, get_queued_message}
use rgbmixer.Rdm.Handlers.Get.Answers.{after_get}
use rgbmixer.Rdm.Handlers.Message.{is_get_or_set, handle_rdm_message}
use rgbmixer.Rdm.Handlers.Message.Cases.{handle_rdm_message_cases}

-- The same settings, identify mode and pins.
pub record SameSettings {S : Type 0} (d d' : Device S) : Type 0 where
  pub settings : d'.settings ≡ d.settings
  pub identify : d'.m_identify_mode_enabled ≡ d.m_identify_mode_enabled
  pub led : d'.led_state ≡ d.led_state
  pub pins : d'.pins ≡ d.pins

module _ {S : Type 0} ⦃e : Eeprom S⦄ where
  deliver-SameSettings :
      (msg : Memory) (a : Answer) (d s : Device S)
      → SameSettings d s
      → SameSettings d (deliver msg a s)
  unfolding deliver
  deliver-SameSettings msg (status c) d s h = record {
    settings = h.settings;
    identify = h.identify;
    led = h.led;
    pins = h.pins;
  }
  deliver-SameSettings msg (reply rt cls pid bytes) d s h = record {
    settings = h.settings;
    identify = h.identify;
    led = h.led;
    pins = h.pins;
  }

  same : (d : Device S) → SameSettings d d
  same d = record { settings = refl; identify = refl; led = refl; pins = refl }

  after_get-SameSettings :
      (h : GetHandler) (msg : Memory) (d : Device S) → SameSettings d (after_get h msg d)
  unfolding after_get
  after_get-SameSettings get_queued_message msg d = record {
    settings = ground arith;
    identify = ground arith;
    led = ground arith;
    pins = ground arith;
  }
  after_get-SameSettings h msg d = same d

-- A message with the class GET changes no setting, no pin and not the identify mode, whatever its
-- parameter and its data are.
pub handle_rdm_message_get-SameSettings :
    {S : Type 0} ⦃e : Eeprom S⦄ (board : Board) (msg : Memory) (size : ℕ) (d : Device S)
    → msg 20 ≡ get_command
    → SameSettings d (handle_rdm_message board msg size d)
unfolding is_get_or_set
handle_rdm_message_get-SameSettings board msg size d get =
    let is_get : (msg 20 == get_command) ≡ true = eq→== _ _ get in
    handle_rdm_message_cases board msg d (SameSettings d)
      (λ c. deliver-SameSettings msg _ d d (same d))
      (λ reason one. deliver-SameSettings msg _ d d (same d))
      (λ h is one. deliver-SameSettings msg _ d _ (after_get-SameSettings h msg d))
      (λ p h not_get found is_h. absurd (let e : true ≡ false = sym is_get ∙ not_get in cc)) size
      (λ other. absurd (ground (arith, is_get)))
