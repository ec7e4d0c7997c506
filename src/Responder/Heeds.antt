-- ===== src/Responder/Heeds.antt =====
-- Read and main of main.cpp over any events of the line, whole frames or not.
use rgbmixer.Base.{
  ℕ, ◌≡◌, ◌∙◌, refl, sym, ap, subst, List, [], ◌∷◌, ◌++◌, append-nil, append_assoc, none, some, All,
  length, length-cells, cells, ◌==◌, if◌then◌else◌, Bool-cases, inl, inr, ==→eq,
}
use rgbmixer.Arduino.{Eeprom}
use rgbmixer.Settings.{Settings}
use rgbmixer.Device.{Device}
use rgbmixer.UsbPro.Frame.{stream, stream-append}
use rgbmixer.UsbPro.Receiver
use rgbmixer.UsbPro.Receiver.{Event}
use rgbmixer.Rdm.Sender.{Memory}
use rgbmixer.Rdm.Handlers.Tables.{Board}
use rgbmixer.Mixer.{idle, take_action, power_on, set_up, main}
use rgbmixer.Responder.View.{view, IsSound}
use rgbmixer.Responder.Actions.{
  Action, silence, IsAction, payload_of, action_of, actions_in, react, replay,
}
use rgbmixer.Responder.Keeps.{Keeps}
use rgbmixer.Responder.Reacts.{acted, take_action_lem}
use rgbmixer.Responder.Started.{started, started_lem, set_up-IsSound, set_up-silent}

-- The actions in the events, by what became of the first byte.
abbrev heard : Board → Receiver.Outcome → List (Event Board) → List Action
heard board o events = elim o [
  | Receiver.waits r1 ↦ actions_in events r1
  | Receiver.calls label msg size r1 ↦
      action_of board label (cells msg 0 size) ∷ actions_in events r1
  | Receiver.overrun ↦ []
]

module _ {S : Type 0} ⦃e : Eeprom S⦄ where
  -- The first action and the others.
  pub Keeps-replay :
      (a : Action) (actions : List Action) (d d1 d2 : Device S)
      → Keeps d d1 (react a (view d))
      → Keeps d1 d2 (replay actions (view d1))
      → Keeps d d2 (replay (a ∷ actions) (view d))
  unfolding replay
  Keeps-replay a actions d d1 d2 first rest = record {
    state = rest.state ∙ ap (λ v. (replay actions v).0) first.state;
    told =
        rest.told
        ∙ ap (λ v. d1.serial ++ stream (replay actions v).1) first.state
        ∙ ap (λ bytes. bytes ++ stream (replay actions (react a (view d)).0).1) first.told
        ∙ append_assoc d.serial (stream (react a (view d)).1) _
        ∙ ap (λ bytes. d.serial ++ bytes) (sym (stream-append (react a (view d)).1 _));
    sound = rest.sound;
  }

  -- A call is for an action with its label and its payload.
  module _ (board : Board) (label : ℕ) (payload : List ℕ) (msg : Memory) (d : Device S) where
    Fits : Action → Type 0
    Fits a =
        (acted a msg d ≡ take_action board label msg (length payload) d) × (payload_of a ≡ payload)

    pick :
        (k : ℕ) (a b : Action) → (label ≡ k → Fits a) → Fits b → Fits (if label == k then a else b)
    pick k a b h h' = elim (Bool-cases (label == k)) [
      | inl same ↦ rw same (h (==→eq label k same))
      | inr differs ↦ rw differs h'
    ]

    labelled :
        (k : ℕ)
        → label ≡ k
        → take_action board k msg (length payload) d
          ≡ take_action board label msg (length payload) d
    labelled k same = ap (λ l. take_action board l msg (length payload) d) (sym same)

    picked : Fits (action_of board label payload)
    unfolding acted Fits
    picked =
        pick 3 _ _ (λ same. (labelled 3 same, refl))
          (pick 6 _ _ (λ same. (labelled 6 same, refl))
            (pick 10 _ _ (λ same. (labelled 10 same, refl))
              (pick 78 _ _ (λ same. (labelled 78 same, refl))
                (pick 77 _ _ (λ same. (labelled 77 same, refl))
                  (pick 82 _ _ (λ same. (labelled 82 same, refl)) (refl, refl))))))

  pub call_lem :
      (board : Board) (label : ℕ) (msg : Memory) (size : ℕ) (d : Device S)
      → let a = action_of board label (cells msg 0 size) in
        IsAction a
        → IsSound d.settings
        → Keeps d (take_action board label msg size d) (react a (view d))
  unfolding Fits
  call_lem board label msg size d ok sound =
      let a = action_of board label (cells msg 0 size) in
      let counted : length (cells msg 0 size) ≡ size = length-cells msg 0 size in
      let (does, bytes) = picked board label (cells msg 0 size) msg d in
      let held : cells msg 0 (length (payload_of a)) ≡ payload_of a =
        rw bytes (ap (cells msg 0) counted) in
      subst (λ d'. Keeps d d' (react a (view d)))
        (does ∙ ap (λ n. take_action board label msg n d) counted)
        (take_action_lem a msg d ok held sound)

  pub read-actions_in :
      (events : List (Event Board)) (r r' : Receiver.Receiver) (d d' : Device S)
      → Receiver.read take_action idle events r d ≡ some (r', d')
      → All IsAction (actions_in events r)
      → IsSound d.settings
      → Keeps d d' (replay (actions_in events r) (view d))
  unfolding Receiver.read Receiver.round Receiver.act actions_in stream replay
  read-actions_in [] r r' d d' run ok sound =
      let same : d ≡ d' = cc in
      subst (λ d'. Keeps d d' (view d, [])) same
        (record { state = refl; told = sym (append-nil d.serial); sound = sound })
  read-actions_in (Receiver.idle ∷ events) r r' d d' run ok sound =
      let first = take_action_lem silence r.message d tt refl sound in
      Keeps-replay silence (actions_in events r) d (idle d) d' (unfold acted in first)
        (read-actions_in events r r' (idle d) d' run ok.1 (unfold acted in first.sound))
  read-actions_in (Receiver.byte board value ∷ events) r r' d d' run ok sound =
      elim (Receiver.receive r value)
          as (λ o.
            (elim (Receiver.act take_action idle board o d) [
              | none ↦ none
              | some (r1, d1) ↦ Receiver.read take_action idle events r1 d1
            ])
              ≡ some (r', d')
            → All IsAction (heard board o events)
            → Keeps d d' (replay (heard board o events) (view d))) [
              | Receiver.waits r1 ↦ λ run ok. read-actions_in events r1 r' d d' run ok sound
              | Receiver.calls label msg size r1 ↦ λ run ok.
                  let first = call_lem board label msg size d ok.0 sound in
                  Keeps-replay (action_of board label (cells msg 0 size)) (actions_in events r1) d _
                    d' first (read-actions_in events r1 r' _ d' run ok.1 first.sound)
              | Receiver.overrun ↦ λ run ok. absurd (cc)
            ]
        run ok

-- From the state that the EEPROM starts.
pub kept_from_start :
    {S : Type 0} ⦃e : Eeprom S⦄ (s : Settings S) (actions : List Action) (d : Device S)
    → Keeps (set_up (power_on s)) d (replay actions (view (set_up (power_on s))))
    → (view d ≡ (replay actions (started s)).0) × (d.serial ≡ stream (replay actions (started s)).1)
kept_from_start s actions d kept = (
  kept.state ∙ ap (λ v. (replay actions v).0) (started_lem s),
  kept.told
      ∙ ap (λ bytes. bytes ++ stream (replay actions (view (set_up (power_on s)))).1)
          (set_up-silent s)
      ∙ ap (λ v. stream (replay actions v).1) (started_lem s),
)

-- Whatever comes over the serial line, with silence at any time, also between the bytes of a
-- frame, and bytes that are no frame: at any time before an overrun of the receiver's buffer, the
-- settings, the label that waits, the identify mode, the queued message and the message count of
-- the firmware are those that the responder has after the silences and the frames that the
-- receiver made of these events, from the state that the EEPROM starts, and it wrote to the line
-- the frames of the responder, in their order, and nothing else. Each frame for RDM holds bytes
-- below 256, at most 600 of them, and if it has the size of a packet, as much data as its data
-- size byte says; the other frames have at most 600 bytes.
pub main-actions_in :
    {S : Type 0} ⦃e : Eeprom S⦄ (s : Settings S) (stack : ℕ → ℕ) (events : List (Event Board))
    (r : Receiver.Receiver) (d : Device S)
    → main s stack events ≡ some (r, d)
    → All IsAction (actions_in events (Receiver.start stack))
    → (view d ≡ (replay (actions_in events (Receiver.start stack)) (started s)).0)
      × (d.serial ≡ stream (replay (actions_in events (Receiver.start stack)) (started s)).1)
unfolding main
main-actions_in s stack events r d run ok =
    kept_from_start s (actions_in events (Receiver.start stack)) d (
      read-actions_in events (Receiver.start stack) r (set_up (power_on s)) d run ok
        (set_up-IsSound s))
