-- ===== src/Responder/Run.antt =====
-- Read and main of main.cpp over all that a host does.
use rgbmixer.Base.{
  ℕ, zero, suc, ◌≡◌, ◌∙◌, refl, sym, ap, subst, List, [], ◌∷◌, ◌++◌, append-nil, none, some, All,
  length, cells,
}
use rgbmixer.Arduino.{Eeprom}
use rgbmixer.Settings.{Settings}
use rgbmixer.Device.{Device}
use rgbmixer.UsbPro.Frame.{Frame, stream}
use rgbmixer.UsbPro.Receiver
use rgbmixer.UsbPro.Receiver.{Event}
use rgbmixer.UsbPro.Receiver.Pauses.{pauses, repeat, read-Paused}
use rgbmixer.Rdm.Sender.{Memory}
use rgbmixer.Rdm.Handlers.Tables.{Board}
use rgbmixer.Mixer.{idle, take_action, power_on, set_up, main}
use rgbmixer.Responder.View.{view, IsSound}
use rgbmixer.Responder.Actions.{
  Action, silence, IsAction, action_of, react, replay, silences, Brings, nothing, quiet, frame,
}
use rgbmixer.Responder.Keeps.{Keeps}
use rgbmixer.Responder.Reacts.{acted, take_action_lem}
use rgbmixer.Responder.Heeds.{Keeps-replay, kept_from_start, call_lem}
use rgbmixer.Responder.Started.{started, set_up-IsSound}

-- After events that are read, the ones that follow are read on.
read-append :
    {B D : Type 0} (callback : B → ℕ → (ℕ → ℕ) → ℕ → D → D) (idle_callback : D → D)
    (evs more : List (Event B)) (r r' : Receiver.Receiver) (d d' : D)
    → Receiver.read callback idle_callback evs r d ≡ some (r', d')
    → Receiver.read callback idle_callback (evs ++ more) r d
      ≡ Receiver.read callback idle_callback more r' d'
unfolding Receiver.read
read-append callback idle_callback [] more r r' d d' run =
    let same : (r ≡ r') × (d ≡ d') = (cc, cc) in rw (same.0, same.1)
read-append callback idle_callback (ev ∷ evs) more r r' d d' run =
    elim (Receiver.round callback idle_callback ev r d)
        as (λ o.
          (elim o [ none ↦ none | some (r1, d1) ↦ Receiver.read callback idle_callback evs r1 d1 ])
            ≡ some (r', d')
          → (elim o [
            | none ↦ none
            | some (r1, d1) ↦ Receiver.read callback idle_callback (evs ++ more) r1 d1
          ])
            ≡ Receiver.read callback idle_callback more r' d') [
              | none ↦ λ run. absurd (cc)
              | some (r1, d1) ↦ read-append callback idle_callback evs more r1 r' d1 d'
            ]
      run

after_silences :
    (n : ℕ) (actions : List Action) → All IsAction (silences n actions) → All IsAction actions
after_silences zero actions ok = ok
after_silences (suc n) actions ok = after_silences n actions ok.1

module _ {S : Type 0} ⦃e : Eeprom S⦄ where
  idle_lem : (d : Device S) → IsSound d.settings → Keeps d (idle d) (react silence (view d))
  unfolding acted
  idle_lem d sound = take_action_lem silence (λ i. 0) d tt refl sound

  repeat-IsSound : (n : ℕ) (d : Device S) → IsSound d.settings → IsSound (repeat n idle d).settings
  repeat-IsSound zero d sound = sound
  repeat-IsSound (suc n) d sound = repeat-IsSound n (idle d) (idle_lem d sound).sound

  silences-Keeps :
      (n : ℕ) (actions : List Action) (d d' : Device S)
      → IsSound d.settings
      → Keeps (repeat n idle d) d' (replay actions (view (repeat n idle d)))
      → Keeps d d' (replay (silences n actions) (view d))
  silences-Keeps zero actions d d' sound kept = kept
  silences-Keeps (suc n) actions d d' sound kept =
      let first = idle_lem d sound in
      Keeps-replay silence (silences n actions) d (idle d) d' first
        (silences-Keeps n actions (idle d) d' first.sound kept)

  frame_lem :
      (board : Board) (f : Frame) (msg : Memory) (d : Device S)
      → cells msg 0 (length f.payload) ≡ f.payload
      → IsAction (action_of board f.label f.payload)
      → IsSound d.settings
      → Keeps d
          (take_action board f.label msg (length f.payload) d)
          (react (action_of board f.label f.payload) (view d))
  frame_lem board f msg d held ok sound =
      let given = ap (action_of board f.label) held in
      subst (λ a. Keeps d (take_action board f.label msg (length f.payload) d) (react a (view d)))
        given
        (call_lem board f.label msg (length f.payload) d (subst IsAction (sym given) ok) sound)

  read-Brings :
      (actions : List Action) (events : List (Event Board)) (r : Receiver.Receiver) (d : Device S)
      → Brings actions events
      → All IsAction actions
      → IsSound d.settings
      → r.recv_mode ≡ Receiver.pre_som
      → (r' : Receiver.Receiver) × (d' : Device S) × (Receiver.read take_action idle events r d
          ≡ some (r', d'))
        × Keeps d d' (replay actions (view d))
  unfolding Receiver.read Receiver.round replay stream
  read-Brings actions events r d nothing ok sound fresh =
      (r, d, refl, record { state = refl; told = sym (append-nil d.serial); sound = sound })
  read-Brings actions events r d (quiet {actions = rest} {events = later} brings) ok sound fresh =
      let first = idle_lem d sound in
      let (r', d', reads, kept) = read-Brings rest later r (idle d) brings ok.1 first.sound fresh in
      (r', d', reads, Keeps-replay silence rest d (idle d) d' first kept)
  read-Brings actions events r d
        (frame {actions = rest} {events = now} {later = later} board f fits paused brings) ok sound
        fresh =
      let (msg, r1, reads, held, waits) =
        read-Paused take_action idle board f now r d fits fresh paused in
      let d0 = repeat (pauses now) idle d in
      let a = action_of board f.label f.payload in
      let ok' = after_silences (pauses now) (a ∷ rest) ok in
      let d1 = take_action board f.label msg (length f.payload) d0 in
      let first : Keeps d0 d1 (react a (view d0)) =
        frame_lem board f msg d0 held ok'.0 (repeat-IsSound (pauses now) d sound) in
      let (r', d', reads', kept) = read-Brings rest later r1 d1 brings ok'.1 first.sound waits in
      (
        r',
        d',
        read-append take_action idle now later r r1 d d1 reads ∙ reads',
        silences-Keeps (pauses now) (a ∷ rest) d d' sound (Keeps-replay a rest d0 d1 d' first kept),
      )

-- What a host does over the serial line, from the start of the firmware on: frames, in any order
-- and any number, with silence at any time, also between the bytes of a frame. Their payloads have
-- at most 600 bytes; one for RDM holds bytes below 256 and, if it has the size of a packet, as
-- much data as its data size byte says. Whatever the EEPROM held and RAM and stack hold, the
-- firmware reads all of it without an overrun; the settings, the label that waits, the identify
-- mode, the queued message and the message count of the firmware are then those that the responder
-- has after the same frames and silences, from the state that the EEPROM starts; and it wrote to
-- the line the frames of the responder, in their order, and nothing else.
pub main-Brings :
    {S : Type 0} ⦃e : Eeprom S⦄ (s : Settings S) (stack : ℕ → ℕ) (actions : List Action)
    (events : List (Event Board))
    → Brings actions events
    → All IsAction actions
    → (r : Receiver.Receiver) × (d : Device S) × (main s stack events ≡ some (r, d))
      × (view d ≡ (replay actions (started s)).0)
      × (d.serial ≡ stream (replay actions (started s)).1)
unfolding main Receiver.start
main-Brings s stack actions events brings ok =
    let (r, d, reads, kept) =
      read-Brings actions events (Receiver.start stack) (set_up (power_on s)) brings ok
        (set_up-IsSound s) refl in
    let (state, told) = kept_from_start s actions d kept in (r, d, reads, state, told)
