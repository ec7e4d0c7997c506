-- ===== src/UsbPro/Receiver/Pauses.antt =====
-- Read of UsbProReceiver.cpp on a frame whose bytes come with pauses between them, in which the loop
-- calls the idle callback.
use rgbmixer.Base.{
  ℕ, zero, suc, ◌%◌, ◌/◌, ◌≤◌, ◌≡◌, refl, ◌∙◌, List, [], ◌∷◌, ◌++◌, append-nil, map, none, some,
  length, cells, arith,
}
use rgbmixer.UsbPro.Frame.{Frame, frame_bytes, som, eom}
use rgbmixer.UsbPro.Receiver.{
  pre_som, waiting_for_eom, Receiver, waits, calls, overrun, receive, dispatch, Event, idle, byte,
  act, round, read, message_capacity,
}
use rgbmixer.UsbPro.Receiver.Steps.{receiver, read_waits, read_calls}
use rgbmixer.UsbPro.Receiver.Induction.{read_inv}
use rgbmixer.UsbPro.Receiver.Frames.{received, cells-received, read_header, read_payload}

-- The bytes as they come: any number of silent rounds before each of them.
pub data Paused {B : Type 0} (b : B) : List ℕ → List (Event B) → Type 0 where
  done : Paused b [] []
  pause :
      {x : ℕ} {xs : List ℕ} {evs : List (Event B)}
      → Paused b (x ∷ xs) evs
      → Paused b (x ∷ xs) (idle ∷ evs)
  arrive :
      (x : ℕ) {xs : List ℕ} {evs : List (Event B)}
      → Paused b xs evs
      → Paused b (x ∷ xs) (byte b x ∷ evs)

abbrev pub pauses : {B : Type 0} → List (Event B) → ℕ
pauses [] = 0
pauses (idle ∷ evs) = suc (pauses evs)
pauses (byte b x ∷ evs) = pauses evs

abbrev pub repeat : {D : Type 0} → ℕ → (D → D) → D → D
repeat zero f d = d
repeat (suc n) f d = repeat n f (f d)

-- The last of the bytes, and no other, leads to a call.
data Delivers (label : ℕ) (m : ℕ → ℕ) (size : ℕ) (r' : Receiver) : List ℕ → Receiver → Type 0 where
  last :
      {x : ℕ} {r : Receiver}
      → receive r x ≡ calls label m size r'
      → Delivers label m size r' (x ∷ []) r
  more :
      {x : ℕ} {xs : List ℕ} {r r1 : Receiver}
      → receive r x ≡ waits r1
      → Delivers label m size r' xs r1
      → Delivers label m size r' (x ∷ xs) r

-- Bytes that are read without a call, seen by counting the calls.
counts : {B : Type 0} → B → ℕ → (ℕ → ℕ) → ℕ → ℕ → ℕ
counts b label m size n = suc n

keeps : ℕ → ℕ
keeps n = n

module _ {B : Type 0} (b : B) (label : ℕ) (m : ℕ → ℕ) (size : ℕ) (r' : Receiver) (z : ℕ) where
  counted :
      (evs : List (Event B)) (r r1 : Receiver) (n k : ℕ)
      → read counts keeps evs r n ≡ some (r1, k)
      → n ≤ k
  unfolding counts keeps
  counted evs r r1 n k run =
      read_inv counts keeps ◌≤◌ (λ n. omega arith) (λ x y z h k. omega arith)
        (λ b l m s n. omega arith) (λ n. omega arith) evs r n r1 k run

  delivers :
      (xs : List ℕ) (r r1 : Receiver)
      → read counts keeps (map (byte b) xs) r 0 ≡ some (r1, 0)
      → receive r1 z ≡ calls label m size r'
      → Delivers label m size r' (xs ++ z ∷ []) r
  unfolding read round act counts
  delivers [] r r1 run ends = let same : r1 ≡ r = cc in last (rw same at ends)
  delivers (x ∷ xs) r r1 run ends =
      elim (receive r x)
          as (λ o.
            receive r x ≡ o
            → (elim (act counts keeps b o 0) [
              | none ↦ none
              | some (r2, n) ↦ read counts keeps (map (byte b) xs) r2 n
            ])
              ≡ some (r1, 0)
            → Delivers label m size r' (x ∷ (xs ++ z ∷ [])) r) [
              | waits r2 ↦ λ here run. more here (delivers xs r2 r1 run ends)
              | calls l m s r2 ↦ λ here run.
                  let early = counted (map (byte b) xs) r2 r1 1 0 run in absurd (omega arith)
              | overrun ↦ λ here run. absurd (cc)
            ]
        refl run

module _ {B D : Type 0} (callback : B → ℕ → (ℕ → ℕ) → ℕ → D → D) (idle_callback : D → D) (b : B)
    (label : ℕ) (m : ℕ → ℕ) (size : ℕ) (r' : Receiver) where
  read_slowly :
      (xs : List ℕ) (evs : List (Event B)) (r : Receiver) (d : D)
      → Delivers label m size r' xs r
      → Paused b xs evs
      → read callback idle_callback evs r d
        ≡ some (r', callback b label m size (repeat (pauses evs) idle_callback d))
  unfolding read round act
  read_slowly xs evs r d call done = elim call [ ]
  read_slowly xs evs r d call (pause {evs = later} p) =
      read_slowly xs later r (idle_callback d) call p
  read_slowly xs evs r d (last here) (arrive x done) =
      read_calls callback idle_callback b x label size m [] r r' d here
  read_slowly xs evs r d (more {r1 = r1} here call) (arrive x {xs = rest} {evs = later} p) =
      read_waits callback idle_callback b x later r r1 d here ∙ read_slowly rest later r1 d call p

-- A frame whose payload the buffer holds is received whole, however long the line is silent before
-- each of its bytes: the idle callback is called once for each silent round of the loop, then the
-- callback once, with the label, the size and a memory that begins with the payload, and the receiver
-- waits for the next frame.
pub read-Paused :
    {B D : Type 0} (callback : B → ℕ → (ℕ → ℕ) → ℕ → D → D) (idle_callback : D → D) (b : B)
    (f : Frame) (evs : List (Event B)) (r : Receiver) (d : D)
    → length f.payload ≤ message_capacity
    → r.recv_mode ≡ pre_som
    → Paused b (frame_bytes f) evs
    → (m : ℕ → ℕ) × (r' : Receiver) × (read callback idle_callback evs r d
        ≡ some (r', callback b f.label m (length f.payload) (repeat (pauses evs) idle_callback d)))
      × (cells m 0 (length f.payload) ≡ f.payload)
      × (r'.recv_mode ≡ pre_som)
unfolding frame_bytes receive dispatch read received
read-Paused callback idle_callback b f evs r d fits fresh paused =
    let n = length f.payload in
    let m = received f r.message in
    let size = n % 256 ∷ n / 256 % 256 ∷ [] in
    let before = som ∷ f.label ∷ (size ++ f.payload) in
    let filled = receiver waiting_for_eom f.label n n m in
    let next = receiver pre_som f.label n n m in
    let header = read_header counts keeps b f (map (byte b) f.payload) r 0 (omega arith) fresh in
    let payload = read_payload counts keeps b f.label f.payload r.message [] 0 fits in
    let quiet : read counts keeps (map (byte b) before) r 0 ≡ some (filled, 0) =
      (header ∙ rw (append-nil (map (byte b) f.payload)) at payload) in
    let call = delivers b f.label m n next eom before r filled quiet refl in
    (
      m,
      next,
      read_slowly callback idle_callback b f.label m n next (frame_bytes f) evs r d call paused,
      cells-received f r.message,
      refl,
    )
