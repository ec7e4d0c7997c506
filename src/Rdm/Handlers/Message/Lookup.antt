-- ===== src/Rdm/Handlers/Message/Lookup.antt =====
-- The loop over PID_DEFINITIONS in HandleRDMMessage and HandleGetSupportedParameters of
-- RDMHandlers.cpp.
use rgbmixer.Base.{
  ℕ, ◌≡◌, refl, Bool, true, false, ◌||◌, not, ◌&&◌, List, [], ◌∷◌, ◌++◌, Option, none, some, ◌==◌,
  if◌then◌else◌, ==→eq, Bool-cases, inl, inr, arith,
}
use rgbmixer.Arduino.{Eeprom}
use rgbmixer.Device.{Device}
use rgbmixer.Rdm.Packet.{int_bytes}
use rgbmixer.Rdm.Sender.{Memory}
use rgbmixer.Rdm.Answer.{deliver, acks}
use rgbmixer.Rdm.Handlers.Tables.{Board, PidDefinition, get_supported_parameters, pid_definitions}
use rgbmixer.Rdm.Handlers.Get.{call_get_handler}
use rgbmixer.Rdm.Handlers.Get.Answers.{get_answer, after_get}
use rgbmixer.Rdm.Handlers.Get.Refines.{call_get_handler-deliver}
use rgbmixer.Rdm.Handlers.Message.{find_pid}

-- The first entry with an id.
abbrev pub first_pid : ℕ → List PidDefinition → Option PidDefinition
first_pid id [] = none
first_pid id (p ∷ ps) = if p.pid == id then some p else first_pid id ps

abbrev has_pid : ℕ → List PidDefinition → Bool
has_pid id [] = false
has_pid id (p ∷ ps) = p.pid == id || has_pid id ps

-- No id stands twice.
abbrev is_distinct : List PidDefinition → Bool
is_distinct [] = true
is_distinct (p ∷ ps) = not (has_pid p.pid ps) && is_distinct ps

find_pid-absent :
    (id : ℕ) (ps : List PidDefinition) (found : Option PidDefinition)
    → has_pid id ps ≡ false
    → find_pid id ps found ≡ found
unfolding find_pid
find_pid-absent id [] found absent = refl
find_pid-absent id (p ∷ ps) found absent =
    let other : (p.pid == id) ≡ false = ground (arith, absent) in
    let rest : has_pid id ps ≡ false = ground (arith, absent) in
    rw other (find_pid-absent id ps found rest)

find_pid-distinct :
    (id : ℕ) (ps : List PidDefinition)
    → is_distinct ps ≡ true
    → find_pid id ps none ≡ first_pid id ps
unfolding find_pid
find_pid-distinct id [] distinct = refl
find_pid-distinct id (p ∷ ps) distinct =
    let absent : has_pid p.pid ps ≡ false = ground (arith, distinct) in
    let rest : is_distinct ps ≡ true = ground (arith, distinct) in
    elim (Bool-cases (p.pid == id)) [
      | inl same ↦ rw same (find_pid-absent id ps (some p) (rw (==→eq p.pid id same) at absent))
      | inr other ↦ rw other (find_pid-distinct id ps rest)
    ]

-- The loop over the whole table, which keeps the last entry with the id, finds the first one: the
-- table has no id twice.
pub find_pid-first : (id : ℕ) → find_pid id pid_definitions none ≡ first_pid id pid_definitions
unfolding pid_definitions
find_pid-first id = find_pid-distinct id pid_definitions refl

-- The entries that are marked as supported, and the ids of some entries as the packet has them.
abbrev pub supported : List PidDefinition → List PidDefinition
supported [] = []
supported (p ∷ ps) = if p.include_in_supported_params then p ∷ supported ps else supported ps

abbrev pub pids_bytes : List PidDefinition → List ℕ
pids_bytes [] = []
pids_bytes (p ∷ ps) = int_bytes p.pid ++ pids_bytes ps

abbrev pub is_some {ℓ} : {A : Type ℓ} → Option A → Bool
is_some none = false
is_some (some a) = true

-- The loop finds an entry with the id, and the entry has a handler.
abbrev pub is_served : Option PidDefinition → Bool
is_served none = false
is_served (some p) = is_some p.get_handler || is_some p.set_handler

abbrev pub all_served : List PidDefinition → Bool
all_served [] = true
all_served (p ∷ ps) = is_served (find_pid p.pid pid_definitions none) && all_served ps

-- GET SUPPORTED_PARAMETERS answers by the ids of the marked entries of the table in their order, and
-- HandleRDMMessage finds each of these ids in the table, with a handler for GET or for SET.
pub get_supported_parameters-served :
    {S : Type 0} ⦃e : Eeprom S⦄ (board : Board) (msg : Memory) (d : Device S)
    → (call_get_handler board get_supported_parameters msg d
        ≡ deliver msg (acks msg (pids_bytes (supported pid_definitions))) d)
      × (all_served (supported pid_definitions) ≡ true)
unfolding pid_definitions get_answer after_get find_pid
get_supported_parameters-served board msg d =
    (call_get_handler-deliver board get_supported_parameters msg d, refl)
