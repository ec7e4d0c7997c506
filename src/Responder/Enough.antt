-- ===== src/Responder/Enough.antt =====
-- A GET handler of the table is called with the data that it reads.
use rgbmixer.Base.{
  ℕ, ◌≤◌, ◌≡◌, ◌∙◌, refl, Bool, true, not, ◌&&◌, ◌||◌, List, [], ◌∷◌, Option, none, some, ◌==◌, leb,
  arith, Bool-cases, inl, inr, All,
}
use rgbmixer.Rdm.Enums.{get_command}
use rgbmixer.Rdm.Handlers.Tables.{PidDefinition, GetHandler, SetHandler, pid_definitions}
use rgbmixer.Rdm.Handlers.Message.{find_pid}
use rgbmixer.Rdm.Handlers.Message.Cases.{find_pid_sound}
use rgbmixer.Rdm.Handlers.Message.Parameters.{parameter, parameter_lem}
use rgbmixer.Rdm.Handlers.Message.Decide.{reads, decide_get, decide_set, decide_pid, decide_fields}
use rgbmixer.Responder.Asked.{needed}

abbrev sized : Option GetHandler → ℕ → Bool
sized none size = true
sized (some h) size = leb (needed h) size

abbrev all_sized : List PidDefinition → Bool
all_sized [] = true
all_sized (p ∷ ps) = sized p.get_handler p.get_argument_size && all_sized ps

entries :
    (id : ℕ) (ps : List PidDefinition)
    → all_sized ps ≡ true
    → All (λ p. p.pid ≡ id → sized p.get_handler p.get_argument_size ≡ true) ps
entries id [] h = tt
entries id (p ∷ ps) h = ((λ same. ground (arith, h)), entries id ps (ground (arith, h)))

found_sized :
    (id : ℕ) (p : PidDefinition)
    → find_pid id pid_definitions none ≡ some p
    → sized p.get_handler p.get_argument_size ≡ true
unfolding pid_definitions
found_sized id p found =
    find_pid_sound (λ q. sized q.get_handler q.get_argument_size ≡ true) id pid_definitions none p
      (entries id pid_definitions refl) (λ never. absurd (let none_some = never in cc)) found

reads-get :
    (to_all : Bool) (sub size : ℕ) (p : PidDefinition) (o : Option GetHandler) (h : GetHandler)
    → sized o p.get_argument_size ≡ true
    → decide_get to_all sub size p o ≡ reads h
    → needed h ≤ size
unfolding decide_get
reads-get to_all sub size p none h fits e = absurd (cc)
reads-get to_all sub size p (some g) h fits e = elim (Bool-cases (to_all || not (sub == 0))) [
  | inl out ↦ absurd (let refused = rw out at e in cc)
  | inr root ↦ elim (Bool-cases (size == p.get_argument_size)) [
    | inr wrong ↦ absurd (let refused = rw (root, wrong) at e in cc)
    | inl right ↦
        let called : reads g ≡ reads h = rw (root, right) at e in
        let same : g ≡ h = cc in
        let enough : leb (needed h) p.get_argument_size ≡ true = rw same at fits in
        ground (arith, enough, right)
  ]
]

reads-set : (o : Option SetHandler) (h : GetHandler) → decide_set o ≡ reads h → ⊥
unfolding decide_set
reads-set none h e = cc
reads-set (some g) h e = cc

reads-pid :
    (to_all : Bool) (sub command_class size : ℕ) (o : Option PidDefinition) (h : GetHandler)
    → ((p : PidDefinition) → o ≡ some p → sized p.get_handler p.get_argument_size ≡ true)
    → decide_pid to_all sub command_class size o ≡ reads h
    → needed h ≤ size
unfolding decide_pid
reads-pid to_all sub command_class size none h fits e = absurd (cc)
reads-pid to_all sub command_class size (some p) h fits e =
    elim (Bool-cases (command_class == get_command)) [
      | inl get ↦ reads-get to_all sub size p p.get_handler h (fits p refl) (rw get at e)
      | inr set ↦ absurd (reads-set p.set_handler h (rw set at e))
    ]

pub reads-needed :
    (to_all : Bool) (sub command_class pid size : ℕ) (h : GetHandler)
    → decide_fields to_all sub command_class pid size ≡ reads h
    → needed h ≤ size
unfolding decide_fields
reads-needed to_all sub command_class pid size h e =
    elim (Bool-cases (not (sub == 0) && not (sub == 0xffff))) [
      | inl out ↦ absurd (let refused = rw out at e in cc)
      | inr inside ↦
          reads-pid to_all sub command_class size (parameter pid) h
            (λ p found. found_sized pid p (parameter_lem pid ∙ found)) (rw inside at e)
    ]
