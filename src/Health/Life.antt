-- ===== src/Health/Life.antt =====
-- internal/health/health.go: what the reports of the subsystems add up to over time.
use refinery.Base.{
  ℕ, ◌≡◌, ◌≢◌, refl, ap, ◌∙◌, if_neg, Bool, true, false, ◌&&◌, Option, none, some, String,
  String_discrete, List, [], ◌∷◌, arith,
}
use refinery.GoMap.{get, get-set, get-delete, get-set_self, get-set_ne, get-delete_self}
use refinery.Health.{
  Health, tick, register, unregister, ready, report, note_report, check_alive, first_dead, is_alive,
  is_ready, check_ready, all_ready, mark_dead,
}

-- A call of the health system, or a tick of its clock.
pub data Call : Type 0 where
  ticked : Call
  registered : String → ℕ → Call
  unregistered : String → Call
  reported : String → Bool → Call
  asked_alive : Call

abbrev pub call : Call → Health → Health
call ticked h = tick h
call (registered k t) h = register h k t
call (unregistered k) h = unregister h k
call (reported k r) h = ready h k r
call asked_alive h = (is_alive h).0

abbrev pub run : List Call → Health → Health
run [] h = h
run (c ∷ cs) h = run cs (call c h)

-- None of the calls registers the subsystem.
abbrev pub NeverRegisters : String → List Call → Type 0
NeverRegisters k [] = Unit
NeverRegisters k (registered j t ∷ cs) = (k ≢ j) × NeverRegisters k cs
NeverRegisters k (_ ∷ cs) = NeverRegisters k cs

-- The subsystem is not registered, and stays noted as not ready.
Gone : String → Health → Type 0
Gone k h =
    (get String_discrete k h.timeouts ≡ none) × (get String_discrete k h.readies ≡ some false)

mark_dead-same :
    (h : Health) (o : Option String)
    → ((mark_dead h o).0.timeouts ≡ h.timeouts) × ((mark_dead h o).0.readies ≡ h.readies)
unfolding check_alive
mark_dead-same h none = (refl, refl)
mark_dead-same h (some k) = (ground arith, ground arith)

report-Gone :
    (k j : String) (r : Bool) (h : Health) (o : Option ℕ)
    → get String_discrete j h.timeouts ≡ o
    → Gone k h
    → Gone k (report h j r o)
unfolding Gone report note_report check_alive
report-Gone k j r h none e g = g
report-Gone k j r h (some t) e g = elim (String_discrete k j) [
  | yes p ↦ absurd (let e' : get String_discrete k h.timeouts ≡ some t = rw p e in cc)
  | no p ↦
      let h' = note_report h j r t in
      let (a, b) = mark_dead-same h' (first_dead h'.time_left) in
      rw (a, b) (g.0, rw (get-set_ne String_discrete k j r h.readies p) g.1)
]

call-Gone :
    (k : String) (c : Call) (h : Health) → NeverRegisters k (c ∷ []) → Gone k h → Gone k (call c h)
unfolding Gone tick register unregister ready is_alive check_alive
call-Gone k ticked h n g = g
call-Gone k (registered j t) h n g = (
  rw (get-set_ne String_discrete k j t h.timeouts n.0) g.0,
  rw (get-set_ne String_discrete k j false h.readies n.0) g.1,
)
call-Gone k (unregistered j) h n g = (
  ground (arith, get-delete String_discrete k j h.timeouts),
  ground (arith, get-set String_discrete k j false h.readies),
)
call-Gone k (reported j r) h n g = report-Gone k j r h (get String_discrete j h.timeouts) refl g
call-Gone k asked_alive h n g =
    let (a, b) = mark_dead-same h (first_dead h.time_left) in rw (a, b) g

run-Gone :
    (k : String) (cs : List Call) (h : Health) → NeverRegisters k cs → Gone k h → Gone k (run cs h)
run-Gone k [] h n g = g
run-Gone k (ticked ∷ cs) h n g = run-Gone k cs (tick h) n (call-Gone k ticked h tt g)
run-Gone k (registered j t ∷ cs) h n g =
    run-Gone k cs (register h j t) n.1 (call-Gone k (registered j t) h (n.0, tt) g)
run-Gone k (unregistered j ∷ cs) h n g =
    run-Gone k cs (unregister h j) n (call-Gone k (unregistered j) h tt g)
run-Gone k (reported j r ∷ cs) h n g =
    run-Gone k cs (ready h j r) n (call-Gone k (reported j r) h tt g)
run-Gone k (asked_alive ∷ cs) h n g =
    run-Gone k cs (is_alive h).0 n (call-Gone k asked_alive h tt g)

all_ready-false : (m : List (String × Bool)) → all_ready false m ≡ false
unfolding all_ready
all_ready-false [] = refl
all_ready-false ((j, r) ∷ m) = all_ready-false m

and_false : (b : Bool) → (b && false) ≡ false
and_false true = refl
and_false false = refl

all_ready-get :
    (k : String) (b : Bool) (m : List (String × Bool))
    → get String_discrete k m ≡ some false
    → all_ready b m ≡ false
unfolding all_ready get
all_ready-get k b [] e = cc
all_ready-get k b ((j, r) ∷ m) e = elim (String_discrete j k) [
  | yes p ↦
      let last : r ≡ false = ground arith in
      rw last (ap (λ c. all_ready c m) (and_false b) ∙ all_ready-false m)
  | no p ↦ all_ready-get k (b && r) m (rw (if_neg (String_discrete j k) p) at e)
]

unregister-Gone : (h : Health) (k : String) → Gone k (unregister h k)
unfolding Gone unregister
unregister-Gone h k =
    (get-delete_self String_discrete k h.timeouts, get-set_self String_discrete k false h.readies)

-- Once a subsystem is unregistered the system is never ready, whatever calls and ticks follow, as
-- long as the subsystem is not registered again.
pub is_ready-unregister :
    (h : Health) (k : String) (cs : List Call)
    → NeverRegisters k cs
    → is_ready (run cs (unregister h k)) ≡ false
unfolding is_ready check_ready Gone
is_ready-unregister h k cs n =
    let g = run-Gone k cs (unregister h k) n (unregister-Gone h k) in
    ground (arith, all_ready-get k true (run cs (unregister h k)).readies g.1)
