-- ===== src/Health/Alive.antt =====
-- internal/health/health.go: a subsystem that falls silent, and what being ready implies.
use refinery.Base.{
  ℕ, zero, suc, ◌-◌, ◌*◌, ◌≤◌, ◌≡◌, refl, sym, ap, ◌∙◌, Bool, true, false, ◌&&◌, Option, none, some,
  String, String_discrete, List, [], ◌∷◌, arith, ◌==◌, if_pos, if_neg, Bool-cases, inl, inr,
}
use refinery.GoMap.{get, get-set_self}
use refinery.Health.{
  Health, ticker_time, tick, tick_all, tick_one, register, ready, report, note_report, check_alive,
  first_dead, is_alive, is_ready, check_ready, all_ready, all_positive, positive, mark_dead,
}

abbrev pub ticks : ℕ → Health → Health
ticks zero h = h
ticks (suc n) h = ticks n (tick h)

tick_if : Option (Option ℕ) → Option (Option ℕ)
unfolding tick_one
tick_if none = none
tick_if (some t) = some (tick_one t)

get-tick_all :
    (k : String) (m : List (String × Option ℕ))
    → get String_discrete k (tick_all m) ≡ tick_if (get String_discrete k m)
unfolding get tick_all tick_if
get-tick_all k [] = refl
get-tick_all k ((j, t) ∷ m) = elim (String_discrete j k) [
  | yes p ↦ rw (if_pos (String_discrete j k) p, if_pos (String_discrete j k) p) refl
  | no p ↦ rw (if_neg (String_discrete j k) p, if_neg (String_discrete j k) p) (get-tick_all k m)
]

get-ticks :
    (n t : ℕ) (k : String) (h : Health)
    → get String_discrete k h.time_left ≡ some (some t)
    → get String_discrete k (ticks n h).time_left ≡ some (some (t - n * ticker_time))
unfolding tick tick_if tick_one
get-ticks zero t k h e = rw e (ap (λ x. some (some x)) (omega arith))
get-ticks (suc n) t k h e =
    get-ticks n (t - ticker_time) k (tick h) (rw (get-tick_all k h.time_left, e) refl)
    ∙ ap (λ x. some (some x)) (omega arith)

first_dead-get :
    (k : String) (m : List (String × Option ℕ))
    → get String_discrete k m ≡ some (some 0)
    → (j : String) × (first_dead m ≡ some j)
unfolding first_dead get
first_dead-get k [] e = cc
first_dead-get k ((j, none) ∷ m) e = elim (String_discrete j k) [
  | yes p ↦
      absurd (let e' : some none ≡ some (some 0) = rw (if_pos (String_discrete j k) p) at e in cc)
  | no p ↦ first_dead-get k m (rw (if_neg (String_discrete j k) p) at e)
]
first_dead-get k ((j, some t) ∷ m) e = elim (Bool-cases (t == 0)) [
  | inl z ↦ rw z (j, refl)
  | inr z ↦ rw z (elim (String_discrete j k) [
    | yes p ↦
        let e' : some (some t) ≡ some (some 0) = rw (if_pos (String_discrete j k) p) at e in
        absurd (ground arith)
    | no p ↦ first_dead-get k m (rw (if_neg (String_discrete j k) p) at e)
  ])
]

mark_dead-time_left : (h : Health) (o : Option String) → (mark_dead h o).0.time_left ≡ h.time_left
unfolding check_alive
mark_dead-time_left h none = refl
mark_dead-time_left h (some k) = ground arith

time_left-ready :
    (h : Health) (k : String) (r : Bool) (t : ℕ)
    → get String_discrete k h.timeouts ≡ some t
    → get String_discrete k (ready h k r).time_left ≡ some (some t)
unfolding ready report note_report check_alive
time_left-ready h k r t e = rw e (
    rw (mark_dead-time_left (note_report h k r t) (first_dead (note_report h k r t).time_left))
      (get-set_self String_discrete k (some t) h.time_left))

-- A subsystem that reports, and then is silent for its timeout, counted in ticks, makes the whole
-- system not alive, whatever it reported and whatever the others are.
pub is_alive-ticks :
    (h : Health) (k : String) (r : Bool) (t n : ℕ)
    → t ≤ n * ticker_time
    → (is_alive (ticks n (ready (register h k t) k r))).1 ≡ false
unfolding is_alive check_alive register
is_alive-ticks h k r t n late =
    let start = ready (register h k t) k r in
    let left : get String_discrete k (ticks n start).time_left ≡ some (some 0) =
      get-ticks n t k start
        (time_left-ready (register h k t) k r t (get-set_self String_discrete k t h.timeouts))
      ∙ ap (λ x. some (some x)) (omega arith) in
    let (j, dead) = first_dead-get k (ticks n start).time_left left in
    ap (λ o. (mark_dead (ticks n start) o).1) dead

all_positive-first_dead :
    (m : List (String × Option ℕ)) → all_positive m ≡ true → first_dead m ≡ none
unfolding all_positive first_dead positive
all_positive-first_dead [] e = refl
all_positive-first_dead ((k, none) ∷ m) e = cc
all_positive-first_dead ((k, some t) ∷ m) e = ground (arith, all_positive-first_dead m)

all_ready-true : (b : Bool) (m : List (String × Bool)) → all_ready b m ≡ true → b ≡ true
unfolding all_ready
all_ready-true b [] e = e
all_ready-true b ((j, s) ∷ m) e = let h = all_ready-true (b && s) m e in ground arith

all_positive-get :
    (k : String) (o : Option ℕ) (m : List (String × Option ℕ))
    → all_positive m ≡ true
    → get String_discrete k m ≡ some o
    → positive o ≡ true
unfolding all_positive get
all_positive-get k o [] e f = cc
all_positive-get k o ((j, t) ∷ m) e f = elim (Bool-cases (positive t)) [
  | inl a ↦ elim (String_discrete j k) [
    | yes p ↦ let here : t ≡ o = ground arith in rw (sym here) a
    | no p ↦ all_positive-get k o m (rw a at e) (rw (if_neg (String_discrete j k) p) at f)
  ]
  | inr a ↦ absurd (let e' : false ≡ true = rw a at e in cc)
]

all_ready-elim :
    (k : String) (b r : Bool) (m : List (String × Bool))
    → all_ready b m ≡ true
    → get String_discrete k m ≡ some r
    → (r ≡ true) × (b ≡ true)
unfolding all_ready get
all_ready-elim k b r [] e f = cc
all_ready-elim k b r ((j, s) ∷ m) e f = elim (String_discrete j k) [
  | yes p ↦
      let both = all_ready-true (b && s) m e in
      let here : s ≡ r = ground arith in (ground arith, ground arith)
  | no p ↦
      let (x, y) = all_ready-elim k (b && s) r m e (rw (if_neg (String_discrete j k) p) at f) in
      (x, ground arith)
]

-- A system that is ready is alive, every subsystem it knows of has reported and has time left, and
-- every one that ever registered was last noted as ready.
pub is_ready-elim :
    (h : Health) (k : String) (o : Option ℕ) (r : Bool)
    → is_ready h ≡ true
    → get String_discrete k h.time_left ≡ some o
    → get String_discrete k h.readies ≡ some r
    → ((is_alive h).1 ≡ true) × (positive o ≡ true) × (r ≡ true)
unfolding is_ready check_ready is_alive check_alive
is_ready-elim h k o r e left noted =
    let times : all_positive h.time_left ≡ true = ground arith in
    let flags : all_ready true h.readies ≡ true = ground arith in
    (
      ap (λ d. (mark_dead h d).1) (all_positive-first_dead h.time_left times),
      all_positive-get k o h.time_left times left,
      (all_ready-elim k true r h.readies flags noted).0,
    )
