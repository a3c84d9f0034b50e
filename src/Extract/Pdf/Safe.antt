-- ===== src/Extract/Pdf/Safe.antt =====
-- The engine is not closed while it is in use, and is closed when it is idle.
use findo.Prelude.{
  ℕ, ◌+◌, ◌≤◌, ◌≡◌, refl, ap, Bool, true, false, not, ◌&&◌, Option, none, some, List, [], ◌∷◌, ◌++◌,
  ◌==◌, All, length, length-append, arith, inl, inr, Bool-cases,
}
use findo.Extract.Pdf.{
  Engine, is_loaded, schedule_idle_close, stop_timer, get_instance, with_pool, acquire_pdf,
  release_pdf, close_idle_pdf, Step, acquires, releases, fires, Reachable, unloaded, steps,
}

abbrev pub AllFrom : Option ℕ → List ℕ → Type 0
AllFrom pool = All (λ p. pool ≡ some p)

-- Each instance in use is one of the pool that is loaded; an idle engine that is loaded has a timer,
-- which will call closeIdlePDF.
pub record IsSafe (e : Engine) : Type 0 where
  pub counts : e.in_use ≡ length e.held
  pub current : AllFrom e.pool e.held
  pub closes : (e.in_use == 0 && (is_loaded e.pool && not e.timer)) ≡ false
  pub called : (e.timer && e.pending == 0) ≡ false

record IsKept (e : Engine) : Type 0 where
  counts : e.in_use ≡ length e.held
  current : AllFrom e.pool e.held
  closes : e.in_use ≡ 0 → is_loaded e.pool ≡ true → e.timer ≡ true
  called : e.timer ≡ true → 1 ≤ e.pending

-- What holds before the idle close is scheduled.
record IsHeld (e : Engine) : Type 0 where
  counts : e.in_use ≡ length e.held
  current : AllFrom e.pool e.held
  called : e.timer ≡ true → 1 ≤ e.pending

has_timer :
    (e : Engine)
    → e.in_use ≡ 0
    → is_loaded e.pool ≡ true
    → (e.in_use == 0 && (is_loaded e.pool && not e.timer)) ≡ false
    → e.timer ≡ true
has_timer e idle loaded not_due = ground arith

schedule-IsKept : (e : Engine) → IsHeld e → IsKept (schedule_idle_close e)
unfolding schedule_idle_close
schedule-IsKept e h = elim (Bool-cases (e.in_use == 0 && (is_loaded e.pool && not e.timer))) [
  | inl due ↦ rw due (record {
    counts = h.counts;
    current = h.current;
    closes = λ idle loaded. refl;
    called = λ set. omega arith;
  })
  | inr not_due ↦
      let closes : e.in_use ≡ 0 → is_loaded e.pool ≡ true → e.timer ≡ true =
        λ idle loaded. has_timer e idle loaded not_due in
      rw not_due
        (record { counts = h.counts; current = h.current; closes = closes; called = h.called })
]

stop_timer-IsHeld : (in_time : Bool) (e : Engine) → IsKept e → IsHeld (stop_timer in_time e)
stop_timer-IsHeld in_time e h = record {
  counts = h.counts;
  current = h.current;
  called = λ set. ground arith;
}

get_instance-IsKept :
    (gives : Bool) (p : ℕ) (e : Engine)
    → e.pool ≡ some p
    → e.timer ≡ false
    → IsHeld e
    → IsKept (get_instance gives p e).0
unfolding get_instance schedule_idle_close
get_instance-IsKept true p e loaded stopped h = record {
  counts = omega (arith, h.counts);
  current = (loaded, h.current);
  closes = λ idle l. ground arith;
  called = h.called;
}
get_instance-IsKept false p e loaded stopped h = schedule-IsKept e h

AllFrom-none : (pool : Option ℕ) (held : List ℕ) → AllFrom none held → AllFrom pool held
AllFrom-none pool [] h = tt
AllFrom-none pool (p ∷ held) (h, hs) = cc

AllFrom-nil : (pool : Option ℕ) (held : List ℕ) → 0 ≡ length held → AllFrom pool held
AllFrom-nil pool [] h = tt
AllFrom-nil pool (p ∷ held) h = let absurd : ⊥ = omega (arith, h) in elim absurd [ ]

with_pool-IsKept :
    (inits gives : Bool) (e : Engine) (o : Option ℕ)
    → e.pool ≡ o
    → e.timer ≡ false
    → IsHeld e
    → IsKept (with_pool inits gives e o).0
unfolding with_pool
with_pool-IsKept inits gives e (some p) loaded stopped h =
    get_instance-IsKept gives p e loaded stopped h
with_pool-IsKept true gives e none empty stopped h =
    get_instance-IsKept gives e.made (record e { pool = some e.made; made = e.made + 1 }) refl
      stopped
      (record {
        counts = h.counts;
        current = AllFrom-none (some e.made) e.held (rw empty at h.current);
        called = h.called;
      })
with_pool-IsKept false gives e none empty stopped h = record {
  counts = h.counts;
  current = h.current;
  closes = λ idle l. let no_pool : false ≡ true = rw empty at l in cc;
  called = h.called;
}

All-without :
    (pool : Option ℕ) (before : List ℕ) (p : ℕ) (behind : List ℕ)
    → AllFrom pool (before ++ p ∷ behind)
    → AllFrom pool (before ++ behind)
All-without pool [] p behind (h, hs) = hs
All-without pool (x ∷ before) p behind (h, hs) = (h, All-without pool before p behind hs)

release-IsKept :
    (before : List ℕ) (p : ℕ) (behind : List ℕ) (e : Engine)
    → e.held ≡ before ++ p ∷ behind
    → IsKept e
    → IsKept (release_pdf (before ++ behind) e)
unfolding release_pdf
release-IsKept before p behind e held h =
    let all : AllFrom e.pool (before ++ p ∷ behind) = rw held at h.current in
    schedule-IsKept _ (record {
      counts = omega (
        arith,
        h.counts,
        ap length held,
        length-append before (p ∷ behind),
        length-append before behind,
      );
      current = All-without e.pool before p behind all;
      called = h.called;
    })

fire-IsKept : (e : Engine) → IsKept e → IsKept (close_idle_pdf e)
unfolding close_idle_pdf
fire-IsKept e h = elim (Bool-cases (e.in_use == 0 && is_loaded e.pool)) [
  | inl idle ↦
      let zero_held : 0 ≡ length e.held = ground (arith, h.counts) in
      rw idle (record {
        counts = h.counts;
        current = AllFrom-nil none e.held zero_held;
        closes = λ i l. l;
        called = λ set. cc;
      })
  | inr busy ↦ rw busy (record {
    counts = h.counts;
    current = h.current;
    closes = λ i l. ground arith;
    called = λ set. cc;
  })
]

step-IsKept : {e e' : Engine} → Step e e' → IsKept e → IsKept e'
unfolding acquire_pdf
step-IsKept (acquires in_time inits gives e) h =
    with_pool-IsKept inits gives (stop_timer in_time e) e.pool refl refl
      (stop_timer-IsHeld in_time e h)
step-IsKept (releases before p behind e held) h = release-IsKept before p behind e held h
step-IsKept (fires e due) h = fire-IsKept e h

Reachable-IsKept : {e : Engine} → Reachable e → IsKept e
Reachable-IsKept unloaded = record {
  counts = refl;
  current = tt;
  closes = λ idle loaded. cc;
  called = λ set. cc;
}
Reachable-IsKept (steps r s) = step-IsKept s (Reachable-IsKept r)

closes-holds :
    (e : Engine)
    → (e.in_use ≡ 0 → is_loaded e.pool ≡ true → e.timer ≡ true)
    → (e.in_use == 0 && (is_loaded e.pool && not e.timer)) ≡ false
closes-holds e h = elim (Bool-cases (e.in_use == 0)) [
  | inr busy ↦ rw busy refl
  | inl idle ↦ elim (Bool-cases (is_loaded e.pool)) [
    | inr empty ↦ rw (idle, empty) refl
    | inl loaded ↦
        let none_used : e.in_use ≡ 0 = ground arith in
        let set = h none_used loaded in rw (idle, loaded, set) refl
  ]
]

called-holds : (e : Engine) → (e.timer ≡ true → 1 ≤ e.pending) → (e.timer && e.pending == 0) ≡ false
called-holds e h = elim (Bool-cases e.timer) [
  | inr unset ↦ ground arith
  | inl set ↦ let pending = h set in ground arith
]

-- In whatever order instances are acquired and released and timers fire, with the engine starting or
-- not and handing out instances or not: as many instances are in use as are counted, all of the pool that
-- is loaded, so that none is closed under its caller; and while the engine is loaded and idle, a timer is
-- set whose call of closeIdlePDF is still to come.
pub Reachable-IsSafe : (e : Engine) → Reachable e → IsSafe e
Reachable-IsSafe e r =
    let h = Reachable-IsKept r in
    record {
      counts = h.counts;
      current = h.current;
      closes = closes-holds e h.closes;
      called = called-holds e h.called;
    }

-- A loaded engine that is idle has a call of closeIdlePDF to come, after which it is not loaded.
pub idle_closes :
    (e : Engine)
    → Reachable e
    → e.in_use ≡ 0
    → is_loaded e.pool ≡ true
    → Step e (close_idle_pdf e) × ((close_idle_pdf e).pool ≡ none)
unfolding close_idle_pdf
idle_closes e r idle loaded =
    let h = Reachable-IsKept r in
    (fires e (h.called (h.closes idle loaded)), rw (idle, loaded) refl)
