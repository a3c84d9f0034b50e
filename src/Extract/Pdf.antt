-- ===== src/Extract/Pdf.antt =====
-- backend/internal/extract/pdf.go: the shared PDF engine. The pool that webassembly.Init returns is a
-- number, a new one each time; whether it starts and whether it hands out an instance are arguments.
pub mod Safe
pub mod Pages
use findo.Prelude.{
  ℕ, ◌+◌, ◌-◌, ◌≤◌, ◌≡◌, Bool, true, false, not, ◌&&◌, Option, none, some, List, [], ◌∷◌, ◌++◌,
  ◌==◌, if◌then◌else◌,
}

abbrev pub is_loaded : Option ℕ → Bool
is_loaded none = false
is_loaded (some p) = true

-- The fields of pdfEngine; timer is whether it is not nil. `made` counts the pools, `pending` the calls
-- of closeIdlePDF that the timers have made or will make, and `held` lists the pool of each instance
-- that a caller has.
pub record Engine : Type 0 where
  pub pool : Option ℕ
  pub in_use : ℕ
  pub timer : Bool
  pub made : ℕ
  pub pending : ℕ
  pub held : List ℕ

unfoldable pub schedule_idle_close : Engine → Engine
schedule_idle_close e =
    if e.in_use == 0 && (is_loaded e.pool && not e.timer)
    then record e { timer = true; pending = e.pending + 1 }
    else e

-- The timer is stopped, which does not stop a call that it has made.
abbrev pub stop_timer : Bool → Engine → Engine
stop_timer in_time e = record e {
  timer = false;
  pending = if e.timer && in_time then e.pending - 1 else e.pending;
}

pub data Acquired : Type 0 where
  instance_of : ℕ → Acquired
  no_engine no_instance : Acquired

abbrev pub get_instance : Bool → ℕ → Engine → Engine × Acquired
unfolding schedule_idle_close
get_instance true p e = (record e { in_use = e.in_use + 1; held = p ∷ e.held }, instance_of p)
get_instance false p e = (schedule_idle_close e, no_instance)

abbrev pub with_pool : Bool → Bool → Engine → Option ℕ → Engine × Acquired
unfolding get_instance
with_pool inits gives e (some p) = get_instance gives p e
with_pool true gives e none =
    get_instance gives e.made (record e { pool = some e.made; made = e.made + 1 })
with_pool false gives e none = (e, no_engine)

unfoldable pub acquire_pdf : Bool → Bool → Bool → Engine → Engine × Acquired
unfolding with_pool
acquire_pdf in_time inits gives e = with_pool inits gives (stop_timer in_time e) e.pool

-- `rest` are the instances that the callers still have.
unfoldable pub release_pdf : List ℕ → Engine → Engine
unfolding schedule_idle_close
release_pdf rest e = schedule_idle_close (record e { in_use = e.in_use - 1; held = rest })

unfoldable pub close_idle_pdf : Engine → Engine
close_idle_pdf e = record e {
  pool = if e.in_use == 0 && is_loaded e.pool then none else e.pool;
  timer = false;
  pending = e.pending - 1;
}

-- The calls, which the mutex puts in an order: an instance is released by a caller that has it, and
-- closeIdlePDF is called by a timer.
pub data Step : Engine → Engine → Type 0 where
  acquires :
      (in_time inits gives : Bool) (e : Engine) → Step e (acquire_pdf in_time inits gives e).0
  releases :
      (before : List ℕ) (p : ℕ) (behind : List ℕ) (e : Engine)
      → e.held ≡ before ++ p ∷ behind
      → Step e (release_pdf (before ++ behind) e)
  fires : (e : Engine) → 1 ≤ e.pending → Step e (close_idle_pdf e)

pub data Reachable : Engine → Type 0 where
  unloaded :
      Reachable
        (record { pool = none; in_use = 0; timer = false; made = 0; pending = 0; held = [] })
  steps : {e e' : Engine} → Reachable e → Step e e' → Reachable e'
