-- ===== src/Smb/Session/Once.antt =====
-- One redial for all the callers that failed in one session.
use findo.Prelude.{
  ℕ, suc, ◌≤◌, ◌<◌, ◌≡◌, refl, ap, Bool, true, false, Option, none, some, List, [], ◌∷◌, arith,
  ◌==◌, All,
}
use findo.Smb.Session.{Client, reconnect}

-- The callers that failed in the session `dead`, in the order in which they get the lock; each would
-- be answered by the dial as the list says.
abbrev pub reconnect_all : ℕ → List Bool → Client → List (Option ℕ) × Client
reconnect_all dead [] c = ([], c)
reconnect_all dead (answers ∷ rest) c =
    let (fs, c') = reconnect dead answers c in
    let (all, c'') = reconnect_all dead rest c' in (fs ∷ all, c'')

reconnect_other :
    (dead fs : ℕ) (answers : Bool) (current : Option ℕ) (dials : ℕ)
    → current ≡ some fs
    → dead < fs
    → reconnect dead answers (record { fs = current; dials = dials })
      ≡ (some fs, record { fs = current; dials = dials })
unfolding reconnect
reconnect_other dead fs answers none dials e h = cc
reconnect_other dead fs answers (some g) dials e h =
    let same : g ≡ fs = cc in
    let other : (g == dead) ≡ false = ground arith in
    rw other (ap (λ x. (x, record { fs = some g; dials = dials })) e)

reconnect_dead :
    (dead : ℕ) (current : Option ℕ) (dials : ℕ)
    → current ≡ some dead
    → reconnect dead true (record { fs = current; dials = dials })
      ≡ (some (suc dials), record { fs = some (suc dials); dials = suc dials })
unfolding reconnect
reconnect_dead dead none dials e = cc
reconnect_dead dead (some g) dials e =
    let same : g ≡ dead = cc in let yes : (g == dead) ≡ true = ground arith in rw yes refl

-- Once the session is another one, nobody dials, and all get that one.
already_replaced :
    (dead fs : ℕ) (callers : List Bool) (c : Client)
    → c.fs ≡ some fs
    → dead < fs
    → ((reconnect_all dead callers c).1 ≡ c)
      × All (λ r. r ≡ some fs) (reconnect_all dead callers c).0
already_replaced dead fs [] c e h = (refl, tt)
already_replaced dead fs (answers ∷ rest) c e h =
    let ih = already_replaced dead fs rest c e h in
    rw (reconnect_other dead fs answers c.fs c.dials e h) (ih.0, (refl, ih.1))

-- When several callers have failed in the current session, and the first dial succeeds, one dial is
-- made for all of them, every one of them gets the session that it opened, and the client keeps it.
pub reconnect_once :
    (dead : ℕ) (callers : List Bool) (c : Client)
    → c.fs ≡ some dead
    → dead ≤ c.dials
    → let (sessions, after) = reconnect_all dead (true ∷ callers) c in
      (after.dials ≡ suc c.dials)
      × (after.fs ≡ some (suc c.dials))
      × All (λ r. r ≡ some (suc c.dials)) sessions
reconnect_once dead callers c e h =
    let ih =
      already_replaced dead (suc c.dials) callers
        (record { fs = some (suc c.dials); dials = suc c.dials }) refl (omega (arith, h)) in
    rw (reconnect_dead dead c.fs c.dials e)
      (ap (λ x. x.dials) ih.0, ap (λ x. x.fs) ih.0, (refl, ih.1))
