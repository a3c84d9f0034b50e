-- ===== src/Smb/Walk/Live.antt =====
-- A walk neither stops early nor gets stuck.
use findo.Prelude.{
  ℕ, zero, suc, ◌+◌, ◌≡◌, refl, sym, ap, ◌∙◌, Bool, true, false, not, ◌&&◌, ◌||◌, Option, none,
  some, List, [], ◌∷◌, ◌++◌, arith, ◌==◌, if◌then◌else◌, Text, all, any, count, length, inl, inr,
  ◌⊎◌, Bool-cases, Option-cases,
}
use findo.Smb.Walk.{
  DirQueue, push, pop, pop_from, mark_done, Info, Worker, at_pop, stopped, listing, emitting,
  Shared, after_pop, after_list, work, at_start, Reached, begin, step, smb_path_of,
}

abbrev pub is_busy : Worker → Bool
is_busy (listing dir) = true
is_busy (emitting dir infos) = true
is_busy _ = false

abbrev pub is_stopped : Worker → Bool
is_stopped stopped = true
is_stopped _ = false

abbrev busy : Worker → ℕ
busy w = if is_busy w then 1 else 0

-- `n` directories are in the hands of workers; `k` says whether some worker has returned.
abbrev Counted : ℕ → Bool → DirQueue → Type 0
Counted n k q =
    (q.pending ≡ length q.items + n) × (q.closed ≡ (q.pending == 0)) × ((k && not q.closed) ≡ false)

-- The same after a step of a worker while the others have `n` and `k`.
abbrev After : ℕ → Bool → Option (Worker × Shared) → Type 0
After n k none = Unit
After n k (some (w, s)) = Counted (n + busy w) (k || is_stopped w) s.queue

mark_done-Counted :
    (n : ℕ) (k : Bool) (q : DirQueue)
    → Counted (n + 1) k q
    → Counted (n + 0) (k || false) (mark_done q)
unfolding mark_done
mark_done-Counted n k q (a, b, c) = ground arith

push-Counted :
    (n : ℕ) (k : Bool) (dir : Text) (q : DirQueue)
    → Counted (n + 1) k q
    → Counted (n + 1) (k || false) (push dir q)
unfolding push
push-Counted n k dir q (a, b, c) = ground arith

pop-Counted :
    (n : ℕ) (k : Bool) (s : Shared) (items : List Text)
    → s.queue.items ≡ items
    → Counted (n + 0) k s.queue
    → After n k (after_pop (pop_from items s.queue) s)
pop-Counted n k s [] e (a, b, c) = elim (Bool-cases s.queue.closed) [
  | inl y ↦ rw y (a, sym y ∙ b, ground arith)
  | inr x ↦ rw x tt
]
pop-Counted n k s (dir ∷ rest) e (a, b, c) = (omega (arith, ap length e, a), b, ground arith)

work-Counted :
    (read_dir : Text → Option (List Info)) (n : ℕ) (k : Bool) (w : Worker) (s : Shared)
    → Counted (n + busy w) (k || is_stopped w) s.queue
    → After n k (work read_dir w s)
unfolding work pop
work-Counted read_dir n k stopped s h = tt
work-Counted read_dir n k at_pop s (a, b, c) =
    pop-Counted n k s s.queue.items refl (a, b, ground arith)
work-Counted read_dir n k (listing dir) s (a, b, c) = elim (Option-cases (read_dir dir)) [
  | inl e ↦ rw e (mark_done-Counted n k s.queue (a, b, ground arith))
  | inr (infos, e) ↦ rw e (a, b, c)
]
work-Counted read_dir n k (emitting dir []) s (a, b, c) =
    mark_done-Counted n k s.queue (a, b, ground arith)
work-Counted read_dir n k (emitting dir (i ∷ infos)) s (a, b, c) = elim (Bool-cases i.is_dir) [
  | inl y ↦ rw y (push-Counted n k (smb_path_of dir i.name) s.queue (a, b, ground arith))
  | inr x ↦ rw x (a, b, c)
]

count-middle :
    (before after : List Worker) (w : Worker)
    → count is_busy (before ++ w ∷ after) ≡ count is_busy before + count is_busy after + busy w
unfolding count
count-middle [] after w = ground arith
count-middle (v ∷ before) after w = ground (arith, count-middle before after w)

any-middle :
    (before after : List Worker) (w : Worker)
    → any is_stopped (before ++ w ∷ after)
      ≡ ((any is_stopped before || any is_stopped after) || is_stopped w)
unfolding any
any-middle [] after w = ground arith
any-middle (v ∷ before) after w = ground (arith, any-middle before after w)

-- The queue agrees with what the workers do.
abbrev pub Consistent : List Worker → Shared → Type 0
Consistent ws s = Counted (count is_busy ws) (any is_stopped ws) s.queue

starts :
    (root : Text) (n : ℕ) → (count is_busy (at_start n) ≡ 0) × (any is_stopped (at_start n) ≡ false)
unfolding count any
starts root zero = (refl, refl)
starts root (suc n) = starts root n

Reached-Consistent :
    (read_dir : Text → Option (List Info)) (root : Text) (n : ℕ) (ws : List Worker) (s : Shared)
    → Reached read_dir root n ws s
    → Consistent ws s
unfolding push
Reached-Consistent read_dir root n _ _ begin =
    let (c, a) = starts root n in rw (c, a) (refl, refl, refl)
Reached-Consistent read_dir root n _ _ (step before w w' after s s' r e) =
    let h = Reached-Consistent read_dir root n (before ++ w ∷ after) s r in
    let here = rw (count-middle before after w, any-middle before after w) at h in
    let next =
      work-Counted read_dir (count is_busy before + count is_busy after)
        (any is_stopped before || any is_stopped after) w s here in
    rw (count-middle before after w', any-middle before after w') (rw e at next)

-- Whether a worker has a step to take.
abbrev pub can_step : (Text → Option (List Info)) → Shared → Worker → Bool
can_step read_dir s w = elim (work read_dir w s) [ none ↦ false | some r ↦ true ]

listing_steps :
    (read_dir : Text → Option (List Info)) (s : Shared) (dir : Text)
    → can_step read_dir s (listing dir) ≡ true
unfolding work
listing_steps read_dir s dir = cases (read_dir dir)
  where
    cases :
        (answer : Option (List Info))
        → (elim (after_list dir answer s) [ none ↦ false | some r ↦ true ]) ≡ true
    cases none = refl
    cases (some infos) = refl

emitting_steps :
    (read_dir : Text → Option (List Info)) (s : Shared) (dir : Text) (infos : List Info)
    → can_step read_dir s (emitting dir infos) ≡ true
unfolding work
emitting_steps read_dir s dir [] = refl
emitting_steps read_dir s dir (i ∷ infos) = refl

-- A worker at pop has a step unless it has to wait.
pop_steps :
    (read_dir : Text → Option (List Info)) (s : Shared)
    → Counted 0 false s.queue
    → can_step read_dir s at_pop ≡ true
unfolding work pop
pop_steps read_dir s (a, b, c) = cases s.queue.items a
  where
    closed_when_empty : s.queue.pending ≡ 0 → s.queue.closed ≡ true
    closed_when_empty e = rw b (ground arith)

    cases :
        (items : List Text)
        → s.queue.pending ≡ length items + 0
        → (elim (after_pop (pop_from items s.queue) s) [ none ↦ false | some r ↦ true ]) ≡ true
    cases [] e = rw (closed_when_empty (omega (arith, e))) refl
    cases (dir ∷ rest) e = refl

none_busy : (ws : List Worker) → all is_stopped ws ≡ true → count is_busy ws ≡ 0
unfolding count all
none_busy [] h = refl
none_busy (stopped ∷ ws) h = none_busy ws h
none_busy (at_pop ∷ ws) h = cc
none_busy (listing dir ∷ ws) h = cc
none_busy (emitting dir infos ∷ ws) h = cc

some_steps :
    (read_dir : Text → Option (List Info)) (s : Shared) (ws : List Worker)
    → (count is_busy ws ≡ 0 → can_step read_dir s at_pop ≡ true)
    → (all is_stopped ws ≡ true) ⊎ (any (can_step read_dir s) ws ≡ true)
unfolding count any all
some_steps read_dir s [] h = inl refl
some_steps read_dir s (stopped ∷ ws) h = elim (some_steps read_dir s ws h) [
  | inl e ↦ inl e
  | inr e ↦ inr (ground arith)
]
some_steps read_dir s (at_pop ∷ ws) h = elim (some_steps read_dir s ws h) [
  | inl e ↦ inr (rw (h (none_busy ws e)) refl)
  | inr e ↦ inr (ground arith)
]
some_steps read_dir s (listing dir ∷ ws) h = inr (rw (listing_steps read_dir s dir) refl)
some_steps read_dir s (emitting dir infos ∷ ws) h =
    inr (rw (emitting_steps read_dir s dir infos) refl)

-- In every state that a walk reaches, in whatever order its workers take their steps: no worker has
-- returned, or no directory is queued and none is in a worker's hands; and all workers have
-- returned, or some worker has a step to take.
pub walk_never_stuck :
    (read_dir : Text → Option (List Info)) (root : Text) (n : ℕ) (ws : List Worker) (s : Shared)
    → Reached read_dir root n ws s
    → ((any is_stopped ws ≡ false) ⊎ ((length s.queue.items ≡ 0) × (count is_busy ws ≡ 0)))
      × ((all is_stopped ws ≡ true) ⊎ (any (can_step read_dir s) ws ≡ true))
walk_never_stuck read_dir root n ws s r =
    let (a, b, c) = Reached-Consistent read_dir root n ws s r in
    (
      elim (Bool-cases (any is_stopped ws)) [
        | inr none_yet ↦ inl none_yet
        | inl some_has ↦ inr (ground arith, ground arith)
      ],
      some_steps read_dir s ws (λ e. pop_steps read_dir s (rw e at a, b, refl)),
    )
