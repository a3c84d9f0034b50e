-- ===== src/Tests/Sessions.antt =====
-- Walks, sessions and the guard on crawls at concrete inputs.
use findo.Prelude.{
  suc, ◌≤◌, ◌+◌, ◌≡◌, ◌⊎◌, refl, true, false, Option, some, List, [], ◌∷◌, arith, codes, Text, any,
  all, count, length, All,
}
use findo.Smb.Walk.{
  Info, at_pop, listing, Shared, work, Reached, begin, step, push, new_dir_queue, pop,
}
use findo.Smb.Walk.Live.{is_stopped, is_busy, can_step, walk_never_stuck}
use findo.Smb.Session.{Client}
use findo.Smb.Session.Once.{reconnect_all, reconnect_once}
use findo.Crawl.Guard.{
  reindex, initial_begins, run_events, registered, one_if, crawls_at_most_two, handle_reindex,
  trigger_crawl, begin_initial,
}

abbrev empty_share : Text → Option (List Info)
empty_share dir = some []

abbrev taken : Shared
taken = record {
  queue = record { items = []; pending = 1; closed = false };
  errs = [];
  entries = [];
}

first_step : Reached empty_share (codes ".") 2 (listing (codes ".") ∷ at_pop ∷ []) taken
unfolding work pop push
first_step =
    step [] at_pop (listing (codes ".")) (at_pop ∷ [])
      (record { queue = push (codes ".") new_dir_queue; errs = []; entries = [] }) taken begin refl

walk_never_stuck_example :
    ((any is_stopped (listing (codes ".") ∷ at_pop ∷ []) ≡ false)
      ⊎ ((length taken.queue.items ≡ 0) × (count is_busy (listing (codes ".") ∷ at_pop ∷ []) ≡ 0)))
    × ((all is_stopped (listing (codes ".") ∷ at_pop ∷ []) ≡ true)
        ⊎ (any (can_step empty_share taken) (listing (codes ".") ∷ at_pop ∷ []) ≡ true))
walk_never_stuck_example =
    walk_never_stuck empty_share (codes ".") 2 (listing (codes ".") ∷ at_pop ∷ []) taken first_step

abbrev client : Client
client = record { fs = some 1; dials = 1 }

reconnect_once_example :
    let (sessions, after) = reconnect_all 1 (true ∷ false ∷ true ∷ []) client in
    (after.dials ≡ suc client.dials)
    × (after.fs ≡ some (suc client.dials))
    × All (λ r. r ≡ some (suc client.dials)) sessions
reconnect_once_example = reconnect_once 1 (false ∷ true ∷ []) client refl (omega arith)

-- A request to reindex that comes before the initial crawl begins: both crawls run.
two_run : (run_events (reindex ∷ initial_begins ∷ []) registered).running ≡ 2
unfolding handle_reindex trigger_crawl begin_initial
two_run = refl

crawls_at_most_two_example :
    let g = run_events (reindex ∷ initial_begins ∷ []) registered in
    (g.running ≤ one_if g.crawling + one_if g.has_begun) × (g.running ≤ 2)
crawls_at_most_two_example = crawls_at_most_two (reindex ∷ initial_begins ∷ [])
