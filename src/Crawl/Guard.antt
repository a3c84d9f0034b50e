-- ===== src/Crawl/Guard.antt =====
-- backend/internal/httpapi/server.go: what keeps the crawls of one connected volume apart.
use findo.Prelude.{
  ℕ, suc, ◌+◌, ◌-◌, ◌≤◌, Bool, true, false, Option, none, some, List, [], ◌∷◌, arith, ◌==◌,
  if◌then◌else◌, inl, inr, Bool-cases,
}

-- One runtime: its flag, the crawls that run, and whether its first goroutine has begun.
pub record CrawlGuard : Type 0 where
  pub crawling : Bool
  pub running : ℕ
  pub has_begun : Bool

-- registerVolumeRuntime makes it.
abbrev pub registered : CrawlGuard
registered = record { crawling = false; running = 0; has_begun = false }

pub data Triggered : Type 0 where
  not_connected in_progress crawl_started : Triggered

-- triggerCrawl; none stands for a volume without a runtime.
unfoldable pub trigger_crawl : Option CrawlGuard → Triggered × Option CrawlGuard
trigger_crawl none = (not_connected, none)
trigger_crawl (some g) =
    if g.crawling
    then (in_progress, some g)
    else (crawl_started, some (record g { crawling = true; running = suc g.running }))

abbrev pub reindex_status : Triggered → ℕ
reindex_status not_connected = 404
reindex_status in_progress = 409
reindex_status crawl_started = 202

unfoldable pub handle_reindex : Option CrawlGuard → ℕ × Option CrawlGuard
unfolding trigger_crawl
handle_reindex g = let (t, g') = trigger_crawl g in (reindex_status t, g')

-- The first goroutine of StartVolume, which begins once and does not look at the flag.
unfoldable pub begin_initial : CrawlGuard → CrawlGuard
begin_initial g =
    if g.has_begun then g else record { crawling = true; running = suc g.running; has_begun = true }

-- A crawl returns, whichever it is.
unfoldable pub end_crawl : CrawlGuard → CrawlGuard
end_crawl g = if g.running == 0 then g else record g { crawling = false; running = g.running - 1 }

pub data Event : Type 0 where
  reindex initial_begins crawl_ends : Event

abbrev or_same : CrawlGuard → Option CrawlGuard → CrawlGuard
or_same g none = g
or_same g (some g') = g'

abbrev pub guard_step : Event → CrawlGuard → CrawlGuard
guard_step reindex g = or_same g (handle_reindex (some g)).1
guard_step initial_begins g = begin_initial g
guard_step crawl_ends g = end_crawl g

abbrev pub run_events : List Event → CrawlGuard → CrawlGuard
run_events [] g = g
run_events (e ∷ es) g = run_events es (guard_step e g)

abbrev pub one_if : Bool → ℕ
one_if b = if b then 1 else 0

-- Beside the crawl that the flag stands for, at most the initial one runs.
abbrev Guarded : CrawlGuard → Type 0
Guarded g = g.running ≤ one_if g.crawling + one_if g.has_begun

reindex-Guarded : (g : CrawlGuard) → Guarded g → Guarded (guard_step reindex g)
unfolding handle_reindex trigger_crawl
reindex-Guarded g h = elim (Bool-cases g.crawling) [
  | inl y ↦ rw y (rw y at h)
  | inr x ↦ let h' : g.running ≤ 0 + one_if g.has_begun = rw x at h in rw x (omega (arith, h'))
]

begin-Guarded : (g : CrawlGuard) → Guarded g → Guarded (begin_initial g)
unfolding begin_initial
begin-Guarded g h = elim (Bool-cases g.has_begun) [
  | inl y ↦ rw y (rw y at h)
  | inr x ↦ rw x (ground arith)
]

end-Guarded : (g : CrawlGuard) → Guarded g → Guarded (end_crawl g)
unfolding end_crawl
end-Guarded g h = elim (Bool-cases (g.running == 0)) [
  | inl y ↦ rw y h
  | inr x ↦ rw x (ground arith)
]

step-Guarded : (e : Event) (g : CrawlGuard) → Guarded g → Guarded (guard_step e g)
step-Guarded reindex g h = reindex-Guarded g h
step-Guarded initial_begins g h = begin-Guarded g h
step-Guarded crawl_ends g h = end-Guarded g h

events-Guarded : (es : List Event) (g : CrawlGuard) → Guarded g → Guarded (run_events es g)
events-Guarded [] g h = h
events-Guarded (e ∷ es) g h = events-Guarded es (guard_step e g) (step-Guarded e g h)

-- After any sequence of requests to reindex, the beginning of the initial crawl and the ends of
-- crawls, a newly registered runtime has at most one crawl running where its flag is set, and one
-- more where its initial crawl has begun: two at most.
pub crawls_at_most_two :
    (es : List Event)
    → let g = run_events es registered in
      (g.running ≤ one_if g.crawling + one_if g.has_begun) × (g.running ≤ 2)
crawls_at_most_two es = let h = events-Guarded es registered (omega arith) in (h, ground arith)
