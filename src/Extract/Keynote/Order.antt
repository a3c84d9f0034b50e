-- ===== src/Extract/Keynote/Order.antt =====
-- The order of the slides in the text: backend/internal/extract/keynote.go.
use mathlib.Core.List.{Perm}
use findo.Prelude.{List}
use findo.Prelude.Sorts.{Ascending, sort_by_key-Perm, sort_by_key-Ascending}
use findo.Extract.Keynote.{Positions, Slide, position, in_order}

-- Whatever the show says, the slides written are those that were read, each once, and they stand by
-- ascending position in the show.
in_order-Ascending :
    (order : Positions) (slides : List Slide)
    → Perm (in_order order slides) slides
      × Ascending (λ (s : Slide). position order s.id) (in_order order slides)
unfolding in_order
in_order-Ascending order slides = (
  sort_by_key-Perm (λ (s : Slide). position order s.id) slides,
  sort_by_key-Ascending (λ (s : Slide). position order s.id) slides,
)
