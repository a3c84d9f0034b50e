-- ===== src/Index/Files/Sweep.antt =====
-- One row for each path, and what deleting rows leaves.
use findo.Prelude.{
  ℕ, ◌≤◌, ◌<◌, ◌≡◌, refl, sym, ◌∙◌, inl, inr, Bool, true, false, not, Option, none, some, List, [],
  ◌∷◌, arith, if◌then◌else◌, Text, text_eq_iff, All, filter, Bool-cases,
}
use findo.Index.{FileRow, same_key, file_at}
use findo.Index.Files.{lookup, upsert_row}
use findo.Index.Files.Upsert.{lookup-upsert_row, same_key_eq}

-- The primary key of `files`.
abbrev pub IsKeyed : List FileRow → Type 0
IsKeyed [] = Unit
IsKeyed (r ∷ rows) = (lookup r.volume r.path rows ≡ none) × IsKeyed rows

abbrev pub unless : (FileRow → Bool) → Option FileRow → Option FileRow
unless gone none = none
unless gone (some r) = if gone r then none else some r

lookup_same :
    (v w : ℕ) (p q : Text) (rows : List FileRow)
    → same_key v p w q ≡ true
    → lookup w q rows ≡ lookup v p rows
lookup_same v w p q rows h =
    let (e, e') = same_key_eq v p w q h in λ i. lookup (sym e i) (sym e' i) rows

-- What a path has after the rows that are `gone` are deleted.
pub lookup-filter :
    (gone : FileRow → Bool) (v : ℕ) (p : Text) (rows : List FileRow)
    → IsKeyed rows
    → lookup v p (filter (λ r. not (gone r)) rows) ≡ unless gone (lookup v p rows)
unfolding lookup filter
lookup-filter gone v p [] k = refl
lookup-filter gone v p (r ∷ rows) (k, ks) =
    ground (arith, lookup-filter gone v p rows ks, lookup_same r.volume v r.path p rows)

other_way : (r q : FileRow) → file_at r.volume r.path q ≡ false → file_at q.volume q.path r ≡ false
other_way r q h = ground (arith, text_eq_iff q.path r.path, text_eq_iff r.path q.path)

pub upsert_row-IsKeyed :
    (r : FileRow) (rows : List FileRow) → IsKeyed rows → IsKeyed (upsert_row r rows)
unfolding upsert_row lookup
upsert_row-IsKeyed r [] k = (refl, tt)
upsert_row-IsKeyed r (q ∷ rows) (k, ks) = elim (Bool-cases (file_at r.volume r.path q)) [
  | inl same ↦ rw same (lookup_same q.volume r.volume q.path r.path rows same ∙ k, ks)
  | inr other ↦ rw other (
    rw (lookup-upsert_row q.volume q.path r rows, other_way r q other) k,
    upsert_row-IsKeyed r rows ks,
  )
]

lookup-filter-none :
    (keep : FileRow → Bool) (v : ℕ) (p : Text) (rows : List FileRow)
    → lookup v p rows ≡ none
    → lookup v p (filter keep rows) ≡ none
unfolding lookup filter
lookup-filter-none keep v p [] h = refl
lookup-filter-none keep v p (r ∷ rows) h = ground (arith, lookup-filter-none keep v p rows)

pub filter-IsKeyed :
    (keep : FileRow → Bool) (rows : List FileRow) → IsKeyed rows → IsKeyed (filter keep rows)
unfolding filter
filter-IsKeyed keep [] k = tt
filter-IsKeyed keep (r ∷ rows) (k, ks) = elim (Bool-cases (keep r)) [
  | inl stays ↦
      rw stays (lookup-filter-none keep r.volume r.path rows k, filter-IsKeyed keep rows ks)
  | inr goes ↦ rw goes (filter-IsKeyed keep rows ks)
]

-- Every stamp was given out before, or is the 0 of a live update.
abbrev pub Stamped : ℕ → List FileRow → Type 0
Stamped next_run = All (λ r. r.last_seen_run < next_run)

pub filter-Stamped :
    (keep : FileRow → Bool) (n : ℕ) (rows : List FileRow)
    → Stamped n rows
    → Stamped n (filter keep rows)
unfolding filter
filter-Stamped keep n [] h = tt
filter-Stamped keep n (r ∷ rows) (h, hs) = elim (Bool-cases (keep r)) [
  | inl stays ↦ rw stays (h, filter-Stamped keep n rows hs)
  | inr goes ↦ rw goes (filter-Stamped keep n rows hs)
]

pub upsert_row-Stamped :
    (r : FileRow) (n : ℕ) (rows : List FileRow)
    → r.last_seen_run < n
    → Stamped n rows
    → Stamped n (upsert_row r rows)
unfolding upsert_row
upsert_row-Stamped r n [] h hs = (h, tt)
upsert_row-Stamped r n (q ∷ rows) h (hq, hs) = elim (Bool-cases (file_at r.volume r.path q)) [
  | inl same ↦ rw same (h, hs)
  | inr other ↦ rw other (hq, upsert_row-Stamped r n rows h hs)
]

Stamped-grow : (n m : ℕ) (rows : List FileRow) → n ≤ m → Stamped n rows → Stamped m rows
Stamped-grow n m [] h hs = tt
Stamped-grow n m (r ∷ rows) h (hr, hs) = (omega arith, Stamped-grow n m rows h hs)

pub lookup-Stamped :
    (v : ℕ) (p : Text) (n : ℕ) (rows : List FileRow) (r : FileRow)
    → Stamped n rows
    → lookup v p rows ≡ some r
    → r.last_seen_run < n
unfolding lookup
lookup-Stamped v p n [] r h e = cc
lookup-Stamped v p n (q ∷ rows) r (h, hs) e = elim (Bool-cases (file_at v p q)) [
  | inl here ↦ ground arith
  | inr there ↦ lookup-Stamped v p n rows r hs (rw (there, lookup) at e)
]

pub lookup-volume :
    (v : ℕ) (p : Text) (rows : List FileRow) (r : FileRow)
    → lookup v p rows ≡ some r
    → (r.volume ≡ v) × (r.path ≡ p)
unfolding lookup
lookup-volume v p [] r e = cc
lookup-volume v p (q ∷ rows) r e = ground (arith, lookup-volume v p rows r, text_eq_iff q.path p)
