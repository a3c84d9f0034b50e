-- ===== src/Extract/Pdf/Pages/Texts.antt =====
-- What the reading of a PDF returns, and how it leaves the engine.
use findo.Prelude.{
  ℕ, ◌+◌, ◌<◌, ◌≡◌, refl, sym, ap, ◌∙◌, Bool, true, false, Option, none, some, List, [], ◌∷◌, ◌++◌,
  append_assoc, append-nil, arith, ltb, if◌then◌else◌, Text, length, length-append, inl, inr,
  Bool-cases, ◌-◌, ◌==◌, ◌&&◌, not,
}
use findo.Extract.Sink.{Sink, strip_controls}
use findo.Extract.Sink.Room.{full-room, write-room, text-room}
use findo.Extract.Pdf.{
  Engine, is_loaded, schedule_idle_close, get_instance, stop_timer, with_pool, acquire_pdf,
  release_pdf,
}
use findo.Extract.Pdf.Pages.{
  CtxError, EngineError, answer, refused, PdfResult, pdf_text, Page, page_lines, with_page,
  pdf_error, read_pages, Document, with_instance, extract_pdf,
}

-- A page that is read while the context goes on.
pub record IsRead (p : Page) (t : Text) : Type 0 where
  pub going : p.before ≡ none
  pub reads : p.page_text ≡ answer t

abbrev pub AllRead : List Page → List Text → Type 0
AllRead [] [] = Unit
AllRead [] (t ∷ ts) = ⊥
AllRead (p ∷ ps) [] = ⊥
AllRead (p ∷ ps) (t ∷ ts) = IsRead p t × AllRead ps ts

unfoldable pub pages_text : List Text → Text
unfolding page_lines
pages_text [] = []
pages_text (t ∷ ts) = (page_lines t ++ 10 ∷ 10 ∷ []) ++ pages_text ts

page_read :
    (next : Sink → PdfResult) (p : Page) (t : Text) (b : Text) (max : ℕ)
    → length b + length (page_lines t ++ 10 ∷ 10 ∷ []) < max
    → with_page next p (record { bytes = b; max = max }) (answer t)
      ≡ next (record { bytes = b ++ (page_lines t ++ 10 ∷ 10 ∷ []); max = max })
unfolding with_page
page_read next p t b max h =
    let l = page_lines t in
    let size = length-append l (10 ∷ 10 ∷ []) in
    let first = write-room l (record { bytes = b; max = max }) (omega (arith, h, size)) in
    let second =
      write-room (10 ∷ 10 ∷ []) (record { bytes = b ++ l; max = max })
        (omega (arith, h, size, length-append b l)) in
    rw (first, second, append_assoc b l (10 ∷ 10 ∷ [])) refl

pages_read :
    (ps : List Page) (ts : List Text) (rest : List Page) (b : Text) (max : ℕ)
    → AllRead ps ts
    → length b + length (pages_text ts) < max
    → read_pages (ps ++ rest) (record { bytes = b; max = max })
      ≡ read_pages rest (record { bytes = b ++ pages_text ts; max = max })
unfolding read_pages pages_text
pages_read [] [] rest b max all h = rw (append-nil b) refl
pages_read [] (t ∷ ts) rest b max all h = elim all [ ]
pages_read (p ∷ ps) [] rest b max all h = elim all [ ]
pages_read (p ∷ ps) (t ∷ ts) rest b max (here, others) h =
    let l = page_lines t ++ 10 ∷ 10 ∷ [] in
    let size = length-append l (pages_text ts) in
    let room = full-room (record { bytes = b; max = max }) (omega (arith, h)) in
    let this = page_read (read_pages (ps ++ rest)) p t b max (omega (arith, h, size)) in
    let next =
      pages_read ps ts rest (b ++ l) max others (omega (arith, h, size, length-append b l)) in
    rw (room, here.going, here.reads, sym (append_assoc b l (pages_text ts))) (this ∙ next)

-- With the cap above the length of the text, and a context that goes on, the pages that are read give
-- their texts in order, with newlines and ligatures made plain and an empty line after each, without
-- control characters; where the next page then fails, the text of those before it is still returned, and
-- only with no text the reason is.
read_pages-texts :
    (ps : List Page) (ts : List Text) (max : ℕ) (p : Page) (e : EngineError) (rest : List Page)
    → AllRead ps ts
    → length (pages_text ts) < max
    → p.before ≡ none
    → p.page_text ≡ refused e
    → let out : Sink = record { bytes = []; max = max } in
      (read_pages ps out ≡ pdf_text (strip_controls (pages_text ts)))
      × (read_pages (ps ++ p ∷ rest) out ≡ (
          if ltb 0 (length (pages_text ts))
          then pdf_text (strip_controls (pages_text ts))
          else pdf_error p.then_ctx e))
unfolding read_pages with_page
read_pages-texts ps ts max p e rest all h going fails =
    let said = text-room (pages_text ts) max h in
    let room = full-room (record { bytes = pages_text ts; max = max }) h in
    let whole =
      ap (λ l. read_pages l (record { bytes = []; max = max })) (sym (append-nil ps))
      ∙ pages_read ps ts [] [] max all (omega (arith, h)) in
    let torn = pages_read ps ts (p ∷ rest) [] max all (omega (arith, h)) in
    (whole ∙ ap pdf_text said, torn ∙ rw (room, going, fails, said) refl)

-- schedule_idle_close sets no other field.
schedule-in_use : (e : Engine) → (schedule_idle_close e).in_use ≡ e.in_use
unfolding schedule_idle_close
schedule-in_use e = elim (Bool-cases (e.in_use == 0 && (is_loaded e.pool && not e.timer))) [
  | inl due ↦ rw due refl
  | inr not_due ↦ rw not_due refl
]

schedule-held : (e : Engine) → (schedule_idle_close e).held ≡ e.held
unfolding schedule_idle_close
schedule-held e = elim (Bool-cases (e.in_use == 0 && (is_loaded e.pool && not e.timer))) [
  | inl due ↦ rw due refl
  | inr not_due ↦ rw not_due refl
]

abbrev Same : Engine → Engine → Type 0
Same e e' = (e'.in_use ≡ e.in_use) × (e'.held ≡ e.held)

instance-Same :
    (max : ℕ) (d : Document) (gives : Bool) (p : ℕ) (e : Engine)
    → Same e (with_instance max d (get_instance gives p e)).1
unfolding with_instance get_instance release_pdf
instance-Same max d true p e =
    let released = record e { in_use = (e.in_use + 1) - 1 } in
    let back : (e.in_use + 1) - 1 ≡ e.in_use = omega arith in
    (schedule-in_use released ∙ back, schedule-held released)
instance-Same max d false p e = (schedule-in_use e, schedule-held e)

used-Same :
    (max : ℕ) (d : Document) (inits gives : Bool) (e : Engine) (o : Option ℕ)
    → Same e (with_instance max d (with_pool inits gives e o)).1
unfolding with_instance with_pool
used-Same max d inits gives e (some p) = instance-Same max d gives p e
used-Same max d true gives e none =
    instance-Same max d gives e.made (record e { pool = some e.made; made = e.made + 1 })
used-Same max d false gives e none = (refl, refl)

-- However the extraction of a PDF ends, the caller has no instance of the engine any more: as many are
-- in use as before, and the same ones.
extract_pdf_releases :
    (ctx : Option CtxError) (in_time inits gives : Bool) (max : ℕ) (d : Document) (e : Engine)
    → let after = (extract_pdf ctx in_time inits gives max d e).1 in
      (after.in_use ≡ e.in_use) × (after.held ≡ e.held)
unfolding extract_pdf acquire_pdf
extract_pdf_releases (some c) in_time inits gives max d e = (refl, refl)
extract_pdf_releases none in_time inits gives max d e =
    used-Same max d inits gives (stop_timer in_time e) e.pool
