-- ===== src/Contents/Safe.antt =====
-- What is served inline.
use findo.Prelude.{
  ◌≡◌, refl, Bool, true, false, not, ◌&&◌, ◌||◌, &&-true, Option, none, some, List, [], ◌∷◌, ◌⊎◌,
  inl, inr, any, codes, Text, text_eq, All, Bool-cases,
}
use findo.Prelude.Int.{ℤ}
use findo.Smb.{valid_path}
use findo.Strings.{trim_prefix}
use findo.Index.Paths.{path_ext}
use findo.Filetype.{
  Kind, Extractor, Info, Types, Call, add, set_extractor, by_ext, has_ext, add_exts, extract_with,
  set_exts, run_call, run_calls, then_calls, text_plain,
}
use findo.Filetype.Table.{init_calls}
use findo.Filetype.Lookup.{init, or_empty, or_octet, lookup}
use findo.Search.{Response, refused, answered, parse_volume_id_param}
use findo.Contents.{
  attachment, Headers, set_content_headers, Shares, opened, content_in, handle_content,
}

-- The types that a browser may show: neither HTML nor SVG.
abbrev pub shown : List Text
shown =
    codes "application/pdf"
    ∷ text_plain
    ∷ codes "application/json"
    ∷ codes "text/xml; charset=utf-8"
    ∷ codes "image/jpeg"
    ∷ codes "image/png"
    ∷ codes "image/apng"
    ∷ codes "image/gif"
    ∷ codes "image/webp"
    ∷ codes "image/avif"
    ∷ codes "image/bmp"
    ∷ codes "image/x-icon"
    ∷ codes "video/mp4"
    ∷ codes "video/quicktime"
    ∷ codes "video/webm"
    ∷ codes "audio/mpeg"
    ∷ codes "audio/mp4"
    ∷ codes "audio/aac"
    ∷ codes "audio/wav"
    ∷ codes "audio/flac"
    ∷ []

unfoldable pub is_shown : Text → Bool
unfolding any text_eq
is_shown mime = any (text_eq mime) shown

abbrev SafeInfo : Info → Type 0
SafeInfo info = not info.inline || is_shown info.mime ≡ true

abbrev SafeTypes : Types → Type 0
SafeTypes = All (λ e. SafeInfo e.1)

abbrev SafeTable : Option Types → Type 0
SafeTable none = Unit
SafeTable (some ts) = SafeTypes ts

unfoldable safe_calls : List Call → Bool
unfolding is_shown
safe_calls [] = true
safe_calls (add mime kind shows exts ∷ cs) = (not shows || is_shown mime) && safe_calls cs
safe_calls (set_extractor x exts ∷ cs) = safe_calls cs

add_exts-SafeTable :
    (mime : Text) (kind : Kind) (shows : Bool) (exts : List Text) (ts : Types)
    → (not shows || is_shown mime) ≡ true
    → SafeTypes ts
    → SafeTable (add_exts mime kind shows exts ts)
unfolding add_exts
add_exts-SafeTable mime kind shows [] ts h k = k
add_exts-SafeTable mime kind shows (e ∷ es) ts h k = elim (Bool-cases (has_ext e ts)) [
  | inl twice ↦ rw twice tt
  | inr once ↦ rw once (add_exts-SafeTable mime kind shows es (_ ∷ ts) h (h, k))
]

extract_with-SafeTypes :
    (x : Extractor) (ext : Text) (ts : Types) → SafeTypes ts → SafeTypes (extract_with x ext ts)
unfolding extract_with
extract_with-SafeTypes x ext [] h = tt
extract_with-SafeTypes x ext ((e, info) ∷ ts) (h, hs) = elim (Bool-cases (text_eq e ext)) [
  | inl here ↦ rw here (h, hs)
  | inr other ↦ rw other (h, extract_with-SafeTypes x ext ts hs)
]

set_exts-SafeTable :
    (x : Extractor) (exts : List Text) (ts : Types) → SafeTypes ts → SafeTable (set_exts x exts ts)
unfolding set_exts
set_exts-SafeTable x [] ts h = h
set_exts-SafeTable x (e ∷ es) ts h = elim (Bool-cases (has_ext e ts)) [
  | inl known ↦
      rw known (set_exts-SafeTable x es (extract_with x e ts) (extract_with-SafeTypes x e ts h))
  | inr unknown ↦ rw unknown tt
]

then_calls-SafeTable :
    (next : Types → Option Types) (r : Option Types)
    → ((ts : Types) → SafeTypes ts → SafeTable (next ts))
    → SafeTable r
    → SafeTable (then_calls next r)
then_calls-SafeTable next none later h = tt
then_calls-SafeTable next (some ts) later h = later ts h

run_calls-SafeTable :
    (cs : List Call) (ts : Types)
    → safe_calls cs ≡ true
    → SafeTypes ts
    → SafeTable (run_calls cs ts)
unfolding run_calls run_call safe_calls
run_calls-SafeTable [] ts h k = k
run_calls-SafeTable (add mime kind shows exts ∷ cs) ts h k =
    let (this, rest) = &&-true (not shows || is_shown mime) (safe_calls cs) h in
    then_calls-SafeTable (run_calls cs) (add_exts mime kind shows exts ts)
      (λ us. run_calls-SafeTable cs us rest) (add_exts-SafeTable mime kind shows exts ts this k)
run_calls-SafeTable (set_extractor x exts ∷ cs) ts h k =
    then_calls-SafeTable (run_calls cs) (set_exts x exts ts) (λ us. run_calls-SafeTable cs us h)
      (set_exts-SafeTable x exts ts k)

init_calls_safe : safe_calls init_calls ≡ true
unfolding safe_calls
init_calls_safe = refl

or_empty-SafeTypes : (r : Option Types) → SafeTable r → SafeTypes (or_empty r)
or_empty-SafeTypes none h = tt
or_empty-SafeTypes (some ts) h = h

by_ext-SafeInfo : (ext : Text) (ts : Types) → SafeTypes ts → SafeInfo (or_octet (by_ext ext ts))
unfolding by_ext
by_ext-SafeInfo ext [] h = refl
by_ext-SafeInfo ext ((e, info) ∷ ts) (h, hs) = elim (Bool-cases (text_eq e ext)) [
  | inl here ↦ rw here h
  | inr other ↦ rw other (by_ext-SafeInfo ext ts hs)
]

lookup-SafeInfo : (to_lower : Text → Text) (name : Text) → SafeInfo (lookup to_lower name)
unfolding lookup init
lookup-SafeInfo to_lower name =
    by_ext-SafeInfo (to_lower (trim_prefix (path_ext name) (codes "."))) (or_empty init)
      (or_empty-SafeTypes init (run_calls-SafeTable init_calls [] init_calls_safe tt))

-- A file is an attachment, or has a type that a browser may show.
abbrev pub Guarded : Headers → Type 0
Guarded h =
    (h.content_type_options ≡ codes "nosniff")
    × (h.content_security_policy ≡ codes "sandbox")
    × ((h.disposition ≡ attachment) ⊎ (is_shown h.content_type ≡ true))

shows_only : (b s : Bool) → b ≡ true → (not b || s) ≡ true → s ≡ true
shows_only true s h k = k
shows_only false s h k = cc

headers_lem :
    (to_lower : Text → Text) (name : Text) (download : Bool)
    → Guarded (set_content_headers to_lower name download)
unfolding set_content_headers
headers_lem to_lower name download =
    let safe = lookup-SafeInfo to_lower name in
    elim (Bool-cases ((lookup to_lower name).inline)) [
      | inr hides ↦ rw hides (refl, refl, inl refl)
      | inl shows ↦ (refl, refl, inr (shows_only _ _ shows safe))
    ]

-- A refusal is 400 or 404; what is served is marked.
abbrev pub IsServed : Response Headers → Type 0
IsServed (refused status) = (status ≡ 400) ⊎ (status ≡ 404)
IsServed (answered h) = Guarded h

opened-IsServed :
    (to_lower : Text → Text) (download : Text) (name : Option Text)
    → IsServed (opened to_lower download name)
opened-IsServed to_lower download none = inr refl
opened-IsServed to_lower download (some name) =
    headers_lem to_lower name (text_eq download (codes "1"))

content_in-IsServed :
    (to_lower : Text → Text) (path download : Text) (w : Shares) (v : Option ℤ)
    → IsServed (content_in to_lower path download w v)
content_in-IsServed to_lower path download w none = inl refl
content_in-IsServed to_lower [] download w (some v) = inl refl
content_in-IsServed to_lower (c ∷ p) download w (some v) = elim (Bool-cases (valid_path (c ∷ p))) [
  | inr bad ↦ rw bad (inl refl)
  | inl good ↦ rw good (elim (Bool-cases (w.is_connected v)) [
    | inl here ↦ rw here (opened-IsServed to_lower download (w.open_file v (c ∷ p)))
    | inr gone ↦ rw gone (inr refl)
  ])
]

-- A request for a file's contents is refused with 400 or 404, or served with sniffing off and in a
-- sandbox, and then as an attachment or as one of twenty types, neither HTML nor SVG, whatever the
-- file's name, the case of its extension and the request's parameters are.
pub handle_content-IsServed :
    (to_lower : Text → Text) (volume path download : Text) (w : Shares)
    → IsServed (handle_content to_lower volume path download w)
unfolding handle_content
handle_content-IsServed to_lower volume path download w =
    content_in-IsServed to_lower path download w (parse_volume_id_param volume)

shown_excludes :
    (is_shown (codes "text/html; charset=utf-8") ≡ false)
    × (is_shown (codes "image/svg+xml") ≡ false)
unfolding is_shown
shown_excludes = (refl, refl)
