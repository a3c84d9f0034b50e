-- ===== src/HostGuard/Refused.antt =====
-- Which requests the guard lets through.
use findo.Prelude.{
  ◌≡◌, refl, sym, ap, ◌∙◌, Bool, true, false, not, ◌||◌, ◌⊎◌, inl, inr, Option, none, some, List,
  [], ◌∷◌, ◌++◌, ◌-◌, leb, any, ◌==◌, Text, text_eq, text_eq→eq, take, drop, length, &&-true,
  Bool-cases,
}
use findo.Prelude.Slices.{take_append_drop}
use findo.HostGuard.{
  Web, has_suffix, normalize_host, private_suffixes, is_ip, is_blank, listed_in, extra_names,
  name_allowed, host_allowed, same_host, same_origin, is_safe_method, WebRequest, GuardAnswer,
  served, forbidden_host, forbidden_origin, host_guard,
}

abbrev pub Among : Text → List Text → Type 0
Among h [] = ⊥
Among h (x ∷ xs) = (x ≡ h) ⊎ Among h xs

-- The name ends with one of the suffixes.
abbrev pub EndsIn : List Text → Text → Type 0
EndsIn [] h = ⊥
EndsIn (s ∷ ss) h = ((p : Text) × (h ≡ p ++ s)) ⊎ EndsIn ss h

-- A name that normalizes to h is among the extra hosts.
abbrev pub IsListed : Web → List Text → Text → Type 0
IsListed web [] h = ⊥
IsListed web (e ∷ es) h = (normalize_host web e ≡ h) ⊎ IsListed web es h

abbrev pub has_dot : Text → Bool
unfolding any
has_dot h = any (λ c. c == b'.') h

abbrev pub IsLocal : Web → List Text → Text → Type 0
unfolding has_dot
IsLocal web extra h =
    (is_ip (web.net.parse_ip h) ≡ true)
    ⊎ ((has_dot h ≡ false) ⊎ (EndsIn private_suffixes h ⊎ IsListed web extra h))

abbrev pub SameOrigin : Web → WebRequest → Type 0
SameOrigin web r =
    (o : Text) × (web.url_host r.origin ≡ some o)
    × (is_blank o ≡ false)
    × (web.equal_fold o r.host ≡ true)

||-true : (a b : Bool) → (a || b) ≡ true → (a ≡ true) ⊎ (b ≡ true)
||-true true b h = inl refl
||-true false b h = inr h

not-true : (b : Bool) → not b ≡ true → b ≡ false
not-true true h = cc
not-true false h = refl

EndsIn-any : (ss : List Text) (h : Text) → any (λ s. has_suffix h s) ss ≡ true → EndsIn ss h
unfolding any has_suffix
EndsIn-any [] h e = cc
EndsIn-any (s ∷ ss) h e = elim (||-true (has_suffix h s) (any (λ t. has_suffix h t) ss) e) [
  | inl ends ↦
      let (long, same) =
        &&-true (leb (length s) (length h)) (text_eq (drop (length h - length s) h) s) ends in
      inl (
        take (length h - length s) h,
        sym (
            ap (λ t. take (length h - length s) h ++ t) (sym (text_eq→eq _ _ same))
            ∙ take_append_drop (length h - length s) h),
      )
  | inr others ↦ inr (EndsIn-any ss h others)
]

IsListed-extra :
    (web : Web) (es : List Text) (h : Text)
    → listed_in h (extra_names web es) ≡ true
    → IsListed web es h
unfolding listed_in extra_names
IsListed-extra web [] h e = cc
IsListed-extra web (x ∷ es) h e = elim (Bool-cases (is_blank (normalize_host web x))) [
  | inl blank ↦ inr (IsListed-extra web es h (rw blank at e))
  | inr named ↦
      elim (||-true (text_eq (normalize_host web x) h) (listed_in h (extra_names web es))
        (rw named at e)) [
          | inl same ↦ inl (text_eq→eq _ _ same)
          | inr others ↦ inr (IsListed-extra web es h others)
        ]
]

IsLocal-name_allowed :
    (web : Web) (es : List Text) (h : Text)
    → name_allowed web (extra_names web es) h ≡ true
    → (is_blank h ≡ false) × IsLocal web es h
unfolding name_allowed IsLocal
IsLocal-name_allowed web es h e = elim (Bool-cases (is_blank h)) [
  | inl blank ↦ let refused : false ≡ true = rw blank at e in cc
  | inr named ↦ (
    named,
    elim (||-true (is_ip (web.net.parse_ip h)) _ (rw named at e)) [
      | inl ip ↦ inl ip
      | inr no_ip ↦ elim (||-true (not (has_dot h)) _ no_ip) [
        | inl single ↦ inr (inl (not-true (has_dot h) single))
        | inr dotted ↦ elim (||-true (any (λ s. has_suffix h s) private_suffixes) _ dotted) [
          | inl local ↦ inr (inr (inl (EndsIn-any private_suffixes h local)))
          | inr listed ↦ inr (inr (inr (IsListed-extra web es h listed)))
        ]
      ]
    ],
  )
]

SameOrigin-same_host :
    (web : Web) (r : WebRequest) (o : Option Text)
    → web.url_host r.origin ≡ o
    → same_host web r.host o ≡ true
    → SameOrigin web r
SameOrigin-same_host web r none there e = let refused : false ≡ true = e in cc
SameOrigin-same_host web r (some []) there e = let refused : false ≡ true = e in cc
SameOrigin-same_host web r (some (c ∷ o)) there e = (c ∷ o, there, refl, e)

is_blank-nil : (s : Text) → is_blank s ≡ true → s ≡ []
is_blank-nil [] h = refl
is_blank-nil (c ∷ s) h = cc

-- A request is served only if its Host, in lower case and without a port, brackets and a last dot, is
-- not empty, and is an IP address, a name without a dot, a name with an ending that only resolves
-- locally, or what one of the allowed names is when it is read in that way; and if its method is GET,
-- HEAD or OPTIONS, it has no Origin, or its Origin is a URL with a host, which is the request's Host but
-- for the case.
pub host_guard-IsLocal :
    (web : Web) (extra : List Text) (r : WebRequest)
    → host_guard web extra r ≡ served
    → let h = normalize_host web r.host in
      (is_blank h ≡ false)
      × IsLocal web extra h
      × ((is_safe_method r.method ≡ true) ⊎ ((r.origin ≡ []) ⊎ SameOrigin web r))
unfolding host_guard host_allowed same_origin
host_guard-IsLocal web extra r e =
    let h = normalize_host web r.host in
    elim (Bool-cases (name_allowed web (extra_names web extra) h)) [
      | inr refused ↦
          let differ : ◌≡◌ {A = GuardAnswer} forbidden_host served = rw refused at e in
          let absurd : ⊥ = cc in elim absurd [ ]
      | inl allowed ↦
          let (named, local) = IsLocal-name_allowed web extra h allowed in
          (
            named,
            local,
            elim (Bool-cases (is_safe_method r.method)) [
              | inl safe ↦ inl safe
              | inr unsafe ↦ inr (elim (Bool-cases (is_blank r.origin)) [
                | inl blank ↦ inl (is_blank-nil r.origin blank)
                | inr given ↦
                    inr (elim (Bool-cases (same_host web r.host (web.url_host r.origin))) [
                      | inl same ↦ SameOrigin-same_host web r (web.url_host r.origin) refl same
                      | inr other ↦
                          let differ : ◌≡◌ {A = GuardAnswer} forbidden_origin served =
                            rw (allowed, unsafe, given, other) at e in
                          let absurd : ⊥ = cc in elim absurd [ ]
                    ])
              ])
            ],
          )
    ]
