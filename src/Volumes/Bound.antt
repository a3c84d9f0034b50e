-- ===== src/Volumes/Bound.antt =====
-- The update, removal and start of volumes, and sequences of requests.
use mathlib.Core.Path.{subst}
use findo.Prelude.{
  ℕ, ◌≡◌, refl, sym, ap, Bool, true, false, not, ◌&&◌, ◌||◌, Option, none, some, List, [], ◌∷◌,
  arith, if◌then◌else◌, Text, text_eq, text_eq→eq, &&-true, find, All, inl, inr, ◌⊎◌, Bool-cases,
  Option-cases,
}
use findo.Index.{fault, not_found, Error, ok, err}
use findo.Strings.Runes.{trim_space}
use findo.Volumes.{
  Volume, VolumeSecret, Tables, get_volume, get_volume_secret, has_id, secret_of, updated,
}
use findo.Volumes.Server.{
  VolumeInput, Runtime, Server, Calls, is_nil, stop_volume, same_server, new_password, update_of,
  update_existing, handle_update_volume, handle_delete_volume, deleted, register_volume_runtime,
  Start, start_volume, recorded, run_start,
}
use findo.Volumes.Secrets.{
  Request, create, update, remove, start, serve_all, typed, entered, entered_by, typed-P, Stored,
  Bound, Running, All-filter, find-Stored, update-Kept, delete-Kept, tested-Kept, stop-Running,
  create-Bound, written-Bound,
}

new_password-cases :
    (i : VolumeInput) (c : Calls) (enc : Option Text)
    → new_password i c ≡ some enc
    → ((is_nil i.password ≡ true) × (enc ≡ none))
      ⊎ ((is_nil i.password ≡ false) × ((e : Text) × (c.encrypted ≡ some e) × (enc ≡ some e)))
new_password-cases i c enc h = cases (is_nil i.password) c.encrypted h
  where
    cases :
        (b : Bool) (o : Option Text)
        → (if b then some none else elim o [ none ↦ none | some e ↦ some (some e) ]) ≡ some enc
        → ((b ≡ true) × (enc ≡ none)) ⊎ ((b ≡ false) × ((e : Text) × (o ≡ some e) × (enc ≡ some e)))
    cases true o h = inl (refl, cc)
    cases false none h = cc
    cases false (some e) h = inr (refl, (e, refl, cc))

same_server-secret :
    (i : VolumeInput) (v : Volume) → same_server i v ≡ true → secret_of v ≡ typed i v.password_enc
same_server-secret i v h =
    let (a, rest) = &&-true (text_eq i.host v.host) _ h in
    let (b, c) = &&-true (text_eq i.share v.share) _ rest in
    λ j. record {
      host = sym (text_eq→eq i.host v.host a) j;
      share = sym (text_eq→eq i.share v.share b) j;
      username = sym (text_eq→eq i.username v.username c) j;
      password_enc = v.password_enc;
    }

get_volume-cases :
    (id : ℕ) (is_fault : Bool) (t : Tables)
    → ((e : Error) × (get_volume id is_fault t ≡ err e))
      ⊎ ((get_volume id is_fault t ≡ ok none)
          ⊎ ((v : Volume) × (find (has_id id) t.volumes ≡ some v)
              × (get_volume id is_fault t ≡ ok (some v))))
unfolding get_volume
get_volume-cases id true t = inl (fault, refl)
get_volume-cases id false t = elim (Option-cases (find (has_id id) t.volumes)) [
  | inl e ↦ inr (inl (ap ok e))
  | inr (v, e) ↦ inr (inr (v, e, ap ok e))
]

pub secret-cases :
    (id : ℕ) (is_fault : Bool) (t : Tables)
    → ((e : Error) × (get_volume_secret id is_fault t ≡ err e))
      ⊎ ((v : Volume) × (find (has_id id) t.volumes ≡ some v)
          × (get_volume_secret id is_fault t ≡ ok (secret_of v)))
unfolding get_volume_secret
secret-cases id true t = inl (fault, refl)
secret-cases id false t = elim (Option-cases (find (has_id id) t.volumes)) [
  | inl e ↦ inl (not_found, rw e refl)
  | inr (v, e) ↦ inr (v, e, rw e refl)
]

module _ (P : VolumeSecret → Type 0) where
  -- What an update stores in the row that it found.
  updated-Stored :
      (i : VolumeInput) (c : Calls) (v : Volume) (enc : Option Text)
      → All P (entered i c)
      → (is_nil i.password && not (same_server i v)) ≡ false
      → new_password i c ≡ some enc
      → Stored P v
      → Stored P (updated (update_of i v enc) v)
  unfolding updated
  updated-Stored i c v enc p kept e h = elim (new_password-cases i c enc e) [
    | inl (blank, n) ↦ rw n (rw (same_server-secret i v (ground arith)) at h)
    | inr (typed_in, (e', x, y)) ↦ rw y (typed-P P i c e' p typed_in x)
  ]

  update_existing-Bound :
      (id : ℕ) (i : VolumeInput) (c : Calls) (v : Volume) (s : Server)
      → All P (entered i c)
      → find (has_id id) s.tables.volumes ≡ some v
      → Bound P s
      → Bound P (update_existing id i c v s).1
  unfolding update_existing
  update_existing-Bound id i c v s p here (h, k) =
      elim (Bool-cases
        (is_nil (trim_space i.name) || (is_nil i.host || (is_nil i.share || is_nil i.username)))) [
          | inl bad ↦ rw bad (h, k)
          | inr good ↦ rw good elim (Bool-cases (is_nil i.password && not (same_server i v))) [
            | inl bad ↦ rw bad (h, k)
            | inr kept ↦ rw kept elim (Option-cases (new_password i c)) [
              | inl e ↦ rw e (h, k)
              | inr (enc, e) ↦ rw e (
                  written-Bound P id i c _ s
                    (update-Kept P id (update_of i v enc) c.write_fault s.tables
                      (λ w found stored. found_one w enc kept e found stored) h)
                    k)
            ]
          ]
        ]
    where
      found_one :
          (w : Volume) (enc : Option Text)
          → (is_nil i.password && not (same_server i v)) ≡ false
          → new_password i c ≡ some enc
          → find (has_id id) s.tables.volumes ≡ some w
          → Stored P w
          → Stored P (updated (update_of i v enc) w)
      found_one w enc kept e found stored =
          let both : some v ≡ some w = cc in
          let same : v ≡ w = cc in
          subst (λ x. Stored P (updated (update_of i v enc) x)) same
            (updated-Stored i c v enc p kept e (subst (λ x. Stored P x) (sym same) stored))

  update-Bound :
      (id : ℕ) (i : VolumeInput) (c : Calls) (s : Server)
      → All P (entered i c)
      → Bound P s
      → Bound P (handle_update_volume id i c s).1
  unfolding handle_update_volume
  update-Bound id i c s p b = elim (get_volume-cases id c.get_fault s.tables) [
    | inl (e, x) ↦ rw x b
    | inr (inl x) ↦ rw x b
    | inr (inr (v, e, x)) ↦ rw x (update_existing-Bound id i c v s p e b)
  ]

  deleted-Bound :
      (r : Option Error × Tables) (s : Server)
      → All (Stored P) r.1.volumes
      → Running P s
      → Bound P (deleted r s).1
  deleted-Bound (none, t) s h k = (h, k)
  deleted-Bound (some e, t) s h k = (h, k)

  remove-Bound :
      (id : ℕ) (c : Calls) (s : Server) → Bound P s → Bound P (handle_delete_volume id c s).1
  unfolding handle_delete_volume stop_volume
  remove-Bound id c s (h, k) =
      deleted-Bound _ _ (delete-Kept P id c.write_fault s.tables h) (stop-Running P id s k)

  start-Bound :
      (id : ℕ) (msg : Text) (o : Start) (s : Server) → Bound P s → Bound P (run_start id msg o s)
  unfolding run_start start_volume register_volume_runtime
  start-Bound id msg o s (h, k) = elim (secret-cases id o.secret_fault s.tables) [
    | inl (e, x) ↦ rw x fails
    | inr (v, e, x) ↦ rw x elim (Bool-cases o.decrypts) [
      | inr no_key ↦ rw no_key fails
      | inl key ↦ rw key elim (Bool-cases o.connects) [
        | inr down ↦ rw down fails
        | inl up ↦ rw up (
          h,
          (
            find-Stored P id s.tables.volumes v h e,
            All-filter P (λ (r : Runtime). P r.secret) _ s.runtimes k,
          ),
        )
      ]
    ]
  ]
    where
      fails : Bound P (recorded id msg o (false, s))
      fails = (tested-Kept P id false msg o.record_fault s.tables h, k)

  -- Whatever property of a host, a share, a user and an encrypted password has held together of what
  -- was stored and connected to at first, and holds of what each request's user types together with
  -- a password, holds of every row and of every session after any sequence of requests that create,
  -- update, remove and start volumes: no password is used with a server that it was not typed for.
  pub serve_all-Bound :
      (qs : List Request) (s : Server)
      → All (λ q. All P (entered_by q)) qs
      → Bound P s
      → Bound P (serve_all qs s)
  serve_all-Bound [] s t b = b
  serve_all-Bound (create i c ∷ qs) s (t, ts) b = serve_all-Bound qs _ ts (create-Bound P i c s t b)
  serve_all-Bound (update id i c ∷ qs) s (t, ts) b =
      serve_all-Bound qs _ ts (update-Bound id i c s t b)
  serve_all-Bound (remove id c ∷ qs) s (t, ts) b = serve_all-Bound qs _ ts (remove-Bound id c s b)
  serve_all-Bound (start id msg o ∷ qs) s (t, ts) b =
      serve_all-Bound qs _ ts (start-Bound id msg o s b)
