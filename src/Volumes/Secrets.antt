-- ===== src/Volumes/Secrets.antt =====
-- A password is only ever stored, and used, with the server that it was typed for.
use mathlib.Core.Path.{subst}
use findo.Prelude.{
  ℕ, ◌≡◌, refl, Bool, true, false, ◌||◌, Option, none, some, List, [], ◌∷◌, arith, if◌then◌else◌,
  Text, find, filter, any, All, inl, inr, Bool-cases, Option-cases,
}
use findo.Index.{Result, ok, err}
use findo.Strings.Runes.{trim_space}
use findo.Volumes.{
  Volume, VolumeSecret, VolumeUpdate, Tables, create_volume, update_volume,
  set_volume_content_index, delete_volume, set_volume_test_result, has_id, change, updated,
  secret_of, set_content, tested, has_name, another,
}
use findo.Volumes.Server.{
  VolumeInput, Runtime, Server, Calls, is_nil, wanted, created, then_content, handle_create_volume,
  restart, written, handle_update_volume, handle_delete_volume, stop_volume, Start, run_start,
}

-- What changes the server's state, one at a time.
pub data Request : Type 0 where
  create : VolumeInput → Calls → Request
  update : ℕ → VolumeInput → Calls → Request
  remove : ℕ → Calls → Request
  start : ℕ → Text → Start → Request

abbrev pub serve : Request → Server → Server
serve (create i c) s = (handle_create_volume i c s).1
serve (update id i c) s = (handle_update_volume id i c s).1
serve (remove id c) s = (handle_delete_volume id c s).1
serve (start id msg o) s = run_start id msg o s

abbrev pub serve_all : List Request → Server → Server
serve_all [] s = s
serve_all (q ∷ qs) s = serve_all qs (serve q s)

-- The server, the share, the user and the password that an input has together.
abbrev pub typed : VolumeInput → Text → VolumeSecret
typed i enc = record { host = i.host; share = i.share; username = i.username; password_enc = enc }

-- What an input enters: nothing without a password, or where the password cannot be encrypted.
abbrev pub entered : VolumeInput → Calls → List VolumeSecret
entered i c =
    if is_nil i.password then [] else elim c.encrypted [ none ↦ [] | some enc ↦ typed i enc ∷ [] ]

abbrev pub entered_by : Request → List VolumeSecret
entered_by (create i c) = entered i c
entered_by (update id i c) = entered i c
entered_by (remove id c) = []
entered_by (start id msg o) = []

module _ (P : VolumeSecret → Type 0) where
  pub typed-P :
      (i : VolumeInput) (c : Calls) (enc : Text)
      → All P (entered i c)
      → is_nil i.password ≡ false
      → c.encrypted ≡ some enc
      → P (typed i enc)
  typed-P i c enc p h e = (rw (h, e) at p).0

  abbrev pub Stored : Volume → Type 0
  Stored v = P (secret_of v)

  -- P holds of what is stored and of what the sessions were opened with.
  abbrev pub Bound : Server → Type 0
  Bound s = All Stored s.tables.volumes × All (λ (r : Runtime). P r.secret) s.runtimes

  pub All-filter {ℓ} :
      {A : Type ℓ} (Q : A → Type 0) (keep : A → Bool) (xs : List A)
      → All Q xs
      → All Q (filter keep xs)
  unfolding filter
  All-filter Q keep [] h = tt
  All-filter Q keep (x ∷ xs) (h, hs) = elim (Bool-cases (keep x)) [
    | inl stays ↦ rw stays (h, All-filter Q keep xs hs)
    | inr goes ↦ rw goes (All-filter Q keep xs hs)
  ]

  pub find-Stored :
      (id : ℕ) (vs : List Volume) (v : Volume)
      → All Stored vs
      → find (has_id id) vs ≡ some v
      → Stored v
  unfolding find
  find-Stored id [] v h e = cc
  find-Stored id (w ∷ vs) v (h, hs) e = elim (Bool-cases (has_id id w)) [
    | inl here ↦
        let e' : some w ≡ some v = rw (here, find) at e in
        let same : w ≡ v = cc in subst (λ x. Stored x) same h
    | inr there ↦ find-Stored id vs v hs (rw there at e)
  ]

  change-Stored :
      (id : ℕ) (f : Volume → Volume) (vs : List Volume)
      → ((v : Volume) → find (has_id id) vs ≡ some v → Stored v → Stored (f v))
      → All Stored vs
      → All Stored (change id f vs)
  unfolding change find
  change-Stored id f [] k h = tt
  change-Stored id f (w ∷ vs) k (h, hs) = elim (Bool-cases (has_id id w)) [
    | inl here ↦ rw here (k w (rw here refl) h, hs)
    | inr there ↦ rw there (h, change-Stored id f vs (λ v e. k v (rw there e)) hs)
  ]

  -- The tables of a result keep P, and the row that it returns.
  abbrev pub Kept : Result Volume × Tables → Type 0
  Kept (r, t) = All Stored t.volumes

  set_content-Kept :
      (id : ℕ) (on is_fault : Bool) (t : Tables)
      → All Stored t.volumes
      → Kept (set_volume_content_index id on is_fault t)
  unfolding set_volume_content_index
  set_content-Kept id on true t h = h
  set_content-Kept id on false t h = elim (Option-cases (find (has_id id) t.volumes)) [
    | inl e ↦ rw e h
    | inr (v, e) ↦ rw e (change-Stored id (set_content on) t.volumes (λ w e s. s) h)
  ]

  create-Kept :
      (name host share username enc : Text) (is_fault : Bool) (t : Tables)
      → P (record { host = host; share = share; username = username; password_enc = enc })
      → All Stored t.volumes
      → Kept (create_volume name host share username enc is_fault t)
  unfolding create_volume
  create-Kept name host share username enc true t p h = h
  create-Kept name host share username enc false t p h =
      elim (Bool-cases (any (has_name t.lower name) t.volumes)) [
        | inl y ↦ rw y h
        | inr n ↦ rw n (p, h)
      ]

  pub update-Kept :
      (id : ℕ) (u : VolumeUpdate) (is_fault : Bool) (t : Tables)
      → ((v : Volume) → find (has_id id) t.volumes ≡ some v → Stored v → Stored (updated u v))
      → All Stored t.volumes
      → Kept (update_volume id u is_fault t)
  unfolding update_volume
  update-Kept id u true t p h = h
  update-Kept id u false t p h = elim (Option-cases (find (has_id id) t.volumes)) [
    | inl e ↦ rw e h
    | inr (v, e) ↦ rw e elim (Bool-cases (any (another t.lower id u.name) t.volumes)) [
      | inl y ↦ rw y h
      | inr n ↦ rw n (change-Stored id (updated u) t.volumes p h)
    ]
  ]

  pub delete-Kept :
      (id : ℕ) (is_fault : Bool) (t : Tables)
      → All Stored t.volumes
      → All Stored (delete_volume id is_fault t).1.volumes
  unfolding delete_volume
  delete-Kept id true t h = h
  delete-Kept id false t h = All-filter Stored _ t.volumes h

  pub tested-Kept :
      (id : ℕ) (is_ok : Bool) (msg : Text) (is_fault : Bool) (t : Tables)
      → All Stored t.volumes
      → All Stored (set_volume_test_result id is_ok msg is_fault t).1.volumes
  unfolding set_volume_test_result
  tested-Kept id is_ok msg true t h = h
  tested-Kept id is_ok msg false t h = change-Stored id (tested is_ok msg) t.volumes (λ v e s. s) h

  abbrev pub Running : Server → Type 0
  Running s = All (λ (r : Runtime). P r.secret) s.runtimes

  Bound-if : (b : Bool) (s s' : Server) → Bound s → Bound s' → Bound (if b then s else s')
  Bound-if true s s' h k = h
  Bound-if false s s' h k = k

  created-Bound :
      (enabled : Option Bool) (r : Result Volume × Tables) (s : Server)
      → Kept r
      → Running s
      → Bound (created enabled r s).1
  created-Bound enabled (err e, t) s h k = (h, k)
  created-Bound enabled (ok v, t) s h k = Bound-if (wanted enabled true) _ _ (h, k) (h, k)

  then_content-Bound :
      (i : VolumeInput) (c : Calls) (r : Result Volume × Tables) (s : Server)
      → Kept r
      → Running s
      → Bound (then_content i c r s).1
  then_content-Bound i c (err e, t) s h k = (h, k)
  then_content-Bound i c (ok v, t) s h k = elim (Bool-cases (wanted i.content_index false)) [
    | inl on ↦
        rw on (created-Bound i.enabled _ s (set_content-Kept v.id true c.content_fault t h) k)
    | inr off ↦ rw off (created-Bound i.enabled (ok v, t) s h k)
  ]

  pub create-Bound :
      (i : VolumeInput) (c : Calls) (s : Server)
      → All P (entered i c)
      → Bound s
      → Bound (handle_create_volume i c s).1
  unfolding handle_create_volume
  create-Bound i c s p (h, k) =
      elim (Bool-cases (
        is_nil (trim_space i.name)
        || (is_nil i.host || (is_nil i.share || (is_nil i.username || is_nil i.password))))) [
          | inl bad ↦ rw bad (h, k)
          | inr good ↦ rw good elim (Option-cases c.encrypted) [
            | inl e ↦ rw e (h, k)
            | inr (enc, e) ↦ rw e (
                then_content-Bound i c _ s
                  (create-Kept (trim_space i.name) i.host i.share i.username enc c.write_fault
                    s.tables (typed-P i c enc p (ground arith) e) h)
                  k)
          ]
        ]

  pub stop-Running : (id : ℕ) (s : Server) → Running s → Running (stop_volume id s)
  unfolding stop_volume
  stop-Running id s k = All-filter (λ (r : Runtime). P r.secret) _ s.runtimes k

  restart-Bound :
      (id : ℕ) (r : Result Volume × Tables) (s : Server)
      → Kept r
      → Running s
      → Bound (restart id r s).1
  unfolding stop_volume
  restart-Bound id (err e, t) s h k = (h, k)
  restart-Bound id (ok v, t) s h k =
      let k' = stop-Running id (record s { tables = t }) k in Bound-if v.enabled _ _ (h, k') (h, k')

  pub written-Bound :
      (id : ℕ) (i : VolumeInput) (c : Calls) (r : Result Volume × Tables) (s : Server)
      → Kept r
      → Running s
      → Bound (written id i c r s).1
  written-Bound id i c (err e, t) s h k = (h, k)
  written-Bound id i c (ok v, t) s h k = elim (Option-cases i.content_index) [
    | inl e ↦ rw e (restart-Bound id (ok v, t) s h k)
    | inr (on, e) ↦ rw e (restart-Bound id _ s (set_content-Kept id on c.content_fault t h) k)
  ]
