-- ===== src/Changes/Complete.antt =====
-- No notification is dropped or repeated on the way to events.
use mathlib.Core.Path.{ap₂}
use findo.Prelude.{
  ◌≡◌, refl, ap, ◌∙◌, inl, inr, true, List, [], ◌∷◌, ◌++◌, append_assoc, append-nil, arith, Text,
  Bool-cases, sym,
}
use findo.Smb.{to_slash_path}
use findo.Changes.{
  Action, added, modified, renamed_old_name, renamed_new_name, other, Info, ChangeEvent, upserted,
  renamed, alone, pairs, translate_changes,
}

-- The paths that an event is about.
abbrev pub touched : ChangeEvent → List Text
touched (upserted p) = p ∷ []
touched (ChangeEvent.removed p) = p ∷ []
touched (renamed old new) = old ∷ new ∷ []

abbrev pub touched_by : List ChangeEvent → List Text
touched_by [] = []
touched_by (e ∷ es) = touched e ++ touched_by es

-- The paths that the entries of a batch name, in order, but for actions that are not known.
abbrev pub named_in : Action → Text → List Text
named_in other name = []
named_in added name = to_slash_path name ∷ []
named_in modified name = to_slash_path name ∷ []
named_in Action.removed name = to_slash_path name ∷ []
named_in renamed_old_name name = to_slash_path name ∷ []
named_in renamed_new_name name = to_slash_path name ∷ []

abbrev pub named_by : List Info → List Text
named_by [] = []
named_by (i ∷ is) = named_in i.action i.file_name ++ named_by is

touched-alone : (a : Action) (name : Text) → touched_by (alone a name) ≡ named_in a name
unfolding alone
touched-alone added name = refl
touched-alone _ name = refl

touched-append : (xs ys : List ChangeEvent) → touched_by (xs ++ ys) ≡ touched_by xs ++ touched_by ys
touched-append [] ys = refl
touched-append (x ∷ xs) ys =
    rw (touched-append xs ys) (sym (append_assoc (touched x) (touched_by xs) (touched_by ys)))

named_pair :
    (a b : Action) (x y : Text)
    → pairs a b ≡ true
    → named_in a x ++ named_in b y ≡ to_slash_path x ∷ to_slash_path y ∷ []
unfolding pairs
named_pair a b x y h = ground arith

-- The events of a batch are about the paths that its entries name: each once, in the order of the
-- entries, but for entries whose action is not known.
pub translate_changes_complete :
    (infos : List Info) → touched_by (translate_changes infos) ≡ named_by infos
unfolding translate_changes
translate_changes_complete [] = refl
translate_changes_complete (i ∷ []) = rw append-nil (touched-alone i.action i.file_name)
translate_changes_complete (i ∷ j ∷ rest) = elim (Bool-cases (pairs i.action j.action)) [
  | inl pair ↦
      rw (pair, touched_by)
        (ap (λ t. to_slash_path i.file_name ∷ to_slash_path j.file_name ∷ t)
            (translate_changes_complete rest)
          ∙ (ap (λ t. t ++ named_by rest)
                (sym (named_pair i.action j.action i.file_name j.file_name pair))
              ∙ append_assoc (named_in i.action i.file_name) (named_in j.action j.file_name) _))
  | inr single ↦
      rw (single, touched_by)
        (touched-append (alone i.action i.file_name) (translate_changes (j ∷ rest))
          ∙ ap₂ ◌++◌ (touched-alone i.action i.file_name) (translate_changes_complete (j ∷ rest)))
]
