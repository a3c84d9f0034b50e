-- ===== src/Config/Dotenv.antt =====
-- Which value a variable has after the .env file was read.
use findo.Prelude.{
  ◌≡◌, refl, sym, ap, ◌∙◌, Bool, true, false, ◌&&◌, Option, none, some, List, [], ◌∷◌, inl, inr,
  Bool-cases, if◌then◌else◌, Text, text_eq, text_eq→eq,
}
use findo.Config.{
  Env, lookup_env, may_set, set_env, dotenv_entry, set_new, apply_entry, apply_lines,
}

-- The value that an entry gives the variable.
abbrev pub sets : Text → Option (Text × Text) → Option Text
unfolding text_eq may_set
sets key none = none
sets key (some (k, v)) = if text_eq k key && may_set k v then some v else none

abbrev pub or_else : Option Text → Option Text → Option Text
or_else none o = o
or_else (some v) o = some v

-- The first value that the lines give the variable.
unfoldable pub first_set : Text → List Text → Option Text
unfolding dotenv_entry sets
first_set key [] = none
first_set key (l ∷ ls) = or_else (sets key (dotenv_entry l)) (first_set key ls)

or_else-none : (o : Option Text) → or_else o none ≡ o
or_else-none none = refl
or_else-none (some v) = refl

or_else_assoc : (a b c : Option Text) → or_else (or_else a b) c ≡ or_else a (or_else b c)
or_else_assoc none b c = refl
or_else_assoc (some v) b c = refl

&&-false : (b : Bool) → (b && false) ≡ false
&&-false true = refl
&&-false false = refl

lookup-set_env :
    (key k v : Text) (env : Env)
    → lookup_env k env ≡ none
    → lookup_env key (set_env k v env) ≡ or_else (lookup_env key env) (sets key (some (k, v)))
unfolding set_env sets lookup_env
lookup-set_env key k v env fresh = elim (Bool-cases (may_set k v)) [
  | inl accepted ↦ elim (Bool-cases (text_eq k key)) [
    | inl same ↦
        let fresh' : lookup_env key env ≡ none = rw (text_eq→eq k key same) at fresh in
        rw (accepted, same, fresh') refl
    | inr other ↦ rw (accepted, other, or_else-none (lookup_env key env)) refl
  ]
  | inr refused ↦ rw (refused, &&-false (text_eq k key), or_else-none (lookup_env key env)) refl
]

lookup-set_new :
    (key k v : Text) (env : Env) (o : Option Text)
    → lookup_env k env ≡ o
    → lookup_env key (set_new k v env o) ≡ or_else (lookup_env key env) (sets key (some (k, v)))
unfolding set_new sets
lookup-set_new key k v env none fresh = lookup-set_env key k v env fresh
lookup-set_new key k v env (some w) there = elim (Bool-cases (text_eq k key)) [
  | inl same ↦
      let there' : lookup_env key env ≡ some w = rw (text_eq→eq k key same) at there in
      rw there' refl
  | inr other ↦ rw (other, or_else-none (lookup_env key env)) refl
]

lookup-apply_entry :
    (key : Text) (e : Option (Text × Text)) (env : Env)
    → lookup_env key (apply_entry e env) ≡ or_else (lookup_env key env) (sets key e)
unfolding apply_entry sets
lookup-apply_entry key none env = sym (or_else-none (lookup_env key env))
lookup-apply_entry key (some (k, v)) env = lookup-set_new key k v env (lookup_env k env) refl

-- After the .env file was read a variable that was set before has the value that it had, and any other
-- one the first value that a line of the file gives it, or none.
pub lookup-apply_lines :
    (key : Text) (lines : List Text) (env : Env)
    → lookup_env key (apply_lines lines env) ≡ or_else (lookup_env key env) (first_set key lines)
unfolding apply_lines first_set
lookup-apply_lines key [] env = sym (or_else-none (lookup_env key env))
lookup-apply_lines key (l ∷ ls) env =
    lookup-apply_lines key ls (apply_entry (dotenv_entry l) env)
    ∙ (ap (λ o. or_else o (first_set key ls)) (lookup-apply_entry key (dotenv_entry l) env)
        ∙ or_else_assoc (lookup_env key env) (sets key (dotenv_entry l)) (first_set key ls))
