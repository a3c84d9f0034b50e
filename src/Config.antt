-- ===== src/Config.antt =====
-- backend/internal/config/config.go. The environment is a list of variables; the .env file is its lines
-- and the scanner's error, and base64, net.SplitHostPort and net.ParseIP are arguments.
pub mod Dotenv
use findo.Prelude.{
  ℕ, Bool, true, false, not, ◌&&◌, ◌||◌, Option, none, some, List, [], ◌∷◌, any, ◌==◌,
  if◌then◌else◌, Text, text_eq, codes, map,
}
use findo.Strings.{has_prefix, trim, split, non_empty}
use findo.Strings.Runes.{trim_space}
use findo.Crypto.{Sealed, opened, fails, parse_key}

abbrev pub Env : Type 0
Env = List (Text × Text)

-- os.LookupEnv
unfoldable pub lookup_env : Text → Env → Option Text
unfolding text_eq
lookup_env key [] = none
lookup_env key ((k, v) ∷ env) = if text_eq k key then some v else lookup_env key env

abbrev pub has_nul : Text → Bool
unfolding any
has_nul s = any (λ c. c == 0) s

abbrev is_empty : Text → Bool
is_empty [] = true
is_empty (c ∷ s) = false

-- os.Setenv accepts the variable
unfoldable pub may_set : Text → Text → Bool
unfolding any
may_set key value = not (is_empty key || (any (λ c. c == b'=' || c == 0) key || has_nul value))

-- os.Setenv of a variable that is not set; the error is not looked at.
abbrev pub set_env : Text → Text → Env → Env
unfolding may_set
set_env key value env = if may_set key value then (key, value) ∷ env else env

-- strings.Cut(line, "=")
unfoldable pub cut_equals : Text → Option (Text × Text)
cut_equals [] = none
cut_equals (c ∷ s) =
    let rest = cut_equals s in
    if c == b'='
    then some ([], s)
    else elim rest [ none ↦ none | some (key, value) ↦ some (c ∷ key, value) ]

abbrev pub is_quote : ℕ → Bool
is_quote c = c == b'"' || c == b'\''

abbrev pub trimmed_entry : Option (Text × Text) → Option (Text × Text)
unfolding trim_space trim
trimmed_entry none = none
trimmed_entry (some (key, value)) = some (trim_space key, trim is_quote (trim_space value))

-- What a line of the file sets: none for a blank line, a comment or a line with no `=`.
unfoldable pub dotenv_entry : Text → Option (Text × Text)
unfolding trim_space has_prefix cut_equals trimmed_entry
dotenv_entry text =
    let line = trim_space text in
    if is_empty line || has_prefix line (codes "#") then none else trimmed_entry (cut_equals line)

abbrev pub set_new : Text → Text → Env → Option Text → Env
unfolding set_env
set_new key value env none = set_env key value env
set_new key value env (some v) = env

abbrev pub apply_entry : Option (Text × Text) → Env → Env
unfolding set_new lookup_env
apply_entry none env = env
apply_entry (some (key, value)) env = set_new key value env (lookup_env key env)

unfoldable pub apply_lines : List Text → Env → Env
unfolding dotenv_entry apply_entry
apply_lines [] env = env
apply_lines (l ∷ ls) env = apply_lines ls (apply_entry (dotenv_entry l) env)

pub data DotEnv : Type 0 where
  no_file cannot_open : DotEnv
  file : List Text → Bool → DotEnv

-- loadDotEnv: the environment then, and whether it returns an error.
unfoldable pub load_dot_env : DotEnv → Env → Env × Bool
unfolding apply_lines
load_dot_env no_file env = (env, false)
load_dot_env cannot_open env = (env, true)
load_dot_env (file lines is_broken) env = (apply_lines lines env, is_broken)

abbrev pub or_blank : Option Text → Text
or_blank none = []
or_blank (some v) = v

-- os.Getenv
abbrev pub getenv : Text → Env → Text
unfolding lookup_env
getenv key env = or_blank (lookup_env key env)

unfoldable pub get_env_default : Text → Text → Env → Text
unfolding getenv
get_env_default key default env = if is_empty (getenv key env) then default else getenv key env

unfoldable pub split_list : Text → List Text
unfolding split trim_space non_empty
split_list s = non_empty (map trim_space (split (λ c. c == b',') s))

pub record Config : Type 0 where
  pub http_addr : Text
  pub database_url : Text
  pub master_key : Text
  pub allowed_hosts : List Text

abbrev pub with_key : Env → Sealed → Option Config
unfolding get_env_default split_list getenv
with_key env (fails e) = none
with_key env (opened key) = some (record {
  http_addr = get_env_default (codes "HTTP_ADDR") (codes "127.0.0.1:8080") env;
  database_url = get_env_default (codes "DATABASE_URL") (codes "postgres:///findo") env;
  master_key = key;
  allowed_hosts = split_list (getenv (codes "FINDO_ALLOWED_HOSTS") env);
})

-- none for an error
unfoldable pub load_config : (Text → Option Text) → DotEnv → Env → Option Config
unfolding load_dot_env parse_key with_key
load_config decode dotenv env =
    let (env', is_broken) = load_dot_env dotenv env in
    if is_broken
    then none
    else if is_empty (getenv (codes "FINDO_MASTER_KEY") env')
    then none
    else with_key env' (parse_key decode (getenv (codes "FINDO_MASTER_KEY") env'))

-- net.SplitHostPort's host, and for net.ParseIP whether the address is a loopback one.
pub record Net : Type 0 where
  pub split_host_port : Text → Option Text
  pub parse_ip : Text → Option Bool

abbrev pub host_or : Text → Option Text → Text
host_or whole none = whole
host_or whole (some host) = host

abbrev pub is_bracket : ℕ → Bool
is_bracket c = c == b'[' || c == b']'

abbrev pub beyond_loopback : Option Bool → Bool
beyond_loopback none = true
beyond_loopback (some is_loopback) = not is_loopback

unfoldable pub listens_beyond_loopback : Net → Text → Bool
unfolding trim text_eq
listens_beyond_loopback net addr =
    let host = trim is_bracket (host_or addr (net.split_host_port addr)) in
    if is_empty host
    then true
    else if text_eq host (codes "localhost")
    then false
    else beyond_loopback (net.parse_ip host)
