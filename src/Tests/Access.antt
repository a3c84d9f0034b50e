-- ===== src/Tests/Access.antt =====
-- Passwords, the configuration and the host guard at concrete inputs.
use findo.Prelude.{
  ℕ, ◌≡◌, refl, true, false, Bool, ◌⊎◌, none, some, List, [], ◌∷◌, any, ◌==◌, if◌then◌else◌, Text,
  text_eq, codes, drop,
}
use findo.Strings.{before}
use findo.Crypto.{Gcm, opened, fails, too_short, encrypt, decrypt}
use findo.Config.{lookup_env, apply_lines, dotenv_entry, split_list}
use findo.Config.Dotenv.{first_set, lookup-apply_lines}
use findo.HostGuard.{
  Web, normalize_host, is_blank, is_safe_method, WebRequest, forbidden_host, forbidden_origin,
  host_guard,
}
use findo.HostGuard.Refused.{IsLocal, SameOrigin, host_guard-IsLocal}

-- A cipher that changes nothing.
abbrev plain_gcm : Gcm
plain_gcm = record {
  nonce_size = 2;
  seal = λ key nonce plaintext. plaintext;
  unseal = λ key nonce sealed. some sealed;
}

abbrev key : Text
key = codes "0123456789abcdef0123456789abcdef"

encrypt_puts_nonce_first :
    encrypt plain_gcm (some (1 ∷ 2 ∷ [])) key (codes "hunter2") ≡ opened (1 ∷ 2 ∷ codes "hunter2")
unfolding encrypt
encrypt_puts_nonce_first = refl

decrypt_refuses : decrypt plain_gcm key (1 ∷ []) ≡ fails too_short
unfolding decrypt
decrypt_refuses = refl

abbrev dotenv : List Text
dotenv =
    codes "# local" ∷ codes "HTTP_ADDR = ':9000'" ∷ codes "HTTP_ADDR=:1" ∷ codes "NO_VALUE" ∷ []

lookup-apply_lines_example :
    lookup_env (codes "HTTP_ADDR") (apply_lines dotenv []) ≡ some (codes ":9000")
unfolding first_set dotenv_entry lookup_env
lookup-apply_lines_example = lookup-apply_lines (codes "HTTP_ADDR") dotenv []

split_list_reads :
    split_list (codes "nas.example.com, ,b ") ≡ codes "nas.example.com" ∷ codes "b" ∷ []
unfolding split_list
split_list_reads = refl

abbrev is_colon : ℕ → Bool
is_colon c = c == b':'

abbrev web : Web
unfolding any before
web = record {
  net = record {
    split_host_port = λ s. if any is_colon s then some (before is_colon s) else none;
    parse_ip = λ s. none;
  };
  to_lower = λ s. s;
  equal_fold = text_eq;
  url_host = λ s. some (drop 7 s);
}

abbrev extra : List Text
extra = codes "nas.example.com" ∷ []

abbrev update : WebRequest
update = record {
  host = codes "nas.example.com:8080";
  method = codes "POST";
  origin = codes "http://nas.example.com:8080";
}

host_guard-IsLocal_example :
    (is_blank (normalize_host web update.host) ≡ false)
    × IsLocal web extra (normalize_host web update.host)
    × ((is_safe_method update.method ≡ true) ⊎ ((update.origin ≡ []) ⊎ SameOrigin web update))
unfolding host_guard web
host_guard-IsLocal_example = host_guard-IsLocal web extra update refl

guard_refuses :
    (host_guard web extra (record update { host = codes "evil.example.com" }) ≡ forbidden_host)
    × (host_guard web extra (record update { origin = codes "http://evil.example.com" })
        ≡ forbidden_origin)
unfolding host_guard web
guard_refuses = (refl, refl)
