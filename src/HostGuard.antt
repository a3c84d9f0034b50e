-- ===== src/HostGuard.antt =====
-- backend/internal/httpapi/hostguard.go. net.SplitHostPort, net.ParseIP, strings.ToLower,
-- strings.EqualFold and url.Parse are arguments.
pub mod Refused
use findo.Prelude.{
  ℕ, Bool, true, false, not, ◌&&◌, ◌||◌, Option, none, some, List, [], ◌∷◌, any, ◌-◌, leb, ◌==◌,
  if◌then◌else◌, Text, text_eq, codes, drop, length, map, take,
}
use findo.Strings.{trim}
use findo.Strings.Runes.{trim_space}
use findo.Config.{Net, host_or, is_bracket}

-- The host of url.Parse is none for an error.
pub record Web : Type 0 where
  pub net : Net
  pub to_lower : Text → Text
  pub equal_fold : Text → Text → Bool
  pub url_host : Text → Option Text

unfoldable pub has_suffix : Text → Text → Bool
unfolding text_eq
has_suffix s suffix =
    leb (length suffix) (length s) && text_eq (drop (length s - length suffix) s) suffix

-- strings.TrimSuffix(s, ".")
unfoldable pub trim_dot : Text → Text
unfolding has_suffix
trim_dot s = if has_suffix s (codes ".") then take (length s - 1) s else s

unfoldable pub normalize_host : Web → Text → Text
unfolding trim_space trim trim_dot
normalize_host web hostport =
    let host = trim_space hostport in
    trim_dot (web.to_lower (trim is_bracket (host_or host (web.net.split_host_port host))))

abbrev pub private_suffixes : List Text
private_suffixes =
    codes ".local"
    ∷ codes ".localhost"
    ∷ codes ".lan"
    ∷ codes ".home.arpa"
    ∷ codes ".internal"
    ∷ codes ".localdomain"
    ∷ []

abbrev pub is_ip : Option Bool → Bool
is_ip none = false
is_ip (some is_loopback) = true

abbrev pub is_blank : Text → Bool
is_blank [] = true
is_blank (c ∷ s) = false

-- extra[h]
unfoldable pub listed_in : Text → List Text → Bool
unfolding text_eq
listed_in h [] = false
listed_in h (e ∷ es) = text_eq e h || listed_in h es

-- The names of the map `extra`.
unfoldable pub extra_names : Web → List Text → List Text
unfolding normalize_host
extra_names web [] = []
extra_names web (h ∷ hs) =
    let rest = extra_names web hs in
    if is_blank (normalize_host web h) then rest else normalize_host web h ∷ rest

unfoldable pub name_allowed : Web → List Text → Text → Bool
unfolding any has_suffix listed_in
name_allowed web extra host =
    if is_blank host
    then false
    else is_ip (web.net.parse_ip host)
      || (not (any (λ c. c == b'.') host)
          || (any (λ s. has_suffix host s) private_suffixes || listed_in host extra))

unfoldable pub host_allowed : Web → List Text → Text → Bool
unfolding normalize_host name_allowed
host_allowed web extra hostport = name_allowed web extra (normalize_host web hostport)

abbrev pub same_host : Web → Text → Option Text → Bool
same_host web request_host none = false
same_host web request_host (some []) = false
same_host web request_host (some (c ∷ host)) = web.equal_fold (c ∷ host) request_host

unfoldable pub same_origin : Web → Text → Text → Bool
same_origin web origin request_host = same_host web request_host (web.url_host origin)

unfoldable pub is_safe_method : Text → Bool
unfolding text_eq
is_safe_method m =
    text_eq m (codes "GET") || (text_eq m (codes "HEAD") || text_eq m (codes "OPTIONS"))

pub record WebRequest : Type 0 where
  pub host : Text
  pub method : Text
  pub origin : Text

pub data GuardAnswer : Type 0 where
  served forbidden_host forbidden_origin : GuardAnswer

unfoldable pub host_guard : Web → List Text → WebRequest → GuardAnswer
unfolding extra_names host_allowed is_safe_method same_origin
host_guard web extra_hosts r =
    if not (host_allowed web (extra_names web extra_hosts) r.host)
    then forbidden_host
    else if not (is_safe_method r.method)
        && (not (is_blank r.origin) && not (same_origin web r.origin r.host))
    then forbidden_origin
    else served
