-- ===== src/Gate/Origin.antt =====
-- The hosts and origins of backend/src/main.py. `hostname` is `urlparse(url).hostname`, an error where
-- urlparse raises ValueError, as on `http://[`.
use stra2us.Prelude.{
  Text, codes, Bool, true, false, List, [], ◌∷◌, ◌++◌, Option, none, some, text_eq, occurs_in,
  split, map, if◌then◌else◌,
}
use stra2us.Result.{Result, ok, ◌>>=◌}
use stra2us.Builtins.{strip}
use stra2us.Lint.{is_in}

-- What the middleware reads of a request whose URL Starlette has parsed.
pub record HttpRequest : Type 0 where
  pub method : Text
  pub path : Text
  pub query : Text
  pub host : Option Text
  pub x_forwarded_host : Option Text
  pub origin : Option Text
  pub admin_session : Option Text
  pub authorization : Option Text

-- The environment: STRA2US_BROWSER_HOST and STRA2US_ALLOWED_ORIGINS, and whether OAuth is set up.
pub record Environment : Type 0 where
  pub browser_host : Text
  pub allowed_origins : Text
  pub oauth_enabled : Bool

abbrev pub head_piece : List Text → Text
head_piece [] = []
head_piece (piece ∷ _) = piece

unfoldable pub browser_facing_host : HttpRequest → Option Text
unfolding split
browser_facing_host request = elim request.x_forwarded_host [
  | none ↦ request.host
  | some [] ↦ request.host
  | some (c ∷ fwd) ↦ some (strip (head_piece (split b',' (c ∷ fwd))))
]

abbrev pub is_host : Text → Option Text → Bool
is_host name none = false
is_host name (some host) = text_eq host name

unfoldable pub is_browser_host : Environment → HttpRequest → Bool
is_browser_host env request = is_host env.browser_host (browser_facing_host request)

-- The pieces that are not empty, without white space around them.
unfoldable pub trimmed : List Text → List Text
trimmed [] = []
trimmed (item ∷ items) =
    let rest = trimmed items in elim (strip item) [ [] ↦ rest | (c ∷ s) ↦ (c ∷ s) ∷ rest ]

unfoldable pub configured_extra_origins : Environment → List Text
unfolding split trimmed
configured_extra_origins env = trimmed (split b',' env.allowed_origins)

abbrev pub if_present : Option Text → List Text
if_present none = []
if_present (some []) = []
if_present (some (c ∷ s)) = (c ∷ s) ∷ []

abbrev pub if_some : Option Text → List Text
if_some none = []
if_some (some s) = s ∷ []

-- `urlparse(item).hostname if "://" in item else item`
abbrev pub host_of_item : (Text → Result (Option Text)) → Text → Result (Option Text)
host_of_item hostname item = if occurs_in (codes "://") item then hostname item else ok (some item)

-- The loop over the configured origins.
unfoldable pub hosts_of_items : (Text → Result (Option Text)) → List Text → Result (List Text)
hosts_of_items hostname [] = ok []
hosts_of_items hostname (item ∷ items) = do
  host ← host_of_item hostname item
  hosts ← hosts_of_items hostname items
  ok (if_present host ++ hosts)

-- `host in hosts`, where no host is in none.
abbrev pub is_host_in : Option Text → List Text → Bool
is_host_in none hosts = false
is_host_in (some host) hosts = is_in host hosts

module _ (hostname : Text → Result (Option Text)) (env : Environment) where
  -- A set, as a list.
  unfoldable pub allowed_origin_hosts : HttpRequest → Result (List Text)
  unfolding browser_facing_host hosts_of_items configured_extra_origins
  allowed_origin_hosts request = do
    hosts ← hosts_of_items hostname (configured_extra_origins env)
    ok (if_some (browser_facing_host request) ++ env.browser_host ∷ hosts)

  unfoldable pub csrf_origin_ok : HttpRequest → Result Bool
  unfolding allowed_origin_hosts
  csrf_origin_ok request = elim request.origin [
    | none ↦ ok true
    | some [] ↦ ok true
    | some (c ∷ origin) ↦ hostname (c ∷ origin) >>= λ host.
        allowed_origin_hosts request >>= λ hosts. ok (is_host_in host hosts)
  ]

abbrev pub as_origin : Text → Text
as_origin item = if occurs_in (codes "://") item then item else codes "https://" ++ item

-- Before they are sorted, with repetitions.
unfoldable pub cors_allowed_origins : Environment → List Text
unfolding configured_extra_origins
cors_allowed_origins env =
    (codes "https://" ++ env.browser_host) ∷ map as_origin (configured_extra_origins env)
