-- ===== src/Acp/Oidc/Settings.antt =====
-- pkg/acp/oidc/config.go, for a configuration that is not nil.
use hub_agent_kubernetes.Prelude.{
  ℕ, String, Bool, true, false, ◌||◌, not, Option, none, some, List, [], ◌∷◌, ◌==◌, string_eq,
  nat_eq, if◌then◌else◌, GoMap, default,
}
use hub_agent_kubernetes.Strings.{runes, byte_len}
use hub_agent_kubernetes.Acp.Oidc.{AuthStateCookie, AuthSession}

pub record SecretReference : Type 0 where
  pub name : String
  pub namespace : String

-- An `Option` is a pointer.
pub record Config : Type 0 where
  pub issuer : String
  pub client_id : String
  pub client_secret : String
  pub secret : Option SecretReference
  pub redirect_url : String
  pub logout_url : String
  pub scopes : List String
  pub auth_params : GoMap String String
  pub state_cookie : Option AuthStateCookie
  pub session : Option AuthSession
  pub session_key : String
  pub forward_headers : GoMap String String
  pub claims : String

abbrev pub or_text : String → String → String
or_text s fallback = if s == "" then fallback else s

abbrev pub blank_state_cookie : AuthStateCookie
blank_state_cookie = record { path = ""; domain = ""; same_site = ""; secure = false }

abbrev pub blank_session : AuthSession
blank_session = record { path = ""; domain = ""; same_site = ""; secure = false; refresh = none }

unfoldable pub default_state_cookie : AuthStateCookie → AuthStateCookie
default_state_cookie c = record c {
  path = or_text c.path "/";
  same_site = or_text c.same_site "lax";
}

unfoldable pub default_session : AuthSession → AuthSession
default_session s = record s {
  path = or_text s.path "/";
  same_site = or_text s.same_site "lax";
  refresh = some (default true s.refresh);
}

abbrev default_scopes : List String → List String
default_scopes [] = "openid" ∷ []
default_scopes (s ∷ scopes) = s ∷ scopes

-- `ApplyDefaultValues`
unfoldable pub apply_default_values : Config → Config
unfolding default_state_cookie default_session
apply_default_values cfg = record cfg {
  scopes = default_scopes cfg.scopes;
  state_cookie = some (default_state_cookie (default blank_state_cookie cfg.state_cookie));
  session = some (default_session (default blank_session cfg.session));
  redirect_url = or_text cfg.redirect_url "/callback";
}

-- The sizes of an AES key.
abbrev is_key_size : ℕ → Bool
is_key_size n = n == 16 || n == 24 || n == 32

abbrev check : Config → Option Config
check cfg =
    if cfg.issuer == ""
    then none
    else if cfg.client_id == ""
    then none
    else if cfg.client_secret == ""
    then none
    else if cfg.session_key == ""
    then none
    else if not (is_key_size (byte_len (runes cfg.session_key)))
    then none
    else if cfg.redirect_url == ""
    then none
    else some cfg

-- `Validate`, which fills in the defaults first: the configuration as it leaves it, or an error.
unfoldable pub validate : Config → Option Config
unfolding apply_default_values
validate cfg = check (apply_default_values cfg)
