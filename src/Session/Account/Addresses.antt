-- ===== src/Session/Account/Addresses.antt =====
-- The client's headers as the server reads them, and the two addresses of a server.
use Prim.Native.Char.{Char, code}
use reachmydevice.Prelude.{
  ℕ, suc, ◌+◌, ◌≡◌, refl, ap, ◌∙◌, false, none, some, String, arith, ◌==◌, ==_refl, str_eq, eq_iff,
}
use reachmydevice.Rendezvous.Api.Text.{
  ◌<>◌, strip_prefix, strip_suffix, split_once, trim_end_matches, before_end,
}
use reachmydevice.Rendezvous.Api.{AppState, Outside, Call}
use reachmydevice.Rendezvous.Api.Users.{bearer_value}
use reachmydevice.Rendezvous.Api.Signin.{
  authed_user, session_or_basic, basic_user, bearer_token, authenticate_user,
}
use reachmydevice.Rendezvous.Api.Signin.{basic_auth as read_basic_auth}
use reachmydevice.Session.Account.{
  basic_auth, ws_origin, ws_url, rest_base_from_ws, rest_base, without_ws,
}

strip_prefix_own : (p s : String) → strip_prefix p (p <> s) ≡ some s
unfolding strip_prefix
strip_prefix_own String.[] s = refl
strip_prefix_own (String.◌∷◌ c p) s = rw (==_refl (code c)) (strip_prefix_own p s)

-- A name without a colon.
abbrev pub NoColon : String → Type 0
NoColon String.[] = Unit
NoColon (String.◌∷◌ c s) = ((code c == b':') ≡ false) × NoColon s

split_once_own :
    (user pass : String) → NoColon user → split_once (user <> ":" <> pass) ≡ some (user, pass)
unfolding split_once
split_once_own String.[] pass h = refl
split_once_own (String.◌∷◌ c s) pass (h, hs) = rw (h, split_once_own s pass hs) refl

module _ (o : Outside) (call : Call) (base64 : String → String) (user pass : String) where
  header_read :
      NoColon user
      → o.base64_text (base64 (user <> ":" <> pass)) ≡ some (user <> ":" <> pass)
      → read_basic_auth o (some (basic_auth base64 user pass)) ≡ some (user, pass)
  unfolding read_basic_auth basic_auth
  header_read plain decodes = ground (
    arith,
    strip_prefix_own "Basic " (base64 (user <> ":" <> pass)),
    decodes,
    split_once_own user pass plain,
  )

  by_basic :
      (s : AppState)
      → read_basic_auth o (some (basic_auth base64 user pass)) ≡ some (user, pass)
      → session_or_basic o call none (some (basic_auth base64 user pass)) s
        ≡ authenticate_user o call user pass s
  unfolding session_or_basic basic_user
  by_basic s read = ap (λ found. basic_user o call found s) read

  not_bearer : bearer_token (some (basic_auth base64 user pass)) ≡ none
  unfolding bearer_token bearer_value basic_auth strip_prefix
  not_bearer = refl

  -- The header that the client builds authenticates as its user and password, where the user's name has
  -- no colon and the base64 text decodes: the server goes on as if it had been given the two.
  pub authed_user-basic_auth :
      NoColon user
      → o.base64_text (base64 (user <> ":" <> pass)) ≡ some (user <> ":" <> pass)
      → (s : AppState)
      → authed_user o call (some (basic_auth base64 user pass)) s
        ≡ authenticate_user o call user pass s
  unfolding authed_user
  authed_user-basic_auth plain decodes s =
      ap (λ t. session_or_basic o call t (some (basic_auth base64 user pass)) s) not_bearer
      ∙ by_basic s (header_read plain decodes)

-- A number of characters.
size : String → ℕ
size String.[] = 0
size (String.◌∷◌ c s) = suc (size s)

size-append : (s t : String) → size (s <> t) ≡ size s + size t
unfolding size
size-append String.[] t = omega arith
size-append (String.◌∷◌ c s) t = omega (arith, size-append s t)

longer : (c : Char) (x : String) → str_eq "/ws" (String.◌∷◌ c (x <> "/ws")) ≡ false
unfolding size
longer c x = ground (
  arith,
  eq_iff "/ws" (String.◌∷◌ c (x <> "/ws")),
  λ (e : ◌≡◌ {A = String} "/ws" (String.◌∷◌ c (x <> "/ws"))). ap size e,
  size-append x "/ws",
)

strip_suffix_own : (x : String) → strip_suffix "/ws" (x <> "/ws") ≡ some x
unfolding strip_suffix
strip_suffix_own String.[] = refl
strip_suffix_own (String.◌∷◌ c x) = ground (arith, longer c x, strip_suffix_own x)

ends_open : (c : Char) (x : String) → before_end b'/' c (x <> "/ws") ≡ String.◌∷◌ c (x <> "/ws")
ends_open c String.[] = refl
ends_open c (String.◌∷◌ d x) = refl

trim_end_own : (x : String) → trim_end_matches b'/' (x <> "/ws") ≡ x <> "/ws"
unfolding trim_end_matches
trim_end_own String.[] = refl
trim_end_own (String.◌∷◌ c x) = ap (before_end b'/' c) (trim_end_own x) ∙ ends_open c x

without_ws_own : (x : String) → without_ws (trim_end_matches b'/' (x <> "/ws")) ≡ x
unfolding without_ws
without_ws_own x = ap without_ws (trim_end_own x) ∙ ground (arith, strip_suffix_own x)

rest_base_wss : (rest : String) → rest_base ("wss://" <> rest) ≡ "https://" <> rest
unfolding rest_base
rest_base_wss rest = ground (arith, strip_prefix_own "wss://" rest)

rest_base_ws : (rest : String) → rest_base ("ws://" <> rest) ≡ "http://" <> rest
unfolding rest_base strip_prefix
rest_base_ws rest = refl

origin_https : (rest : String) → ws_origin ("https://" <> rest) ≡ "wss://" <> rest
unfolding ws_origin strip_prefix
origin_https rest = refl

origin_http : (rest : String) → ws_origin ("http://" <> rest) ≡ "ws://" <> rest
unfolding ws_origin strip_prefix
origin_http rest = refl

-- The signaling address that a client derives leads back to the address of the server, over TLS or not.
pub rest_base_from_ws-ws_url :
    (rest : String)
    → (rest_base_from_ws (ws_url ("https://" <> rest)) ≡ "https://" <> rest)
      × (rest_base_from_ws (ws_url ("http://" <> rest)) ≡ "http://" <> rest)
unfolding rest_base_from_ws ws_url
rest_base_from_ws-ws_url rest = (
  ap (λ t. rest_base (without_ws (trim_end_matches b'/' (t <> "/ws")))) (origin_https rest)
      ∙ ap rest_base (without_ws_own ("wss://" <> rest))
      ∙ rest_base_wss rest,
  ap (λ t. rest_base (without_ws (trim_end_matches b'/' (t <> "/ws")))) (origin_http rest)
      ∙ ap rest_base (without_ws_own ("ws://" <> rest))
      ∙ rest_base_ws rest,
)
