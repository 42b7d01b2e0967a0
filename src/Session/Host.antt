-- ===== src/Session/Host.antt =====
-- crates/session/src/host.rs: what decides whether a viewer may act on the host. The texts that `format!`
-- makes of a rejection are the values of `Rejection`.
pub mod Guess
pub mod Control
pub mod Gate
pub mod Viewing
pub mod Core
pub mod Isolation
pub mod Reports
pub mod Password
use reachmydevice.Prelude.{
  ℕ, suc, zero, Bool, true, false, not, ◌&&◌, ◌||◌, Option, none, some, List, [], ◌∷◌, ◌==◌,
  if◌then◌else◌,
}
use reachmydevice.Protocol.{Payload, Hello, VideoCodec, h264, codec_number, check_compatibility}
use reachmydevice.Session.Constant.{ct_eq}
use reachmydevice.Session.Identity.{
  Crypto, ProofError, Verified, device, rejected, verify_access_proof,
}

pub data Rejection : Type 0 where
  incompatible_major : ℕ → ℕ → Rejection  -- local, remote
  undecodable_codec : VideoCodec → List ℕ → Rejection  -- the host's, the viewer's
  no_identity_proof : Rejection
  proof_rejected : ProofError → Rejection
  not_authorized : List ℕ → Rejection  -- device_id

-- `Result<(), String>`: `none` for `Ok(())`, and the next check if there is one.
abbrev pub Decision : Type 0
Decision = Option Rejection

and_then : Decision → Decision → Decision
and_then none next = next
and_then (some reason) next = some reason

-- `contains`, of numbers and of texts.
abbrev pub contains : List ℕ → ℕ → Bool
contains [] x = false
contains (y ∷ ys) x = y == x || contains ys x

abbrev pub same_text : List ℕ → List ℕ → Bool
same_text [] [] = true
same_text [] (y ∷ ys) = false
same_text (x ∷ xs) [] = false
same_text (x ∷ xs) (y ∷ ys) = x == y && same_text xs ys

abbrev pub has_text : List (List ℕ) → List ℕ → Bool
has_text [] x = false
has_text (y ∷ ys) x = same_text y x || has_text ys x

abbrev pub is_empty : List ℕ → Bool
is_empty [] = true
is_empty (x ∷ xs) = false

-- What a viewer can decode: a peer that sends no list is one that knows H.264 only.
unfoldable pub supported_codecs : Hello → List ℕ
supported_codecs h =
    if is_empty h.supported_video_codecs then codec_number h264 ∷ [] else h.supported_video_codecs

unfoldable pub check_codec_compatible : Hello → VideoCodec → Decision
unfolding supported_codecs
check_codec_compatible h host_codec =
    let supported = supported_codecs h in
    if contains supported (codec_number host_codec)
    then none
    else some (undecodable_codec host_codec supported)

pub record AccessControl : Type 0 where
  pub require : Bool
  pub authorized : List (List ℕ)

authorize_verified : AccessControl → Verified → Decision
authorize_verified a (rejected e) = some (proof_rejected e)
authorize_verified a (device id) =
    if has_text a.authorized id then none else some (not_authorized id)

unfoldable pub authorize : Crypto → AccessControl → Hello → List ℕ → Decision
unfolding authorize_verified
authorize k a h binding =
    if not a.require
    then none
    else if is_empty h.public_key || is_empty h.signature
    then some no_identity_proof
    else authorize_verified a (verify_access_proof k h.public_key h.signature binding)

-- `Option<&str>` as bytes.
unfoldable pub verify_connect_password : Option (List ℕ) → List ℕ → Bool
verify_connect_password none supplied = true
verify_connect_password (some expected) supplied = ct_eq expected supplied

module _ {A : Type 0} where
  unfoldable pub is_hello : Payload A → Bool
  is_hello (Payload.hello h) = true
  is_hello p = false

  unfoldable pub is_input : Payload A → Bool
  is_input (Payload.input ev) = true
  is_input p = false

  unfoldable pub authorization_permits : Payload A → Bool → Bool
  unfolding is_hello
  authorization_permits p authorized = authorized || is_hello p

  unfoldable pub view_only_suppresses : Payload A → Bool → Bool
  unfolding is_input
  view_only_suppresses p view_only = view_only && is_input p

-- The checks of a `Hello` up to the password, in the order of the source.
unfoldable pub decide : Crypto → AccessControl → VideoCodec → List ℕ → ℕ → Hello → Decision
unfolding and_then check_compatibility check_codec_compatible authorize
decide k a host_codec binding major h =
    let version : Decision = elim (check_compatibility major) [
      | none ↦ none
      | some (local, remote) ↦ some (incompatible_major local remote)
    ] in
    and_then version (and_then (check_codec_compatible h host_codec) (authorize k a h binding))
