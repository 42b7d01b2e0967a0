-- ===== src/Session/Host/Gate.antt =====
-- The gates of `handle_control` in crates/session/src/host.rs, over whole sessions.
use reachmydevice.Prelude.{
  ℕ, ◌≡◌, refl, ap, ◌∙◌, ◌⊎◌, inl, inr, Bool, true, false, not, Option, none, some, List, [], ◌∷◌,
  ◌++◌, arith, All, Bool-cases, Option-cases,
}
use mathlib.Core.List.{Memᴰ}
use reachmydevice.Protocol.{
  Payload, Envelope, Hello, codec_number, check_compatibility, protocol_major,
}
use reachmydevice.Codec.{Doubles}
use reachmydevice.Session.FileTransfer.{Os, handle}
use reachmydevice.Session.Identity.{Verified, device, rejected, ProofError, verify_access_proof}
use reachmydevice.Session.Host.{
  decide, authorize, check_codec_compatible, supported_codecs, contains, has_text,
  verify_connect_password, authorization_permits, view_only_suppresses, is_hello, is_input,
}
use reachmydevice.Session.Host.Guess.{locked}
use reachmydevice.Session.Host.Control.{
  HostSide, Session, Effect, inject, Step, on_hello, dispatch, permitted, on_payload,
  handle_control,
}

-- A message as it arrives: the time, what the operating system does, and the envelope if it can be decoded.
pub record Arrival (A : Type 0) : Type 0 where
  pub now : ℕ
  pub os : Os
  pub message : Option (Envelope A)

abbrev pub envelope_payload : {A : Type 0} → Option (Envelope A) → Option (Payload A)
envelope_payload none = none
envelope_payload (some env) = env.payload

abbrev pub no_hello : {A : Type 0} → Option (Payload A) → Bool
no_hello none = true
no_hello (some p) = not (is_hello p)

abbrev pub keeps_view_only : {A : Type 0} → Option (Payload A) → Bool
keeps_view_only none = true
keeps_view_only (some (Payload.view_only enabled)) = enabled
keeps_view_only (some p) = true

abbrev pub is_inject : {A : Type 0} → Effect A → Bool
is_inject (inject ev) = true
is_inject e = false

-- The identity check of an accepted viewer: none is asked for, or the proof verifies for this session and
-- the proven device is on the list.
abbrev pub Known : HostSide → Hello → Type 0
Known host h =
    (host.access.require ≡ false)
    ⊎ ((id : List ℕ) × (verify_access_proof host.crypto h.public_key h.signature
            host.channel_binding
          ≡ device id)
        × (has_text host.access.authorized id ≡ true))

-- A `Hello` that passes every check.
abbrev pub Accepted : {A : Type 0} → HostSide → Option (Envelope A) → Type 0
Accepted host none = ⊥
Accepted host (some env) =
    (h : Hello) × (env.payload ≡ some (Payload.hello h))
    × (env.major ≡ protocol_major)
    × (contains (supported_codecs h) (codec_number host.host_codec) ≡ true)
    × Known host h
    × (verify_connect_password host.connect_password h.password ≡ true)

pub Verified-cases :
    (v : Verified) → ((id : List ℕ) × (v ≡ device id)) ⊎ ((e : ProofError) × (v ≡ rejected e))
Verified-cases (device id) = inl (id, refl)
Verified-cases (rejected e) = inr (e, refl)

authorize-passed :
    (host : HostSide) (h : Hello)
    → authorize host.crypto host.access h host.channel_binding ≡ none
    → Known host h
unfolding authorize
authorize-passed host h e = elim (Bool-cases host.access.require) [
  | inr open' ↦ inl open'
  | inl asks ↦
      elim (Verified-cases
        (verify_access_proof host.crypto h.public_key h.signature host.channel_binding)) [
          | inl (id, v) ↦ inr (id, v, ground (arith, asks, v, e))
          | inr (w, v) ↦ absurd (ground (arith, asks, v, e))
        ]
]

decide-passed :
    (host : HostSide) (major : ℕ) (h : Hello)
    → decide host.crypto host.access host.host_codec host.channel_binding major h ≡ none
    → (major ≡ protocol_major)
      × (contains (supported_codecs h) (codec_number host.host_codec) ≡ true)
      × Known host h
unfolding decide check_compatibility check_codec_compatible
decide-passed host major h e = (ground arith, ground arith, authorize-passed host h (ground arith))

hello-cases :
    {A : Type 0} → (p : Payload A) → ((h : Hello) × (p ≡ Payload.hello h)) ⊎ (is_hello p ≡ false)
unfolding is_hello
hello-cases (Payload.hello h) = inl (h, refl)
hello-cases p = inr refl

module _ {A : Type 0} (d : Doubles A) (host : HostSide) (sha : List ℕ → List ℕ) where
  unfoldable pub run : Session A → List (Arrival A) → Step A
  run s [] = (s, [])
  run s (a ∷ rest) =
      let (s', out) = handle_control d host sha a.now a.os s a.message in
      let (end, outs) = run s' rest in (end, out ++ outs)

  pub ignored :
      (now : ℕ) (os : Os) (s : Session A) (m : Option (Envelope A))
      → s.authorized ≡ false
      → no_hello (envelope_payload m) ≡ true
      → handle_control d host sha now os s m ≡ (s, [])
  unfolding handle_control on_payload authorization_permits is_hello
  ignored now os s none u n = refl
  ignored now os s (some env) u n = ground arith

  -- Nothing but a `Hello` has an effect on an unauthorized host: other messages, decodable or not, leave its
  -- state alone and make it do nothing, however many there are.
  pub run-unauthorized :
      (s : Session A) (rest : List (Arrival A))
      → s.authorized ≡ false
      → All (λ a. no_hello (envelope_payload a.message) ≡ true) rest
      → run s rest ≡ (s, [])
  unfolding run
  run-unauthorized s [] u n = refl
  run-unauthorized s (a ∷ rest) u (n, ns) =
      rw (ignored a.now a.os s a.message u n, run-unauthorized s rest u ns) refl

  on_hello-authorized :
      (now : ℕ) (s : Session A) (major : ℕ) (h : Hello)
      → (on_hello d host now s major h).0.authorized ≡ true
      → (decide host.crypto host.access host.host_codec host.channel_binding major h ≡ none)
        × (locked s.pw_throttle now ≡ false)
        × (verify_connect_password host.connect_password h.password ≡ true)
  unfolding on_hello
  on_hello-authorized now s major h e = (ground arith, ground arith, ground arith)

  pub on_payload-hello :
      (now : ℕ) (os : Os) (s : Session A) (major : ℕ) (h : Hello)
      → on_payload d host sha now os s major (Payload.hello h) ≡ on_hello d host now s major h
  unfolding on_payload authorization_permits view_only_suppresses permitted handle dispatch is_hello
      is_input
  on_payload-hello now os s major h = ground arith

  pub authorizing :
      (now : ℕ) (os : Os) (s : Session A) (m : Option (Envelope A))
      → s.authorized ≡ false
      → (handle_control d host sha now os s m).0.authorized ≡ true
      → Accepted host m
  unfolding handle_control
  authorizing now os s none u e = absurd (ground arith)
  authorizing now os s (some env) u e = elim (Option-cases env.payload) [
    | inl empty ↦ absurd (ground (arith, empty))
    | inr (p, found) ↦ elim (hello-cases p) [
      | inr other ↦ absurd (ground (arith, found, other, ignored now os s (some env) u))
      | inl (h, is) ↦
          let whole : env.payload ≡ some (Payload.hello h) = found ∙ ap some is in
          let (passed, _, password) =
            on_hello-authorized now s env.major h
              (ground (arith, whole, on_payload-hello now os s env.major h)) in
          let (version, codec, known) = decide-passed host env.major h passed in
          (h, whole, version, codec, known, password)
    ]
  ]

  -- A session becomes authorized only by a `Hello` among its messages that passes every check: the version,
  -- the codec, the identity (where the host asks for one, a proof that verifies for this session, of a device
  -- on the list) and the connection password.
  pub run-authorized :
      (s : Session A) (rest : List (Arrival A))
      → s.authorized ≡ false
      → (run s rest).0.authorized ≡ true
      → (a : Arrival A) × Memᴰ a rest × Accepted host a.message
  unfolding run
  run-authorized s [] u e = absurd (ground (arith, u))
  run-authorized s (a ∷ rest) u e =
      elim (Bool-cases (handle_control d host sha a.now a.os s a.message).0.authorized) [
        | inl now ↦ (a, Memᴰ.head refl, authorizing a.now a.os s a.message u now)
        | inr still ↦
            let (b, mem, accepted) =
              run-authorized (handle_control d host sha a.now a.os s a.message).0 rest still e in
            (b, Memᴰ.tail mem, accepted)
      ]
