-- ===== src/Tests/Host.antt =====
-- The host's gates: crates/session/src/host.rs, crates/session/src/identity.rs and the crop rectangle of
-- crates/codec/src/scale.rs. The doubles here are whole eighths; every key is valid, and a signature is 64
-- times the byte 7.
use reachmydevice.Prelude.{
  ℕ, ◌+◌, ◌-◌, ◌*◌, ◌/◌, ◌≡◌, refl, true, false, none, some, List, [], ◌∷◌, arith, ltb, leb, ◌==◌,
  length, replicate, All, Option, ◌++◌,
}
use mathlib.Core.List.{Memᴰ}
use reachmydevice.Codec.{Doubles, CropRect, full, clamp, sanitized}
use reachmydevice.Codec.Crop.{sanitized-OnScreen}
use reachmydevice.Protocol.{Payload, mouse_move, Hello, Envelope, h264}
use reachmydevice.Session.FileTransfer.{FileTransfers, Os, handle}
use reachmydevice.Session.Identity.{Crypto, device, verify_access_proof, device_id_from_public_key}
use reachmydevice.Session.Host.{
  authorization_permits, is_hello, view_only_suppresses, decide, verify_connect_password,
}
use reachmydevice.Session.Constant.{ct_eq}
use reachmydevice.Session.Host.Guess.{locked}
use reachmydevice.Session.Host.Control.{
  HostSide, Session, on_hello, handle_control, on_payload, permitted, dispatch, accept,
}
use reachmydevice.Session.Host.Gate.{Arrival, Accepted, run, run-authorized}
use reachmydevice.Session.Host.Core.{Core, Incoming, arrived, host_now, on_data, core_step}
use reachmydevice.Session.Host.Isolation.{
  core_run, is_harmless, core_run-authorized, core_run_quiet,
}

abbrev pub eighths : Doubles ℕ
eighths = record {
  zero = 0;
  one = 8;
  lt = ltb;
  le = leb;
  add = λ a b. a + b;
  sub = λ a b. a - b;
  mul = λ a b. a * b / 8;
  le_of_not_lt = λ a b p q h. ground arith;
  not_lt_of_le = λ a b h. ground arith;
  lt_le = λ a b h. ground arith;
  le_refl_left = λ a b h. ground arith;
  le_refl_right = λ a b h. ground arith;
  zero_lt_one = refl;
  zero_le_sub = λ a h. ground arith;
}

-- Half the screen, from a corner beyond its end.
abbrev far_corner : CropRect ℕ
far_corner = record { x = 9; y = 2; w = 4; h = 4 }

sanitized-OnScreen_example :
    ((ltb 0 4 ≡ true) × (leb 4 8 ≡ true) × (leb 0 4 ≡ true) × (leb 4 (8 - 4) ≡ true))
    × (ltb 0 4 ≡ true)
    × (leb 4 8 ≡ true)
    × (leb 0 2 ≡ true)
    × (leb 2 (8 - 4) ≡ true)
unfolding sanitized clamp
sanitized-OnScreen_example = sanitized-OnScreen eighths far_corner refl refl

abbrev pub crypto : Crypto
crypto = record {
  sha256 = λ bytes. replicate 32 1;
  is_key = λ public_key. true;
  verify = λ public_key message signature. length signature == 64;
}

abbrev pub public_key : List ℕ
public_key = replicate 32 5

abbrev signature : List ℕ
signature = replicate 64 7

unfoldable pub the_id : List ℕ
the_id = device_id_from_public_key crypto public_key

verifies : verify_access_proof crypto public_key signature [] ≡ device the_id
unfolding verify_access_proof the_id
verifies = refl

abbrev pub host : HostSide
host = record {
  access = record { require = true; authorized = the_id ∷ [] };
  channel_binding = [];
  signer = none;
  local_fingerprint = [];
  device_name = "desk";
  host_codec = h264;
  connect_password = some (1 ∷ 2 ∷ []);
  has_injector = true;
  descriptors = [];
  crypto = crypto;
  text = λ reason. "no";
}

abbrev pub no_files : FileTransfers
no_files = record {
  disk = record { names = []; content = λ i. []; fresh = 0 };
  download_dir = [];
  recvs = [];
  sends = [];
  shared = λ i. record { acked = 0; started = false; cancel = false };
  seq = 0;
}

abbrev pub start : Session ℕ
start = record {
  authorized = false;
  view_only = false;
  zoom = full eighths;
  pw_throttle = record { failures = 0; locked_until = none };
  files = no_files;
}

abbrev pub good_hello : Hello
good_hello = record {
  device_name = "lap";
  role = 1;
  features = 0;
  public_key = public_key;
  signature = signature;
  supported_video_codecs = [];
  password = 1 ∷ 2 ∷ [];
}

abbrev pub willing : Os
willing = record {
  mkdir_ok = true;
  readable = 9;
  open_ok = true;
  write_fails = none;
  rename_ok = true;
}

abbrev arrive : Payload ℕ → Arrival ℕ
arrive p = record {
  now = 5;
  os = willing;
  message = some (record { major = 1; minor = 7; payload = some p });
}

abbrev moved : Arrival ℕ
moved = arrive (Payload.input (some (mouse_move 1 1)))

abbrev pub hash : List ℕ → List ℕ
hash bytes = bytes

becomes_authorized :
    (run eighths host hash start (moved ∷ arrive (Payload.hello good_hello) ∷ [])).0.authorized
    ≡ true
unfolding run handle_control on_payload authorization_permits view_only_suppresses permitted handle
    dispatch on_hello decide verify_access_proof the_id locked verify_connect_password ct_eq accept
becomes_authorized = refl

run-authorized_example :
    (a : Arrival ℕ) × Memᴰ a (moved ∷ arrive (Payload.hello good_hello) ∷ [])
    × Accepted host a.message
run-authorized_example =
    run-authorized eighths host hash start (moved ∷ arrive (Payload.hello good_hello) ∷ []) refl
      becomes_authorized

abbrev watching : Session ℕ
watching = record start { authorized = true; view_only = true }

abbrev zooms : List (Arrival ℕ)
zooms = arrive (Payload.set_zoom 9 2 4 4) ∷ []

full_safe : sanitized eighths (full eighths) ≡ full eighths
unfolding sanitized full clamp
full_safe = refl

abbrev locked_out : Session ℕ
locked_out = record start { pw_throttle = record { failures = 3; locked_until = some 9 } }

closed : locked locked_out.pw_throttle 5 ≡ true
unfolding locked
closed = refl

abbrev pub idle : Core ℕ
idle = record {
  session = start;
  connected = false;
  was_authorized = false;
  remote_fingerprint = none;
  local_fingerprint = none;
  has_injector = true;
}

abbrev pub no_sdp : List ℕ → Option (List ℕ)
no_sdp json = none

abbrev greeting : Incoming ℕ
greeting =
    arrived 5 willing
      (some (record { major = 1; minor = 7; payload = some (Payload.hello good_hello) }))

abbrev moving : Incoming ℕ
moving =
    arrived 5 willing (
      some
        (record { major = 1; minor = 7; payload = some (Payload.input (some (mouse_move 1 1))) }))

lets_in :
    (core_run eighths host hash no_sdp idle
      (Incoming.connected ∷ moving ∷ greeting ∷ [])).0.session.authorized
    ≡ true
unfolding core_run core_step on_data host_now handle_control on_payload authorization_permits
    view_only_suppresses permitted handle dispatch on_hello decide verify_access_proof the_id locked
    verify_connect_password ct_eq accept
lets_in = refl

core_run-authorized_example :
    (before : List (Incoming ℕ)) × (now : ℕ) × (os : Os) × (m : Option (Envelope ℕ)) × (after : List
      (Incoming ℕ))
    × (moving ∷ greeting ∷ [] ≡ before ++ arrived now os m ∷ after)
    × Accepted
        (host_now host
          (core_run eighths host hash no_sdp
            (core_step eighths host hash no_sdp idle Incoming.connected).0
            before).0)
        m
core_run-authorized_example =
    core_run-authorized eighths host hash no_sdp idle Incoming.connected (moving ∷ greeting ∷ [])
      refl lets_in

core_run_quiet_example :
    ((core_run eighths host hash no_sdp idle (
        Incoming.connected
        ∷ moving
        ∷ Incoming.clipboard_polled (104 ∷ []) 1
        ∷ [])).0.session.authorized
      ≡ false)
    × ((core_run eighths host hash no_sdp idle (
          Incoming.connected
          ∷ moving
          ∷ Incoming.clipboard_polled (104 ∷ []) 1
          ∷ [])).0.session.files
        ≡ idle.session.files)
    × All
        (λ x. is_harmless x ≡ true)
        (core_run eighths host hash no_sdp idle
          (Incoming.connected ∷ moving ∷ Incoming.clipboard_polled (104 ∷ []) 1 ∷ [])).1
unfolding is_hello
core_run_quiet_example =
    core_run_quiet eighths host hash no_sdp idle
      (Incoming.connected ∷ moving ∷ Incoming.clipboard_polled (104 ∷ []) 1 ∷ []) refl
      (refl, (refl, (refl, tt)))
