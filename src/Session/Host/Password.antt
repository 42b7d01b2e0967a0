-- ===== src/Session/Host/Password.antt =====
-- Guessing the connection password: `PasswordThrottle` and the `Hello` branch of `handle_control` in
-- crates/session/src/host.rs.
use reachmydevice.Prelude.{
  ℕ, zero, suc, ◌+◌, ◌-◌, ◌*◌, ◌^◌, ◌<◌, min, ◌≡◌, refl, true, false, ◌&&◌, none, List, inl, inr,
  Bool-cases, arith, leb, ltb,
}
use reachmydevice.Protocol.{Hello}
use reachmydevice.Codec.{Doubles}
use reachmydevice.Session.Host.{decide, check_codec_compatible, supported_codecs, authorize}
use reachmydevice.Session.Host.Guess
use reachmydevice.Session.Host.Guess.{
  PasswordThrottle, locked, record_failure, throttle_after, throttle_max_secs,
}
use reachmydevice.Session.Host.Control.{HostSide, Session, on_hello}

-- The throttle of a connection after `n` wrong guesses and no right one, the guess `i` at `times i`.
unfoldable pub after_guesses : (ℕ → ℕ) → ℕ → PasswordThrottle
unfolding Guess.new record_failure
after_guesses times zero = Guess.new
after_guesses times (suc n) = record_failure (after_guesses times n) (times n)

after_guesses-failures : (times : ℕ → ℕ) (n : ℕ) → n < 2 ^ 32 → (after_guesses times n).failures ≡ n
unfolding after_guesses record_failure Guess.new
after_guesses-failures times zero h = refl
after_guesses-failures times (suc n) h =
    ground (arith, after_guesses-failures times n (omega arith))

after_guesses-free :
    (times : ℕ → ℕ) (n : ℕ) → n < throttle_after → (after_guesses times n).locked_until ≡ none
unfolding after_guesses record_failure Guess.new
after_guesses-free times zero h = refl
after_guesses-free times (suc n) h =
    ground (
      arith,
      after_guesses-free times n (omega arith),
      after_guesses-failures times n (omega arith),
    )

-- After `n + 1` wrong guesses in a row, fewer than 2^32, the throttle is closed exactly from the third on,
-- for 2 seconds more after each, at most 30, from the time of the last one.
pub locked-after_guesses :
    (times : ℕ → ℕ) (n now : ℕ)
    → suc n < 2 ^ 32
    → locked (after_guesses times (suc n)) now
      ≡ (leb 3 (suc n) && ltb now (times n + min ((n - 1) * 2) 30 * 1000000000))
unfolding locked after_guesses record_failure
locked-after_guesses times n now h =
    let count = after_guesses-failures times n (omega arith) in
    elim (Bool-cases (leb 3 (suc n))) [
      | inl counts ↦ ground (arith, count, counts)
      | inr free ↦ ground (arith, count, free, after_guesses-free times n (ground (arith, free)))
    ]

decide_password :
    (host : HostSide) (major : ℕ) (h : Hello) (guess : List ℕ)
    → decide host.crypto host.access host.host_codec host.channel_binding major
        (record h { password = guess })
      ≡ decide host.crypto host.access host.host_codec host.channel_binding major h
unfolding decide check_codec_compatible supported_codecs authorize
decide_password host major h guess = refl

module _ {A : Type 0} (d : Doubles A) (host : HostSide) where
  -- While the throttle is closed, a `Hello` is answered in the same way whatever its password is, does not
  -- authorize the session, and is not counted.
  pub on_hello-locked :
      (now : ℕ) (s : Session A) (major : ℕ) (h : Hello) (guess : List ℕ)
      → locked s.pw_throttle now ≡ true
      → (on_hello d host now s major h
          ≡ on_hello d host now s major (record h { password = guess }))
        × ((on_hello d host now s major h).0 ≡ record s { authorized = false })
  unfolding on_hello
  on_hello-locked now s major h guess l =
      (ground (arith, l, decide_password host major h guess), ground (arith, l))
