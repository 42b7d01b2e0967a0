-- ===== src/Rendezvous/Api/Serve/Turn.antt =====
-- TURN credentials: for whom they are minted, and how long they still last.
use Prim.Native.String
use reachmydevice.Prelude.{
  ℕ, ◌+◌, ◌<◌, ◌≡◌, ◌⊎◌, refl, ap, ◌∙◌, Bool, Option, none, some, List, [], ◌∷◌, String, ltb,
  ltb→lt, ◌==◌, ==_iff, if◌then◌else◌, Bool-cases, inl, inr, All,
}
use reachmydevice.Rendezvous.Api.Sql.{select_first, select_all}
use reachmydevice.Rendezvous.Api.Sql.Laws.{select_first-All, select_first_sound}
use reachmydevice.Rendezvous.Api.{
  ok, TurnCredential, TurnConfig, AppState, Outside, Call, is_allowed, reason, RelayDecision,
}
use reachmydevice.Rendezvous.Api.Relay.{
  stun, turn, IceReply, relay_reply, turn_creds_for, reuse_or_mint, minted, fresh_credential,
}

module _ (o : Outside) (t : TurnConfig) where
  -- `<expiry>:<user id>`.
  abbrev pub turn_name : ℕ → ℕ → String
  turn_name expiry user = String.◌++◌ (o.show expiry) (String.◌++◌ ":" (o.show user))

  -- A credential of the configured secret for its owner and its time.
  pub record IsMinted (c : TurnCredential) : Type 0 where
    pub named : c.username ≡ turn_name c.expiry c.owner
    pub keyed : c.credential ≡ o.mint_turn_credential t.secret (turn_name c.expiry c.owner)

  All-select_all :
      (P : TurnCredential → Type 0) (p : TurnCredential → Bool) (cs : List TurnCredential)
      → All P cs
      → All P (select_all p cs)
  unfolding select_all
  All-select_all P p [] a = tt
  All-select_all P p (c ∷ cs) a = elim (Bool-cases (p c)) [
    | inl e ↦ rw e (a.0, All-select_all P p cs a.1)
    | inr e ↦ rw e (All-select_all P p cs a.1)
  ]

  module _ (call : Call) (user : ℕ) where
    -- What a caller may count on.
    pub record IsGood (c : TurnCredential) : Type 0 where
      pub for_user : c.owner ≡ user
      pub made : IsMinted c
      pub lasting : (call.now + 60 < c.expiry) ⊎ (c.expiry ≡ call.now + t.ttl_secs)

    unfoldable pub Good : AppState × TurnCredential → Type 0
    Good (s, c) = IsGood c × All IsMinted s.ice_cache

    fresh-IsMinted : IsMinted (fresh_credential o call t user)
    unfolding fresh_credential
    fresh-IsMinted = record { named = refl; keyed = refl }

    fresh-Good :
        (s : AppState)
        → All IsMinted s.ice_cache
        → Good (minted o call (fresh_credential o call t user) s)
    unfolding Good minted fresh_credential
    fresh-Good s a = (
      record { for_user = refl; made = record { named = refl; keyed = refl }; lasting = inr refl },
      (fresh-IsMinted, All-select_all IsMinted _ s.ice_cache a),
    )

    reuse-Good :
        (found : Option TurnCredential) (s : AppState)
        → select_first (λ (e : TurnCredential). e.owner == user) s.ice_cache ≡ found
        → All IsMinted s.ice_cache
        → Good (reuse_or_mint o call t user found s)
    unfolding Good reuse_or_mint
    reuse-Good none s e a = fresh-Good s a
    reuse-Good (some c) s e a = elim (Bool-cases (ltb (call.now + 60) c.expiry)) [
      | inr f ↦ rw f (fresh-Good s a)
      | inl f ↦ rw f (
        record {
          for_user =
              (==_iff c.owner user).0
                (select_first_sound (λ (e : TurnCredential). e.owner == user) s.ice_cache c e);
          made =
              select_first-All IsMinted (λ (e : TurnCredential). e.owner == user) s.ice_cache c a e;
          lasting = inl (ltb→lt (call.now + 60) c.expiry f);
        },
        a,
      )
    ]

    pub turn_creds_for-Good :
        (s : AppState) → All IsMinted s.ice_cache → Good (turn_creds_for o call t user s)
    unfolding turn_creds_for
    turn_creds_for-Good s a = reuse-Good _ s refl a

    -- The reply of the handler, by the policy's decision.
    abbrev pub expected_reply : RelayDecision → ℕ → IceReply
    expected_reply decision expiry =
        if is_allowed decision
        then record {
          servers =
              stun t.host t.port
              ∷ turn t.host t.port (turn_name expiry user)
                  (o.mint_turn_credential t.secret (turn_name expiry user))
              ∷ [];
          relay_denied = none;
        }
        else record { servers = stun t.host t.port ∷ []; relay_denied = reason decision }

    pub allowed_reply :
        (decision : RelayDecision) (s : AppState) (r : AppState × TurnCredential)
        → turn_creds_for o call t user s ≡ r
        → Good r
        → (expiry : ℕ) × ((relay_reply o call t user decision s).1
            ≡ ok (expected_reply decision expiry))
          × ((call.now + 60 < expiry) ⊎ (expiry ≡ call.now + t.ttl_secs))
    unfolding Good relay_reply
    allowed_reply decision s (s', c) e g =
        let name : c.username ≡ turn_name c.expiry user =
          g.0.made.named ∙ ap (turn_name c.expiry) g.0.for_user in
        let key : c.credential ≡ o.mint_turn_credential t.secret (turn_name c.expiry user) =
          g.0.made.keyed
          ∙ ap (λ u. o.mint_turn_credential t.secret (turn_name c.expiry u)) g.0.for_user in
        (
          c.expiry,
          elim (Bool-cases (is_allowed decision)) [
            | inl f ↦ rw (e, f, name, key) refl
            | inr f ↦ rw (e, f) refl
          ],
          g.0.lasting,
        )
