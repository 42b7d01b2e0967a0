-- ===== src/Rendezvous/Hub/Accounts.antt =====
-- Relaying between signaling peers: only inside one account, and by the newest connection.
use reachmydevice.Prelude.{
  ℕ, ◌≡◌, ◌≢◌, ◌↔◌, Bool, true, false, none, some, [], ◌∷◌, String, arith, eq_iff, eq_refl,
}
use reachmydevice.Prelude.Store.{lookup, insert, lookup-insert, lookup-remove}
use reachmydevice.Rendezvous.Hub.{
  Hub, Peer, Mail, cross_account, send, register, unregister, relay, is_online,
}

-- A text goes into a channel only if the addressed device is connected, belongs to the sender's
-- account and its channel is open; then it goes into that device's channel and no other.
pub relay-mail :
    (open' : ℕ → Bool) (h : Hub) (user : ℕ) (to text : String) (tx : ℕ) (got : String) (rest : Mail)
    → (relay open' h user to text).1 ≡ (tx, got) ∷ rest
    → (lookup to h.peers ≡ some (record { user_id = user; tx = tx }))
      × (open' tx ≡ true)
      × (got ≡ text)
      × (rest ≡ [])
      × ((relay open' h user to text).0 ≡ none)
unfolding relay send
relay-mail open' h user to text tx got rest e =
    (ground arith, ground arith, ground arith, ground arith, ground arith)

-- The sender is told that the frame was delivered exactly when it was put into a channel.
pub relay-none :
    (open' : ℕ → Bool) (h : Hub) (user : ℕ) (to text : String)
    → ((relay open' h user to text).0 ≡ none) ↔ ((relay open' h user to text).1 ≢ [])
unfolding relay send
relay-none open' h user to text = (λ e n. ground arith, λ n. ground arith)

-- A device of another account is never reached, whether or not its channel is open.
pub relay_cross_account :
    (open' : ℕ → Bool) (h : Hub) (user : ℕ) (to text : String) (p : Peer)
    → lookup to h.peers ≡ some p
    → p.user_id ≢ user
    → relay open' h user to text ≡ (some cross_account, [])
unfolding relay
relay_cross_account open' h user to text p e ne = ground arith

-- A connection that was replaced by a newer one of the same device cannot take the newer one off the
-- hub when it ends; the newer one's own end does, and no other device is touched by either.
pub unregister-register :
    (h : Hub) (device other : String) (user tx old : ℕ)
    → old ≢ tx
    → device ≢ other
    → let h' = register h device user tx in
      (unregister h' device old ≡ h')
      × (is_online (unregister h' device tx) device ≡ false)
      × (is_online (unregister h' device tx) other ≡ is_online h other)
unfolding unregister register is_online
unregister-register h device other user tx old ne apart =
    let p : Peer = record { user_id = user; tx = tx } in
    let put = lookup-insert device device p h.peers in
    let put_other = lookup-insert device other p h.peers in
    let gone = lookup-remove device device (insert device p h.peers) in
    let gone_other = lookup-remove device other (insert device p h.peers) in
    let r = eq_refl device in (ground arith, ground arith, ground (arith, eq_iff device other))
