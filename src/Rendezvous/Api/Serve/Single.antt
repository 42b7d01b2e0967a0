-- ===== src/Rendezvous/Api/Serve/Single.antt =====
-- Every device has at most one bearer token: `issue_device_token` of apps/rendezvous/src/api.rs drops the old ones,
-- and no other handler makes any. The table has no constraint that says so.
use reachmydevice.Prelude.{Bool, ◌==◌}
use reachmydevice.Rendezvous.Api.Sql.Laws.{Distinct}
use reachmydevice.Rendezvous.Api.{DeviceToken, AppState}

abbrev pub same_owner : DeviceToken → DeviceToken → Bool
same_owner t u = u.device_pk == t.device_pk

-- No two tokens of one device.
abbrev pub HasOneToken : AppState → Type 0
HasOneToken s = Distinct same_owner s.db.device_tokens
