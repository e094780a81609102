-- ===== src/Auth/Links.antt =====
-- Linking a Discord account (lobby-server/src/db/sessions.rs).
use mathlib.Core.Option
use steam_lobby.Prelude.{
  ◌+◌, String, Bool, not, Option, none, some, is_some, ltb, if◌then◌else◌, put, modify,
}
use steam_lobby.Core.Types.{Uuid, DateTime}
use steam_lobby.Core.Action.{Action, pure, gets, modifies, transaction, ◌>>=◌, ◌>>◌}
use steam_lobby.Auth.State.{
  Auth, Hash, Secret, NativeSession, ProviderSession, LinkIntent, LinkStatus, Handoff, new_id,
  minutes, insert_if_new, is_live,
}
use steam_lobby.Auth.Sessions.{row_where, is_live_native, browser_of}
use steam_lobby.Auth.Accounts.{has_account_in}

pub data LinkIntentError : Type 0 where
  expired replayed session_mismatch steam_required : LinkIntentError

pub data Intent : Type 0 where
  intent : Uuid → String → Intent
  refused : LinkIntentError → Intent

abbrev new_intent : Uuid → String → Hash → Option Uuid → Option Uuid → DateTime → LinkIntent
new_intent user kind proof browser native now = record {
  user_id = user;
  kind = kind;
  provider_session_hash = proof;
  browser_session_id = browser;
  native_session_id = native;
  status = LinkStatus.pending;
  expires_at = now + minutes 5;
}

-- INSERT INTO link_intents … RETURNING id
abbrev insert_intent : (DateTime → LinkIntent) → Action Auth Uuid
insert_intent row = do
  id ← new_id
  taken ← gets (λ s. is_some (s.link_intents id))
  insert_if_new taken (λ s. record s { link_intents = put id (row s.now) s.link_intents })
  pure id

-- `token_hash` is SHA-256, and `encode` the text of the 32 bytes of two UUIDs
module _ (token_hash : Secret → Hash) (encode : Uuid → Uuid → Secret) where
  abbrev pub opaque_token : Action Auth Secret
  opaque_token = do first ← new_id; second ← new_id; pure (encode first second)

  -- INSERT INTO provider_sessions
  abbrev insert_proof : Hash → String → String → Action Auth (Unit {0})
  insert_proof h uid name = do
    taken ← gets (λ s. is_some (s.provider_sessions h))
    insert_if_new taken (λ s. record s {
      provider_sessions =
          put h
            (record {
              provider_uid = uid;
              display_name = name;
              expires_at = s.now + minutes 5;
              consumed_at = none;
            })
            s.provider_sessions;
    })

  unfoldable pub create_provider_proof : String → String → Action Auth Secret
  create_provider_proof uid name = do
    nonce ← opaque_token
    insert_proof (token_hash nonce) uid name
    pure nonce

  abbrev intent_on : Option ProviderSession → Uuid → Uuid → Hash → Action Auth Intent
  intent_on none user session h = pure (refused LinkIntentError.expired)
  intent_on (some proof) user session h = do
    now ← gets (λ s. s.now)
    if is_some proof.consumed_at
        then pure (refused LinkIntentError.replayed)
        else if not (ltb now proof.expires_at)
        then pure (refused LinkIntentError.expired)
        else (do
          id ← insert_intent (new_intent user "browser" h (some session) none)
          pure (intent id proof.display_name))

  unfoldable pub create_browser_link_intent : Uuid → Uuid → Secret → Action Auth Intent
  create_browser_link_intent user session proof = transaction do
    live ← gets (λ s. is_some (row_where (browser_of user s.now) (s.browser_sessions session)))
    steam ← gets (λ s. has_account_in user "steam" s.accounts)
    row ← gets (λ s. s.provider_sessions (token_hash proof))
    if not live
        then pure (refused LinkIntentError.session_mismatch)
        else if not steam
        then pure (refused LinkIntentError.steam_required)
        else intent_on row user session (token_hash proof)

  unfoldable pub create_oauth_handoff : Uuid → Action Auth Secret
  create_oauth_handoff native = do
    state ← opaque_token
    taken ← gets (λ s. is_some (s.handoffs (token_hash state)))
    insert_if_new taken (λ s. record s {
      handoffs =
          put (token_hash state)
            (record {
              native_session_id = native;
              expires_at = s.now + minutes 5;
              consumed_at = none;
            })
            s.handoffs;
    })
    pure state

  abbrev pub is_open_handoff : DateTime → Handoff → Bool
  is_open_handoff now h = is_live h.expires_at h.consumed_at now

  -- oauth_handoffs h JOIN native_sessions ns, both open
  abbrev joined : Option Handoff → Auth → Option (Uuid × NativeSession)
  joined none s = none
  joined (some h) s =
      Option.map (λ ns. (h.native_session_id, ns))
        (row_where (is_live_native s.now) (s.native_sessions h.native_session_id))

  abbrev pub open_handoff : Hash → Auth → Option (Uuid × NativeSession)
  open_handoff h s = joined (row_where (is_open_handoff s.now) (s.handoffs h)) s

  unfoldable pub peek_oauth_handoff : Secret → Action Auth (Option Uuid)
  peek_oauth_handoff state = gets λ s. Option.map (λ r. r.0) (open_handoff (token_hash state) s)

  abbrev complete_on :
      Option (Uuid × NativeSession) → Hash → String → String → Action Auth (Option Uuid)
  complete_on none h uid name = pure none
  complete_on (some (session, ns)) h uid name = do
    proof ← opaque_token
    insert_proof (token_hash proof) uid name
    id ← insert_intent (new_intent ns.user_id "native" (token_hash proof) none (some session))
    modifies (λ s. record s {
      handoffs = modify h (λ x. record x { consumed_at = some s.now }) s.handoffs;
    })
    pure (some id)

  unfoldable pub complete_native_handoff : Secret → String → String → Action Auth (Option Uuid)
  complete_native_handoff state uid name =
      transaction
        do row ← gets (open_handoff (token_hash state)); complete_on row (token_hash state) uid name
