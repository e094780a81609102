-- ===== src/Pairing/Form.antt =====
-- The writes of a new match (`pair_next_match_with_accept_timeout`, lobby-server/src/db/queue.rs).
use steam_lobby.Prelude.{
  ℕ, ◌+◌, String, Option, none, some, Bool, true, false, not, ◌&&◌, ◌||◌, ltb, is_none, is_some,
  select, if◌then◌else◌, List, [], ◌∷◌, ◌++◌, Table, put, modify,
}
use steam_lobby.Core.Types.{
  Uuid, PlayerId, Token, DateTime, PlayerState, MatchStatus, MatchInfo, ModeSpec, player_state_eq,
  is_gameserver, is_native_report,
}
use steam_lobby.Core.Error.{LobbyError}
use steam_lobby.Core.Action.{Action, pure, gets, modifies, modifies_unless, ◌>>=◌, ◌>>◌}
use steam_lobby.Store.Rows.{
  QueueRow, PlayerStateRow, Umvc3Row, EventRow, EventType, Payload, empty, pairing,
}
use steam_lobby.Store.Db.{Db, new_v4}
use steam_lobby.Store.Queue.{is_entry, seconds}
use steam_lobby.Ranked.Types.{Umvc3Phase}
use steam_lobby.Ranked.Events.{next_sequence}

-- what the call of the ticker fixes
pub record Request : Type 0 where
  pub mode : String
  pub spec : ModeSpec
  pub pair_cooldown_secs : ℕ
  pub match_accept_timeout_secs : ℕ

abbrev pub native : Request → Bool
native q = is_native_report q.spec.authority

-- state = 'Queueing' and no active match
abbrev pub is_free : Option PlayerStateRow → Bool
is_free none = false
is_free (some p) = player_state_eq p.state PlayerState.queueing && is_none p.active_match_token

-- the lease is there and not over
abbrev pub has_lease : {R : Type 0} → DateTime → QueueRow R → Bool
has_lease now q = elim q.lease_expires_at [ none ↦ false | some lease ↦ ltb now lease ]

-- the row of umvc3_matches, its other columns at their defaults
abbrev pub awaiting_accepted_row : DateTime → Uuid → DateTime → DateTime → Umvc3Row
awaiting_accepted_row deadline attempt queued_a queued_b = record {
  phase = Umvc3Phase.awaiting_accepted;
  terminal_reason = none;
  phase_version = 0;
  next_command_sequence = 1;
  phase_deadline = some deadline;
  attempt_id = attempt;
  lobby_id = none;
  trying_a = false;
  trying_b = false;
  connect_local_a = false;
  connect_peer_a = false;
  connect_local_b = false;
  connect_peer_b = false;
  ready_a = false;
  ready_b = false;
  abandon_vote_a = none;
  abandon_vote_b = none;
  original_queued_at_a = queued_a;
  original_queued_at_b = queued_b;
}

-- SET state = 'MatchAccepted', active_match_token = t
abbrev pub taken : Token → PlayerStateRow → PlayerStateRow
taken t p = record p { state = PlayerState.match_accepted; active_match_token = some t }

-- the row that counts a recipient's events, after one number is handed out
abbrev pub counted : Uuid → Table ℕ → Table ℕ
counted id counters = put id (next_sequence counters id + 1) counters

module _ {R : Type 0} where
  abbrev pub paired_event : Token → Option (Uuid × ℕ) → Payload R → EventRow R
  paired_event t recipient payload = record {
    match_token = t;
    event_type = EventType.paired;
    actor = none;
    recipient = recipient;
    payload = payload;
  }

  -- the writes of a native pair: the ranked row, both players, and an event for each
  unfoldable pub hold_native : Request → MatchInfo → QueueRow R → QueueRow R → Uuid → Db R → Db R
  hold_native q m a b attempt s =
      let t = m.match_token in
      let deadline = s.now + seconds q.match_accept_timeout_secs in
      let number_a = next_sequence s.event_counters a.user_id in
      let number_b = next_sequence s.event_counters b.user_id in
      record s {
        umvc3 = put t (awaiting_accepted_row deadline attempt a.queued_at b.queued_at) s.umvc3;
        player_state = modify b.user_id (taken t) (modify a.user_id (taken t) s.player_state);
        event_counters = counted b.user_id (counted a.user_id s.event_counters);
        events =
            s.events
            ++ paired_event t (some (a.user_id, number_a)) (pairing b.user_id true deadline attempt)
              ∷ paired_event t (some (b.user_id, number_b))
                  (pairing a.user_id false deadline attempt)
              ∷ [];
      }

  abbrev secret_if : Bool → Action (Db R) (Option Uuid)
  secret_if true = do secret ← new_v4; pure (some secret)
  secret_if false = pure none

  -- INSERT INTO matches
  unfoldable pub insert_match : MatchInfo → Action (Db R) (Unit {0})
  insert_match m = do
    taken ← gets (λ s. is_some (s.matches m.match_token))
    modifies_unless taken (LobbyError.database "matches_pkey") (λ s. record s {
      tokens = s.tokens ++ m.match_token ∷ [];
      matches = put m.match_token m s.matches;
    })

  unfoldable pub hold : Request → MatchInfo → QueueRow R → QueueRow R → Db R → Db R
  unfolding hold_native
  hold q m a b s =
      if native q
      then hold_native q m a b (s.entropy s.drawn) (record s { drawn = s.drawn + 1 })
      else record s { events = s.events ++ paired_event m.match_token none empty ∷ [] }

  -- DELETE FROM matchmaking_queue WHERE user_id = ANY(ids) AND game_mode = mode
  abbrev pub without_pair : String → PlayerId → PlayerId → List (QueueRow R) → List (QueueRow R)
  without_pair mode a b = select λ row. not (is_entry a mode row || is_entry b mode row)

  abbrev pub new_match :
      Request → QueueRow R → QueueRow R → DateTime → Token → Option Uuid → MatchInfo
  new_match q a b now token secret = record {
    match_token = token;
    player_a = a.user_id;
    player_a_difficulty = a.match_difficulty;
    player_b = b.user_id;
    player_b_difficulty = b.match_difficulty;
    game_mode = q.mode;
    connection = q.spec.connection;
    status = MatchStatus.pending_accept;
    created_at = now;
    accepted_at = none;
    started_at = none;
    ended_at = none;
    server_address = none;
    join_token = none;
    result_secret = secret;
    accepted_a = false;
    accepted_b = false;
    connected_a = false;
    connected_b = false;
  }

  -- the rest of the transaction, once the two locked rows have passed
  unfoldable pub form_match : Request → QueueRow R → QueueRow R → Action (Db R) MatchInfo
  unfolding insert_match hold
  form_match q a b = do
    now ← gets (λ s. s.now)
    token ← new_v4
    secret ← secret_if (is_gameserver q.spec.authority)
    let m = new_match q a b now token secret
    insert_match m
    modifies (hold q m a b)
    modifies (λ s. record s { queue = without_pair q.mode a.user_id b.user_id s.queue })
    pure m
