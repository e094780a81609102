-- ===== src/Server/Lifecycle.antt =====
-- What the activities of a match workflow do to their match (lobby-server/src/temporal/activities.rs).
use steam_lobby.Prelude.{Bool, true, false, none, some, ◌==◌, ◌≡◌, arith}
use steam_lobby.Core.Types.{PlayerId, Token, MatchStatus, MatchInfo}
use steam_lobby.Core.Error.{ok}
use steam_lobby.Core.Match
use steam_lobby.Core.Match.{is_participant}
use steam_lobby.Core.Types
use steam_lobby.Store.Matches.{
  accepted_by, started_by, mark_accepted, mark_started, update_match_status,
}
use steam_lobby.Server.Frames.{remarked}
use steam_lobby.Store.Db.{Db}
use steam_lobby.Core.Callbacks.{default_callbacks}
use steam_lobby.Workflow.{MatchArgs}

-- The row of a match under the workflow: stored under its own token, with no result yet.
pub record Stands {R : Type 0} (p : MatchArgs) (t : Token) (d : Db R) (status : MatchStatus)
    (accepts connects : Bool × Bool) : Type 0 where
  pub row : MatchInfo
  pub found : d.matches t ≡ some row
  pub key : row.match_token ≡ t
  pub player_a : row.player_a ≡ p.player_a
  pub player_b : row.player_b ≡ p.player_b
  pub apart : (p.player_a == p.player_b) ≡ false
  pub p2p : Types.is_server row.connection ≡ false
  pub status_is : row.status ≡ status
  pub accepted_a : row.accepted_a ≡ accepts.0
  pub accepted_b : row.accepted_b ≡ accepts.1
  pub connected_a : row.connected_a ≡ connects.0
  pub connected_b : row.connected_b ≡ connects.1
  pub unrated : d.results t ≡ none

module _ {R : Type 0} (p : MatchArgs) (t : Token) (d : Db R) where
  pub first_accept :
      (h : Stands p t d MatchStatus.pending_accept (false, false) (false, false))
      → let out = Match.accept_match default_callbacks t p.player_a d in
        (out.0 ≡ ok tt) × Stands p t out.1 MatchStatus.pending_accept (true, false) (false, false)
  unfolding Match.accept_match mark_accepted
  first_accept h = (
    ground (arith, h.found),
    record {
      row = accepted_by d.now p.player_a h.row;
      found = ground (arith, h.found);
      key = ground (arith, h.key);
      player_a = ground (arith, h.player_a);
      player_b = ground (arith, h.player_b);
      apart = h.apart;
      p2p = ground (arith, h.p2p);
      status_is = ground (arith, h.status_is);
      accepted_a = ground (arith, h.accepted_a);
      accepted_b = ground (arith, h.accepted_b);
      connected_a = ground (arith, h.connected_a);
      connected_b = ground (arith, h.connected_b);
      unrated = ground (arith, h.unrated);
    },
  )

  pub second_accept :
      (h : Stands p t d MatchStatus.pending_accept (true, false) (false, false))
      → let out = Match.accept_match default_callbacks t p.player_b d in
        (out.0 ≡ ok tt) × Stands p t out.1 MatchStatus.in_progress (true, true) (false, false)
  unfolding Match.accept_match mark_accepted
  second_accept h = (
    ground (arith, h.found),
    record {
      row = record (accepted_by d.now p.player_b h.row) { status = MatchStatus.in_progress };
      found = ground (arith, h.found);
      key = ground (arith, h.key);
      player_a = ground (arith, h.player_a);
      player_b = ground (arith, h.player_b);
      apart = h.apart;
      p2p = ground (arith, h.p2p);
      status_is = ground (arith, h.status_is);
      accepted_a = ground (arith, h.accepted_a);
      accepted_b = ground (arith, h.accepted_b);
      connected_a = ground (arith, h.connected_a);
      connected_b = ground (arith, h.connected_b);
      unrated = ground (arith, h.unrated);
    },
  )

  pub first_connect :
      (h : Stands p t d MatchStatus.in_progress (true, true) (false, false))
      → let out = Match.mark_connected default_callbacks t p.player_a d in
        (out.0 ≡ ok tt) × Stands p t out.1 MatchStatus.in_progress (true, true) (true, false)
  unfolding Match.mark_connected mark_started
  first_connect h = (
    ground (arith, h.found),
    record {
      row = started_by d.now p.player_a h.row;
      found = ground (arith, h.found);
      key = ground (arith, h.key);
      player_a = ground (arith, h.player_a);
      player_b = ground (arith, h.player_b);
      apart = h.apart;
      p2p = ground (arith, h.p2p);
      status_is = ground (arith, h.status_is);
      accepted_a = ground (arith, h.accepted_a);
      accepted_b = ground (arith, h.accepted_b);
      connected_a = ground (arith, h.connected_a);
      connected_b = ground (arith, h.connected_b);
      unrated = ground (arith, h.unrated);
    },
  )

  pub second_connect :
      (h : Stands p t d MatchStatus.in_progress (true, true) (true, false))
      → let out = Match.mark_connected default_callbacks t p.player_b d in
        (out.0 ≡ ok tt) × Stands p t out.1 MatchStatus.reporting (true, true) (true, true)
  unfolding Match.mark_connected mark_started
  second_connect h = (
    ground (arith, h.found),
    record {
      row = record (started_by d.now p.player_b h.row) {
        status = MatchStatus.reporting;
        ended_at = some d.now;
      };
      found = ground (arith, h.found);
      key = ground (arith, h.key);
      player_a = ground (arith, h.player_a);
      player_b = ground (arith, h.player_b);
      apart = h.apart;
      p2p = ground (arith, h.p2p);
      status_is = ground (arith, h.status_is);
      accepted_a = ground (arith, h.accepted_a);
      accepted_b = ground (arith, h.accepted_b);
      connected_a = ground (arith, h.connected_a);
      connected_b = ground (arith, h.connected_b);
      unrated = ground (arith, h.unrated);
    },
  )

  pub still_accepted :
      (h : Stands p t d MatchStatus.in_progress (true, true) (false, false))
      → Stands p t (remarked t h.row d) MatchStatus.in_progress (true, true) (false, false)
  unfolding mark_accepted update_match_status
  still_accepted h = record {
    row = record (accepted_by d.now h.row.player_b (accepted_by d.now h.row.player_a h.row)) {
      status = MatchStatus.in_progress;
    };
    found = ground (arith, h.found);
    key = ground (arith, h.key);
    player_a = ground (arith, h.player_a);
    player_b = ground (arith, h.player_b);
    apart = h.apart;
    p2p = ground (arith, h.p2p);
    status_is = ground arith;
    accepted_a = ground (arith, h.accepted_a);
    accepted_b = ground (arith, h.accepted_b);
    connected_a = ground (arith, h.connected_a);
    connected_b = ground (arith, h.connected_b);
    unrated = ground (arith, h.unrated);
  }
