-- ===== src/Core/Match/Lifecycle.antt =====
-- The status of a match under the actions of `MatchManager` (lobby-core/src/match_lifecycle.rs).
use steam_lobby.Prelude.{
  Option, none, some, Bool, true, false, ◌&&◌, ◌==◌, ◌≡◌, refl, arith, is_none, List, [], ◌∷◌, ◌⊎◌,
  inl, inr, Bool-cases, if◌then◌else◌,
}
use mathlib.Core.Option
use steam_lobby.Core.Types.{
  PlayerId, Token, MatchStatus, MatchInfo, MatchReport, match_status_eq, eq_of_match_status_eq,
}
use steam_lobby.Core.Error.{LobbyError, ok, err, match_of}
use steam_lobby.Core.Action.{Action, pure, ◌>>=◌}
use steam_lobby.Core.Callbacks.{GameCallbacks}
use steam_lobby.Core.Match.{
  is_participant, is_stranger, resolve_agreed, forfeit_both, conclude, accept_match, mark_connected,
  submit_report, resolve_from_gameserver, resolve_pong, resolve_forfeit,
}
use steam_lobby.Core.Match.Resolution.{status_of, status-resolve_agreed, status-forfeit_both}
use steam_lobby.Store.Db.{Db}
use steam_lobby.Store.Numbers.{Numbers}
use steam_lobby.Store.Matches
use steam_lobby.Store.Matches.{mark_accepted, mark_started, accepted_by, started_by}
use steam_lobby.Store.Rows.{ReportRow}

-- The actions, each on its match.
pub data MatchAction : Type 0 where
  accepts connects wins_pong : Token → PlayerId → MatchAction
  reports : MatchReport → MatchAction
  server_says : Token → Option PlayerId → MatchAction
  forfeits : Token → MatchAction

abbrev pub subject : MatchAction → Token
subject (accepts t _) = t
subject (connects t _) = t
subject (wins_pong t _) = t
subject (reports r) = r.match_token
subject (server_says t _) = t
subject (forfeits t) = t

module _ {R : Type 0} (N : Numbers R) (cb : GameCallbacks R) where
  abbrev answered : {A : Type 0} → Action (Db R) A → Action (Db R) (Unit {0})
  answered m = m >>= λ _. pure tt

  pub act : MatchAction → Action (Db R) (Unit {0})
  unfolding accept_match mark_connected submit_report resolve_from_gameserver resolve_pong
      resolve_forfeit
  act (accepts t user) = accept_match cb t user
  act (connects t user) = mark_connected cb t user
  act (reports r) = answered (submit_report N cb r)
  act (server_says t winner) = answered (resolve_from_gameserver N cb t winner)
  act (wins_pong t winner) = answered (resolve_pong N cb t winner)
  act (forfeits t) = answered (resolve_forfeit N cb t)

-- The status in which an action is allowed.
abbrev pub required : MatchAction → MatchStatus
required (accepts _ _) = MatchStatus.pending_accept
required (connects _ _) = MatchStatus.in_progress
required (wins_pong _ _) = MatchStatus.reporting
required (reports _) = MatchStatus.reporting
required (server_says _ _) = MatchStatus.playing
required (forfeits _) = MatchStatus.reporting

module _ {R : Type 0} (N : Numbers R) (cb : GameCallbacks R) (s : Db R) where
  -- Each action of MatchManager on a match in a status other than the action's own is a
  -- MatchStateMismatch and changes nothing.
  pub act_misplaced :
      (a : MatchAction) {m : MatchInfo}
      → s.matches (subject a) ≡ some m
      → match_status_eq m.status (required a) ≡ false
      → act N cb a s ≡ (err (LobbyError.match_state_mismatch (match_of (subject a))), s)
  unfolding act
  act_misplaced (accepts t user) found h = ground arith
  act_misplaced (connects t user) found h = ground arith
  act_misplaced (reports r) found h = ground arith
  act_misplaced (server_says t w) found h = ground arith
  act_misplaced (wins_pong t w) found h = ground arith
  act_misplaced (forfeits t) found h = ground arith

-- The arrows of the life of a match, with staying where it is.
abbrev pub may_become : MatchStatus → MatchStatus → Bool
may_become MatchStatus.pending_accept MatchStatus.in_progress = true
may_become MatchStatus.in_progress MatchStatus.reporting = true
may_become MatchStatus.playing MatchStatus.resolved = true
may_become MatchStatus.reporting MatchStatus.resolved = true
may_become MatchStatus.reporting MatchStatus.disputed = true
may_become from to = match_status_eq from to

abbrev pub follows : MatchStatus → Option MatchStatus → Bool
follows from none = false
follows from (some to) = may_become from to

may_become_refl : (a : MatchStatus) → may_become a a ≡ true
may_become_refl MatchStatus.disputed = refl
may_become_refl _ = refl

module _ {R : Type 0} (s : Db R) where
  follows_self :
      (t : Token) {m : MatchInfo} → s.matches t ≡ some m → follows m.status (status_of s t) ≡ true
  follows_self t {m} found = rw found (may_become_refl m.status)

  follows_settled :
      (t : Token) (b : Bool) {m : MatchInfo} (from : MatchStatus)
      → s.matches t ≡ some m
      → m.status ≡ from
      → may_become from MatchStatus.resolved ≡ true
      → (after : Option MatchStatus)
      → after ≡ (if b then Option.map (λ _. MatchStatus.resolved) (s.matches t) else status_of s t)
      → follows m.status after ≡ true
  follows_settled t true from found e h after p = rw (p, found, e) h
  follows_settled t false from found e h after p = rw p (follows_self t found)

module _ {R : Type 0} (N : Numbers R) (cb : GameCallbacks R) (s : Db R) (t : Token)
    {m : MatchInfo} where
  server_says-act :
      (w : Option PlayerId)
      → s.matches t ≡ some m
      → m.status ≡ MatchStatus.playing
      → (act N cb (server_says t w) s).1
        ≡ (if is_stranger m w then s else (resolve_agreed N cb m w s).1)
  unfolding act
  server_says-act w found e = ground arith

  wins_pong-act :
      (w : PlayerId)
      → s.matches t ≡ some m
      → m.status ≡ MatchStatus.reporting
      → (act N cb (wins_pong t w) s).1
        ≡ (if is_participant m w then (resolve_agreed N cb m (some w) s).1 else s)
  unfolding act
  wins_pong-act w found e = ground arith

  forfeits-act :
      s.matches t ≡ some m
      → m.status ≡ MatchStatus.reporting
      → (act N cb (forfeits t) s).1 ≡ (forfeit_both N cb m s).1
  unfolding act
  forfeits-act found e = ground arith

module _ {R : Type 0} (N : Numbers R) (cb : GameCallbacks R) (s : Db R) (t : Token)
    {m : MatchInfo} where
  conclude-follows :
      (reports : List ReportRow)
      → s.matches t ≡ some m
      → m.match_token ≡ t
      → m.status ≡ MatchStatus.reporting
      → follows m.status (status_of (conclude N cb t m reports s).1 t) ≡ true
  unfolding conclude
  conclude-follows [] found key e = follows_self s t found
  conclude-follows (_ ∷ []) found key e = follows_self s t found
  conclude-follows (ra ∷ rb ∷ _) found key e = ground (
    arith,
    follows_settled s t (is_none (s.results m.match_token) && m.match_token == t)
        MatchStatus.reporting found e refl _ (status-resolve_agreed N m s cb ra.winner t),
  )

  reports-act :
      (r : MatchReport)
      → r.match_token ≡ t
      → s.matches t ≡ some m
      → m.status ≡ MatchStatus.reporting
      → ((act N cb (reports r) s).1 ≡ s)
        ⊎ ((act N cb (reports r) s).1
            ≡ (let u = (Matches.submit_report r s).1 in conclude N cb t m (u.reports t) u).1)
  unfolding act Matches.submit_report
  reports-act r key found e = ground arith

module _ {R : Type 0} (cb : GameCallbacks R) (s : Db R) (t : Token) (user : PlayerId)
    {m : MatchInfo} where
  marked_accepted :
      s.matches t ≡ some m
      → (r : MatchInfo) × (both : Bool) × ((mark_accepted t user s).0 ≡ ok both)
        × ((mark_accepted t user s).1.matches t ≡ some r)
        × (r.status ≡ m.status)
  unfolding mark_accepted
  marked_accepted found = (
    accepted_by s.now user m,
    (accepted_by s.now user m).accepted_a && (accepted_by s.now user m).accepted_b,
    ground arith,
    ground arith,
    ground arith,
  )

  marked_started :
      s.matches t ≡ some m
      → (r : MatchInfo) × (both : Bool) × ((mark_started t user s).0 ≡ ok both)
        × ((mark_started t user s).1.matches t ≡ some r)
        × (r.status ≡ m.status)
  unfolding mark_started
  marked_started found = (
    started_by s.now user m,
    (started_by s.now user m).connected_a && (started_by s.now user m).connected_b,
    ground arith,
    ground arith,
    ground arith,
  )

  accept-follows :
      s.matches t ≡ some m
      → m.status ≡ MatchStatus.pending_accept
      → follows MatchStatus.pending_accept (status_of (accept_match cb t user s).1 t) ≡ true
  unfolding accept_match
  accept-follows found e = ground (arith, marked_accepted found)

  connect-follows :
      s.matches t ≡ some m
      → m.match_token ≡ t
      → m.status ≡ MatchStatus.in_progress
      → follows MatchStatus.in_progress (status_of (mark_connected cb t user s).1 t) ≡ true
  unfolding mark_connected
  connect-follows found key e = ground (arith, marked_started found)

module _ {R : Type 0} (N : Numbers R) (cb : GameCallbacks R) (s : Db R) where
  placed-follows :
      (a : MatchAction) {m : MatchInfo}
      → s.matches (subject a) ≡ some m
      → m.match_token ≡ subject a
      → m.status ≡ required a
      → follows m.status (status_of (act N cb a s).1 (subject a)) ≡ true
  placed-follows (accepts t user) found key e =
      rw e (unfold act in accept-follows cb s t user found e)
  placed-follows (connects t user) found key e =
      rw e (unfold act in connect-follows cb s t user found key e)
  placed-follows (reports r) {m} found key e =
      elim (reports-act N cb s r.match_token r refl found e) [
        | inl same ↦ rw same (follows_self s r.match_token found)
        | inr there ↦ rw there (
            conclude-follows N cb (Matches.submit_report r s).1 r.match_token _
              (unfold Matches.submit_report in found) key e)
      ]
  placed-follows (server_says t w) {m} found key e = elim (Bool-cases (is_stranger m w)) [
    | inl refused ↦ rw (server_says-act N cb s t w found e, refused) (follows_self s t found)
    | inr fine ↦
        rw (server_says-act N cb s t w found e, fine)
          (follows_settled s t _ MatchStatus.playing found e refl _
            (status-resolve_agreed N m s cb w t))
  ]
  placed-follows (wins_pong t w) {m} found key e = elim (Bool-cases (is_participant m w)) [
    | inl fine ↦
        rw (wins_pong-act N cb s t w found e, fine)
          (follows_settled s t _ MatchStatus.reporting found e refl _
            (status-resolve_agreed N m s cb (some w) t))
    | inr refused ↦ rw (wins_pong-act N cb s t w found e, refused) (follows_self s t found)
  ]
  placed-follows (forfeits t) {m} found key e =
      rw (forfeits-act N cb s t found e) (
        follows_settled s t _ MatchStatus.reporting found e refl _ (status-forfeit_both N m s cb t))

  -- Every action of MatchManager on a match that is stored under its own token, whether it
  -- succeeds or fails and whatever the hooks answer, leaves the match there, in the same status or
  -- one arrow further.
  pub act-follows :
      (a : MatchAction) {m : MatchInfo}
      → s.matches (subject a) ≡ some m
      → m.match_token ≡ subject a
      → follows m.status (status_of (act N cb a s).1 (subject a)) ≡ true
  act-follows a {m} found key = elim (Bool-cases (match_status_eq m.status (required a))) [
    | inl placed ↦ placed-follows a found key (eq_of_match_status_eq _ _ placed)
    | inr other ↦ rw (act_misplaced N cb s a found other) (follows_self s (subject a) found)
  ]
