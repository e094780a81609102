-- ===== src/Ranked/Drain/Timers.antt =====
-- The timers of a match that has not begun (`expire`, lobby-server/src/commands.rs).
use steam_lobby.Prelude.{
  ℕ, String, Option, none, some, Bool, true, false, ◌≡◌, refl, sym, ap, ◌∙◌, arith, ◌==◌, ==_refl,
  if◌then◌else◌,
}
use steam_lobby.Core.Types.{PlayerId, Token, DateTime, MatchDifficulty, MatchInfo, OpenSkillRating}
use steam_lobby.Core.Error.{ok}
use steam_lobby.Store.Db.{Db}
use steam_lobby.Store.Numbers.{Numbers}
use steam_lobby.Store.Rows.{Umvc3Row, EventType}
use steam_lobby.Ranked.Types.{Umvc3Phase, RequeueDecision, TerminalReason}
use steam_lobby.Ranked.Config.{Config}
use steam_lobby.Ranked.Finalize.{ended, made_terminal, is_held, release_to}
use steam_lobby.Ranked.Finalize.Writes.{stands}
use steam_lobby.Ranked.Phase.{terminal_unrated, free_unrated}
use steam_lobby.Ranked.Drain.Places.{earliest, waits_since, waits-requeued, others-requeued}
use steam_lobby.Ranked.Drain.{expire_phase, run_out, must_expire, requeue_at, reason_at, is_rated}

-- what belongs to one of the two players of a match
abbrev pub side : {A : Type 0} → MatchInfo → PlayerId → A → A → A
side m p a b = if p == m.player_a then a else b

-- Whether a phase that has run out keeps the player in the queue: by what the player itself has done,
-- but where the connection does not come about both go back, whatever they have reported.
abbrev goes_back_in : Umvc3Phase → MatchInfo → Umvc3Row → PlayerId → Bool
goes_back_in Umvc3Phase.awaiting_accepted m u p = side m p m.accepted_a m.accepted_b
goes_back_in Umvc3Phase.awaiting_trying m u p = side m p u.trying_a u.trying_b
goes_back_in Umvc3Phase.awaiting_connect m u p = true
goes_back_in Umvc3Phase.awaiting_ready m u p = side m p u.ready_a u.ready_b
goes_back_in _ m u p = false

abbrev pub goes_back : MatchInfo → Umvc3Row → PlayerId → Bool
goes_back m u p = goes_back_in u.phase m u p

-- the reason of a phase before Playing
abbrev pub unmet : Umvc3Phase → TerminalReason
unmet Umvc3Phase.awaiting_accepted = TerminalReason.accept_timeout
unmet Umvc3Phase.awaiting_trying = TerminalReason.trying_timeout
unmet Umvc3Phase.awaiting_connect = TerminalReason.connect_timeout
unmet Umvc3Phase.awaiting_ready = TerminalReason.ready_timeout
unmet _ = TerminalReason.disputed

module _ (m : MatchInfo) (u : Umvc3Row) where
  requeue_a :
      (phase : Umvc3Phase) → (requeue_at m u phase).player_a ≡ goes_back_in phase m u m.player_a
  requeue_a phase = ground (arith, ==_refl m.player_a)

  requeue_b :
      (phase : Umvc3Phase)
      → (m.player_b == m.player_a) ≡ false
      → (requeue_at m u phase).player_b ≡ goes_back_in phase m u m.player_b
  requeue_b phase apart = ground arith

  side_a : (x y : ℕ) → side m m.player_a x y ≡ x
  side_a x y = rw (==_refl m.player_a) refl

  side_b : (x y : ℕ) → (m.player_b == m.player_a) ≡ false → side m m.player_b x y ≡ y
  side_b x y apart = rw apart refl

  reason-unmet : (phase : Umvc3Phase) → is_rated phase ≡ false → reason_at phase ≡ unmet phase
  reason-unmet phase unrated = ground arith

-- the place in the queue, with what it was before
abbrev pub place_after : Bool → DateTime → Option DateTime → Option DateTime
place_after back since before = if back then some (earliest since before) else before

module _ {R : Type 0} (N : Numbers R) (c : Config) (m : MatchInfo) (id : PlayerId)
    (difficulty : MatchDifficulty) (since : DateTime) (s : Db R) where
  own-freed :
      (back : Bool)
      → waits_since id m.game_mode (free_unrated N c m id back difficulty since s).queue
        ≡ place_after back since (waits_since id m.game_mode s.queue)
  own-freed true = waits-requeued _ s.queue
  own-freed false = refl

  other-freed :
      (back : Bool) (p : PlayerId)
      → (id == p) ≡ false
      → waits_since p m.game_mode (free_unrated N c m id back difficulty since s).queue
        ≡ waits_since p m.game_mode s.queue
  other-freed true p apart = others-requeued _ p m.game_mode apart s.queue
  other-freed false p apart = refl

module _ {R : Type 0} (N : Numbers R) (c : Config) (m : MatchInfo) (u : Umvc3Row)
    (reason : TerminalReason) (q : RequeueDecision) (e : EventType) (s : Db R) where
  abbrev ending : Db R
  ending = terminal_unrated N c m reason q e u s

  umvc3-terminal_unrated : ending.umvc3 m.match_token ≡ some (made_terminal reason u)
  unfolding terminal_unrated
  umvc3-terminal_unrated = ground arith

  matches-terminal_unrated :
      s.matches m.match_token ≡ some m → ending.matches m.match_token ≡ some (ended s.now m)
  unfolding terminal_unrated
  matches-terminal_unrated has_m = ground arith

  results-terminal_unrated : ending.results ≡ s.results
  unfolding terminal_unrated
  results-terminal_unrated = refl

  -- a rating that is there stays as it is
  ratings-terminal_unrated :
      (id : PlayerId) (mode : String) (r : OpenSkillRating R)
      → s.ratings id mode ≡ some r
      → ending.ratings id mode ≡ some r
  unfolding terminal_unrated
  ratings-terminal_unrated id mode r has_r = ground arith

  stands-terminal_unrated :
      (m.player_a == m.player_b) ≡ false
      → is_held m.match_token (s.player_state m.player_a) ≡ true
      → is_held m.match_token (s.player_state m.player_b) ≡ true
      → (stands ending m.player_a ≡ some (release_to q.player_a, none))
        × (stands ending m.player_b ≡ some (release_to q.player_b, none))
  unfolding terminal_unrated
  stands-terminal_unrated apart held_a held_b = ground arith

  abbrev without_a : Db R
  without_a =
      free_unrated N c m m.player_a q.player_a m.player_a_difficulty u.original_queued_at_a s

  places-terminal_unrated :
      (m.player_a == m.player_b) ≡ false
      → (m.player_b == m.player_a) ≡ false
      → (waits_since m.player_a m.game_mode ending.queue
          ≡ place_after q.player_a u.original_queued_at_a
              (waits_since m.player_a m.game_mode s.queue))
        × (waits_since m.player_b m.game_mode ending.queue
            ≡ place_after q.player_b u.original_queued_at_b
                (waits_since m.player_b m.game_mode s.queue))
  unfolding terminal_unrated
  places-terminal_unrated apart apart' = (
    other-freed N c m m.player_b m.player_b_difficulty u.original_queued_at_b without_a q.player_b
          m.player_a apart'
        ∙ own-freed N c m m.player_a m.player_a_difficulty u.original_queued_at_a s q.player_a,
    own-freed N c m m.player_b m.player_b_difficulty u.original_queued_at_b without_a q.player_b
        ∙ ap (place_after q.player_b u.original_queued_at_b) (
            other-freed N c m m.player_a m.player_a_difficulty u.original_queued_at_a s q.player_a
              m.player_b apart),
  )

module _ {R : Type 0} (N : Numbers R) (c : Config) (m : MatchInfo) (u : Umvc3Row) (s : Db R) where
  expire_phase-unrated :
      (expected : ℕ)
      → s.matches m.match_token ≡ some m
      → s.umvc3 m.match_token ≡ some u
      → must_expire s.now expected u ≡ true
      → is_rated u.phase ≡ false
      → expire_phase N c m.match_token expected s ≡ (
        ok tt,
        terminal_unrated N c m
            (reason_at u.phase)
            (requeue_at m u u.phase)
            EventType.phase_expired
            u
            s,
      )
  unfolding expire_phase run_out
  expire_phase-unrated expected has_m has_u due unrated = ground arith

  expire_phase-idle :
      (t : Token) (expected : ℕ) (n : MatchInfo) (v : Umvc3Row) (d : Db R)
      → d.matches t ≡ some n
      → d.umvc3 t ≡ some v
      → must_expire d.now expected v ≡ false
      → expire_phase N c t expected d ≡ (ok tt, d)
  unfolding expire_phase
  expire_phase-idle t expected n v d has_n has_v idle = ground arith

  -- The player is in no match, and queues or not; and since when it waits in the queue of the mode.
  abbrev pub Released : Db R → PlayerId → Type 0
  Released after p =
      (stands after p ≡ some (release_to (goes_back m u p), none))
      × (waits_since p m.game_mode after.queue
          ≡ place_after (goes_back m u p) (side m p u.original_queued_at_a u.original_queued_at_b)
              (waits_since p m.game_mode s.queue))

  abbrev waited : PlayerId → Option DateTime
  waited p = waits_since p m.game_mode s.queue

  ending-Released :
      (m.player_a == m.player_b) ≡ false
      → is_held m.match_token (s.player_state m.player_a) ≡ true
      → is_held m.match_token (s.player_state m.player_b) ≡ true
      → let after =
          ending N c m u (reason_at u.phase) (requeue_at m u u.phase) EventType.phase_expired s in
        Released after m.player_a × Released after m.player_b
  ending-Released apart held_a held_b =
      let (state_a, state_b) =
        stands-terminal_unrated N c m u (reason_at u.phase) (requeue_at m u u.phase)
          EventType.phase_expired s apart held_a held_b in
      let (place_a, place_b) =
        places-terminal_unrated N c m u (reason_at u.phase) (requeue_at m u u.phase)
          EventType.phase_expired s apart (flip apart) in
      let back_a = requeue_a m u u.phase in
      let back_b = requeue_b m u u.phase (flip apart) in
      (
        (
          state_a ∙ ap (λ b. some (release_to b, none)) back_a,
          place_a
              ∙ ap (λ b. place_after b u.original_queued_at_a (waited m.player_a)) back_a
              ∙ ap (λ d. place_after (goes_back m u m.player_a) d (waited m.player_a))
                  (sym (side_a m u u.original_queued_at_a u.original_queued_at_b)),
        ),
        (
          state_b ∙ ap (λ b. some (release_to b, none)) back_b,
          place_b
              ∙ ap (λ b. place_after b u.original_queued_at_b (waited m.player_b)) back_b
              ∙ ap (λ d. place_after (goes_back m u m.player_b) d (waited m.player_b))
                  (sym (side_b m u u.original_queued_at_a u.original_queued_at_b (flip apart))),
        ),
      )
    where
      flip : (m.player_a == m.player_b) ≡ false → (m.player_b == m.player_a) ≡ false
      flip apart = ground arith

  -- A due timer, of the current version, of a match in a phase before Playing, whose two different
  -- players it holds, ends the match: the phase is terminal with the reason of the phase, results
  -- are untouched and no rating that was there changes. Both players are in no match. A player goes
  -- back to the queue if it had accepted, or tried, or been ready, where the phase waited for that,
  -- and whatever it had done where the phase waited for the connection; it then waits in the queue
  -- since it did before the match, or since the time of a place that it has there already, if that
  -- is earlier. A player that does not go back is in the menus, and its place in the queue of the
  -- mode, if any, is what it was. A second timer of whatever version does nothing.
  pub expire_phase_once :
      (expected again : ℕ)
      → s.matches m.match_token ≡ some m
      → s.umvc3 m.match_token ≡ some u
      → must_expire s.now expected u ≡ true
      → is_rated u.phase ≡ false
      → (m.player_a == m.player_b) ≡ false
      → is_held m.match_token (s.player_state m.player_a) ≡ true
      → is_held m.match_token (s.player_state m.player_b) ≡ true
      → let after = (expire_phase N c m.match_token expected s).1 in
        (after.umvc3 m.match_token ≡ some (made_terminal (unmet u.phase) u))
        × (after.results ≡ s.results)
        × ((id : PlayerId) (mode : String) (r : OpenSkillRating R)
            → s.ratings id mode ≡ some r
            → after.ratings id mode ≡ some r)
        × Released after m.player_a
        × Released after m.player_b
        × (expire_phase N c m.match_token again after ≡ (ok tt, after))
  expire_phase_once expected again has_m has_u due unrated apart held_a held_b =
      let (freed_a, freed_b) = ending-Released apart held_a held_b in
      rw (expire_phase-unrated expected has_m has_u due unrated) (
        umvc3-terminal_unrated N c m u _ _ _ s
            ∙ ap (λ reason. some (made_terminal reason u)) (reason-unmet m u u.phase unrated),
        results-terminal_unrated N c m u _ _ _ s,
        ratings-terminal_unrated N c m u _ _ _ s,
        freed_a,
        freed_b,
        expire_phase-idle m.match_token again _ _ _ (matches-terminal_unrated N c m u _ _ _ s has_m)
            (umvc3-terminal_unrated N c m u _ _ _ s) refl,
      )
