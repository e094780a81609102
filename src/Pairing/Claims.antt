-- ===== src/Pairing/Claims.antt =====
-- What one claim on two candidates does (`pair_next_match_with_accept_timeout`,
-- lobby-server/src/db/queue.rs).
use mathlib.Core.Option
use steam_lobby.Prelude.{
  ◌-◌, String, Option, none, some, Bool, true, false, not, ◌&&◌, ◌==◌, ◌≡◌, refl, arith, is_some,
  any, find, List, [], ◌∷◌, Option-cases, inl, inr,
}
use steam_lobby.Core.Types.{PlayerId, PlayerState, MatchInfo}
use steam_lobby.Core.Error.{LobbyError, ok, err}
use steam_lobby.Store.Rows.{QueueRow}
use steam_lobby.Store.Numbers.{Numbers}
use steam_lobby.Store.Db.{Db}
use steam_lobby.Store.Queue.{is_entry}
use steam_lobby.Ranked.Finalize.Writes.{stands}
use steam_lobby.Store.Matches.{is_rematch, with_status, recent_match_between}
use steam_lobby.Core.Types.{MatchStatus}
use steam_lobby.Store.Queue.{seconds}
use steam_lobby.Pairing.Claim.{claim, is_compatible}
use steam_lobby.Pairing.Form.{
  Request, native, is_free, new_match, form_match, insert_match, hold, hold_native, without_pair,
  taken,
}

module _ {R : Type 0} where
  -- no row of the queue is a player's entry for the mode
  pub any-without_pair :
      (mode : String) (a b : PlayerId) (rows : List (QueueRow R))
      → (any (is_entry a mode) (without_pair mode a b rows) ≡ false)
        × (any (is_entry b mode) (without_pair mode a b rows) ≡ false)
  any-without_pair mode a b [] = (refl, refl)
  any-without_pair mode a b (x ∷ xs) = ground (arith, any-without_pair mode a b xs)

  pub find-is_entry :
      (id : PlayerId) (mode : String) (rows : List (QueueRow R)) (row : QueueRow R)
      → find (is_entry id mode) rows ≡ some row
      → row.user_id ≡ id
  find-is_entry id mode [] row found = ground arith
  find-is_entry id mode (x ∷ xs) row found = ground (arith, find-is_entry id mode xs row)

  module _ (q : Request) (a b : QueueRow R) (s : Db R) where
    abbrev formed : MatchInfo
    formed = new_match q a b s.now (s.entropy s.drawn) none

    form_match-native :
        native q ≡ true
        → (a.user_id == b.user_id) ≡ false
        → is_some (s.matches (s.entropy s.drawn)) ≡ false
        → ((form_match q a b s).0 ≡ ok formed)
          × ((form_match q a b s).1.matches formed.match_token ≡ some formed)
          × ((form_match q a b s).1.player_state a.user_id
              ≡ Option.map (taken formed.match_token) (s.player_state a.user_id))
          × ((form_match q a b s).1.player_state b.user_id
              ≡ Option.map (taken formed.match_token) (s.player_state b.user_id))
          × ((form_match q a b s).1.queue ≡ without_pair q.mode a.user_id b.user_id s.queue)
    unfolding form_match insert_match hold hold_native
    form_match-native is_native apart fresh = ground arith

module _ {R : Type 0} (N : Numbers R) (q : Request) where
  -- `recent_match_between`, on the database
  abbrev pub on_cooldown : PlayerId → PlayerId → Db R → Bool
  on_cooldown a b s =
      any (is_rematch a b (s.now - seconds q.pair_cooldown_secs))
        (with_status MatchStatus.resolved s.matches s.tokens)

  abbrev suits : Option (QueueRow R) → Option (QueueRow R) → Db R → Bool
  suits none _ s = false
  suits (some x) none s = false
  suits (some x) (some y) s = is_compatible N q s.now x y && not (on_cooldown x.user_id y.user_id s)

  -- Two players may be paired: both wait and are free, their entries are compatible, and they have
  -- not just played each other.
  abbrev pub can_pair : PlayerId → PlayerId → Db R → Bool
  can_pair a b s =
      is_free (s.player_state a)
      && is_free (s.player_state b)
      && suits (find (is_entry a q.mode) s.queue) (find (is_entry b q.mode) s.queue) s

  module _ (a b : PlayerId) (s : Db R) where
    pub claim-none : can_pair a b s ≡ false → claim N q a b s ≡ (ok none, s)
    unfolding claim recent_match_between
    claim-none stay = elim (Option-cases (find (is_entry a q.mode) s.queue)) [
      | inl gone ↦ ground arith
      | inr (x, found_a) ↦ elim (Option-cases (find (is_entry b q.mode) s.queue)) [
        | inl gone ↦ ground arith
        | inr (y, found_b) ↦ ground arith
      ]
    ]

    pub claim-form_match :
        (x y : QueueRow R) (m : MatchInfo)
        → can_pair a b s ≡ true
        → find (is_entry a q.mode) s.queue ≡ some x
        → find (is_entry b q.mode) s.queue ≡ some y
        → (form_match q x y s).0 ≡ ok m
        → claim N q a b s ≡ (ok (some m), (form_match q x y s).1)
    unfolding claim recent_match_between
    claim-form_match x y m can found_a found_b formed = ground arith

    pub claim-error :
        (x y : QueueRow R) (e : LobbyError)
        → can_pair a b s ≡ true
        → find (is_entry a q.mode) s.queue ≡ some x
        → find (is_entry b q.mode) s.queue ≡ some y
        → (form_match q x y s).0 ≡ err e
        → claim N q a b s ≡ (err e, s)
    unfolding claim recent_match_between
    claim-error x y e can found_a found_b failed = ground arith

    -- What a claim that pairs `a` and `b` leaves: the match, both players held by it, neither queued.
    pub record IsPaired (m : MatchInfo) (after : Db R) : Type 0 where
      pub first : m.player_a ≡ a
      pub second : m.player_b ≡ b
      pub stored : after.matches m.match_token ≡ some m
      pub pending : m.status ≡ MatchStatus.pending_accept
      pub holds_a : stands after a ≡ some (PlayerState.match_accepted, some m.match_token)
      pub holds_b : stands after b ≡ some (PlayerState.match_accepted, some m.match_token)
      pub left_a : any (is_entry a q.mode) after.queue ≡ false
      pub left_b : any (is_entry b q.mode) after.queue ≡ false

    form_match-IsPaired :
        (x y : QueueRow R)
        → native q ≡ true
        → (a == b) ≡ false
        → is_some (s.matches (s.entropy s.drawn)) ≡ false
        → is_free (s.player_state a) ≡ true
        → is_free (s.player_state b) ≡ true
        → x.user_id ≡ a
        → y.user_id ≡ b
        → IsPaired (formed q x y s) (form_match q x y s).1
    form_match-IsPaired x y ranked apart fresh free_a free_b at_a at_b =
        let writes = form_match-native q x y s ranked (ground arith) fresh in
        record {
          first = at_a;
          second = at_b;
          stored = writes.1;
          pending = refl;
          holds_a = ground arith;
          holds_b = ground arith;
          left_a = rw (writes.4, at_a, at_b) ((any-without_pair q.mode a b s.queue).0);
          left_b = rw (writes.4, at_a, at_b) ((any-without_pair q.mode a b s.queue).1);
        }

    -- In the ranked mode, a claim on two different players that may be paired, at a token that is
    -- new, forms their match: it is stored, waits for both to accept, holds both players, and
    -- neither is queued for the mode any more. A claim on two players that may not be paired
    -- changes nothing.
    pub claim_pairs :
        native q ≡ true
        → (a == b) ≡ false
        → is_some (s.matches (s.entropy s.drawn)) ≡ false
        → (can_pair a b s ≡ true
            → (m : MatchInfo) × ((claim N q a b s).0 ≡ ok (some m))
              × IsPaired m (claim N q a b s).1)
          × (can_pair a b s ≡ false → claim N q a b s ≡ (ok none, s))
    claim_pairs ranked apart fresh = (
      λ can. elim (Option-cases (find (is_entry a q.mode) s.queue)) [
        | inl gone ↦ absurd (ground arith)
        | inr (x, found_a) ↦ elim (Option-cases (find (is_entry b q.mode) s.queue)) [
          | inl gone ↦ absurd (ground arith)
          | inr (y, found_b) ↦
              let formed_ok =
                (form_match-native q x y s ranked
                  (rw
                    (
                      find-is_entry a q.mode s.queue x found_a,
                      find-is_entry b q.mode s.queue y found_b,
                    )
                    apart)
                  fresh).0 in
              let claimed = claim-form_match x y (formed q x y s) can found_a found_b formed_ok in
              (
                formed q x y s,
                rw claimed refl,
                rw claimed (
                    form_match-IsPaired x y ranked apart fresh (ground arith) (ground arith)
                      (find-is_entry a q.mode s.queue x found_a)
                      (find-is_entry b q.mode s.queue y found_b)),
              )
        ]
      ],
      claim-none,
    )
