-- ===== src/Core/Expiry/Overdue.antt =====
-- Which matches `expire_playing_matches` disputes (lobby-core/src/match_expiry.rs).
use mathlib.Core.Option
use steam_lobby.Prelude.{
  ℕ, Option, none, some, Bool, true, false, ◌≡◌, refl, sym, arith, ◌==◌, ◌&&◌, any, if◌then◌else◌,
  List, [], ◌∷◌, Bool-cases, modify, Option-cases, inl, inr,
}
use steam_lobby.Core.Types.{Token, DateTime, MatchStatus, MatchInfo, PlayerState, match_status_eq}
use steam_lobby.Core.Error.{Result, ok, err}
use steam_lobby.Core.Expiry.{expire_each, expire_playing_matches, is_overdue}
use steam_lobby.Store.Db.{Db}
use steam_lobby.Store.Matches.{with_status, update_match_status, get_matches_by_status}
use steam_lobby.Store.Players.{set_player_state}

abbrev pub disputed : MatchInfo → MatchInfo
disputed m = record m { status = MatchStatus.disputed }

-- an overdue match of the list has the token
abbrev is_hit : DateTime → ℕ → Token → MatchInfo → Bool
is_hit now timeout t m = is_overdue now timeout m.started_at && m.match_token == t

abbrev pub is_ok : {A : Type 0} → Result A → Bool
is_ok (ok _) = true
is_ok (err _) = false

abbrev pub is_listed : Token → List Token → Bool
is_listed t = any λ k. k == t

-- the token is listed and its match is Playing and overdue
abbrev pub is_due : DateTime → ℕ → Option MatchInfo → Bool
is_due now timeout none = false
is_due now timeout (some m) =
    match_status_eq m.status MatchStatus.playing && is_overdue now timeout m.started_at

module _ {R : Type 0} where
  -- the writes for one overdue match
  abbrev expired : MatchInfo → Db R → Db R
  expired m s = record s {
    matches = modify m.match_token disputed s.matches;
    player_state =
        modify m.player_b (λ p. record p { state = PlayerState.in_menus })
          (modify m.player_a (λ p. record p { state = PlayerState.in_menus }) s.player_state);
  }

  expire_each-matches :
      (now : DateTime) (timeout : ℕ) (t : Token) (ms : List MatchInfo) (s : Db R)
      → (expire_each now timeout ms s).1.matches t
        ≡ (if any (is_hit now timeout t) ms then Option.map disputed (s.matches t) else s.matches t)
  unfolding expire_each update_match_status set_player_state
  expire_each-matches now timeout t [] s = refl
  expire_each-matches now timeout t (m ∷ ms) s =
      elim (Bool-cases (is_overdue now timeout m.started_at)) [
        | inr fresh ↦ ground (arith, expire_each-matches now timeout t ms s)
        | inl late ↦ ground (arith, expire_each-matches now timeout t ms (expired m s))
      ]

  all_ok :
      (now : DateTime) (timeout : ℕ) (ms : List MatchInfo) (s : Db R)
      → is_ok (expire_each now timeout ms s).0 ≡ true
  unfolding expire_each update_match_status set_player_state
  all_ok now timeout [] s = refl
  all_ok now timeout (m ∷ ms) s =
      ground (arith, all_ok now timeout ms s, all_ok now timeout ms (expired m s))

  -- every row is stored under its own token
  abbrev pub IsKeyed : Db R → Type 0
  IsKeyed s = (t : Token) (m : MatchInfo) → s.matches t ≡ some m → m.match_token ≡ t

  any-with_status :
      (now : DateTime) (timeout : ℕ) (t : Token) (s : Db R) (ts : List Token)
      → IsKeyed s
      → any (is_hit now timeout t) (with_status MatchStatus.playing s.matches ts)
        ≡ (is_listed t ts && is_due now timeout (s.matches t))
  any-with_status now timeout t s [] keyed = refl
  any-with_status now timeout t s (k ∷ ks) keyed = elim (Option-cases (s.matches k)) [
    | inl absent ↦ elim (Bool-cases (k == t)) [
      | inl same ↦ ground (arith, absent_at same absent, any-with_status now timeout t s ks keyed)
      | inr other ↦ ground (arith, any-with_status now timeout t s ks keyed)
    ]
    | inr (m, has_m) ↦ elim (Bool-cases (k == t)) [
      | inl same ↦
          ground (
            arith,
            present_at same has_m,
            keyed k m has_m,
            any-with_status now timeout t s ks keyed,
          )
      | inr other ↦ ground (arith, keyed k m has_m, any-with_status now timeout t s ks keyed)
    ]
  ]
    where
      eq_of_== : (k == t) ≡ true → k ≡ t
      eq_of_== h = ground arith

      absent_at : (k == t) ≡ true → s.matches k ≡ none → s.matches t ≡ none
      absent_at h absent = rw (sym (eq_of_== h)) absent

      present_at : {m : MatchInfo} → (k == t) ≡ true → s.matches k ≡ some m → s.matches t ≡ some m
      present_at h has_m = rw (sym (eq_of_== h)) has_m

  -- Where every match is stored under its own token, expire_playing_matches succeeds, and a match
  -- becomes Disputed exactly when it is listed, Playing and overdue; every other row stays as it was.
  pub expire_playing_matches-matches :
      (timeout : ℕ) (t : Token) (s : Db R)
      → IsKeyed s
      → (is_ok (expire_playing_matches timeout s).0 ≡ true)
        × ((expire_playing_matches timeout s).1.matches t ≡ (
            if is_listed t s.tokens && is_due s.now timeout (s.matches t)
            then Option.map disputed (s.matches t)
            else s.matches t))
  unfolding expire_playing_matches get_matches_by_status
  expire_playing_matches-matches timeout t s keyed = (
    all_ok s.now timeout (with_status MatchStatus.playing s.matches s.tokens) s,
    rw (sym (any-with_status s.now timeout t s s.tokens keyed)) (
        expire_each-matches s.now timeout t (with_status MatchStatus.playing s.matches s.tokens) s),
  )
