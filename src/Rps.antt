-- ===== src/Rps.antt =====
-- lobby-server/src/rps.rs: the referee of rock, paper, scissors.
--
-- One task per match: `tick` is the body of its loop for one turn of the interval, `run` the loop over
-- the turns. A turn reads the stored status of the match, the choices that came since the last turn and
-- the clock (milliseconds). A u8 and a u32 wrap as written out; what the task sends is a list of
-- messages, and how it leaves the loop an `Ending`.
pub mod Rounds
pub mod Invariant
pub mod Time
use mathlib.Core.Option
use steam_lobby.Prelude.{
  ℕ, ◌+◌, ◌%◌, ◌^◌, Option, none, some, Bool, true, false, not, ◌&&◌, ◌||◌, ◌==◌, ◌!=◌, leb, ltb,
  is_none, is_some, option_eq, if◌then◌else◌, List, [], ◌∷◌, ◌++◌, Table, put,
}
use steam_lobby.Core.Types.{PlayerId, Token, MatchStatus, match_status_eq}

pub record RpsChoice : Type 0 where
  pub from : PlayerId
  pub choice : ℕ

abbrev pub no_choice : ℕ
no_choice = 255

abbrev pub round_timeout_ms : ℕ
round_timeout_ms = 10_000

abbrev pub round_pause_ms : ℕ
round_pause_ms = 2_000

abbrev pub tick_ms : ℕ
tick_ms = 500

abbrev pub first_to : ℕ
first_to = 3

abbrev pub max_rounds : ℕ
max_rounds = 15

-- 0: the first wins, 1: the second wins
abbrev pub resolve_round : ℕ → ℕ → Option ℕ
resolve_round a b =
    if leb 3 a || leb 3 b
    then none
    else if a == b
    then none
    else some (if b == (a + 1) % 3 then 1 else 0)

-- the local variables of the task
pub record Referee : Type 0 where
  pub round : ℕ
  pub a_choice : Option ℕ
  pub b_choice : Option ℕ
  pub a_score : ℕ
  pub b_score : ℕ
  pub round_deadline : Option ℕ
  pub next_begin_at : Option ℕ

abbrev pub spawned : Referee
spawned = record {
  round = 0;
  a_choice = none;
  b_choice = none;
  a_score = 0;
  b_score = 0;
  round_deadline = none;
  next_begin_at = none;
}

pub data ServerMessage : Type 0 where
  rps_begin : (round timeout_ms : ℕ) → ServerMessage
  rps_round :
      (round a_choice b_choice : ℕ) → Option PlayerId → (a_score b_score : ℕ) → ServerMessage

-- How a turn of the loop ends: the loop goes on, the match is no longer Reporting, `finish` is called
-- with a winner, the cap is reached at a tie, or `expect` fails.
pub data Ending : Type 0 where
  still left_reporting undecided panicked : Ending
  won : PlayerId → Ending

pub record Turn : Type 0 where
  pub referee : Referee
  pub sent : List ServerMessage
  pub ending : Ending

-- what one turn of the loop reads
pub record Input : Type 0 where
  pub now : ℕ
  pub stored : Option MatchStatus
  pub choices : List RpsChoice

abbrev pub has_left : Option MatchStatus → Bool
has_left none = false
has_left (some status) = not (match_status_eq status MatchStatus.reporting)

-- `next_begin_at` is set and reached
abbrev pub has_passed : Option ℕ → ℕ → Bool
has_passed none now = false
has_passed (some t) now = leb t now

abbrev pub wins : Option ℕ → ℕ → Bool
wins winner side = option_eq winner (some side)

-- A missing choice loses the round to the player who chose.
abbrev pub round_winner : ℕ → ℕ → Option ℕ
round_winner a b =
    if a == no_choice && b == no_choice
    then none
    else if a == no_choice
    then some 1
    else if b == no_choice
    then some 0
    else resolve_round a b

-- a_score += 1, on a u8
abbrev pub scored : Bool → ℕ → ℕ
scored point score = if point then (score + 1) % 2 ^ 8 else score

-- `RpsBegin` for the round of `r`, whose window opens now
unfoldable pub begin : ℕ → Referee → Turn
begin now r = record {
  referee = record r { round_deadline = some (now + round_timeout_ms) };
  sent = rps_begin r.round round_timeout_ms ∷ [];
  ending = still;
}

abbrev pub next_round : Referee → Referee
next_round r = record r {
  round = (r.round + 1) % 2 ^ 32;
  a_choice = none;
  b_choice = none;
  next_begin_at = none;
}

abbrev pub won_or_panicked : Option PlayerId → Ending
won_or_panicked none = panicked
won_or_panicked (some id) = won id

abbrev pub is_still : Ending → Bool
is_still still = true
is_still _ = false

abbrev pub paused : Ending → ℕ → Referee → Referee
paused ending now r =
    if is_still ending then record r { next_begin_at = some (now + round_pause_ms) } else r

-- the scores after a round
abbrev pub after_round : Option ℕ → Referee → Referee
after_round winner r = record r {
  a_score = scored (wins winner 0) r.a_score;
  b_score = scored (not (wins winner 0) && wins winner 1) r.b_score;
  round_deadline = none;
}

module _ (a b : PlayerId) where
  -- players[w as usize]
  abbrev pub side : ℕ → PlayerId
  side w = if w == 0 then a else b

  -- one choice; ignored for a player already locked in
  abbrev pub lock_in : RpsChoice → Referee → Referee
  lock_in c r =
      if ltb 2 c.choice
      then r
      else if c.from == a
      then (if is_none r.a_choice then record r { a_choice = some c.choice } else r)
      else if c.from == b && is_none r.b_choice
      then record r { b_choice = some c.choice }
      else r

  unfoldable pub drain : List RpsChoice → Referee → Referee
  drain [] r = r
  drain (c ∷ cs) r = drain cs (lock_in c r)

  -- someone reached FIRST_TO, the hard cap, or a pause before the next round
  unfoldable pub ending_of : Option ℕ → Referee → Ending
  ending_of winner r =
      if leb first_to r.a_score || leb first_to r.b_score
      then won_or_panicked (Option.map side winner)
      else if leb max_rounds ((r.round + 1) % 2 ^ 32)
      then (if r.a_score != r.b_score
          then won (if ltb r.b_score r.a_score then a else b)
          else undecided)
      else still

  -- Resolve the round.
  unfoldable pub settle : ℕ → Referee → Turn
  settle now r =
      let x = Option.get_or r.a_choice no_choice in
      let y = Option.get_or r.b_choice no_choice in
      let winner = round_winner x y in
      let r' = after_round winner r in
      let ending = ending_of winner r' in
      record {
        referee = paused ending now r';
        sent = rps_round r.round x y (Option.map side winner) r'.a_score r'.b_score ∷ [];
        ending = ending;
      }

  -- Resolve the round once both chose or the window expires.
  unfoldable pub settle_if_due : ℕ → Referee → Option ℕ → Turn
  settle_if_due now r none = record { referee = r; sent = []; ending = still }
  settle_if_due now r (some deadline) =
      if (is_some r.a_choice && is_some r.b_choice) || leb deadline now
      then settle now r
      else record { referee = r; sent = []; ending = still }

  unfoldable pub referee_turn : ℕ → Referee → Turn
  referee_turn now r =
      if r.round == 0 && is_none r.round_deadline && is_none r.next_begin_at
      then begin now r
      else if has_passed r.next_begin_at now
      then begin now (next_round r)
      else settle_if_due now r r.round_deadline

  unfoldable pub tick : Input → Referee → Turn
  tick i r =
      if has_left i.stored
      then record { referee = r; sent = []; ending = left_reporting }
      else referee_turn i.now (drain i.choices r)

  -- the loop over the turns that come, with all that was sent
  unfoldable pub run : List Input → Referee → Turn
  run [] r = record { referee = r; sent = []; ending = still }
  run (i ∷ is) r =
      let turn = tick i r in
      let rest = run is turn.referee in
      if is_still turn.ending then record rest { sent = turn.sent ++ rest.sent } else turn

-- `games.contains_key(&token)`: where two spawns race, the first one stays.
unfoldable pub spawn_game : {A : Type 0} → Token → A → Table A → Table A
spawn_game token game games = if is_some (games token) then games else put token game games
