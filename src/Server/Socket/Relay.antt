-- ===== src/Server/Socket/Relay.antt =====
-- To whom a player's messages make the server speak (`handle_client_message`, lobby-server/src/ws.rs).
use mathlib.Core.List.{append-nil}
use steam_lobby.Prelude.{
  ℕ, String, Bool, true, false, ◌&&◌, ◌||◌, ◌==◌, Option, none, some, ◌≡◌, ◌∙◌, sym, refl, arith,
  ==_refl, List, [], ◌∷◌, ◌++◌, Option-cases, inl, inr,
}
use steam_lobby.Core.Types.{Uuid, PlayerId, Token, MatchInfo}
use steam_lobby.Core.Error.{Result, ok, err}
use steam_lobby.Store.Numbers.{Numbers}
use steam_lobby.Ranked.Types.{RankedCommand, CommandReceipt, SessionKind}
use steam_lobby.Ranked.Admission.{dispatch}
use steam_lobby.Ranked.Config.{Config}
use steam_lobby.Server.State.{
  AppState, Sent, ServerMessage, Signaling, ConnectionEntry, deliver, webrtc, peer_input,
  command_receipt, rejected,
}
use steam_lobby.Server.Socket.{
  Socket, ClientMessage, peer, answered, handle_client_message, dispatch_ranked, clamp, ranked,
  signaling, game_input, begin_matchmaking, cancel_matchmaking, accept_match, decline_match,
  start_match, rollback_health, match_report, auth,
}
use steam_lobby.Store.Db.{Db}

-- The two are the players of the match, in the one order or the other.
abbrev pub are_opponents : PlayerId → PlayerId → Option MatchInfo → Bool
are_opponents x y none = false
are_opponents x y (some m) =
    (m.player_a == x && m.player_b == y) || (m.player_b == x && m.player_a == y)

-- What the server may say on a message of `me`: to the connection itself the answer to a command, to
-- another player what `me` relays in a match that the two play against each other, under its own name.
abbrev pub may_say : {R : Type 0} → Socket → (Token → Option MatchInfo) → Sent R → Bool
may_say me matches sent = elim sent.message [
  | command_receipt _ _ _ ↦ sent.to == me.user_id && sent.generation == me.generation
  | rejected _ ↦ sent.to == me.user_id && sent.generation == me.generation
  | webrtc _ t from _ ↦ from == me.user_id && are_opponents me.user_id sent.to (matches t)
  | peer_input t from _ _ ↦ from == me.user_id && are_opponents me.user_id sent.to (matches t)
  | _ ↦ false
]

peer-are_opponents :
    (user other : PlayerId) (row : Option MatchInfo)
    → peer user row ≡ some other
    → are_opponents user other row ≡ true
peer-are_opponents user other none found = absurd (ground arith)
peer-are_opponents user other (some m) found = ground arith

abbrev pub all_may : {R : Type 0} → Socket → (Token → Option MatchInfo) → List (Sent R) → Bool
all_may me matches [] = true
all_may me matches (x ∷ xs) = may_say me matches x && all_may me matches xs

module _ {R : Type 0} (N : Numbers R) (payload_hash : RankedCommand → ℕ) (c : Config)
    (parse_uuid : String → Option Uuid) (parse_f64 : String → Option R)
    (parse_u64 : String → Option ℕ) (me : Socket) (s : AppState R) where
  abbrev pub handled : ClientMessage → AppState R
  handled msg = (handle_client_message N payload_hash c parse_uuid parse_f64 parse_u64 me msg s).1

  abbrev pub Says : AppState R → Type 0
  Says after =
      (new : List (Sent R)) × (after.outbox ≡ s.outbox ++ new)
      × (all_may me s.db.matches new ≡ true)

  silent : (after : AppState R) → after.outbox ≡ s.outbox → Says after
  silent after same = ([], same ∙ sym (append-nil s.outbox), refl)

  -- what `send` to the opponent adds
  relays :
      (after : AppState R) (t : Token) (other : PlayerId) (msg : ServerMessage R)
      → after.outbox ≡ s.outbox ++ deliver other msg (s.connections other)
      → ((g : ℕ)
          → may_say me s.db.matches (record { to = other; generation = g; message = msg }) ≡ true)
      → Says after
  relays after t other msg added fits =
      (deliver other msg (s.connections other), added, delivered (s.connections other))
    where
      delivered :
          (e : Option ConnectionEntry) → all_may me s.db.matches (deliver other msg e) ≡ true
      delivered none = refl
      delivered (some e) = ground (arith, fits e.generation)

  answers : (out : Result CommandReceipt × Db R) → Says (answered me out s)
  answers (ok receipt, d) =
      (_ ∷ [], refl, ground (arith, ==_refl me.user_id, ==_refl me.generation))
  answers (err e, d) = (_ ∷ [], refl, ground (arith, ==_refl me.user_id, ==_refl me.generation))

  relays_signaling :
      (kind : Signaling) (t : Token) (body : String) → Says (handled (signaling kind t body))
  unfolding handle_client_message
  relays_signaling kind t body = elim (Option-cases (peer me.user_id (s.db.matches t))) [
    | inl nobody ↦ silent (handled (signaling kind t body)) (ground (arith, nobody))
    | inr (other, is_other) ↦
        relays (handled (signaling kind t body)) t other (webrtc kind t me.user_id body)
          (ground (arith, is_other))
          (λ g.
            rw (==_refl me.user_id) (peer-are_opponents me.user_id other (s.db.matches t) is_other))
  ]

  relays_input : (t : Token) (frame : ℕ) (text : String) → Says (handled (game_input t frame text))
  unfolding handle_client_message
  relays_input t frame text = elim (Option-cases (parse_f64 text)) [
    | inl malformed ↦ silent (handled (game_input t frame text)) (ground (arith, malformed))
    | inr (target, parsed) ↦ elim (Option-cases (peer me.user_id (s.db.matches t))) [
      | inl nobody ↦ silent (handled (game_input t frame text)) (ground (arith, parsed, nobody))
      | inr (other, is_other) ↦
          relays (handled (game_input t frame text)) t other
            (peer_input t me.user_id frame (clamp N target)) (ground (arith, parsed, is_other))
            (λ g.
              rw (==_refl me.user_id)
                (peer-are_opponents me.user_id other (s.db.matches t) is_other))
    ]
  ]

  ranked-Says : (id : Uuid) (command : RankedCommand) → Says (handled (ranked id command))
  unfolding handle_client_message dispatch_ranked
  ranked-Says id command = answers (
      dispatch payload_hash c
        (record {
          user_id = me.user_id;
          session_kind = SessionKind.websocket;
          session_id = me.session_id;
        })
        id command s.db)

  -- Whatever message a connected player sends, the server answers at most on that connection, or
  -- passes it on, under the player's own name, to the opponent in a match that the two play.
  pub handle_client_message-Says : (msg : ClientMessage) → Says (handled msg)
  unfolding handle_client_message
  handle_client_message-Says (ranked id command) = ranked-Says id command
  handle_client_message-Says (signaling kind t body) = relays_signaling kind t body
  handle_client_message-Says (game_input t frame text) = relays_input t frame text
  handle_client_message-Says (begin_matchmaking mode difficulty) =
      silent (handled (begin_matchmaking mode difficulty)) refl
  handle_client_message-Says cancel_matchmaking = silent (handled cancel_matchmaking) refl
  handle_client_message-Says (accept_match t) = silent (handled (accept_match t)) (ground arith)
  handle_client_message-Says (decline_match t) = silent (handled (decline_match t)) refl
  handle_client_message-Says (start_match t) = silent (handled (start_match t)) refl
  handle_client_message-Says (rollback_health t frame text) =
      silent (handled (rollback_health t frame text)) (ground arith)
  handle_client_message-Says (ClientMessage.rps_choice t choice) =
      silent (handled (ClientMessage.rps_choice t choice)) (ground arith)
  handle_client_message-Says (match_report t winner hash) =
      silent (handled (match_report t winner hash)) (ground arith)
  handle_client_message-Says ClientMessage.heartbeat = silent (handled ClientMessage.heartbeat) refl
  handle_client_message-Says auth = silent (handled auth) refl
