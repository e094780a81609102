-- ===== src/Server/Socket/Connections.antt =====
-- Which connection of a player the server knows (`handle_ws`, lobby-server/src/ws.rs).
use steam_lobby.Prelude.{
  ℕ, String, Bool, true, false, not, ◌&&◌, ◌==◌, Option, none, some, ◌≡◌, ◌∙◌, ap, arith, List, [],
  ◌∷◌,
}
use steam_lobby.Core.Types.{Uuid, PlayerId}
use steam_lobby.Core.Error.{ok}
use steam_lobby.Store.Numbers.{Numbers}
use steam_lobby.Ranked.Types.{RankedCommand}
use steam_lobby.Ranked.Config.{Config}
use steam_lobby.Server.State.{AppState, ConnectionEntry}
use steam_lobby.Server.Socket.{
  Socket, ClientMessage, handle_client_message, dispatch_ranked, begin_session, check_current,
  finish_session, end_session,
}

-- what connections do: begin, end, and send a message
pub data Op : Type 0 where
  begins : PlayerId → Uuid → Op
  ends : Socket → Op
  says : Socket → ClientMessage → Op

-- every operation but a new connection of the player and the end of its connection `g`
abbrev pub spares : PlayerId → ℕ → Op → Bool
spares u g (begins user session) = not (user == u)
spares u g (ends me) = not (me.user_id == u && me.generation == g)
spares u g (says me msg) = true

abbrev pub all_spare : PlayerId → ℕ → List Op → Bool
all_spare u g [] = true
all_spare u g (op ∷ ops) = spares u g op && all_spare u g ops

module _ {R : Type 0} where
  begin-connections :
      (u user : PlayerId) (session : Uuid) (s : AppState R)
      → (user == u) ≡ false
      → (begin_session user session s).1.connections u ≡ s.connections u
  unfolding begin_session
  begin-connections u user session s other = ground arith

  end-connections :
      (u : PlayerId) (e : ConnectionEntry) (me : Socket) (s : AppState R)
      → s.connections u ≡ some e
      → (me.user_id == u && me.generation == e.generation) ≡ false
      → (end_session me s).1.connections u ≡ some e
  unfolding end_session check_current finish_session
  end-connections u e me s there other = ground arith

module _ {R : Type 0} (N : Numbers R) (payload_hash : RankedCommand → ℕ) (c : Config)
    (parse_uuid : String → Option Uuid) (parse_f64 : String → Option R)
    (parse_u64 : String → Option ℕ) where
  say-connections :
      (me : Socket) (msg : ClientMessage) (s : AppState R)
      → (handle_client_message N payload_hash c parse_uuid parse_f64 parse_u64 me msg
          s).1.connections
        ≡ s.connections
  unfolding handle_client_message dispatch_ranked
  say-connections me msg s = ground arith

  pub run_op : Op → AppState R → AppState R
  run_op (begins user session) s = (begin_session user session s).1
  run_op (ends me) s = (end_session me s).1
  run_op (says me msg) s =
      (handle_client_message N payload_hash c parse_uuid parse_f64 parse_u64 me msg s).1

  pub run_ops : List Op → AppState R → AppState R
  run_ops [] s = s
  run_ops (op ∷ ops) s = run_ops ops (run_op op s)

  run_op-connections :
      (u : PlayerId) (e : ConnectionEntry) (op : Op) (s : AppState R)
      → s.connections u ≡ some e
      → spares u e.generation op ≡ true
      → (run_op op s).connections u ≡ some e
  unfolding run_op
  run_op-connections u e (begins user session) s there spared =
      begin-connections u user session s (ground arith) ∙ there
  run_op-connections u e (ends me) s there spared = end-connections u e me s there (ground arith)
  run_op-connections u e (says me msg) s there spared =
      ap (λ table. table u) (say-connections me msg s) ∙ there

  -- A connection that the server knows stays known through whatever connections begin, end and
  -- send, each end being one step, except by a newer connection of its player and by its own end.
  pub run_ops-connections :
      (u : PlayerId) (e : ConnectionEntry) (ops : List Op) (s : AppState R)
      → s.connections u ≡ some e
      → all_spare u e.generation ops ≡ true
      → (run_ops ops s).connections u ≡ some e
  unfolding run_ops
  run_ops-connections u e [] s there spared = there
  run_ops-connections u e (op ∷ ops) s there spared =
      run_ops-connections u e ops (run_op op s) (run_op-connections u e op s there (ground arith))
        (ground arith)

module _ {R : Type 0} (me : Socket) (session : Uuid) (s : AppState R) where
  checks_current :
      {e : ConnectionEntry}
      → s.connections me.user_id ≡ some e
      → e.generation ≡ me.generation
      → check_current me s ≡ (ok true, s)
  unfolding check_current
  checks_current there current = ground arith

  begins_newer :
      (begin_session me.user_id session s).1.connections me.user_id
      ≡ some (record { generation = s.next_generation; session_id = session })
  unfolding begin_session
  begins_newer = ground arith

  finishes_removal : (finish_session true me s).1.connections me.user_id ≡ none
  unfolding finish_session
  finishes_removal = ground arith

-- Where the player connects again between the two parts of the end of its connection, that end
-- removes the new connection: the server then knows no connection of the player.
pub finish_session_late :
    {R : Type 0} (me : Socket) (session : Uuid) (s : AppState R) {e : ConnectionEntry}
    → s.connections me.user_id ≡ some e
    → e.generation ≡ me.generation
    → let opened = (begin_session me.user_id session s).1 in
      (check_current me s ≡ (ok true, s))
      × (opened.connections me.user_id
          ≡ some (record { generation = s.next_generation; session_id = session }))
      × ((finish_session true me opened).1.connections me.user_id ≡ none)
finish_session_late me session s there current = (
  checks_current me session s there current,
  begins_newer me session s,
  finishes_removal me session (begin_session me.user_id session s).1,
)
