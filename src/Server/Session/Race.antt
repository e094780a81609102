-- ===== src/Server/Session/Race.antt =====
-- Leaving the queue and joining it again at once (`unqueue` and `queue` of `UserSessionWorkflow`,
-- lobby-server/src/temporal/workflows.rs).
use mathlib.Core.Option
use steam_lobby.Prelude.{
  String, Bool, true, false, none, some, ◌≡◌, refl, arith, List, [], ◌∷◌, ◌++◌, any, update,
  str_eq_refl, ==_refl,
}
use steam_lobby.Core.Types.{PlayerId, PlayerState}
use steam_lobby.Store.Rows.{QueueRow, PlayerStateRow}
use steam_lobby.Store.Queue.{upsert, is_entry, enqueue, dequeue}
use steam_lobby.Store.Numbers.{Numbers}
use steam_lobby.Store.Players
use steam_lobby.Store.Players.{default_rating, get_rating, update_heartbeat}
use steam_lobby.Server.State.{AppState, QueueArgs, queue, unqueue}
use steam_lobby.Server.Activities.{set_player_state, enter_queue, leave_queue}
use steam_lobby.Server.Session.{
  World, Steps, Step, init, arrive, execute, resume, arrived, executed, resumed, queue_sets,
  queue_enters, unqueue_leaves, unqueue_resets, for_call, with_answer,
}

-- a session that knows its player to be queued, with nothing under way
abbrev pub queued_session : {R : Type 0} → QueueArgs → AppState R → World R
queued_session args a = record {
  session = record (init args.user_id) { queued = some args };
  server = a;
  waiting = [];
  over = false;
}

any-append_last :
    {R : Type 0} (f : QueueRow R → Bool) (rows : List (QueueRow R)) (q : QueueRow R)
    → f q ≡ true
    → any f (rows ++ q ∷ []) ≡ true
any-append_last f [] q h = ground arith
any-append_last f (x ∷ rows) q h = ground (arith, any-append_last f rows q h)

module _ {R : Type 0} (user : PlayerId) (mode : String) where
  any-update :
      (f : QueueRow R → QueueRow R) (rows : List (QueueRow R))
      → ((q : QueueRow R) → is_entry user mode (f q) ≡ is_entry user mode q)
      → any (is_entry user mode) (update (is_entry user mode) f rows)
        ≡ any (is_entry user mode) rows
  any-update f [] same = refl
  any-update f (x ∷ rows) same = ground (arith, any-update f rows same, same x)

  any-upsert :
      (q : QueueRow R) (f : QueueRow R → QueueRow R) (rows : List (QueueRow R))
      → q.user_id ≡ user
      → q.game_mode ≡ mode
      → ((x : QueueRow R) → is_entry user mode (f x) ≡ is_entry user mode x)
      → any (is_entry user mode) (upsert q f rows) ≡ true
  any-upsert q f rows own in_mode same = ground (
    arith,
    any-append_last (is_entry user mode) rows q,
    any-update f rows same,
    ==_refl user,
    str_eq_refl mode,
  )

module _ {R : Type 0} (N : Numbers R) (args : QueueArgs) (a : AppState R) where
  enters_queue : any (is_entry args.user_id args.mode) (enter_queue N args a).1.db.queue ≡ true
  unfolding enter_queue enqueue get_rating update_heartbeat
  enters_queue =
      any-upsert args.user_id args.mode
        (record {
          user_id = args.user_id;
          game_mode = args.mode;
          match_difficulty = args.difficulty;
          mu = mu;
          queued_at = a.db.now;
          lease_expires_at = none;
        })
        (λ old. record old { match_difficulty = args.difficulty; mu = mu; queued_at = a.db.now })
        a.db.queue refl refl (λ x. refl)
    where
      mu : R
      mu = (Option.get_or (a.db.ratings args.user_id args.mode) (default_rating N a.db.now)).mu

module _ {R : Type 0} (N : Numbers R) (args : QueueArgs) (a : AppState R) where
  abbrev w0 : World R
  w0 = queued_session args a

  abbrev w1 : World R
  w1 = arrived N unqueue w0

  abbrev w2 : World R
  w2 = arrived N (queue args) w1

  abbrev w3 : World R
  w3 = executed N (unqueue_leaves args) [] (for_call (queue_sets args) ∷ []) w2

  abbrev w4 : World R
  w4 = executed N (queue_sets args) (with_answer (unqueue_leaves args) none ∷ []) [] w3

  abbrev w5 : World R
  w5 = resumed N (queue_sets args) none (with_answer (unqueue_leaves args) none ∷ []) [] w4

  abbrev w6 : World R
  w6 = resumed N (unqueue_leaves args) none [] (for_call (queue_enters args) ∷ []) w5

  abbrev w7 : World R
  w7 = executed N (queue_enters args) [] (for_call (unqueue_resets args) ∷ []) w6

  abbrev w8 : World R
  w8 = executed N (unqueue_resets args) (with_answer (queue_enters args) none ∷ []) [] w7

  abbrev w9 : World R
  w9 = resumed N (queue_enters args) none [] (with_answer (unqueue_resets args) none ∷ []) w8

  abbrev w10 : World R
  w10 = resumed N (unqueue_resets args) none [] [] w9

  race_steps : Steps N w0 w10
  unfolding arrive execute resume
  race_steps =
      let left = with_answer (unqueue_leaves args) none ∷ [] in
      let entered = with_answer (queue_enters args) none ∷ [] in
      let s1 = Steps.then_step (Steps.done w0) (Step.arrives unqueue w0 refl refl) in
      let s2 = Steps.then_step s1 (Step.arrives (queue args) w1 (==_refl args.user_id) refl) in
      let s3 = Steps.then_step s2 (Step.executes (unqueue_leaves args) [] _ w2 refl) in
      let s4 = Steps.then_step s3 (Step.executes (queue_sets args) left [] w3 refl) in
      let s5 = Steps.then_step s4 (Step.resumes (queue_sets args) none left [] w4 refl refl) in
      let s6 = Steps.then_step s5 (Step.resumes (unqueue_leaves args) none [] _ w5 refl refl) in
      let s7 = Steps.then_step s6 (Step.executes (queue_enters args) [] _ w6 refl) in
      let s8 = Steps.then_step s7 (Step.executes (unqueue_resets args) entered [] w7 refl) in
      let s9 = Steps.then_step s8 (Step.resumes (queue_enters args) none [] _ w8 refl refl) in
      Steps.then_step s9 (Step.resumes (unqueue_resets args) none [] [] w9 refl refl)

  race_queue : any (is_entry args.user_id args.mode) w10.server.db.queue ≡ true
  unfolding arrive execute resume set_player_state Players.set_player_state
  race_queue = enters_queue N args w6.server

  race_state :
      {p : PlayerStateRow}
      → a.db.player_state args.user_id ≡ some p
      → Option.map (λ row. row.state) (w10.server.db.player_state args.user_id)
        ≡ some PlayerState.in_menus
  unfolding arrive execute resume set_player_state enter_queue leave_queue dequeue enqueue
      get_rating update_heartbeat Players.set_player_state
  race_state found = ground arith

  -- Where the player of a session that knows it to be queued leaves the queue and joins it again
  -- at once, there is an order of the activities and handlers after which all are done, the session
  -- knows the player to be queued and the queue has its entry, but the player's state is InMenus.
  pub unqueue-queue :
      {p : PlayerStateRow}
      → a.db.player_state args.user_id ≡ some p
      → (w : World R) × Steps N (queued_session args a) w
        × (w.waiting ≡ [])
        × (w.session.queued ≡ some args)
        × (any (is_entry args.user_id args.mode) w.server.db.queue ≡ true)
        × (Option.map (λ row. row.state) (w.server.db.player_state args.user_id)
            ≡ some PlayerState.in_menus)
  unfolding arrive resume
  unqueue-queue found = (w10, race_steps, refl, refl, race_queue, race_state found)
