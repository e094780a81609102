-- ===== src/Server/Session/Own.antt =====
-- A session touches no other player (`UserSessionWorkflow`, lobby-server/src/temporal/workflows.rs).
use steam_lobby.Prelude.{
  Bool, true, false, none, some, ◌==◌, ◌≡◌, refl, sym, ap, arith, ◌∙◌, List, [], ◌∷◌, ◌++◌, ◌&&◌,
}
use steam_lobby.Core.Types.{PlayerId}
use steam_lobby.Store.Queue.{get_queued_entry}
use steam_lobby.Store.Numbers.{Numbers}
use steam_lobby.Store.Players.{get_player_state}
use steam_lobby.Server.State.{AppState, SessionSignal}
use steam_lobby.Server.Activities.{sync_session}
use steam_lobby.Server.Session.Entries.{
  Untouched, sets-Untouched, leaves-Untouched, enters-Untouched, carries, found-owner,
}
use steam_lobby.Server.Session.{
  UserSessionWorkflow, Call, Waiting, Answer, World, Step, Steps, arrive, execute, resume, wait_for,
  is_own, started,
}

-- whether all that a waiting handler carries along is the user's
abbrev own_call : PlayerId → Call → Bool
own_call user (Call.queue_sets args) = args.user_id == user
own_call user (Call.queue_enters args) = args.user_id == user
own_call user (Call.unqueue_leaves args) = args.user_id == user
own_call user (Call.unqueue_resets args) = args.user_id == user
own_call user _ = true

abbrev own_answer : PlayerId → Answer → Bool
own_answer user none = true
own_answer user (some found) = carries user found

abbrev own_waiting : PlayerId → Waiting → Bool
own_waiting user (Waiting.for_call c) = own_call user c
own_waiting user (Waiting.with_answer c answer) = own_call user c && own_answer user answer

abbrev all_own : PlayerId → List Waiting → Bool
all_own user [] = true
all_own user (w ∷ ws) = own_waiting user w && all_own user ws

abbrev own_calls : PlayerId → List Call → Bool
own_calls user [] = true
own_calls user (c ∷ cs) = own_call user c && own_calls user cs

-- Whatever the session holds is its own user's.
abbrev pub IsOwn : {R : Type 0} → PlayerId → World R → Type 0
IsOwn user w =
    (w.session.user_id ≡ user)
    × (carries user w.session.queued ≡ true)
    × (all_own user w.waiting ≡ true)

all_own-append :
    (user : PlayerId) (xs ys : List Waiting)
    → all_own user (xs ++ ys) ≡ (all_own user xs && all_own user ys)
all_own-append user [] ys = refl
all_own-append user (x ∷ xs) ys = ground (arith, all_own-append user xs ys)

all_own-wait_for :
    (user : PlayerId) (cs : List Call) → all_own user (wait_for cs) ≡ own_calls user cs
all_own-wait_for user [] = refl
all_own-wait_for user (c ∷ cs) = ground (arith, all_own-wait_for user cs)

module _ {R : Type 0} (N : Numbers R) (j user : PlayerId) (apart : (user == j) ≡ false) where
  other_user : (id : PlayerId) → (id == user) ≡ true → (id == j) ≡ false
  other_user id own = ground arith

  -- an activity of the session's own user
  execute-Untouched :
      (c : Call) (session : UserSessionWorkflow) (a : AppState R)
      → session.user_id ≡ user
      → own_call user c ≡ true
      → Untouched j a (execute N session c a).1
  unfolding execute sync_session get_player_state get_queued_entry
  execute-Untouched Call.run_syncs session a who own = (refl, refl)
  execute-Untouched Call.unqueue_syncs session a who own = (refl, refl)
  execute-Untouched (Call.queue_sets args) session a who own =
      sets-Untouched j args.user_id _ a (other_user args.user_id own)
  execute-Untouched (Call.queue_enters args) session a who own =
      enters-Untouched j N args a (other_user args.user_id own)
  execute-Untouched (Call.unqueue_leaves args) session a who own =
      leaves-Untouched j args a (other_user args.user_id own)
  execute-Untouched (Call.unqueue_resets args) session a who own =
      sets-Untouched j args.user_id _ a (other_user args.user_id own)
  execute-Untouched (Call.found_sets t) session a who own =
      sets-Untouched j session.user_id _ a (rw who apart)
  execute-Untouched (Call.complete_sets t) session a who own =
      sets-Untouched j session.user_id _ a (rw who apart)

module _ {R : Type 0} (N : Numbers R) (user : PlayerId) where
  execute-own :
      (c : Call) (session : UserSessionWorkflow) (a : AppState R)
      → session.user_id ≡ user
      → own_answer user (execute N session c a).0 ≡ true
  unfolding execute sync_session get_player_state get_queued_entry
  execute-own Call.run_syncs session a who = rw who (found-owner user a.db.queue)
  execute-own Call.unqueue_syncs session a who = rw who (found-owner user a.db.queue)
  execute-own (Call.queue_sets args) session a who = refl
  execute-own (Call.queue_enters args) session a who = refl
  execute-own (Call.unqueue_leaves args) session a who = refl
  execute-own (Call.unqueue_resets args) session a who = refl
  execute-own (Call.found_sets t) session a who = refl
  execute-own (Call.complete_sets t) session a who = refl

  -- a handler keeps to the session's user
  abbrev KeepsOwn : UserSessionWorkflow → UserSessionWorkflow × List Call → Type 0
  KeepsOwn s (next, calls) =
      (next.user_id ≡ s.user_id) × (carries user next.queued ≡ true) × (own_calls user calls ≡ true)

  arrive-KeepsOwn :
      (signal : SessionSignal) (s : UserSessionWorkflow)
      → is_own user signal ≡ true
      → carries user s.queued ≡ true
      → KeepsOwn s (arrive signal s)
  unfolding arrive
  arrive-KeepsOwn signal s own queued = ground arith

  resume-KeepsOwn :
      (c : Call) (answer : Answer) (s : UserSessionWorkflow)
      → own_call user c ≡ true
      → own_answer user answer ≡ true
      → carries user s.queued ≡ true
      → KeepsOwn s (resume c answer s)
  unfolding resume
  resume-KeepsOwn c answer s own own_found queued = ground arith

module _ {R : Type 0} (N : Numbers R) (user : PlayerId) where
  split-own :
      (xs ys : List Waiting) (x : Waiting)
      → all_own user (xs ++ x ∷ ys) ≡ true
      → (all_own user xs ≡ true) × (own_waiting user x ≡ true) × (all_own user ys ≡ true)
  split-own xs ys x own = ground (arith, all_own-append user xs (x ∷ ys))

  Step-IsOwn : {u v : World R} → Step N u v → IsOwn user u → IsOwn user v
  Step-IsOwn (Step.arrives signal w mine open_) (who, queued, own) =
      let (same, still, calls) =
        arrive-KeepsOwn N user signal w.session (rw (sym who) mine) queued in
      (
        same ∙ who,
        still,
        ground (
          arith,
          all_own-append user w.waiting (wait_for (arrive signal w.session).1),
          all_own-wait_for user (arrive signal w.session).1,
          own,
          calls,
        ),
      )
  Step-IsOwn (Step.executes c xs ys w found) (who, queued, own) =
      let (left, mine, right) =
        split-own xs ys (Waiting.for_call c) (ap (all_own user) (sym found) ∙ own) in
      let answered = execute-own N user c w.session w.server who in
      (
        who,
        queued,
        ground (
          arith,
          all_own-append user xs (Waiting.with_answer c (execute N w.session c w.server).0 ∷ ys),
          left,
          right,
          mine,
          answered,
        ),
      )
  Step-IsOwn (Step.resumes c answer xs ys w found open_) (who, queued, own) =
      let (left, mine, right) =
        split-own xs ys (Waiting.with_answer c answer) (ap (all_own user) (sym found) ∙ own) in
      let (same, still, calls) =
        resume-KeepsOwn N user c answer w.session (ground arith) (ground arith) queued in
      let more = wait_for (resume c answer w.session).1 in
      (
        same ∙ who,
        still,
        ground (
          arith,
          all_own-append user (xs ++ ys) more,
          all_own-append user xs ys,
          all_own-wait_for user (resume c answer w.session).1,
          left,
          right,
          calls,
        ),
      )
  Step-IsOwn (Step.returns w) own = own

  Steps-IsOwn : {u v : World R} → Steps N u v → IsOwn user u → IsOwn user v
  Steps-IsOwn (Steps.done w) own = own
  Steps-IsOwn (Steps.then_step steps step) own = Step-IsOwn step (Steps-IsOwn steps own)

  module _ (j : PlayerId) (apart : (user == j) ≡ false) where
    Step-Untouched : {u v : World R} → Step N u v → IsOwn user u → Untouched j u.server v.server
    Step-Untouched (Step.arrives signal w mine open_) own = (refl, refl)
    Step-Untouched (Step.executes c xs ys w found) (who, queued, own) =
        let (left, mine, right) =
          split-own xs ys (Waiting.for_call c) (ap (all_own user) (sym found) ∙ own) in
        execute-Untouched N j user apart c w.session w.server who mine
    Step-Untouched (Step.resumes c answer xs ys w found open_) own = (refl, refl)
    Step-Untouched (Step.returns w) own = (refl, refl)

    Steps-Untouched_from :
        {u v : World R} → Steps N u v → IsOwn user u → Untouched j u.server v.server
    Steps-Untouched_from (Steps.done w) own = (refl, refl)
    Steps-Untouched_from (Steps.then_step steps step) own =
        let (state, rows) = Steps-Untouched_from steps own in
        let (state', rows') = Step-Untouched step (Steps-IsOwn steps own) in
        (state' ∙ state, rows' ∙ rows)

    -- Whatever signals reach a session, in whatever order its activities are executed and its
    -- handlers go on, the state of every other player and that player's queue entries stay as they
    -- were when the session was started.
    pub Steps-Untouched :
        (a : AppState R) {w : World R} → Steps N (started user a) w → Untouched j a w.server
    Steps-Untouched a steps = Steps-Untouched_from steps (refl, refl, refl)
