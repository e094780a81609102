-- ===== src/Pairing/Order.antt =====
-- The event log through a claim (`pair_next_match_with_accept_timeout`, lobby-server/src/db/queue.rs).
use steam_lobby.Prelude.{
  ℕ, ◌+◌, Option, none, some, true, false, ◌==◌, ◌≡◌, refl, ap, arith, is_some, find, List, [], ◌∷◌,
  ◌++◌, Bool-cases, Option-cases, inl, inr, put, Table,
}
use steam_lobby.Core.Types.{Uuid, PlayerId, Token, MatchInfo, is_gameserver}
use steam_lobby.Core.Error.{Result-cases}
use steam_lobby.Store.Rows.{QueueRow, EventType, empty, pairing}
use steam_lobby.Store.Numbers.{Numbers}
use steam_lobby.Store.Db.{Db}
use steam_lobby.Store.Queue.{is_entry, seconds}
use steam_lobby.Ranked.Events.{next_sequence, allocate, Outgoing}
use steam_lobby.Ranked.Events.Numbering.{
  IsGapless, allocate-IsGapless, numbers_of-append, numbers_of,
}
use steam_lobby.Pairing.Claim.{claim}
use steam_lobby.Store.Matches.{recent_match_between}
use steam_lobby.Pairing.Claims.{can_pair, claim-none, claim-form_match, claim-error, find-is_entry}
use steam_lobby.Pairing.Form.{
  Request, native, new_match, form_match, insert_match, hold, hold_native, paired_event,
}

append_nil : {A : Type 0} (xs : List A) → xs ++ [] ≡ xs
append_nil [] = refl
append_nil (x ∷ xs) = ap (λ ys. x ∷ ys) (append_nil xs)

next_sequence-put :
    (counters : Table ℕ) (a b n : ℕ)
    → (a == b) ≡ false
    → next_sequence (put a n counters) b ≡ next_sequence counters b
next_sequence-put counters a b n apart = ground arith

module _ {R : Type 0} where
  -- the events of a native pair, as ones to be numbered
  abbrev pair_events : Request → QueueRow R → QueueRow R → Uuid → Db R → List (Outgoing R)
  pair_events q a b attempt s =
      let deadline = s.now + seconds q.match_accept_timeout_secs in
      (a.user_id, EventType.paired, pairing b.user_id true deadline attempt)
      ∷ (b.user_id, EventType.paired, pairing a.user_id false deadline attempt)
      ∷ []

  hold_native-IsGapless :
      (q : Request) (m : MatchInfo) (a b : QueueRow R) (attempt : Uuid) (s : Db R)
      → (a.user_id == b.user_id) ≡ false
      → IsGapless s
      → IsGapless (hold_native q m a b attempt s)
  unfolding hold_native allocate
  hold_native-IsGapless q m a b attempt s apart gapless =
      rw⁻¹
        (next_sequence-put s.event_counters a.user_id b.user_id
          (next_sequence s.event_counters a.user_id + 1) apart)
        (allocate-IsGapless m.match_token none (pair_events q a b attempt s) s gapless)

  -- an event without a recipient takes no number
  unnumbered-IsGapless :
      (t : Token) (s : Db R)
      → IsGapless s
      → IsGapless (record s { events = s.events ++ paired_event t none empty ∷ [] })
  unnumbered-IsGapless t s gapless id = (
    (gapless id).0,
    rw
        (
          numbers_of-append id s.events (paired_event t none empty ∷ []),
          append_nil (numbers_of id s.events),
        )
        ((gapless id).1),
    (gapless id).2,
  )

  hold-IsGapless :
      (q : Request) (m : MatchInfo) (a b : QueueRow R) (s : Db R)
      → (a.user_id == b.user_id) ≡ false
      → IsGapless s
      → IsGapless (hold q m a b s)
  unfolding hold
  hold-IsGapless q m a b s apart gapless = elim (Bool-cases (native q)) [
    | inl ranked ↦ rw ranked (
        hold_native-IsGapless q m a b (s.entropy s.drawn) (record s { drawn = s.drawn + 1 }) apart
          gapless)
    | inr legacy ↦ rw legacy (unnumbered-IsGapless m.match_token s gapless)
  ]

  -- the database once the match's row is there
  abbrev inserted : Request → QueueRow R → QueueRow R → Db R → Db R → Option Uuid → Db R
  inserted q a b s drawn secret = record drawn {
    tokens = s.tokens ++ s.entropy s.drawn ∷ [];
    matches = put (s.entropy s.drawn) (new_match q a b s.now (s.entropy s.drawn) secret) s.matches;
  }

  pub form_match-IsGapless :
      (q : Request) (a b : QueueRow R) (s : Db R)
      → (a.user_id == b.user_id) ≡ false
      → IsGapless s
      → IsGapless (form_match q a b s).1
  unfolding form_match insert_match
  form_match-IsGapless q a b s apart gapless = elim (Bool-cases (is_gameserver q.spec.authority)) [
    | inl server ↦ rw server (elim (Bool-cases (is_some (s.matches token))) [
      | inl clash ↦ rw clash gapless
      | inr fresh ↦ rw fresh (
          hold-IsGapless q (new_match q a b s.now token (some (s.entropy (s.drawn + 1)))) a b
            (inserted q a b s (record s { drawn = s.drawn + 1 + 1 })
              (some (s.entropy (s.drawn + 1))))
            apart gapless)
    ])
    | inr peer ↦ rw peer (elim (Bool-cases (is_some (s.matches token))) [
      | inl clash ↦ rw clash gapless
      | inr fresh ↦ rw fresh (
          hold-IsGapless q (new_match q a b s.now token none) a b
            (inserted q a b s (record s { drawn = s.drawn + 1 }) none) apart gapless)
    ])
  ]
    where
      token : Token
      token = s.entropy s.drawn

module _ {R : Type 0} (N : Numbers R) (q : Request) (a b : PlayerId) (s : Db R) where
  -- A claim on two different players, whatever comes of it, leaves an event log without gaps.
  pub claim-IsGapless : (a == b) ≡ false → IsGapless s → IsGapless (claim N q a b s).1
  unfolding claim recent_match_between
  claim-IsGapless apart gapless = elim (Bool-cases (can_pair N q a b s)) [
    | inr stay ↦ rw (claim-none N q a b s stay) gapless
    | inl can ↦ elim (Option-cases (find (is_entry a q.mode) s.queue)) [
      | inl gone ↦ absurd (ground arith)
      | inr (x, found_a) ↦ elim (Option-cases (find (is_entry b q.mode) s.queue)) [
        | inl gone ↦ absurd (ground arith)
        | inr (y, found_b) ↦ elim (Result-cases (form_match q x y s).0) [
          | inl (m, formed) ↦ rw (claim-form_match N q a b s x y m can found_a found_b formed) (
              form_match-IsGapless q x y s
                (rw
                  (
                    find-is_entry a q.mode s.queue x found_a,
                    find-is_entry b q.mode s.queue y found_b,
                  )
                  apart)
                gapless)
          | inr (e, failed) ↦ rw (claim-error N q a b s x y e can found_a found_b failed) gapless
        ]
      ]
    ]
  ]
