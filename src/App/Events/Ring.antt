-- ===== src/App/Events/Ring.antt =====
-- src/app/include/event_stream_process.h, `event_stream`: the senders of the events, thirteen of them
-- in turn, and the thread pool that runs them.
pub mod Spec
mod Tests
use clyman.Prelude.{
  ℕ, suc, ◌+◌, Bool, ◌==◌, nat_eq, List, [], ◌∷◌, map, replicate, get_elem?, set, Option, none,
  some, if◌then◌else◌,
}
use clyman.Outcome.{Outcome, ok, crash, or_crash, ◌>>=◌}

-- Whether `run` of a sender is still to be called, is being executed, or has returned. It returns
-- with the memory of the event freed.
pub data Phase : Type 0 where
  waiting running finished : Phase

-- `EventSender`
pub record Sender (E : Type 0) : Type 0 where
  pub event : E
  pub phase : Phase

pub record Ring (E : Type 0) : Type 0 where
  pub sender_index : ℕ
  pub evt_senders : List (Option (Sender E))

module _ {E : Type 0} where
  abbrev pub new_ring : Ring E
  new_ring = record { sender_index = 0; evt_senders = replicate 13 none }

  -- `delete` of the sender that is left over. One whose `run` is being executed must not be deleted.
  deleted : Option (Sender E) → Outcome (Unit {0})
  deleted none = ok tt
  deleted (some s) = elim s.phase [ waiting ↦ ok tt | running ↦ crash | finished ↦ ok tt ]

  build_sender : E → Ring E → Outcome (Ring E)
  unfolding deleted
  build_sender e r = do
    left_over ← or_crash (get_elem? r.evt_senders r.sender_index)
    _ ← deleted left_over
    ok (record r {
      evt_senders = set r.evt_senders r.sender_index (some (record { event = e; phase = waiting }));
    })

  end_run : Option (Sender E) → Option (Sender E)
  end_run none = none
  end_run (some s) = some (record s {
    phase = elim s.phase [ waiting ↦ waiting | running ↦ finished | finished ↦ finished ];
  })

  -- `tpool.joinAll()`
  join_all : Ring E → Ring E
  unfolding end_run
  join_all r = record r { evt_senders = map end_run r.evt_senders }

  -- `run` is called on a sender. A second call reads the freed memory of its event and frees it again.
  begun : Phase → Option (Sender E) → Outcome (E × Sender E)
  begun p none = crash
  begun p (some s) = elim s.phase [
    | waiting ↦ ok (s.event, record s { phase = p })
    | running ↦ crash
    | finished ↦ crash
  ]

  run_sender : Phase → ℕ → Ring E → Outcome (E × Ring E)
  unfolding begun
  run_sender p index r = do
    slot ← or_crash (get_elem? r.evt_senders index)
    (e, s) ← begun p slot
    ok (e, record r { evt_senders = set r.evt_senders index (some s) })

  -- "If we have used up all the space in our array of senders"
  wrap : Ring E → Ring E
  unfolding join_all
  wrap r = if r.sender_index == 12 then record (join_all r) { sender_index = 0 } else r

  -- A message was received; whether the pool then has a thread is up to the pool. What comes back is
  -- the event that is processed.
  unfoldable pub dispatch : Bool → E → Ring E → Outcome (E × Ring E)
  unfolding build_sender wrap join_all run_sender
  dispatch available e r = do
    built ← build_sender e r
    let s = wrap built
    if available
        then (do
          (e', started) ← run_sender running s.sender_index s
          ok (e', record started { sender_index = suc s.sender_index }))
        else (do
          (e', ran) ← run_sender finished s.sender_index s
          ok (e', record (join_all ran) { sender_index = 0 }))

-- What can happen next: a message, or a thread comes to the end of `run`.
pub data Happening (E : Type 0) : Type 0 where
  message : Bool → E → Happening E
  thread_ends : ℕ → Happening E

module _ {E : Type 0} where
  end_at : ℕ → Ring E → Ring E
  unfolding end_run
  end_at i r = elim (get_elem? r.evt_senders i) [
    | none ↦ r
    | some slot ↦ record r { evt_senders = set r.evt_senders i (end_run slot) }
  ]

  -- The loop of `event_stream` among the threads of the pool, in the order in which things happen: the
  -- events that are processed, in the order of the calls of `run`.
  unfoldable pub event_stream : List (Happening E) → Ring E → Outcome (List E)
  unfolding dispatch end_at
  event_stream [] r = ok []
  event_stream (message available e ∷ hs) r = do
    (e', r') ← dispatch available e r
    es ← event_stream hs r'
    ok (e' ∷ es)
  event_stream (thread_ends i ∷ hs) r = event_stream hs (end_at i r)
