-- ===== src/Process/Tail.antt =====
-- worker/process.go: `Tail`, a subscriber's registration, the rounds of its loop, and its removal.
use remote_hands.Shared.{
  ℕ, suc, Bool, true, false, List, [], ◌∷◌, ◌++◌, Option, none, some, Text, ℤ, pos, ◌==◌, ℕ_eq,
  if◌then◌else◌, Result, ok, err, Error, connect_error, plain, not_found, failed_precondition,
}
use remote_hands.Process.{
  TailEvent, TrackedProcess, new_channel, ProcessManager, update, write, find, is_exited,
}

-- Up to the loop: the reference of the process and of the new channel.
unfoldable pub subscribe : ProcessManager → ℕ → Result Error (ℕ × ℕ) × ProcessManager
subscribe pm pid = elim (find pm pid) [
  | none ↦ (err (connect_error not_found "process %d not found"), pm)
  | some (r, p) ↦
      if is_exited p.status
      then (
        err (
            connect_error failed_precondition
              "process %d has already exited, use ProcessLogs instead"),
        pm,
      )
      else (
        ok (r, pm.next_channel_ref),
        record (write pm r (record p { subscribers = p.subscribers ++ pm.next_channel_ref ∷ [] })) {
          channels = update pm.channels pm.next_channel_ref new_channel;
          next_channel_ref = suc pm.next_channel_ref;
        },
      )
]

-- ProcessTailEvent
pub data ProcessTailEvent : Type 0 where
  stdout stderr : Text → ProcessTailEvent
  exit_code : ℤ → ProcessTailEvent

-- What one round of the `select` comes to: nothing is ready, the loop goes on after an event was
-- sent, or `Tail` returns, perhaps after a last event.
pub data Round : Type 0 where
  blocked : Round
  continued : ProcessTailEvent → ProcessManager → Round
  finished : Result Error (Unit {0}) → Option ProcessTailEvent → Round

abbrev pub tail_event : TailEvent → ProcessTailEvent
tail_event evt = if evt.stdout then stdout evt.line else stderr evt.line

abbrev pub exit_code_or_0 : Option TrackedProcess → ℤ
exit_code_or_0 none = pos 0
exit_code_or_0 (some p) = elim p.exit_code [ none ↦ pos 0 | some c ↦ c ]

unfoldable pub receive :
    ProcessManager → ℕ → ℕ → (ProcessTailEvent → Bool) → Bool → List TailEvent → Round
receive pm r ch send closed (evt ∷ rest) =
    if send (tail_event evt)
    then continued (tail_event evt)
        (record pm { channels = update pm.channels ch (record (pm.channels ch) { buffer = rest }) })
    else finished (err (plain "failed to send tail event: %w")) none
receive pm r ch send true [] = finished (ok tt) (some (exit_code (exit_code_or_0 (pm.heap r))))
receive pm r ch send false [] = blocked

-- One round of the loop. `cancelled` says which ready case the `select` takes; `send` is the
-- stream's answer.
unfoldable pub tail_round : Bool → (ProcessTailEvent → Bool) → ProcessManager → ℕ → ℕ → Round
tail_round cancelled send pm r ch =
    if cancelled
    then finished (ok tt) none
    else receive pm r ch send (pm.channels ch).closed (pm.channels ch).buffer

-- `append(subs[:i], subs[i+1:]...)` at the first occurrence.
unfoldable pub remove_first : ℕ → List ℕ → List ℕ
remove_first ch [] = []
remove_first ch (sub ∷ subs) = if sub == ch then subs else sub ∷ remove_first ch subs

-- removeSubscriber
unfoldable pub remove_subscriber : ProcessManager → ℕ → ℕ → ProcessManager
unfolding remove_first
remove_subscriber pm pid ch = elim (find pm pid) [
  | none ↦ pm
  | some (r, p) ↦ write pm r (record p { subscribers = remove_first ch p.subscribers })
]
