-- ===== src/Process/Channels.antt =====
-- worker/process.go: what a line of output and an exit do to the channels of a list of subscribers.
use remote_hands.Shared.{
  ℕ, ◌≡◌, refl, Bool, true, false, ◌||◌, List, [], ◌∷◌, ◌++◌, some, arith, length, ltb, nat_eq_iff,
  ◌==◌, ℕ_eq, if◌then◌else◌, Bool-cases, inl, inr,
}
use remote_hands.Process.{TailEvent, Channel, Channels, capacity, update}
use remote_hands.Process.Output.{try_send, fan_out, close_all}

-- The channel is among the subscribers.
abbrev pub mem : ℕ → List ℕ → Bool
mem ch [] = false
mem ch (sub ∷ subs) = sub == ch || mem ch subs

-- No channel is subscribed twice.
abbrev pub Distinct : List ℕ → Type 0
Distinct [] = Unit {0}
Distinct (sub ∷ subs) = (mem sub subs ≡ false) × Distinct subs

-- Every subscriber's channel is open.
abbrev pub AllOpen : List ℕ → Channels → Type 0
AllOpen subs chans = (ch : ℕ) → mem ch subs ≡ true → (chans ch).closed ≡ false

-- A channel after a line was offered to it: a full one drops the line.
abbrev pub offered : TailEvent → Channel → Channel
offered evt c =
    if ltb (length c.buffer) capacity then record c { buffer = c.buffer ++ evt ∷ [] } else c

abbrev pub shut : Channel → Channel
shut c = record c { closed = true }

try_send_lem :
    (chans : Channels) (ch : ℕ) (evt : TailEvent)
    → (chans ch).closed ≡ false
    → (after : Channels) × (try_send chans ch evt ≡ some after)
      × ((j : ℕ) → after j ≡ (if ch == j then offered evt (chans j) else chans j))
unfolding try_send
try_send_lem chans ch evt h = elim (Bool-cases (ltb (length (chans ch).buffer) capacity)) [
  | inl room ↦ (
    update chans ch (record (chans ch) { buffer = (chans ch).buffer ++ evt ∷ [] }),
    rw (h, room),
    λ j. ground (arith, room, nat_eq_iff ch j),
  )
  | inr full ↦ (chans, rw (h, full), λ j. ground (arith, full, nat_eq_iff ch j))
]

-- With distinct open channels a line is offered once to each subscriber and to nobody else, and
-- nothing panics.
pub fan_out_lem :
    (evt : TailEvent) (subs : List ℕ) (chans : Channels)
    → AllOpen subs chans
    → Distinct subs
    → (after : Channels) × (fan_out evt subs chans ≡ some after)
      × ((ch : ℕ) → after ch ≡ (if mem ch subs then offered evt (chans ch) else chans ch))
unfolding fan_out
fan_out_lem evt [] chans h d = (chans, refl, λ ch. refl)
fan_out_lem evt (sub ∷ subs) chans h d =
    let (mid, sent, at) = try_send_lem chans sub evt (h sub (ground arith)) in
    let (after, e, all) =
      fan_out_lem evt subs mid (λ ch m. ground (arith, at ch, h ch, nat_eq_iff sub ch)) d.1 in
    (after, rw sent e, λ ch. ground (arith, all ch, at ch, nat_eq_iff sub ch, d.0))

pub close_all_lem :
    (subs : List ℕ) (chans : Channels)
    → AllOpen subs chans
    → Distinct subs
    → (after : Channels) × (close_all subs chans ≡ some after)
      × ((ch : ℕ) → after ch ≡ (if mem ch subs then shut (chans ch) else chans ch))
unfolding close_all
close_all_lem [] chans h d = (chans, refl, λ ch. refl)
close_all_lem (sub ∷ subs) chans h d =
    let mid : Channels = update chans sub (shut (chans sub)) in
    let (after, e, all) =
      close_all_lem subs mid (λ ch m. ground (arith, h ch, nat_eq_iff sub ch, d.0)) d.1 in
    (after, ground (arith, h sub, e), λ ch. ground (arith, all ch, nat_eq_iff sub ch, d.0))

pub mem-append : (ch : ℕ) (xs ys : List ℕ) → mem ch (xs ++ ys) ≡ (mem ch xs || mem ch ys)
mem-append ch [] ys = refl
mem-append ch (x ∷ xs) ys = ground (arith, mem-append ch xs ys)

-- A channel that is not yet among the subscribers may be added at the end.
pub Distinct-append :
    (ch : ℕ) (subs : List ℕ) → Distinct subs → mem ch subs ≡ false → Distinct (subs ++ ch ∷ [])
Distinct-append ch [] d m = (refl, tt)
Distinct-append ch (sub ∷ subs) d m =
    (ground (arith, mem-append sub subs (ch ∷ []), d.0), Distinct-append ch subs d.1 (ground arith))
