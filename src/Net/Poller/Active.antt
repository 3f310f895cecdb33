-- ===== src/Net/Poller/Active.antt =====
-- What `poll` reports.
use ka_im.Prelude.{
  ℕ, ◌*◌, ◌≤◌, ◌≡◌, refl, true, List, [], ◌∷◌, Option, some, arith, ◌==◌, if◌then◌else◌, holds,
  length, Bool-cases, inl, inr,
}
use ka_im.Net.Channel.{KaChannel, set_revent}
use ka_im.Net.Poller.{KaPoller, fill_active_channel, poll, ready}

-- Each reported channel is the one that the map holds for its fd.
abbrev pub AllKnown : KaPoller → (ℕ → KaChannel) → List ℕ → Type 0
AllKnown p store [] = Unit {0}
AllKnown p store (a ∷ as') = (p.channels (store a).fd ≡ some a) × AllKnown p store as'

AllKnown-fd :
    (p : KaPoller) (s t : ℕ → KaChannel) (l : List ℕ)
    → ((a : ℕ) → (s a).fd ≡ (t a).fd)
    → AllKnown p s l
    → AllKnown p t l
AllKnown-fd p s t [] h k = tt
AllKnown-fd p s t (a ∷ l) h k = (rw (← h a) k.0, AllKnown-fd p s t l h k.1)

mark : (ℕ → KaChannel) → ℕ → ℕ → ℕ → KaChannel
mark store ptr events a = if a == ptr then set_revent (store a) events else store a

mark-fd : (store : ℕ → KaChannel) (ptr events a : ℕ) → (mark store ptr events a).fd ≡ (store a).fd
unfolding mark
mark-fd store ptr events a = ground arith

fill_cons :
    (p : KaPoller) (store : ℕ → KaChannel) (ptr events : ℕ) (rest : List (ℕ × ℕ))
    → fill_active_channel p store ((ptr, events) ∷ rest) ≡ (
        if holds p.channels (store ptr).fd ptr
        then (
          (fill_active_channel p (mark store ptr events) rest).0,
          ptr ∷ (fill_active_channel p (mark store ptr events) rest).1,
        )
        else (store, []))
unfolding fill_active_channel mark
fill_cons p store ptr events rest = refl

holds_iff : (m : ℕ → Option ℕ) (k v : ℕ) → holds m k v ≡ true → m k ≡ some v
holds_iff m k v h = ground arith

fill-AllKnown :
    (p : KaPoller) (store : ℕ → KaChannel) (events : List (ℕ × ℕ))
    → AllKnown p store (fill_active_channel p store events).1
      × (length (fill_active_channel p store events).1 ≤ length events)
unfolding fill_active_channel
fill-AllKnown p store [] = (tt, omega arith)
fill-AllKnown p store ((ptr, e) ∷ rest) = elim (Bool-cases (holds p.channels (store ptr).fd ptr)) [
  | inl known ↦
      let ih = fill-AllKnown p (mark store ptr e) rest in
      rw (fill_cons p store ptr e rest, known)
        (
          (
            holds_iff p.channels (store ptr).fd ptr known,
            AllKnown-fd p (mark store ptr e) store _ (mark-fd store ptr e) ih.0,
          ),
          omega (arith, ih.1),
        )
  | inr other ↦ rw (fill_cons p store ptr e rest, other) (tt, omega arith)
]

-- Every channel that `poll` reports is the one that the map holds for its fd, there are no more of
-- them than events, the map is as it was, and the room for events doubles if it was full and there
-- was an event, and otherwise stays.
pub poll_lem :
    (p : KaPoller) (store : ℕ → KaChannel) (events : List (ℕ × ℕ))
    → let (p', _, active) = poll p store (ready events) in
      AllKnown p store active
      × (length active ≤ length events)
      × (p'.channels ≡ p.channels)
      × (p'.capacity ≡ (
          if length events == 0
          then p.capacity
          else if length events == p.capacity
          then p.capacity * 2
          else p.capacity))
unfolding poll
poll_lem p store [] = (tt, omega arith, refl, refl)
poll_lem p store (e ∷ es) =
    let k = fill-AllKnown p store (e ∷ es) in (k.0, k.1, ground arith, ground arith)
