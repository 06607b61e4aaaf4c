-- ===== src/Producer/Slots.antt =====
-- The ring that the writes of src/aql_producer.cpp leave behind, slot by slot.
use light_rocm_runtime.Prelude.{
  ℕ, ◌+◌, ◌*◌, ◌%◌, ◌≤◌, ◌<◌, ◌≡◌, ◌≢◌, ◌⊎◌, refl, ◌∙◌, Bool, true, false, List, [], ◌∷◌, ◌++◌,
  Option, some, ◌==◌, if◌then◌else◌, All, length, arith,
}
use light_rocm_runtime.Word.Laws.{mod-injective_near}
use light_rocm_runtime.Producer.{
  Packet, header_of, Event, store_header, copy_body, ring_doorbell, publish_packet,
}

-- The contents of one slot; `none` stands for bytes that no packet of the log wrote.
pub record Slot : Type 0 where
  pub header : ℕ
  pub body : Option Packet

-- The effect of a write on the slot at `offset`.
unfoldable pub see : ℕ → Event → Slot → Slot
see offset (store_header at h) s = if at == offset then record s { header = h } else s
see offset (copy_body at p) s = if at == offset then record s { body = some p } else s
see offset (ring_doorbell id) s = s

-- The slot at `offset` behind the writes, from what it was before them.
abbrev pub replay : ℕ → List Event → Slot → Slot
replay offset [] s = s
replay offset (e ∷ es) s = replay offset es (see offset e s)

-- Two slots of 64 bytes that share no byte.
abbrev pub AreApart : ℕ → ℕ → Type 0
AreApart a b = (a + 64 ≤ b) ⊎ (b + 64 ≤ a)

-- The event writes no byte of the slot at `offset`.
abbrev pub LeavesAlone : ℕ → Event → Type 0
LeavesAlone offset (store_header at h) = AreApart at offset
LeavesAlone offset (copy_body at p) = AreApart at offset
LeavesAlone offset (ring_doorbell id) = Unit {0}

abbrev pub is_doorbell : Event → Bool
is_doorbell (ring_doorbell id) = true
is_doorbell _ = false

-- The byte offset of a packet id in a ring of `count` slots of 64 bytes.
abbrev pub place : ℕ → ℕ → ℕ
place count id = id % count * 64

-- A packet with its own header in front of it.
abbrev pub filled : Packet → Slot
filled p = record { header = header_of p; body = some p }

-- The slots of the ids from `id` on hold the packets, one each, whatever they held before.
abbrev pub HoldFrom : ℕ → ℕ → List Event → List Packet → Type 0
HoldFrom count id log [] = Unit {0}
HoldFrom count id log (p ∷ ps) =
    ((s : Slot) → replay (place count id) log s ≡ filled p) × HoldFrom count (id + 1) log ps

-- The log `after` is `before` with new writes behind it and one doorbell for `last` at the end: behind it the
-- slots of the ids from `first` on hold the packets, and no new event writes to any other slot.
pub record Fills (count first : ℕ) (packets : List Packet) (last : ℕ) (before after : List Event)
    : Type 0 where
  pub new : List Event
  pub appended : after ≡ (before ++ new) ++ (ring_doorbell last ∷ [])
  pub one_doorbell : All (λ e. is_doorbell e ≡ false) new
  pub held : HoldFrom count first after packets
  pub others :
      (offset : ℕ)
      → ((id : ℕ) → first ≤ id → id < first + length packets → AreApart offset (place count id))
      → All (LeavesAlone offset) new

module _ (offset : ℕ) where
  replay-append :
      (xs ys : List Event) (s : Slot)
      → replay offset (xs ++ ys) s ≡ replay offset ys (replay offset xs s)
  replay-append [] ys s = refl
  replay-append (x ∷ xs) ys s = replay-append xs ys (see offset x s)

  replay-LeavesAlone :
      (es : List Event) (s : Slot) → All (LeavesAlone offset) es → replay offset es s ≡ s
  unfolding see
  replay-LeavesAlone [] s h = refl
  replay-LeavesAlone (store_header at w ∷ es) s (h, hs) =
      let miss : (at == offset) ≡ false = ground (arith, h) in rw miss (replay-LeavesAlone es s hs)
  replay-LeavesAlone (copy_body at p ∷ es) s (h, hs) =
      let miss : (at == offset) ≡ false = ground (arith, h) in rw miss (replay-LeavesAlone es s hs)
  replay-LeavesAlone (ring_doorbell id ∷ es) s (h, hs) = replay-LeavesAlone es s hs

  -- A publication leaves the packet in its slot, if nothing behind it writes there.
  pub publish_packet-filled :
      (p : Packet) (es : List Event) (s : Slot)
      → All (LeavesAlone offset) es
      → replay offset (publish_packet offset p ++ es) s ≡ filled p
  unfolding publish_packet see
  publish_packet-filled p es s h =
      let hit : (offset == offset) ≡ true = ground arith in
      rw hit (replay-LeavesAlone es (filled p) h)

  pub publish_packet-LeavesAlone :
      (at : ℕ) (p : Packet) → AreApart at offset → All (LeavesAlone offset) (publish_packet at p)
  unfolding publish_packet
  publish_packet-LeavesAlone at p h = (h, (h, (h, tt)))

pub HoldFrom-behind :
    (count id : ℕ) (before es : List Event) (ps : List Packet)
    → HoldFrom count id es ps
    → HoldFrom count id (before ++ es) ps
HoldFrom-behind count id before es [] h = tt
HoldFrom-behind count id before es (p ∷ ps) (h, hs) = (
  (λ s. replay-append (place count id) before es s ∙ h (replay (place count id) before s)),
  HoldFrom-behind count (id + 1) before es ps hs,
)

HoldFrom-doorbell :
    (count id last : ℕ) (es : List Event) (ps : List Packet)
    → HoldFrom count id es ps
    → HoldFrom count id (es ++ (ring_doorbell last ∷ [])) ps
unfolding see
HoldFrom-doorbell count id last es [] h = tt
HoldFrom-doorbell count id last es (p ∷ ps) (h, hs) = (
  (λ s. replay-append (place count id) es (ring_doorbell last ∷ []) s ∙ h s),
  HoldFrom-doorbell count (id + 1) last es ps hs,
)

-- New writes that hold the packets, in a log.
pub held-Fills :
    (count first last : ℕ) (packets : List Packet) (before new : List Event)
    → All (λ e. is_doorbell e ≡ false) new
    → HoldFrom count first new packets
    → ((offset : ℕ)
        → ((id : ℕ) → first ≤ id → id < first + length packets → AreApart offset (place count id))
        → All (LeavesAlone offset) new)
    → Fills count first packets last before ((before ++ new) ++ (ring_doorbell last ∷ []))
held-Fills count first last packets before new quiet held others = record {
  new = new;
  appended = refl;
  one_doorbell = quiet;
  held =
      HoldFrom-doorbell count first last (before ++ new) packets
        (HoldFrom-behind count first before new packets held);
  others = others;
}

-- Two ids less than one ring apart have slots that share no byte.
pub place-AreApart :
    (count i j : ℕ) → i < j → j < i + count → AreApart (place count i) (place count j)
place-AreApart count i j h k =
    let differ : i % count ≢ j % count =
      λ e. omega (arith, mod-injective_near count i j e (omega arith) k) in
    ground (arith, differ)
