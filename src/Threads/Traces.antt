-- ===== src/Threads/Traces.antt =====
-- The threads of a system, each with the trace of its own steps.
use mini_wireshark.Base.{ℕ, ◌≡◌, refl, List, [], ◌⊎◌, inl, inr, ==_iff, Bool-cases, ◌==◌}
use mini_wireshark.Qt.{Qt}
use mini_wireshark.Packet.Memory.{Bytes, Endian}
use mini_wireshark.Packet.Rows.{Header}
use mini_wireshark.Worker.Event.{Worker, Event}
use mini_wireshark.Threads.System.{
  Shared, Pc, unborn, starting, Move, open_fails, tell_death, tell_flag, open_live, tell_handle,
  tell_life, start_loop, refuse_filter, packet, end_loop, close, call_back, wake, tell_end, System,
  Run, begin, later, click, create, work, move_to,
}
use mini_wireshark.Pcap.Control.{new_worker}
use mini_wireshark.Threads.Refines.{Trace, at_start, Move-Trace}

module _ (e : Endian) (q : Qt) where
  unborn_stays :
      {i : ℕ} {s t : Shared} {p p' : Pc} {packets : List (Header × Bytes)}
      → Move e q i s p packets t p'
      → p ≡ unborn
      → ⊥
  unborn_stays open_fails is = cc
  unborn_stays tell_death is = cc
  unborn_stays tell_flag is = cc
  unborn_stays (open_live h unused) is = cc
  unborn_stays tell_handle is = cc
  unborn_stays tell_life is = cc
  unborn_stays start_loop is = cc
  unborn_stays (refuse_filter some_filter) is = cc
  unborn_stays (packet header bytes done) is = cc
  unborn_stays end_loop is = cc
  unborn_stays close is = cc
  unborn_stays call_back is = cc
  unborn_stays (wake free) is = cc
  unborn_stays tell_end is = cc

  -- A thread that has not begun, or that has a trace to where it stands.
  abbrev Traced : ℕ → Pc → Type 0
  Traced i p =
      (p ≡ unborn)
      ⊎ ((wk0 : Worker) × (seen : List (Header × Bytes)) × (posted : List Event) × Trace e q i wk0
            seen posted p)

  Move-Traced :
      {i : ℕ} {s t : Shared} {p p' : Pc} {packets : List (Header × Bytes)}
      → Move e q i s p packets t p'
      → Traced i p
      → Traced i p'
  Move-Traced mv (inl is) = absurd (unborn_stays mv is)
  Move-Traced mv (inr (wk0, seen, posted, r)) =
      let (posted', r') = Move-Trace e q mv r in inr (wk0, _, posted', r')

  moved_to :
      (f : ℕ → Pc) (i j : ℕ) (p : Pc) → Traced i p → Traced j (f j) → Traced j (move_to f i p j)
  moved_to f i j p new old = elim (Bool-cases (i == j)) [
    | inl here ↦ let same : i ≡ j = (==_iff i j).0 here in rw here (rw same at new)
    | inr other ↦ rw other old
  ]

  -- In every state that clicks, files and threads lead to, in any order, each thread that has begun
  -- has such a trace.
  Run-Traced : {s : System} → Run e q s → (i : ℕ) → Traced i (s.pc i)
  Run-Traced begin i = inl refl
  Run-Traced (later r (click u)) i = Run-Traced r i
  Run-Traced (later {s} r (create name filter some_name)) i =
      moved_to s.pc s.count i (starting (new_worker name filter))
        (inr (new_worker name filter, [], [], at_start)) (Run-Traced r i)
  Run-Traced (later {s} r (work j {p} mv)) i =
      moved_to s.pc j i p (Move-Traced mv (Run-Traced r j)) (Run-Traced r i)
