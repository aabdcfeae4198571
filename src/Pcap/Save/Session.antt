-- ===== src/Pcap/Save/Session.antt =====
-- A capture that the buttons start and stop, that is saved, and whose file is opened again.
use mini_wireshark.Base.{
  ℕ, ◌≡◌, ◌≢◌, refl, ◌∙◌, sym, ap, true, false, List, [], ◌∷◌, ◌++◌, Option, none, some,
}
use mini_wireshark.Qt.{Qt, QString}
use mini_wireshark.Packet.Memory.{Bytes, Endian}
use mini_wireshark.Packet.Rows.{Header}
use mini_wireshark.Worker.Event.{Worker, Event, Handle}
use mini_wireshark.Worker.Handler.{capture_loop}
use mini_wireshark.Worker.Session.{Answers, delivered, set_capture}
use mini_wireshark.Capture.Model
use mini_wireshark.Pcap.State
use mini_wireshark.Pcap.State.{Pcap, deliver, deliver_all}
use mini_wireshark.Pcap.Offline.{read_loop, pcap_file_read}
use mini_wireshark.Pcap.Control.{new_worker, create_th, stop_th, stop_handle, reset_md, clear_all}
use mini_wireshark.Pcap.Live.{absorb, read_loop-absorb, deliver_all-append}
use mini_wireshark.Pcap.Sessions.{SameList, deliver_all-SameList, set_capture-read_loop}
use mini_wireshark.Pcap.Save.{save_md}
use mini_wireshark.Pcap.Save.RoundTrip.{AllWhole, read_loop-save_md}

-- What no message changes: the stop flag, the counter, and what the model is when it is emptied.
abbrev SameRest : Pcap → Pcap → Type 0
SameRest s t = (s.stop_flag ≡ t.stop_flag) × (s.num ≡ t.num) × (Model.reset s.md ≡ Model.reset t.md)

deliver-SameRest : (s : Pcap) (m : Event) → SameRest (deliver s m) s
unfolding deliver State.update_md Model.update_md Model.reset
deliver-SameRest s (Event.update_md pkt) = (refl, refl, refl)
deliver-SameRest s (Event.dump_push_back d) = (refl, refl, refl)
deliver-SameRest s (Event.set_wk_pp h) = (refl, refl, refl)
deliver-SameRest s (Event.set_wk_life b) = (refl, refl, refl)
deliver-SameRest s (Event.set_wk_flag b) = (refl, refl, refl)

deliver_all-SameRest : (s : Pcap) (ms : List Event) → SameRest (deliver_all s ms) s
unfolding deliver_all
deliver_all-SameRest s [] = (refl, refl, refl)
deliver_all-SameRest s (m ∷ ms) =
    let later = deliver_all-SameRest (deliver s m) ms in
    let now = deliver-SameRest s m in (later.0 ∙ now.0, later.1 ∙ now.1, later.2 ∙ now.2)

deliver-wk_life :
    (s t : Pcap) (m : Event) → s.wk_life ≡ t.wk_life → (deliver s m).wk_life ≡ (deliver t m).wk_life
unfolding deliver
deliver-wk_life s t (Event.set_wk_life b) same = refl
deliver-wk_life s t (Event.update_md pkt) same = same
deliver-wk_life s t (Event.dump_push_back d) same = same
deliver-wk_life s t (Event.set_wk_pp h) same = same
deliver-wk_life s t (Event.set_wk_flag b) same = same

deliver_all-wk_life :
    (s t : Pcap) (ms : List Event)
    → s.wk_life ≡ t.wk_life
    → (deliver_all s ms).wk_life ≡ (deliver_all t ms).wk_life
unfolding deliver_all
deliver_all-wk_life s t [] same = same
deliver_all-wk_life s t (m ∷ ms) same =
    deliver_all-wk_life (deliver s m) (deliver t m) ms (deliver-wk_life s t m same)

-- A stop that finds a handle sets the stop flag, and leaves the list and the life flag.
stop_handle-some :
    (s : Pcap) (h : Handle) (k : ℕ)
    → (stop_handle s h).1 ≡ some k
    → ((stop_handle s h).0.stop_flag ≡ true)
      × ((stop_handle s h).0.wk_life ≡ s.wk_life)
      × SameList (stop_handle s h).0 s
      × ((stop_handle s h).0.num ≡ s.num)
unfolding stop_handle
stop_handle-some s none k is = absurd (cc is)
stop_handle-some s (some h) k is = (refl, refl, (refl, refl), refl)

-- A session in whose course, behind the messages `before`, the stop button is clicked.
abbrev pub stopped : Pcap → List Event → List Event → Pcap
stopped s before after = deliver_all (stop_th (deliver_all s before)).0 after

stopped_end :
    (s : Pcap) (before after : List Event) (k : ℕ)
    → (stop_th (deliver_all s before)).1 ≡ some k
    → SameList (stopped s before after) (deliver_all s (before ++ after))
      × ((stopped s before after).wk_life ≡ (deliver_all s (before ++ after)).wk_life)
      × ((stopped s before after).stop_flag ≡ true)
      × ((stopped s before after).num ≡ s.num)
      × (Model.reset (stopped s before after).md ≡ Model.reset s.md)
unfolding stop_th
stopped_end s before after k is =
    let mid : Pcap = deliver_all s before in
    let halted : Pcap = (stop_handle mid mid.wk_pp).0 in
    let (flag, life, same, num) = stop_handle-some mid mid.wk_pp k is in
    let rest = deliver_all-SameRest halted after in
    let first = deliver_all-SameRest s before in
    rw (deliver_all-append s before after) (
      deliver_all-SameList halted mid after same,
      deliver_all-wk_life halted mid after life,
      rest.0 ∙ flag,
      rest.1 ∙ num ∙ first.1,
      rest.2 ∙ ap Model.reset same.0 ∙ first.2,
    )

module _ (e : Endian) (q : Qt) where
  absorb-SameList :
      (s s' t : Pcap) (r : Option (Worker × List Event))
      → SameList s s'
      → absorb s r ≡ some t
      → (t' : Pcap) × (absorb s' r ≡ some t') × SameList t' t
  absorb-SameList s s' t none same is = absurd (cc is)
  absorb-SameList s s' t (some (wk, posted)) same is =
      let one : record (deliver_all s posted) { num = wk.num } ≡ t = cc is in
      let (md, dumps) = deliver_all-SameList s s' posted same in
      (
        record (deliver_all s' posted) { num = wk.num },
        refl,
        (sym md ∙ ap (λ u. u.md) one, sym dumps ∙ ap (λ u. u.vec_dump) one),
      )

  -- What reading adds depends on the list and the counter alone.
  read_loop-SameList :
      (s s' t : Pcap) (wk : Worker) (ps : List (Header × Bytes))
      → SameList s s'
      → s.num ≡ s'.num
      → read_loop e q s ps ≡ some t
      → (t' : Pcap) × (read_loop e q s' ps ≡ some t') × SameList t' t
  read_loop-SameList s s' t wk ps same num is =
      let r : Option (Worker × List Event) = capture_loop e q (record wk { num = s.num }) ps in
      let (t', done, shown) =
        absorb-SameList s s' t r same (sym (read_loop-absorb e q ps s wk) ∙ is) in
      let start : capture_loop e q (record wk { num = s'.num }) ps ≡ r = rw num refl in
      (t', read_loop-absorb e q ps s' wk ∙ ap (absorb s') start ∙ done, shown)

  reset_md-dead : (u : Pcap) → u.wk_life ≡ false → reset_md u ≡ clear_all u
  unfolding reset_md
  reset_md-dead u dead = rw dead refl

  -- A file with what reading in s showed, opened in an emptied state that is s but for the handles
  -- and the flags.
  opened_file :
      (s t u : Pcap) (f : ℕ) (records : List (Header × Bytes))
      → u.wk_life ≡ false
      → s.md ≡ Model.reset u.md
      → s.vec_dump ≡ []
      → s.num ≡ u.num
      → read_loop e q s records ≡ some t
      → (t' : Pcap) × (pcap_file_read e q (reset_md u) (some (f, records)) ≡ some t')
        × SameList t' t
  unfolding pcap_file_read
  opened_file s t u f records dead rows empty num is =
      let emptied : Pcap = record (clear_all u) { p_pcap = some f } in
      let (t', done, shown) =
        read_loop-SameList s emptied t (new_worker [] []) records (rows, empty) num is in
      (record t' { p_pcap = none; num = 0 }, rw (reset_md-dead u dead, done) refl, shown)

  session_saved :
      (s : Pcap) (wk wk' : Worker) (a : Answers) (handle k f : ℕ) (before after : List Event)
      → s.num ≡ wk.num
      → s.vec_dump ≡ []
      → s.md ≡ Model.reset s.md
      → a.opened ≡ some handle
      → AllWhole (delivered wk.bfs_ft a)
      → set_capture e q wk a ≡ some (wk', before ++ after)
      → (stop_th (deliver_all s before)).1 ≡ some k
      → (stopped s before after).vec_dump ≢ []
      → (records : List (Header × Bytes)) × (t : Pcap) × (save_md (stopped s before after) true
          ≡ some (some records))
        × (pcap_file_read e q (reset_md (stopped s before after)) (some (f, records)) ≡ some t)
        × SameList t (stopped s before after)
  session_saved s wk wk' a handle k f before after num empty fresh opened whole run clicked
        some_data =
      let u : Pcap = stopped s before after in
      let (t, read, same, dead, _) =
        set_capture-read_loop e q s wk wk' a handle (before ++ after) opened num run in
      let (list, life, flag, kept, cleared) = stopped_end s before after k clicked in
      let dumps : u.vec_dump ≡ t.vec_dump = list.1 ∙ same.1 in
      let (records, saved, again) =
        read_loop-save_md e q (delivered wk.bfs_ft a) s t u whole read empty
          (λ none. some_data (dumps ∙ none)) dumps flag in
      let (t', done, shown) =
        opened_file s t u f records (life ∙ dead) (fresh ∙ sym cleared) empty (sym kept) again in
      (records, t', saved, done, (shown.0 ∙ sym (list.0 ∙ same.0), shown.1 ∙ sym dumps))

  -- A capture is started on an interface that opens, with a filter or without, in a state whose
  -- counter stands at 0; its thread ends without a fault and the stop button finds its handle at any
  -- point among the messages of the thread. If every packet that the filter let through was captured
  -- whole and something has been stored, then saving writes a file, and clearing the list and
  -- opening that file shows the same rows, with the same flags of the sort buttons, and stores the
  -- same packets under the same numbers.
  pub save_md-pcap_file_read :
      (s : Pcap) (c : ℕ) (name filter : QString) (wk' : Worker) (a : Answers) (handle k f : ℕ)
      (before after : List Event)
      → s.num ≡ 0
      → a.opened ≡ some handle
      → AllWhole (delivered filter a)
      → set_capture e q (new_worker (c ∷ name) filter) a ≡ some (wk', before ++ after)
      → (stop_th (deliver_all (create_th s (c ∷ name) filter).0 before)).1 ≡ some k
      → (stopped (create_th s (c ∷ name) filter).0 before after).vec_dump ≢ []
      → (records : List (Header × Bytes)) × (t : Pcap) × (save_md
            (stopped (create_th s (c ∷ name) filter).0 before after)
            true
          ≡ some (some records))
        × (pcap_file_read e q
              (reset_md (stopped (create_th s (c ∷ name) filter).0 before after))
              (some (f, records))
            ≡ some t)
        × SameList t (stopped (create_th s (c ∷ name) filter).0 before after)
  unfolding create_th new_worker Model.reset State.set_stop_flag State.set_wk_flag
  save_md-pcap_file_read s c name filter wk' a handle k f before after num opened whole run clicked
        some_data =
      session_saved (create_th s (c ∷ name) filter).0 (new_worker (c ∷ name) filter) wk' a handle k
        f before after num refl refl opened whole run clicked some_data
