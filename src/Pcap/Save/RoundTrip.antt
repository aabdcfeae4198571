-- ===== src/Pcap/Save/RoundTrip.antt =====
-- What is written of the packets that were read, and reading it again.
use mathlib.Core.List.{map-append}
use mini_wireshark.Base.{
  ℕ, ◌≡◌, refl, ap, ◌∙◌, true, false, List, [], ◌∷◌, ◌++◌, map, Option, none, some, arith, length,
  take, append_assoc, append-nil, >>=-eq-some, ◌≢◌,
}
use mini_wireshark.Qt.{Qt}
use mini_wireshark.Packet.Memory.{Bytes, Endian}
use mini_wireshark.Packet.Rows.{Header, DumpData, byte_array}
use mini_wireshark.Worker.Handler.{Verdict, ignored, row}
use mini_wireshark.Pcap.State
use mini_wireshark.Pcap.State.{Pcap}
use mini_wireshark.Pcap.Offline.{classify, store, finish, packet_func, read_loop}
use mini_wireshark.Pcap.Save.{is_empty, dump_record, dump_loop, save_md}

-- All of the packet was captured.
abbrev pub IsWhole : Header × Bytes → Type 0
IsWhole (h, p) = (h.caplen ≡ length p) × (h.len ≡ length p)

abbrev pub AllWhole : List (Header × Bytes) → Type 0
AllWhole [] = Unit
AllWhole (x ∷ xs) = IsWhole x × AllWhole xs

take-length : (p : Bytes) → take (length p) p ≡ p
take-length [] = refl
take-length (x ∷ p) = ap (◌∷◌ x) (take-length p)

byte_array-whole : (p : Bytes) (n : ℕ) → n ≡ length p → byte_array p n ≡ some p
unfolding byte_array
byte_array-whole p n h = rw h (ground (arith, take-length p))

-- What a stored packet is written as, if all of it was captured.
abbrev pub as_record : DumpData → Header × Bytes
as_record d = (d.header, d.content)

AllWhole-append : (xs ys : List (Header × Bytes)) → AllWhole xs → AllWhole ys → AllWhole (xs ++ ys)
AllWhole-append [] ys h k = k
AllWhole-append (x ∷ xs) ys h k = (h.0, AllWhole-append xs ys h.1 k)

dump_loop-some :
    (vs : List DumpData) → AllWhole (map as_record vs) → dump_loop vs ≡ some (map as_record vs)
unfolding dump_loop dump_record
dump_loop-some [] h = refl
dump_loop-some (v ∷ vs) h =
    rw (byte_array-whole v.content v.header.caplen h.0.0, dump_loop-some vs h.1)

not_empty : (ds : List DumpData) → ds ≢ [] → is_empty ds ≡ false
not_empty [] h = absurd (h refl)
not_empty (d ∷ ds) h = refl

module _ (e : Endian) (q : Qt) where
  keep : Verdict → Header × Bytes → List (Header × Bytes) → List (Header × Bytes)
  keep ignored r rest = rest
  keep (row proto info) r rest = r ∷ rest

  keep_known : Option Verdict → Header × Bytes → List (Header × Bytes) → List (Header × Bytes)
  keep_known none r rest = rest
  keep_known (some v) r rest = keep v r rest

  -- The packets that are shown.
  shown : List (Header × Bytes) → List (Header × Bytes)
  shown [] = []
  shown ((h, p) ∷ rest) = keep_known (classify e q h p) (h, p) (shown rest)

  shown-AllWhole : (ps : List (Header × Bytes)) → AllWhole ps → AllWhole (shown ps)
  unfolding shown keep_known keep
  shown-AllWhole [] h = tt
  shown-AllWhole ((h, p) ∷ rest) whole = kept (classify e q h p) (shown-AllWhole rest whole.1)
    where
      kept :
          (v : Option Verdict) → AllWhole (shown rest) → AllWhole (keep_known v (h, p) (shown rest))
      kept none ih = ih
      kept (some ignored) ih = ih
      kept (some (row proto info)) ih = (whole.0, ih)

  -- One packet adds itself to the stored ones exactly if it is shown.
  finish-as_record :
      (s t : Pcap) (h : Header) (p : Bytes) (v : Verdict)
      → IsWhole (h, p)
      → finish e q s h p v ≡ some t
      → map as_record t.vec_dump ≡ map as_record s.vec_dump ++ keep v (h, p) []
  unfolding finish store keep State.update_md State.dump_push_back
  finish-as_record s t h p ignored whole done =
      ground (arith, append-nil (map as_record s.vec_dump))
  finish-as_record s t h p (row proto info) whole done = ground (
    arith,
    byte_array-whole p h.len whole.1,
    map-append as_record s.vec_dump (record { pkt_num = s.num; header = h; content = p } ∷ []),
  )

  keep-append :
      (v : Verdict) (r : Header × Bytes) (rest : List (Header × Bytes))
      → keep v r [] ++ rest ≡ keep v r rest
  unfolding keep
  keep-append ignored r rest = refl
  keep-append (row proto info) r rest = refl

  -- Reading packets appends those that are shown, whole, to the stored ones.
  read_loop-as_record :
      (ps : List (Header × Bytes)) (s t : Pcap)
      → AllWhole ps
      → read_loop e q s ps ≡ some t
      → map as_record t.vec_dump ≡ map as_record s.vec_dump ++ shown ps
  unfolding read_loop shown packet_func keep_known
  read_loop-as_record [] s t whole done = ground (arith, append-nil (map as_record s.vec_dump))
  read_loop-as_record ((h, p) ∷ rest) s t whole done =
      let (s', step, later) =
        >>=-eq-some (packet_func e q s h p) (λ s'. read_loop e q s' rest) done in
      let (v, is, fin) = >>=-eq-some (classify e q h p) (finish e q s h p) step in
      rw is (
        read_loop-as_record rest s' t whole.1 later
        ∙ ap (λ l. l ++ shown rest) (finish-as_record s s' h p v whole.0 fin)
        ∙ append_assoc (map as_record s.vec_dump) (keep v (h, p) []) (shown rest)
        ∙ ap (◌++◌ (map as_record s.vec_dump)) (keep-append v (h, p) (shown rest)))

  shown_step :
      (s s' t : Pcap) (h : Header) (p : Bytes) (v : Verdict) (rest : List (Header × Bytes))
      → finish e q s h p v ≡ some s'
      → packet_func e q s h p ≡ some s'
      → read_loop e q s' rest ≡ some t
      → read_loop e q s (keep v (h, p) rest) ≡ some t
  unfolding read_loop keep finish
  shown_step s s' t h p ignored rest fin step later = let same : s ≡ s' = cc fin in rw same later
  shown_step s s' t h p (row proto info) rest fin step later = rw step later

  -- The packets that are not shown change nothing.
  read_loop-shown :
      (ps : List (Header × Bytes)) (s t : Pcap)
      → read_loop e q s ps ≡ some t
      → read_loop e q s (shown ps) ≡ some t
  unfolding read_loop shown packet_func keep_known
  read_loop-shown [] s t done = done
  read_loop-shown ((h, p) ∷ rest) s t done =
      let (s', step, later) =
        >>=-eq-some (packet_func e q s h p) (λ s'. read_loop e q s' rest) done in
      let (v, is, fin) = >>=-eq-some (classify e q h p) (finish e q s h p) step in
      let after : read_loop e q s' (shown rest) ≡ some t = read_loop-shown rest s' t later in
      rw is (shown_step s s' t h p v (shown rest) fin step after)

  read_loop-records :
      (ps : List (Header × Bytes)) (s t : Pcap)
      → AllWhole ps
      → read_loop e q s ps ≡ some t
      → s.vec_dump ≡ []
      → map as_record t.vec_dump ≡ shown ps
  read_loop-records ps s t whole done empty =
      read_loop-as_record ps s t whole done ∙ ap (λ ds. map as_record ds ++ shown ps) empty

  -- Saving what reading wholly captured packets has stored writes records, and reading these in the
  -- same state gives the same.
  pub read_loop-save_md :
      (ps : List (Header × Bytes)) (s t u : Pcap)
      → AllWhole ps
      → read_loop e q s ps ≡ some t
      → s.vec_dump ≡ []
      → t.vec_dump ≢ []
      → u.vec_dump ≡ t.vec_dump
      → u.stop_flag ≡ true
      → (records : List (Header × Bytes)) × (save_md u true ≡ some (some records))
        × (read_loop e q s records ≡ some t)
  unfolding save_md
  read_loop-save_md ps s t u whole done empty some_data same stopped =
      let records : map as_record t.vec_dump ≡ shown ps =
        read_loop-records ps s t whole done empty in
      let kept : AllWhole (map as_record t.vec_dump) = rw records (shown-AllWhole ps whole) in
      let written : dump_loop t.vec_dump ≡ some (shown ps) =
        dump_loop-some t.vec_dump kept ∙ ap some records in
      (
        shown ps,
        rw (same, stopped, not_empty t.vec_dump some_data, written),
        read_loop-shown ps s t done,
      )
