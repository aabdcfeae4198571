-- ===== src/Worker/Outcome.antt =====
-- Worker::my_packet_handler as a whole: the row and the copy that it posts for a packet, and the
-- reads outside of the buffer that the source does not guard against.
use mini_wireshark.Base.{ℕ, ◌+◌, ◌≤◌, ◌<◌, ◌≡◌, refl, some, arith, length, take, List, [], ◌∷◌}
use mini_wireshark.Qt.{Qt, QString}
use mini_wireshark.Packet.Memory.{
  Bytes, Endian, AreBytes, be16, quad, load16-some, load_addr-some, ntohs-word16,
}
use mini_wireshark.Packet.IpH
use mini_wireshark.Packet.Rows.{Header, StPkt, byte_array, increment, int_max}
use mini_wireshark.Worker.Event.{Worker, Event, update_md, dump_push_back}
use mini_wireshark.Worker.Handler.{Verdict, ignored, row, post, finish, my_packet_handler}
use mini_wireshark.Worker.Wire.{wire_verdict, IsComplete}
use mini_wireshark.Worker.Agreement.{classify-wire}

-- The row of a packet, in wire terms.
abbrev pub wire_row : Qt → Bytes → ℕ → QString → QString → StPkt
wire_row q p num proto info = record {
  num = num;
  src = q.inet_ntoa (quad p 26);
  dst = q.inet_ntoa (quad p 30);
  proto = proto;
  len = be16 p 16 + 14;
  info = info;
}

-- The worker and its messages behind a packet: nothing for an ignored one; else the next number,
-- the row, and the first `len` bytes of the packet.
abbrev pub outcome : Qt → Worker → Header → Bytes → Verdict → Worker × List Event
outcome q wk h p ignored = (wk, [])
outcome q wk h p (row proto info) = (
  record wk { num = wk.num + 1 },
  update_md (wire_row q p wk.num proto info)
      ∷ dump_push_back (record { pkt_num = wk.num; header = h; content = take h.len p })
      ∷ [],
)

module _ (e : Endian) (q : Qt) (wk : Worker) (h : Header) (p : Bytes) (bytes : AreBytes p)
    (cap : h.caplen ≡ length p) where
  post-wire :
      (proto info : QString)
      → 34 ≤ length p
      → h.len ≤ length p
      → wk.num < int_max
      → post e q wk h p proto info ≡ some (outcome q wk h p (row proto info))
  unfolding post byte_array increment IpH.saddr IpH.daddr IpH.tot_len
  post-wire proto info big whole room =
      rw
        (
          load_addr-some p 26 (omega arith),
          load_addr-some p 30 (omega arith),
          load16-some e p 16 (omega arith),
          ntohs-word16 e p 16 bytes,
        )
        (ground arith)

  finish-wire :
      (v : Verdict)
      → wire_verdict q p ≡ v
      → h.len ≤ length p
      → wk.num < int_max
      → finish e q wk h p v ≡ some (outcome q wk h p v)
  unfolding finish wire_verdict
  finish-wire ignored is whole room = refl
  finish-wire (row proto info) is whole room = post-wire proto info (shown is) whole room
    where
      shown : wire_verdict q p ≡ row proto info → 34 ≤ length p
      shown is = ground arith

  -- For a packet of bytes whose buffer holds what the handler reads and what it copies, and a
  -- counter below the greatest int: the handler does not fault, it posts the row of the wire format
  -- and the copy of a supported packet under the worker's number and counts it, and it ignores any
  -- other packet.
  pub my_packet_handler-wire :
      IsComplete p
      → h.len ≤ length p
      → wk.num < int_max
      → my_packet_handler e q wk h p ≡ some (outcome q wk h p (wire_verdict q p))
  unfolding my_packet_handler
  my_packet_handler-wire full whole room =
      rw (classify-wire e q h p bytes cap full) (finish-wire (wire_verdict q p) refl whole room)
