-- ===== src/Pcap/Tree/Tcp.antt =====
-- Pcap.cpp, Pcap::start_tree_md: the TCP part. `o` is the offset of the TCP header.
use mini_wireshark.Base.{
  ℕ, ◌+◌, ◌*◌, String, List, [], ◌∷◌, ◌++◌, Option, some, ◌==◌, if◌then◌else◌, ◌>>=◌,
}
use mini_wireshark.Base.Int.{ℤ, pos, sub_ℕ}
use mini_wireshark.Qt.{QString, qs, Qt}
use mini_wireshark.Packet.Memory.{Bytes, Endian, ntohs, ntohl}
use mini_wireshark.Packet.Eh
use mini_wireshark.Packet.IpH
use mini_wireshark.Packet.TcpH
use mini_wireshark.Pcap.Tree.Item.{Item, node, leaf}

-- The header fields, in host order; each flag is 0 or 1.
pub record TcpFields : Type 0 where
  pub source : ℕ
  pub dest : ℕ
  pub seq : ℕ
  pub ack_seq : ℕ
  pub res1 : ℕ
  pub doff : ℕ
  pub fin : ℕ
  pub syn : ℕ
  pub rst : ℕ
  pub psh : ℕ
  pub ack : ℕ
  pub urg : ℕ
  pub ece : ℕ
  pub cwr : ℕ
  pub window : ℕ
  pub payload : ℤ

unfoldable pub tcp_fields : Endian → Bytes → ℕ → Option TcpFields
tcp_fields e p o = do
  tot_len ← IpH.tot_len e p Eh.size
  ihl ← IpH.ihl e p Eh.size
  doff ← TcpH.doff e p o
  source ← TcpH.source e p o
  dest ← TcpH.dest e p o
  seq ← TcpH.seq e p o
  ack_seq ← TcpH.ack_seq e p o
  cwr ← TcpH.cwr e p o
  ece ← TcpH.ece e p o
  urg ← TcpH.urg e p o
  ack ← TcpH.ack e p o
  psh ← TcpH.psh e p o
  rst ← TcpH.rst e p o
  syn ← TcpH.syn e p o
  fin ← TcpH.fin e p o
  res1 ← TcpH.res1 e p o
  window ← TcpH.window e p o
  some (record {
    source = ntohs e source;
    dest = ntohs e dest;
    seq = ntohl e seq;
    ack_seq = ntohl e ack_seq;
    res1 = res1;
    doff = doff;
    fin = fin;
    syn = syn;
    rst = rst;
    psh = psh;
    ack = ack;
    urg = urg;
    ece = ece;
    cwr = cwr;
    window = ntohs e window;
    payload = sub_ℕ (ntohs e tot_len) (ihl * 4 + doff * 4);
  })

-- The flags put together: `(cwr << 7) | … | fin`, where no two operands share a bit.
unfoldable pub flag_value : TcpFields → ℕ
flag_value f =
    f.cwr * 128 + f.ece * 64 + f.urg * 32 + f.ack * 16 + f.psh * 8 + f.rst * 4 + f.syn * 2 + f.fin

-- `if (flag) list << name;`
unfoldable pub named : ℕ → String → List QString → List QString
named flag name rest = if flag == 0 then rest else qs name ∷ rest

unfoldable pub flag_names : TcpFields → List QString
flag_names f = named f.fin "FIN" (
    named f.syn "SYN" (
      named f.rst "RST" (
        named f.psh "PSH"
          (named f.ack "ACK" (named f.urg "URG" (named f.ece "ECE" (named f.cwr "CWR" [])))))))

-- `flag ? "… Set" : "… Not set"`
unfoldable pub flag_leaf : ℕ → String → Item
flag_leaf flag name = leaf (if flag == 0 then qs name ++ qs ": Not set" else qs name ++ qs ": Set")

unfoldable pub reserved_leaf : Qt → ℕ → Item
reserved_leaf q res1 =
    leaf
      (if res1 == 0 then qs "Reserved: Not set" else q.arg_int (qs "Reserved: Set (%1)") (pos res1))

unfoldable pub flags_item : Qt → TcpFields → Item
unfolding flag_value flag_names
flags_item q f =
    node
      (q.arg (q.arg_width (qs "Flags: 0x%1 (%2)") (flag_value f) 4 16 b'0')
        (q.join (flag_names f) (qs ", ")))
      (reserved_leaf q f.res1
        ∷ flag_leaf f.cwr "Congestion Window Reduced (CWR)"
        ∷ flag_leaf f.ece "ECN Echo (ECE)"
        ∷ flag_leaf f.urg "Urgent (URG)"
        ∷ flag_leaf f.ack "Acknowledgment (ACK)"
        ∷ flag_leaf f.psh "Push (PSH)"
        ∷ flag_leaf f.rst "Reset (RST)"
        ∷ flag_leaf f.syn "Syn (SYN)"
        ∷ flag_leaf f.fin "Fin (FIN)"
        ∷ [])

unfoldable pub tcp_item : Qt → TcpFields → Item
tcp_item q f =
    let src : QString = q.number (pos f.source) in
    let dst : QString = q.number (pos f.dest) in
    let seq : QString = q.number (pos f.seq) in
    let ack : QString = q.number (pos f.ack_seq) in
    let len : QString = q.number f.payload in
    node
      (q.arg
        (q.arg
          (q.arg
            (q.arg
              (q.arg
                (qs
                  "Transmission Control Protocol, Src Port: %1, Dst Port: %2, Seq: %3, Ack: %4, Len: %5")
                src)
              dst)
            seq)
          ack)
        len)
      (leaf (q.arg (qs "Source Port: %1") src)
        ∷ leaf (q.arg (qs "Destination Port: %1") dst)
        ∷ leaf (q.arg (qs "[Tcp Segment Len: %1]") len)
        ∷ leaf (q.arg (qs "Sequence Number: %1") seq)
        ∷ leaf (q.arg (qs "Acknowledgment Number: %1") ack)
        ∷ leaf (q.arg (qs "Header Length: %1") (q.number (pos (f.doff * 4))))
        ∷ flags_item q f
        ∷ leaf (q.arg_int (qs "Window: %1") (pos f.window))
        ∷ [])
