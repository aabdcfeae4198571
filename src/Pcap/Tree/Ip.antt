-- ===== src/Pcap/Tree/Ip.antt =====
-- Pcap.cpp, Pcap::start_tree_md: the IPv4 part.
use mini_wireshark.Base.{
  ℕ, ◌*◌, ◌/◌, ◌%◌, ◌&&◌, List, [], ◌∷◌, Option, some, leb, ◌==◌, if◌then◌else◌, ◌>>=◌,
}
use mini_wireshark.Base.Int.{pos}
use mini_wireshark.Qt.{QString, qs, Qt}
use mini_wireshark.Packet.Memory.{Bytes, Endian, ntohs}
use mini_wireshark.Packet.Eh
use mini_wireshark.Packet.IpH
use mini_wireshark.Pcap.Checksum.{compute_ip_checksum}
use mini_wireshark.Pcap.Tree.Item.{Item, node, leaf}

-- `dscp >= 0` always holds.
unfoldable pub dscp_name : ℕ → QString
dscp_name dscp =
    if leb dscp 7
    then qs "CS0"
    else if leb 8 dscp && leb dscp 15
    then qs "CS1"
    else if leb 16 dscp && leb dscp 23
    then qs "CS2"
    else if leb 24 dscp && leb dscp 31
    then qs "CS3"
    else if leb 32 dscp && leb dscp 39
    then qs "CS4"
    else if leb 40 dscp && leb dscp 47
    then qs "CS5"
    else if leb 48 dscp && leb dscp 55
    then qs "CS6"
    else if leb 56 dscp && leb dscp 63
    then qs "CS7"
    else []

unfoldable pub ecn_name : ℕ → QString
ecn_name ecn =
    if ecn == 0
    then qs "Not-ECT"
    else if ecn == 2
    then qs "ECT(0)"
    else if ecn == 1
    then qs "ECT(1)"
    else if ecn == 3
    then qs "CE"
    else []

-- `tos >> 2` and `tos & 0x03`
unfoldable pub tos_item : Qt → ℕ → Item
tos_item q tos =
    let dscp : ℕ = tos / 4 in
    let ecn : ℕ = tos % 4 in
    let hex : QString =
      q.arg (qs "0x%1") (q.right_justified (q.to_upper (q.number_base tos 16)) 2 b'0') in
    node
      (q.arg
        (q.arg (q.arg (qs "Differentiated Services Field: %1 (DSCP: %2, ECN: %3)") hex)
          (dscp_name dscp))
        (ecn_name ecn))
      (leaf (
          q.arg_int (q.arg (qs "Differentiated Services Codepoint: %1 (%2)") (dscp_name dscp))
            (pos dscp))
        ∷ leaf (
            q.arg_int (q.arg (qs "Explicit Congestion Notification: %1 (%2)") (ecn_name ecn))
              (pos ecn))
        ∷ [])

unfoldable pub flag_meaning : ℕ → QString
flag_meaning flags =
    if flags / 2 % 2 == 1
    then qs "Don't fragment"
    else if flags % 2 == 1
    then qs "More fragments"
    else qs "None"

-- "Not Set" for a bit that is 0.
unfoldable pub set_or_not : ℕ → QString
set_or_not bit = if bit == 0 then qs "Not Set" else qs "Set"

-- `(frag & 0xE000) >> 13` of a uint16_t; its bits are the reserved one, DF and MF.
unfoldable pub frag_flags : ℕ → ℕ
frag_flags frag = frag % 65536 / 8192

unfoldable pub flag_item : Qt → ℕ → Item
unfolding flag_meaning set_or_not
flag_item q flags =
    node (q.arg (q.arg_width (qs "Flags: 0x%1, %2") flags 0 16 b' ') (flag_meaning flags)) (
      leaf (q.arg (qs "Reserved bit: %1") (set_or_not (flags / 4 % 2)))
      ∷ leaf (q.arg (qs "Don't fragment: %1") (set_or_not (flags / 2 % 2)))
      ∷ leaf (q.arg (qs "More fragments: %1") (set_or_not (flags % 2)))
      ∷ [])

unfoldable pub proto_name : ℕ → QString
proto_name proto =
    if proto == 6
    then qs "TCP (6)"
    else if proto == 17
    then qs "UDP (17)"
    else if proto == 1
    then qs "ICMP (1)"
    else []

unfoldable pub check_name : ℕ → QString
check_name ret_check = if ret_check == 0 then qs "Good" else qs "Bad"

-- What the source reads for the part, in its order.
pub record IpFields : Type 0 where
  pub saddr : List ℕ
  pub daddr : List ℕ
  pub version : ℕ
  pub ihl : ℕ
  pub tos : ℕ
  pub tot_len : ℕ
  pub id : ℕ
  pub frag_off : ℕ
  pub ttl : ℕ
  pub protocol : ℕ
  pub check : ℕ
  pub ret_check : ℕ

unfoldable pub ip_fields : Endian → Bytes → Option IpFields
ip_fields e p = do
  saddr ← IpH.saddr p Eh.size
  daddr ← IpH.daddr p Eh.size
  version ← IpH.version e p Eh.size
  ihl ← IpH.ihl e p Eh.size
  tos ← IpH.tos p Eh.size
  tot_len ← IpH.tot_len e p Eh.size
  id ← IpH.id e p Eh.size
  frag_off ← IpH.frag_off e p Eh.size
  ttl ← IpH.ttl p Eh.size
  protocol ← IpH.protocol p Eh.size
  check ← IpH.check e p Eh.size
  ret_check ← compute_ip_checksum p Eh.size (ihl * 4)
  some (record {
    saddr = saddr;
    daddr = daddr;
    version = version;
    ihl = ihl;
    tos = tos;
    tot_len = ntohs e tot_len;
    id = ntohs e id;
    frag_off = ntohs e frag_off;
    ttl = ttl;
    protocol = protocol;
    check = ntohs e check;
    ret_check = ret_check;
  })

unfoldable pub ip_item : Qt → IpFields → Item
ip_item q f =
    let src : QString = q.inet_ntoa f.saddr in
    let dst : QString = q.inet_ntoa f.daddr in
    node
      (q.arg
        (q.arg
          (q.arg_int (qs "Internet Protocol Version %1,    Src: %2,    Dst: %3") (pos f.version))
          src)
        dst)
      (leaf (q.arg_int (qs "Version: %1") (pos f.version))
        ∷ leaf (
            q.arg_int (q.arg_int (qs "Header Length: %1    bytes (%2)") (pos (f.ihl * 4)))
              (pos f.ihl))
        ∷ tos_item q f.tos
        ∷ leaf (q.arg_int (qs "Total Length: %1") (pos f.tot_len))
        ∷ leaf (q.arg_int (q.arg_width (qs "Identification: 0x%1 (%2)") f.id 4 16 b'0') (pos f.id))
        ∷ flag_item q (frag_flags f.frag_off)
        ∷ leaf (q.arg_int (qs "Time to Live: %1") (pos f.ttl))
        ∷ leaf (q.arg (qs "Protocol: %1") (proto_name f.protocol))
        ∷ leaf (
            q.arg (q.arg_width (qs "Header Checksum: 0x%1 [%2]") f.check 4 16 b'0')
              (check_name f.ret_check))
        ∷ leaf (q.arg (qs "[Header checksum status: %1]") (check_name f.ret_check))
        ∷ leaf (q.arg (qs "Source Address: %1") src)
        ∷ leaf (q.arg (qs "Destination Address: %1") dst)
        ∷ [])
