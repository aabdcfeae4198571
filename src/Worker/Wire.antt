-- ===== src/Worker/Wire.antt =====
-- An independent description of a packet row: the wire format, with every field at its place in
-- network order, for a packet of which all bytes are at hand.
use mini_wireshark.Base.{
  ℕ, String, List, ◌∷◌, Bool, ◌+◌, ◌*◌, ◌/◌, ◌%◌, ◌≤◌, ◌≡◌, [], ◌++◌, length, leb, ◌==◌,
  if◌then◌else◌, ◌&&◌, ◌||◌,
}
use mini_wireshark.Base.Int.{ℤ, pos, sub_ℕ}
use mini_wireshark.Qt.{QString, qs, Qt}
use mini_wireshark.Packet.Memory.{Bytes, byte, be16, be32}
use mini_wireshark.Worker.Handler.{Verdict, ignored, row}

-- The name that a table gives for a number, or the empty text.
abbrev pub table : List (ℕ × String) → ℕ → QString
table [] n = []
table ((k, name) ∷ more) n = if n == k then qs name else table more n

-- The number of 32-bit words of the IP header, and the offset of the header behind it.
abbrev pub words : Bytes → ℕ
words p = byte p 14 % 16

abbrev pub behind : Bytes → ℕ
behind p = 14 + words p * 4

-- The header length of a TCP header at `o`.
abbrev pub tcp_words : Bytes → ℕ → ℕ
tcp_words p o = byte p (o + 12) / 16

-- The bit of weight k in the flag byte.
abbrev pub tcp_flag : Bytes → ℕ → ℕ → ℕ
tcp_flag p o k = byte p (o + 12 + 1) / k % 2

-- The names of the bits that are set, in the order of the table, and the closing bracket.
abbrev pub marked : ℕ → List (ℕ × String) → QString
marked flags [] = qs "]   "
marked flags ((place, name) ∷ more) =
    let rest : QString = marked flags more in
    if flags / place % 2 == 0 then rest else qs name ++ rest

-- SYN, ACK, FIN, RST, PSH and URG; ECE and CWR are not shown.
unfoldable pub flags_shown : Bytes → ℕ → QString
flags_shown p o =
    qs "   [ "
    ++ marked (byte p (o + 12 + 1))
        ((2, "SYN ") ∷ (16, "ACK ") ∷ (1, "FIN ") ∷ (4, "RST ") ∷ (8, "PSH ") ∷ (32, "URG ") ∷ [])

-- The bytes that the total length leaves behind the two headers; negative for a wrong length.
abbrev pub payload : Bytes → ℕ → ℤ
payload p o = sub_ℕ (be16 p 16) (words p * 4 + tcp_words p o * 4)

unfoldable pub tcp_line : Qt → Bytes → ℕ → QString
tcp_line q p o =
    q.number (pos (be16 p o))
    ++ (qs " ---> "
        ++ (q.number (pos (be16 p (o + 2)))
            ++ (flags_shown p o
                ++ (qs "Seq="
                    ++ (q.number (pos (be32 p (o + 4)))
                        ++ (qs "   Ack="
                            ++ (q.number (pos (be32 p (o + 8)))
                                ++ (qs "   Win="
                                    ++ (q.number (pos (be16 p (o + 14)))
                                        ++ (qs "   Len=" ++ q.number (payload p o)))))))))))

unfoldable pub udp_line : Qt → Bytes → ℕ → QString
udp_line q p o =
    q.number (pos (be16 p o))
    ++ (qs " ---> "
        ++ (q.number (pos (be16 p (o + 2)))
            ++ (qs "   Len=" ++ q.number (sub_ℕ (be16 p (o + 4)) 8))))

unfoldable pub echo_line : Qt → Bytes → ℕ → QString
echo_line q p o =
    qs "id="
    ++ (q.number (pos (be16 p (o + 4)))
        ++ (qs "   "
            ++ (qs "seq="
                ++ (q.number (pos (be16 p (o + 6)))
                    ++ (qs "   " ++ (qs "ttl=" ++ q.number (pos (byte p 22))))))))

-- The types of ICMP messages that have a name.
abbrev pub message_types : List (ℕ × String)
message_types =
    (0, "Echo Reply")
    ∷ (3, "Destination Unreachable")
    ∷ (5, "Redirect")
    ∷ (8, "Echo Request")
    ∷ (11, "Time Exceeded")
    ∷ []

unfoldable pub icmp_tail : Qt → Bytes → ℕ → QString
icmp_tail q p o =
    if byte p o == 3
    then table ((0, "Network Unreachable") ∷ (1, "Host Unreachable") ∷ (3, "Port Unreachable") ∷ [])
        (byte p (o + 1))
    else if byte p o == 11
    then table ((0, "TTL exceeded") ∷ (1, "fragment reassembly time exceeded") ∷ [])
        (byte p (o + 1))
    else if byte p o == 0 || byte p o == 8
    then echo_line q p o
    else []

unfoldable pub icmp_line : Qt → Bytes → ℕ → QString
icmp_line q p o = (table message_types (byte p o) ++ qs "   ") ++ icmp_tail q p o

-- The TCP header is there, with its options.
abbrev pub tcp_fits : Bytes → ℕ → Bool
tcp_fits p o =
    leb (o + 20) (length p) && (leb 5 (tcp_words p o) && leb (o + tcp_words p o * 4) (length p))

unfoldable pub transport : Qt → Bytes → ℕ → Verdict
transport q p o =
    if byte p 23 == 6
    then (if tcp_fits p o then row (qs "TCP") (tcp_line q p o) else ignored)
    else if byte p 23 == 17
    then row (qs "UDP") (udp_line q p o)
    else if byte p 23 == 1
    then row (qs "ICMP") (icmp_line q p o)
    else ignored

-- The IPv4 header is there, with its options.
abbrev pub ip_fits : Bytes → Bool
ip_fits p =
    leb 14 (length p)
    && (be16 p 12 == 0x0800
        && (leb 34 (length p) && (leb 5 (words p) && leb (behind p) (length p))))

unfoldable pub wire_verdict : Qt → Bytes → Verdict
wire_verdict q p = if ip_fits p then transport q p (behind p) else ignored

-- The bytes behind the offset that an ICMP message is read to.
unfoldable pub icmp_needs : ℕ → ℕ
icmp_needs type =
    if type == 3 then 2 else if type == 11 then 2 else if type == 0 || type == 8 then 8 else 1

-- Where the source checks no length itself, the capture holds what it reads.
pub record IsComplete (p : Bytes) : Type 0 where
  pub udp : byte p 23 ≡ 17 → behind p + 6 ≤ length p
  pub icmp : byte p 23 ≡ 1 → behind p + icmp_needs (byte p (behind p)) ≤ length p
