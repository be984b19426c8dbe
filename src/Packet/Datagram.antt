-- ===== src/Packet/Datagram.antt =====
-- src/sender.c and src/receiver.c: the buffer that send_packet and send_ack pass to pkt_encode, and
-- what they pass to send().
use lingi1341_projet.Prelude.{
  ℕ, ◌+◌, Option, none, some, List, ◌==◌, if◌then◌else◌, take, replicate,
}
use lingi1341_projet.Packet.Fields.{pkt_ok, Pkt}
use lingi1341_projet.Packet.Encode.{Encoded}

-- The size of the buffer, and its contents, of which pkt_encode overwrites every byte.
abbrev pub buffer_size : Pkt → ℕ
buffer_size pkt = if pkt.length == 0 then 12 else 12 + pkt.length + 4

abbrev pub fresh_buffer : Pkt → List ℕ
fresh_buffer pkt = replicate (buffer_size pkt) 0

-- The datagram that pkt_encode wrote, if it succeeded.
abbrev pub datagram : Encoded → Option (List ℕ)
datagram (pkt_ok, some buf, n) = some (take n buf)
datagram _ = none
