-- ===== src/SocketUtils/Tests.antt =====
-- The clock, the affinity, the packet header and a message at work: a counter of 10 MHz, two groups of
-- uneven size, a header of which 17 bytes arrive, and a text that ends with CR and LF.
use win_udpsharded_echo.Prelude.{ℕ, Text, ◌^◌, ◌≡◌, List, [], ◌∷◌, true, arith, take}
use win_udpsharded_echo.SocketUtils.Io.{overwrite}
use win_udpsharded_echo.SocketUtils.Packet.{
  PacketHeader, put_header, get_header, get_header-put_header,
}
use win_udpsharded_echo.SocketUtils.Affinity.{
  pinned, set_thread_affinity, IsAt, set_thread_affinity_pins,
}

set_thread_affinity_pins_example :
    (g : ℕ) × (i : ℕ) × (set_thread_affinity (4 ∷ 2 ∷ []) true 5
      ≡ pinned (record { group = g; mask = 2 ^ i }))
    × IsAt (4 ∷ 2 ∷ []) 5 g i
set_thread_affinity_pins_example =
    set_thread_affinity_pins (4 ∷ 2 ∷ []) 5 (omega arith, (omega arith, tt)) (omega arith)

abbrev header : PacketHeader
header = record { sequence_number = 258; timestamp_ns = 7 }

abbrev blank : List ℕ
blank = 9 ∷ 9 ∷ 9 ∷ 9 ∷ 9 ∷ 9 ∷ 9 ∷ 9 ∷ 9 ∷ 9 ∷ 9 ∷ 9 ∷ 9 ∷ 9 ∷ 9 ∷ 9 ∷ 9 ∷ 9 ∷ []

get_header-put_header_example :
    get_header (overwrite (take 17 (put_header header blank)) blank) ≡ header
get_header-put_header_example =
    get_header-put_header header 17 blank blank (omega arith, omega arith) (omega arith)
      (omega arith) (omega arith)

abbrev message : Text
message = 79 ∷ 10 ∷ 107 ∷ 13 ∷ 10 ∷ []
