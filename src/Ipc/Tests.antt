-- ===== src/Ipc/Tests.antt =====
-- src/ipc_client.cpp, run on a stream that is cut in the middle of its lines.
use native.Mathlib.Omega.{arith}
use framewire.Prelude.{◌≡◌, ◌↔◌, refl, true, false, List, [], ◌∷◌, ◌++◌, some}
use framewire.Prelude.Chars.{Bytes, codes}
use framewire.Ipc.{
  MpvIpcClient, closed_client, Wake, received, would_block, recv_interrupted, poll_line, accepted,
  writable_again, send_failed, Sent, send_raw, find_byte,
}
use framewire.Ipc.Lines.{lines, bytes_received, Scanned}
use framewire.Ipc.Framing.{poll_lines, poll_lines-lines, Idle, poll_line-Idle}
use framewire.Ipc.Sending.{send_raw-Ends}

abbrev client : MpvIpcClient
client = record closed_client { connected = true; read_buffer = codes "ab"; scan_from = 2 }

abbrev wakes : List Wake
wakes =
    received (codes "c") false
    ∷ recv_interrupted
    ∷ received (codes "\nde\nf") false
    ∷ would_block true
    ∷ received (codes "\n") true
    ∷ []

two_lines : (poll_lines 2 client wakes).0 ≡ codes "abc" ∷ codes "de" ∷ []
unfolding poll_lines
two_lines = refl

client-Scanned : Scanned client
unfolding find_byte
client-Scanned = (omega arith, refl)

poll_lines-lines_example :
    lines (codes "ab" ++ bytes_received wakes)
    ≡ (poll_lines 3 client wakes).0
      ++ lines (
          (poll_lines 3 client wakes).1.0.read_buffer
          ++ bytes_received (poll_lines 3 client wakes).1.1)
poll_lines-lines_example = poll_lines-lines 3 client wakes client-Scanned

poll_line-Idle_example : Idle (poll_line client (received (codes "c") true ∷ []))
poll_line-Idle_example = poll_line-Idle client (received (codes "c") true ∷ []) refl client-Scanned

abbrev answers : List Sent
answers = accepted 2 ∷ writable_again ∷ accepted 1 ∷ send_failed ∷ []

send_raw-Ends_example :
    (rest : Bytes) × (codes "abcd" ≡ (send_raw client (codes "abcd") answers).1 ++ rest)
    × (((send_raw client (codes "abcd") answers).0 ≡ some true) ↔ (rest ≡ []))
send_raw-Ends_example = send_raw-Ends client (codes "abcd") answers refl
